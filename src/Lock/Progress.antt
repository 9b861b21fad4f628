-- ===== src/Lock/Progress.antt =====
-- A processor that waits can go on once the lock is free.
use oh_my_os.Base.{ℕ, ◌≡◌, ◌⊎◌, inl, inr, refl, sym, subst, arith, eq→==}
use oh_my_os.Lock.{Pc, testing, trying, holding, System, at, Move, see_free, win, Reach}
use oh_my_os.Lock.Exclusion.{Reach-IsConsistent}
use native.Mathlib.Decide.{ℕ_discrete}

-- The accesses of one processor, one after the other.
pub data Alone (i : ℕ) (s : System) : System → Type 0 where
  here : Alone i s s
  then_step :
      {t : System} (d : ℕ) (p : Pc)
      → Alone i s t
      → Move t.counter (t.pc i) d p
      → Alone i s (record { counter = d; pc = at t.pc i p })

at_self : (pc : ℕ → Pc) (i : ℕ) (p : Pc) → at pc i p i ≡ p
at_self pc i p = rw (eq→== i i refl) refl

-- Once the lock is free, `cmpxchg` takes it.
trying-wins :
    (s t : System) (i n : ℕ)
    → Alone i s t
    → t.counter ≡ 0
    → t.pc i ≡ trying n
    → (u : System) × Alone i s u × (u.pc i ≡ holding)
trying-wins s t i n a z e = (
  record { counter = 1; pc = at t.pc i holding },
  then_step 1 holding a (subst (λ q. Move t.counter q 1 holding) (sym e) (win z refl)),
  at_self t.pc i holding,
)

-- No deadlock: in every state that processors reach from a fresh lock, where a processor waits in
-- `spin_lock`, some processor holds the lock, or the waiting one takes it by its own next accesses.
pub spin_lock_no_deadlock :
    {s : System} (i n : ℕ)
    → Reach s
    → (s.pc i ≡ testing n) ⊎ (s.pc i ≡ trying n)
    → ((j : ℕ) × (s.pc j ≡ holding)) ⊎ ((t : System) × Alone i s t × (t.pc i ≡ holding))
spin_lock_no_deadlock {s} i n r waiting =
    let c = Reach-IsConsistent r in
    elim (ℕ_discrete s.counter 0) [
      | no taken ↦ inl (c.owned (omega (arith, taken, c.bit)))
      | yes free ↦ inr (elim waiting [
        | inr e ↦ trying-wins s s i n here free e
        | inl e ↦
            let t : System = record { counter = s.counter; pc = at s.pc i (trying n) } in
            trying-wins s t i n
              (then_step s.counter (trying n) here
                (subst (λ q. Move s.counter q s.counter (trying n)) (sym e) (see_free free)))
              free (at_self s.pc i (trying n))
      ])
    ]
