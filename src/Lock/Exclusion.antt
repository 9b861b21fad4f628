-- ===== src/Lock/Exclusion.antt =====
-- At most one processor holds the lock.
use oh_my_os.Base.{
  ℕ, ◌≤◌, ◌≡◌, ◌≢◌, ◌∙◌, ◌⊎◌, inl, inr, refl, sym, ap, if◌then◌else◌, arith, eq→==, ne→==,
}
use native.Mathlib.Decide.{ℕ_discrete}
use oh_my_os.Lock.{
  Pc, holding, System, at, spinlock_init, Move, call, see_free, see_taken, give_up, win, lose,
  spin_unlock, Step, step, Reach, start, later,
}

-- The counter is 0 or 1; a holder makes it 1, there is one holder at most, and 1 means that some
-- processor holds the lock.
pub record IsConsistent (s : System) : Type 0 where
  pub bit : s.counter ≤ 1
  pub held : (i : ℕ) → s.pc i ≡ holding → s.counter ≡ 1
  pub unique : (i j : ℕ) → s.pc i ≡ holding → s.pc j ≡ holding → i ≡ j
  pub owned : s.counter ≡ 1 → (i : ℕ) × (s.pc i ≡ holding)

-- What a move does to the counter and to who holds the lock.
data Effect : ℕ → Pc → ℕ → Pc → Type 0 where
  takes : {c d : ℕ} {p p' : Pc} → c ≡ 0 → d ≡ 1 → p' ≡ holding → Effect c p d p'
  releases : {c d : ℕ} {p p' : Pc} → d ≡ 0 → p ≡ holding → p' ≢ holding → Effect c p d p'
  waits : {c d : ℕ} {p p' : Pc} → d ≡ c → p ≢ holding → p' ≢ holding → Effect c p d p'

Move-Effect : {c d : ℕ} {p p' : Pc} → Move c p d p' → Effect c p d p'
Move-Effect call = waits refl (λ e. cc) (λ e. cc)
Move-Effect (see_free z) = waits refl (λ e. cc) (λ e. cc)
Move-Effect (see_taken nz lt) = waits refl (λ e. cc) (λ e. cc)
Move-Effect (give_up nz le) = waits refl (λ e. cc) (λ e. cc)
Move-Effect (win z e) = takes z e refl
Move-Effect (lose nz) = waits refl (λ e. cc) (λ e. cc)
Move-Effect (spin_unlock e) = releases e refl (λ e. cc)

-- The place of a processor after a move of the processor `i`.
at_cases :
    (pc : ℕ → Pc) (i j : ℕ) (p : Pc)
    → ((j ≡ i) × (at pc i p j ≡ p)) ⊎ ((j ≢ i) × (at pc i p j ≡ pc j))
at_cases pc i j p = elim (ℕ_discrete j i) [
  | yes e ↦ inl (e, rw (eq→== j i e) refl)
  | no ne ↦ inr (ne, rw (ne→== j i ne) refl)
]

module _ (s : System) (c : IsConsistent s) (i d : ℕ) (p : Pc) where
  takes-IsConsistent :
      s.counter ≡ 0 → d ≡ 1 → p ≡ holding → IsConsistent (record { counter = d; pc = at s.pc i p })
  takes-IsConsistent z e h =
      let free : (j : ℕ) → s.pc j ≢ holding = λ j r. absurd (omega (arith, z, c.held j r)) in
      let only : (j : ℕ) → at s.pc i p j ≡ holding → j ≡ i = λ j r. elim (at_cases s.pc i j p) [
        | inl (same, _) ↦ same
        | inr (_, old) ↦ absurd (free j (sym old ∙ r))
      ] in
      record {
        bit = omega (arith, e);
        held = λ j r. e;
        unique = λ j k r q. only j r ∙ sym (only k q);
        owned = λ _. (i, ap (λ t. if t then p else s.pc i) (eq→== i i refl) ∙ h);
      }

  -- A processor that does not hold the lock behind the move is not the new holder.
  still : (j : ℕ) → p ≢ holding → at s.pc i p j ≡ holding → (j ≢ i) × (s.pc j ≡ holding)
  still j np r = elim (at_cases s.pc i j p) [
    | inl (_, new) ↦ absurd (np (sym new ∙ r))
    | inr (ne, old) ↦ (ne, sym old ∙ r)
  ]

  releases-IsConsistent :
      d ≡ 0
      → s.pc i ≡ holding
      → p ≢ holding
      → IsConsistent (record { counter = d; pc = at s.pc i p })
  releases-IsConsistent z h np =
      let nobody : (j : ℕ) → at s.pc i p j ≢ holding =
        λ j r. let (ne, old) = still j np r in ne (c.unique j i old h) in
      record {
        bit = omega (arith, z);
        held = λ j r. absurd (nobody j r);
        unique = λ j k r q. absurd (nobody j r);
        owned = λ e. absurd (omega (arith, z, e));
      }

  waits-IsConsistent :
      d ≡ s.counter
      → s.pc i ≢ holding
      → p ≢ holding
      → IsConsistent (record { counter = d; pc = at s.pc i p })
  waits-IsConsistent e ni np = record {
    bit = omega (arith, e, c.bit);
    held = λ j r. e ∙ c.held j (still j np r).1;
    unique = λ j k r q. c.unique j k (still j np r).1 (still k np q).1;
    owned = λ one.
        let (k, h) = c.owned (sym e ∙ one) in
        (
          k,
          ap (λ t. if t then p else s.pc k) (ne→== k i (λ same. ni (ap s.pc (sym same) ∙ h))) ∙ h,
        );
  }

  Effect-IsConsistent :
      Effect s.counter (s.pc i) d p → IsConsistent (record { counter = d; pc = at s.pc i p })
  Effect-IsConsistent (takes z e h) = takes-IsConsistent z e h
  Effect-IsConsistent (releases z h np) = releases-IsConsistent z h np
  Effect-IsConsistent (waits e ni np) = waits-IsConsistent e ni np

Step-IsConsistent : {s t : System} → Step s t → IsConsistent s → IsConsistent t
Step-IsConsistent {s} (step i {d} {p} mv) c = Effect-IsConsistent s c i d p (Move-Effect mv)

spinlock_init-IsConsistent : IsConsistent spinlock_init
spinlock_init-IsConsistent = record {
  bit = omega arith;
  held = λ i e. cc;
  unique = λ i j e f. cc;
  owned = λ e. absurd (omega (arith, e));
}

-- In every state that processors reach from a fresh lock, whatever the order of their accesses, the
-- counter is 0 or 1, it is 1 exactly if some processor holds the lock, and no two processors hold it.
pub Reach-IsConsistent : {s : System} → Reach s → IsConsistent s
Reach-IsConsistent start = spinlock_init-IsConsistent
Reach-IsConsistent (later r st) = Step-IsConsistent st (Reach-IsConsistent r)
