-- ===== src/Vmalloc/Start.antt =====
-- `vmalloc_init` and `find_vma` of mm/vmalloc.c.
use oh_my_os.Base.{
  ℕ, ◌+◌, ◌-◌, ◌*◌, ◌/◌, ◌^◌, ◌<◌, ◌≤◌, ◌≡◌, inl, inr, ◌∙◌, sym, ap, refl, subst, arith, true,
  false, not, ◌||◌, Bool-cases, ltb, Option, none, some, List, [], ◌∷◌, ◌==◌, if◌then◌else◌, sub32,
  update, update_ne, update_self,
}
use oh_my_os.RbTree.{rb_tree_search, rb_node_value}
use oh_my_os.RbTree.Shape.{leaf}
use oh_my_os.RbTree.Turn.{one, one_self}
use oh_my_os.RbTree.Order.{occurs, occurs_cons}
use oh_my_os.RbTree.Color.{true-false}
use oh_my_os.RbTree.Validate.{rb_tree_create}
use oh_my_os.RbTree.Insert.Correct.{rb_tree_create-IsRbTree}
use oh_my_os.Bits.{ilog2_rounddown}
use oh_my_os.Bits.Power.{ilog2_rounddown_greatest}
use oh_my_os.Vmalloc.{page_size, vmalloc_start, vmalloc_end, Vmas, lock, find_vma, vmalloc_init}
use oh_my_os.Vmalloc.Areas.{Listed, IsVmalloc}
use native.Mathlib.Decide.{ℕ_discrete}

at_most_one : (z v : ℕ) → one z v + 0 ≤ 1
at_most_one z v = ground arith

module _ (v : ℕ) (s : Vmas) where
  abbrev order : ℕ
  order = ilog2_rounddown (sub32 vmalloc_end vmalloc_start / page_size)

  abbrev lists : ℕ → List ℕ
  lists = update (λ _. []) order (v ∷ [])

  abbrev pub started : Vmas
  started = record {
    start = update s.start v vmalloc_start;
    end = update s.end v vmalloc_end;
    free = update s.free v true;
    vma_list = v ∷ [];
    free_vma_lists = lists;
    vma_tree = rb_tree_create s.vma_tree;
    locked = false;
  }

  its_start : started.start v ≡ vmalloc_start
  its_start = update_self s.start v vmalloc_start

  its_end : started.end v ≡ vmalloc_end
  its_end = update_self s.end v vmalloc_end

  in_list : (i z : ℕ) → 0 < occurs z (lists i) → (i ≡ order) × (z ≡ v)
  in_list i z h = elim (ℕ_discrete i order) [
    | yes e ↦ (
      e,
      elim (occurs_cons z v [] (
          subst (λ (xs : List ℕ). 0 < occurs z xs)
            (ap lists e ∙ update_self (λ _. []) order (v ∷ [])) h)) [
              | inl q ↦ q
              | inr r ↦ absurd (omega (arith, r))
            ],
    )
    | no ne ↦ absurd (
        omega (
          arith,
          subst (λ (xs : List ℕ). 0 < occurs z xs) (update_ne (λ _. []) order (v ∷ []) i ne) h,
        ))
  ]

  started_once : (i z : ℕ) → occurs z (lists i) ≤ 1
  started_once i z = elim (ℕ_discrete i order) [
    | yes e ↦ rw (ap lists e ∙ update_self (λ _. []) order (v ∷ [])) (at_most_one z v)
    | no ne ↦ rw (update_ne (λ _. []) order (v ∷ []) i ne) (omega arith)
  ]

  started-Listed : Listed started (λ _. Unit)
  started-Listed i z _ h =
      let (e, q) = in_list i z h in
      let (low, _) =
        ilog2_rounddown_greatest (sub32 vmalloc_end vmalloc_start / page_size) (omega arith)
          (omega arith) in
      subst
        (λ w.
          (0 < occurs w (v ∷ []))
          × (started.free w ≡ true)
          × (2 ^ i * page_size ≤ started.end w - started.start w))
        (sym q)
        (
          omega (arith, one_self v),
          update_self s.free v true,
          omega (arith, low, ap (λ o. 2 ^ o) e, its_start, its_end),
        )

  started-stored : (z : ℕ) → 0 < occurs z (v ∷ []) → started.free z ≡ false → z ≡ v → ⊥
  started-stored z h e q =
      true-false (sym (update_self s.free v true) ∙ ap started.free (sym q) ∙ e)

  pub started-IsVmalloc : IsVmalloc started leaf
  started-IsVmalloc = record {
    mapped = record {
      tiles = (its_start, omega (arith, its_end), omega (arith, its_end), its_end);
      once = λ z. at_most_one z v;
      listed_once = started_once;
      tree = rb_tree_create-IsRbTree s.vma_tree;
      used = λ n i. absurd (omega (arith, i));
      stored = λ z i e. elim (occurs_cons z v [] i) [
        | inl q ↦ absurd (started-stored z i e q)
        | inr r ↦ absurd (omega (arith, r))
      ];
    };
    listed = started-Listed;
    unlocked = refl;
  }

-- `vmalloc_init` leaves one free area that covers all addresses from VMALLOC_START to VMALLOC_END, in the
-- free list of its order, and an empty tree.
pub vmalloc_init-IsVmalloc :
    (v : ℕ) (s : Vmas)
    → (s' : Vmas) × (vmalloc_init (some v) s ≡ some s')
      × IsVmalloc s' leaf
      × (s'.vma_list ≡ v ∷ [])
      × (s'.start v ≡ vmalloc_start)
      × (s'.end v ≡ vmalloc_end)
      × (s'.free v ≡ true)
unfolding vmalloc_init
vmalloc_init-IsVmalloc v s = (
  started v s,
  refl,
  started-IsVmalloc v s,
  refl,
  its_start v s,
  its_end v s,
  update_self s.free v true,
)

lock_held : (s : Vmas) → s.locked ≡ true → lock s ≡ none
unfolding lock
lock_held s e = ap (λ l. if l then none else some (record s { locked = true })) e

lock_takes : (s : Vmas) → s.locked ≡ false → lock s ≡ some (record s { locked = true })
unfolding lock
lock_takes s e = ap (λ l. if l then none else some (record s { locked = true })) e

waits :
    (fuel va : ℕ) (s s₁ : Vmas) (r : Option ℕ)
    → lock s ≡ some s₁
    → lock s₁ ≡ none
    → rb_tree_search fuel s₁.vma_tree va ≡ r
    → find_vma fuel va s ≡ none
unfolding find_vma
waits fuel va s s₁ none e again found =
    elim (Bool-cases (ltb va vmalloc_start || not (ltb va vmalloc_end))) [
      | inl out ↦ rw (out, find_vma) refl
      | inr within ↦ rw (within, find_vma, e, find_vma, found) refl
    ]
waits fuel va s s₁ (some n) e again found =
    elim (Bool-cases (ltb va vmalloc_start || not (ltb va vmalloc_end))) [
      | inl out ↦ rw (out, find_vma) refl
      | inr within ↦
          rw (within, find_vma, e, find_vma, found, find_vma)
            (elim (Bool-cases (n == 0 || rb_node_value n s₁.vma_tree == 0)) [
              | inl nothing ↦ rw (nothing) refl
              | inr something ↦ rw (something, again) refl
            ])
    ]

-- `find_vma` takes its lock twice and never gives it back: for no address, and with no fuel, does it return.
pub find_vma_halts : (fuel va : ℕ) (s : Vmas) → find_vma fuel va s ≡ none
unfolding find_vma
find_vma_halts fuel va s = elim (Bool-cases s.locked) [
  | inl held ↦ elim (Bool-cases (ltb va vmalloc_start || not (ltb va vmalloc_end))) [
    | inl out ↦ rw (out, find_vma) refl
    | inr within ↦ rw (within, find_vma, lock_held s held) refl
  ]
  | inr open_lock ↦
      waits fuel va s (record s { locked = true }) (rb_tree_search fuel s.vma_tree va)
        (lock_takes s open_lock) (lock_held (record s { locked = true }) refl) refl
]
