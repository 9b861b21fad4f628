-- ===== src/Timer/Scan.antt =====
-- What the interrupt handler does beside counting.
use oh_my_os.Base.{
  ℕ, zero, suc, ◌+◌, ◌^◌, ◌<◌, ◌≡◌, ◌≢◌, ◌⊎◌, ◌∙◌, refl, sym, ap, true, eq→==, inl, inr, none, some,
  List, [], ◌∷◌, false, ◌==◌, ne→==, arith,
}
use oh_my_os.Links.{Links}
use oh_my_os.Links.Ring.{Chain, NotIn, IsRing}
use oh_my_os.Timer.{Time, scan, count_tick, timer_irq_handler}
use oh_my_os.Timer.Clock.{InStep, count_tick-InStep, count_tick_wraps}

-- `y` is one of the nodes `xs`.
abbrev In : ℕ → List ℕ → Type 0
In y [] = ⊥
In y (x ∷ xs) = (y ≡ x) ⊎ In y xs

-- The link of a node of a chain leads to its next node, or to its end.
Chain-next :
    (s : Links) (p q y : ℕ) (xs : List ℕ)
    → Chain s p xs q
    → In y (p ∷ xs)
    → In (s.next y) xs ⊎ (s.next y ≡ q)
Chain-next s p q y [] (e, _) (inl r) = inr (ap s.next r ∙ e)
Chain-next s p q y [] _ (inr i) = absurd i
Chain-next s p q y (x ∷ xs) (e, _, c) (inl r) = inl (inl (ap s.next r ∙ e))
Chain-next s p q y (x ∷ xs) (e, _, c) (inr i) = elim (Chain-next s x q y xs c i) [
  | inl i' ↦ inl (inr i')
  | inr r ↦ inr r
]

In-ne : (y a : ℕ) (xs : List ℕ) → NotIn a xs → In y xs → y ≢ a
In-ne y a [] h i = absurd i
In-ne y a (x ∷ xs) (h, _) (inl e) = λ r. h (sym e ∙ r)
In-ne y a (x ∷ xs) (_, h) (inr i) = In-ne y a xs h i

ring_next :
    (s : Links) (head node : ℕ) (xs : List ℕ)
    → IsRing s head xs
    → In node (head ∷ xs)
    → In (s.next node) (head ∷ xs)
ring_next s head node xs ring i = elim (Chain-next s head head node xs ring.chain i) [
  | inl i' ↦ inr i'
  | inr r ↦ inl r
]

scan_never :
    (fuel : ℕ) (s : Links) (expired : ℕ → Time) (t : Time) (head node : ℕ) (xs : List ℕ)
    → IsRing s head xs
    → NotIn 0 (head ∷ xs)
    → In node (head ∷ xs)
    → scan fuel s expired t node ≡ none
unfolding scan
scan_never zero s expired t head node xs ring nz i = refl
scan_never (suc f) s expired t head node xs ring nz i =
    let next = ring_next s head node xs ring i in
    rw (ne→== node 0 (In-ne node 0 (head ∷ xs) nz i), scan)
      (rw (scan_never f s expired t head (s.next node) xs ring nz next) refl)

-- While the count of ticks does not wrap, the handler moves the time on by 10 ms, which stays in step
-- with the ticks, and neither wakes a thread nor calls `schedule`, whatever timers have expired.
pub timer_irq_handler-count_tick :
    (fuel : ℕ) (s : Links) (expired : ℕ → Time) (head : ℕ) (t : Time)
    → InStep t
    → t.ticks + 1 < 2 ^ 32
    → (timer_irq_handler fuel s expired head t ≡ some (count_tick t, [], false))
      × InStep (count_tick t)
unfolding timer_irq_handler
timer_irq_handler-count_tick fuel s expired head t step lt =
    let (step', e) = count_tick-InStep t step lt in
    let nz : ((count_tick t).ticks == 0) ≡ false =
      ne→== (count_tick t).ticks 0 (omega (arith, e)) in
    (rw nz refl, step')

-- When the count of ticks wraps, and the timers form a ring of nodes none of which is at address 0,
-- the handler does not come to an end: no fuel is enough for its loop, which waits for NULL.
pub timer_irq_handler_hangs :
    (s : Links) (expired : ℕ → Time) (head : ℕ) (xs : List ℕ) (t : Time)
    → IsRing s head xs
    → NotIn 0 (head ∷ xs)
    → t.ticks + 1 ≡ 2 ^ 32
    → (fuel : ℕ) → timer_irq_handler fuel s expired head t ≡ none
unfolding timer_irq_handler
timer_irq_handler_hangs s expired head xs t ring nz wrap fuel =
    let first : In (s.next head) (head ∷ xs) = ring_next s head head xs ring (inl refl) in
    let z : ((count_tick t).ticks == 0) ≡ true =
      eq→== (count_tick t).ticks 0 (count_tick_wraps t wrap) in
    rw z (rw (scan_never fuel s expired (count_tick t) head (s.next head) xs ring nz first) refl)
