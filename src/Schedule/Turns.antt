-- ===== src/Schedule/Turns.antt =====
-- Whose turn it is.
use oh_my_os.Base.{
  ℕ, zero, suc, ◌≡◌, ◌≢◌, ◌∙◌, sym, ap, refl, subst, inl, inr, Bool-cases, true, false, List, [],
  ◌∷◌, ◌++◌, append_assoc, length, ◌==◌, ne→==, update, update_ne, update_self,
}
use oh_my_os.Links.{Links, list_remove, list_empty}
use oh_my_os.Links.Ring.{IsRing, NotIn, list_insert_before-IsRing}
use oh_my_os.Links.Remove.{list_remove-IsRing}
use oh_my_os.Schedule.{Sched, thread_runnable, thread_running, has_exited, switch, schedule}
use native.Mathlib.Decide.{ℕ_discrete}

-- The run queue holds the threads `xs`, and the current thread is none of them.
pub record IsQueue (head : ℕ) (s : Sched) (xs : List ℕ) : Type 0 where
  pub ring : IsRing s.queue head xs
  pub running : NotIn s.current (head ∷ xs)

first_node :
    (links : Links) (head x : ℕ) (xs : List ℕ) → IsRing links head (x ∷ xs) → links.next head ≡ x
first_node links head x xs ring = ring.chain.0

first_ne : (links : Links) (head x : ℕ) (xs : List ℕ) → IsRing links head (x ∷ xs) → x ≢ head
first_ne links head x xs ring = ring.distinct.0.0

-- With a thread in the queue, `schedule` comes to its switch.
schedule-switch :
    (head x : ℕ) (xs : List ℕ) (s : Sched)
    → IsQueue head s (x ∷ xs)
    → schedule head s ≡ switch head x s
unfolding schedule list_empty
schedule-switch head x xs s q =
    let e = first_node s.queue head x xs q.ring in
    let here : (s.queue.next head == head) ≡ false =
      ne→== (s.queue.next head) head (λ r. first_ne s.queue head x xs q.ring (sym e ∙ r)) in
    let other : (s.current == s.queue.next head) ≡ false =
      ne→== s.current (s.queue.next head) (λ r. q.running.1.0 (sym (r ∙ e))) in
    rw (here, other) (ap (λ n. switch head n s) e)

-- What a call of `schedule` leaves of a queue with the first thread `x`.
pub record Switched (head x : ℕ) (xs : List ℕ) (s s' : Sched) : Type 0 where
  pub turn : s'.current ≡ x
  pub alive :
      has_exited (s.state s.current) ≡ false
      → IsQueue head s' (xs ++ s.current ∷ [])
        × (s'.state x ≡ thread_running)
        × (s'.state s.current ≡ thread_runnable)
        × ((t : ℕ) → t ≢ x → t ≢ s.current → s'.state t ≡ s.state t)
  pub gone : has_exited (s.state s.current) ≡ true → IsQueue head s' xs × (s'.state ≡ s.state)

snoc_running : (x n : ℕ) (xs : List ℕ) → NotIn x xs → n ≢ x → NotIn x (xs ++ n ∷ [])
snoc_running x n [] h ne = (ne, tt)
snoc_running x n (y ∷ ys) (yx, h) ne = (yx, snoc_running x n ys h ne)

module _ (head x : ℕ) (xs : List ℕ) (s : Sched) (q : IsQueue head s (x ∷ xs)) where
  removed : IsRing (list_remove x s.queue) head xs
  removed = list_remove-IsRing s.queue head x [] xs q.ring

  head_ne : head ≢ x
  head_ne e = first_ne s.queue head x xs q.ring (sym e)

  left_queue : NotIn x (head ∷ xs)
  left_queue = (head_ne, q.ring.distinct.1.0)

  prev_ne : s.current ≢ x
  prev_ne e = q.running.1.0 (sym e)

  switch-alive :
      has_exited (s.state s.current) ≡ false
      → IsQueue head (switch head x s) (xs ++ s.current ∷ [])
        × ((switch head x s).state x ≡ thread_running)
        × ((switch head x s).state s.current ≡ thread_runnable)
        × ((t : ℕ) → t ≢ x → t ≢ s.current → (switch head x s).state t ≡ s.state t)
  unfolding switch
  switch-alive live = rw live (
    record {
      ring =
          list_insert_before-IsRing (list_remove x s.queue) head s.current xs removed
            (q.running.0, q.running.1.1);
      running = (head_ne, snoc_running x s.current xs left_queue.1 prev_ne);
    },
    update_self (update s.state s.current thread_runnable) x thread_running,
    update_ne (update s.state s.current thread_runnable) x thread_running s.current prev_ne
        ∙ update_self s.state s.current thread_runnable,
    λ t tx tp.
        update_ne (update s.state s.current thread_runnable) x thread_running t tx
        ∙ update_ne s.state s.current thread_runnable t tp,
  )

  switch-gone :
      has_exited (s.state s.current) ≡ true
      → IsQueue head (switch head x s) xs × ((switch head x s).state ≡ s.state)
  unfolding switch
  switch-gone dead = rw dead (record { ring = removed; running = left_queue }, refl)

  switch-turn : (switch head x s).current ≡ x
  unfolding switch
  switch-turn = elim (Bool-cases (has_exited (s.state s.current))) [
    | inl e ↦ rw e refl
    | inr e ↦ rw e refl
  ]

-- With a thread in the queue, `schedule` makes the first one the current one. Unless the caller has
-- exited, it comes last in the queue and is runnable, whatever its state was, the new thread is
-- running, and no other state changes; if it has exited, it is in the queue no more, and no state changes.
pub schedule-Switched :
    (head x : ℕ) (xs : List ℕ) (s : Sched)
    → IsQueue head s (x ∷ xs)
    → Switched head x xs s (schedule head s)
schedule-Switched head x xs s q =
    subst (Switched head x xs s) (sym (schedule-switch head x xs s q)) record {
      turn = switch-turn head x xs s q;
      alive = switch-alive head x xs s q;
      gone = switch-gone head x xs s q;
    }

-- `n` calls of `schedule`, each by the thread that is current then
abbrev pub turns : ℕ → ℕ → Sched → Sched
turns head zero s = s
turns head (suc n) s = turns head n (schedule head s)

abbrev pub NoneExited : Sched → Type 0
NoneExited s = (t : ℕ) → has_exited (s.state t) ≡ false

Switched-NoneExited :
    (head x : ℕ) (xs : List ℕ) (s s' : Sched)
    → Switched head x xs s s'
    → NoneExited s
    → NoneExited s'
Switched-NoneExited head x xs s s' sw none_gone t =
    let (_, new, old, others) = sw.alive (none_gone s.current) in
    elim (ℕ_discrete t x) [
      | yes e ↦ ap (λ u. has_exited (s'.state u)) e ∙ ap has_exited new
      | no tx ↦ elim (ℕ_discrete t s.current) [
        | yes e ↦ ap (λ u. has_exited (s'.state u)) e ∙ ap has_exited old
        | no tp ↦ ap has_exited (others t tx tp) ∙ none_gone t
      ]
    ]

-- No thread waits for ever: while no thread has exited, the thread that has `n` others in front of it in
-- the queue is the current one after `n + 1` calls of `schedule`.
pub turns_lem :
    (head x : ℕ) (before after : List ℕ) (s : Sched)
    → IsQueue head s (before ++ x ∷ after)
    → NoneExited s
    → (turns head (suc (length before)) s).current ≡ x
turns_lem head x [] after s q none_gone = (schedule-Switched head x after s q).turn
turns_lem head x (y ∷ before) after s q none_gone =
    let sw = schedule-Switched head y (before ++ x ∷ after) s q in
    let (q', _, _, _) = sw.alive (none_gone s.current) in
    turns_lem head x before (after ++ s.current ∷ []) (schedule head s)
      (subst (IsQueue head (schedule head s)) (append_assoc before (x ∷ after) (s.current ∷ [])) q')
      (Switched-NoneExited head y (before ++ x ∷ after) s (schedule head s) sw none_gone)
