-- ===== src/Random/Cycle.antt =====
-- The range of the numbers, and that the generator forgets no state.
use oh_my_os.Base.{ℕ, ◌+◌, ◌-◌, ◌*◌, ◌%◌, ◌^◌, ◌≤◌, ◌<◌, ◌≡◌, ◌∙◌, sym, ap, arith}
use oh_my_os.Random.{rand_max, next_state, rand}

-- the state before, by the inverse of the multiplier modulo 2 ^ 48
previous : ℕ → ℕ
previous next = (next + (2 ^ 48 - 0xB)) * 246154705703781 % 2 ^ 48

previous-next_state : (next : ℕ) → next < 2 ^ 48 → previous (next_state next) ≡ next
unfolding previous next_state
previous-next_state next h = omega arith

next_state_lt : (next : ℕ) → next_state next < 2 ^ 48
unfolding next_state
next_state_lt next = omega arith

-- `rand` answers a number up to RAND_MAX and keeps its state below 2 ^ 48; and two states below 2 ^ 48
-- that it takes to the same state are the same, so that from each of them on it runs through a cycle.
pub rand_lem :
    (m n : ℕ)
    → m < 2 ^ 48
    → n < 2 ^ 48
    → ((rand m).0 ≤ rand_max) × ((rand m).1 < 2 ^ 48) × ((rand m).1 ≡ (rand n).1 → m ≡ n)
unfolding rand
rand_lem m n hm hn =
    let bounded : next_state m < 2 ^ 48 = next_state_lt m in
    (
      omega arith,
      bounded,
      λ e. sym (previous-next_state m hm) ∙ ap previous e ∙ previous-next_state n hn,
    )
