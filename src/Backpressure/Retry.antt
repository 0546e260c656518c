-- ===== src/Backpressure/Retry.antt =====
-- The delay that the gate of sdk-python/intermesh/backpressure.py tells a refused sender to wait.
use intermesh.Prelude.{
  ℕ, ◌+◌, ◌-◌, ◌*◌, ◌/◌, ◌%◌, ◌≤◌, ◌≡◌, false, none, arith, leb, nat_beq, if◌then◌else◌, refl,
}
use native.Mathlib.Nat.{div-add-mod', mod-lt}
use intermesh.Prelude.Int.{ℤ, pos, pos_part, neg_part, ◌+ℤ◌, ◌-ℤ◌, ltb_ℤ, +ℤ_parts, -ℤ_parts}
use intermesh.Backpressure.{
  BackpressureGate, min_ℤ, refill, round_half_even, retry_after, take_token,
}

round_up : (a b : ℕ) → a / b ≤ round_half_even a b
unfolding round_half_even
round_up a b = ground arith

enough_steps : (q r n b : ℕ) → q ≤ n → r ≤ b → q * b + r ≤ (n + 1) * b
enough_steps q r n b h k = let d = n - q in let e : n ≡ q + d = omega arith in rw e (grind arith)

covers : (a b n : ℕ) → 1 ≤ b → a / b ≤ n → a ≤ (n + 1) * b
covers a b n h k =
    let split = div-add-mod' a b in
    let small = mod-lt a h in
    let steps = enough_steps (a / b) (a % b) n b k (omega arith) in omega arith

retry_after_least :
    (g : BackpressureGate)
    → 1 ≤ g.limits.max_tasks_per_sec
    → round_half_even (pos_part (pos 1000 -ℤ g.tokens)) g.limits.max_tasks_per_sec ≤ retry_after g
unfolding retry_after
retry_after_least g h = least g.limits.max_tasks_per_sec _ h
  where
    least : (r n : ℕ) → 1 ≤ r → n ≤ (if nat_beq r 0 then 1000 else if leb n 1 then 1 else n)
    least r n h = ground arith

reached :
    (c t : ℤ) (d : ℕ)
    → pos_part (pos 1000 -ℤ t) ≤ d
    → 1000 ≤ pos_part c
    → neg_part c ≡ 0
    → ltb_ℤ (min_ℤ c (t +ℤ pos d)) (pos 1000) ≡ false
unfolding min_ℤ
reached c t d h k l = ground (arith, +ℤ_parts t (pos d), -ℤ_parts (pos 1000) t)

take_token_accepts :
    (in_flight queue_depth : ℕ) (g : BackpressureGate)
    → ltb_ℤ g.tokens (pos 1000) ≡ false
    → (take_token in_flight queue_depth g).0 ≡ none
unfolding take_token
take_token_accepts in_flight queue_depth g h = ground arith

waited : (a d : ℕ) → a + d - a ≡ d
waited a d = omega arith

refill_reaches :
    (g : BackpressureGate) (d : ℕ)
    → 1 ≤ g.limits.max_tasks_per_sec
    → pos_part (pos 1000 -ℤ g.tokens) ≤ d * g.limits.max_tasks_per_sec
    → ltb_ℤ (refill (g.last + d) g).tokens (pos 1000) ≡ false
unfolding refill
refill_reaches g d h k =
    reached (pos (1000 * g.limits.max_tasks_per_sec)) g.tokens
      ((g.last + d - g.last) * g.limits.max_tasks_per_sec) (rw (waited g.last d) k) (omega arith)
      refl

-- With a limit of at least one task per second, a millisecond more than the delay that the gate
-- names is always enough: if nobody asks in between, the bucket then holds a token, and a task that
-- no ceiling stops is let through.
pub retry_after_suffices :
    (in_flight queue_depth : ℕ) (g : BackpressureGate)
    → 1 ≤ g.limits.max_tasks_per_sec
    → (take_token in_flight queue_depth (refill (g.last + (retry_after g + 1)) g)).0 ≡ none
retry_after_suffices in_flight queue_depth g h =
    take_token_accepts in_flight queue_depth (refill (g.last + (retry_after g + 1)) g)
      (refill_reaches g (retry_after g + 1) h (covers missing rate (retry_after g) h steps))
  where
    missing : ℕ
    missing = pos_part (pos 1000 -ℤ g.tokens)

    rate : ℕ
    rate = g.limits.max_tasks_per_sec

    steps : missing / rate ≤ retry_after g
    steps = let up = round_up missing rate in let least = retry_after_least g h in omega arith
