-- ===== src/Backpressure/Tests.antt =====
-- A gate of two tasks per second under four requests, and the theorems of this component at it.
use intermesh.Prelude.{◌-◌, ◌*◌, ◌+◌, ◌≤◌, ◌≡◌, refl, none, true, List, [], ◌∷◌, arith}
use intermesh.Prelude.Int.{pos, ◌+ℤ◌, ◌-ℤ◌}
use intermesh.Backpressure.{
  retry_after, round_half_even, BackpressureGate, BackpressureLimits, init, admit, reaches, refill,
  take_token, refuse,
}
use intermesh.Backpressure.Retry.{retry_after_suffices}
use intermesh.Backpressure.Rate.{Ask, run, InOrder, accepted_bound}

abbrev limits : BackpressureLimits
limits = record { max_tasks_per_sec = 2; max_in_flight = 4; max_queue_depth = 0; enabled = true }

abbrev asks : List Ask
asks =
    record { in_flight = 0; queue_depth = 9; now = 10 }
    ∷ record { in_flight = 1; queue_depth = 9; now = 11 }
    ∷ record { in_flight = 2; queue_depth = 9; now = 12 }
    ∷ record { in_flight = 5; queue_depth = 9; now = 1000 }
    ∷ []

accepted : (run (init limits 10) asks).accepted ≡ 2
unfolding run admit reaches take_token refuse init refill ◌+ℤ◌ ◌-ℤ◌
accepted = refl

accepted_bound_example :
    1000 * (run (init limits 10) asks).accepted ≤ limits.max_tasks_per_sec * (1000 + (1510 - 10))
unfolding InOrder
accepted_bound_example =
    accepted_bound limits 10 1510 asks refl (omega arith)
      (omega arith, (omega arith, (omega arith, (omega arith, omega arith))))

abbrev drained : BackpressureGate
drained = record {
  limits = record limits { max_tasks_per_sec = 3 };
  tokens = pos 0;
  last = 10;
  accepted = 3;
  rejected = 0;
  rejected_by_reason = [];
  last_logged = none;
}

-- The delay alone is a little short here: 333 ms at three tasks per second give 999 thousandths.
too_short : (retry_after drained ≡ 333) × ((refill 343 drained).tokens ≡ pos 999)
unfolding retry_after round_half_even refill ◌+ℤ◌ ◌-ℤ◌
too_short = (refl, refl)

retry_after_suffices_example :
    (take_token 0 0 (refill (drained.last + (retry_after drained + 1)) drained)).0 ≡ none
retry_after_suffices_example = retry_after_suffices 0 0 drained (omega arith)
