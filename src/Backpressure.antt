-- ===== src/Backpressure.antt =====
-- sdk-python/intermesh/backpressure.py: the gate that refuses tasks when the hub is full. Times are
-- milliseconds and tokens are thousandths, exact where the source has floats. Limits are not
-- negative, as `from_env` reads them. `now` is the time given or that of the clock.
pub mod Rate
pub mod Retry
mod Tests
use intermesh.Prelude.{
  ℕ, ◌+◌, ◌-◌, ◌*◌, ◌/◌, ◌%◌, Text, codes, Bool, true, false, not, ◌&&◌, Option, none, some, List,
  [], ◌∷◌, ltb, leb, nat_beq, text_eq, if◌then◌else◌,
}
use intermesh.Prelude.Int.{ℤ, pos, ◌+ℤ◌, ◌-ℤ◌, leb_ℤ, ltb_ℤ, pos_part}
use intermesh.Prelude.Dict.{Dict, lookup, insert}

pub record BackpressureLimits : Type 0 where
  pub max_tasks_per_sec : ℕ
  pub max_in_flight : ℕ
  pub max_queue_depth : ℕ
  pub enabled : Bool

pub record Rejection : Type 0 where
  pub reason : Text
  pub retry_after_ms : ℕ
  pub queue_depth : ℕ
  pub in_flight : ℕ
  pub limits : BackpressureLimits

pub record BackpressureGate : Type 0 where
  pub limits : BackpressureLimits
  pub tokens : ℤ
  pub last : ℕ
  pub accepted : ℕ
  pub rejected : ℕ
  pub rejected_by_reason : Dict Text ℕ
  pub last_logged : Option ℕ

unfoldable pub init : BackpressureLimits → ℕ → BackpressureGate
init limits now = record {
  limits = limits;
  tokens = pos (1000 * limits.max_tasks_per_sec);
  last = now;
  accepted = 0;
  rejected = 0;
  rejected_by_reason = [];
  last_logged = none;
}

unfoldable pub min_ℤ : ℤ → ℤ → ℤ
min_ℤ a b = if leb_ℤ a b then a else b

-- `_refill`; the subtraction stops at 0, as `max(0.0, now - self._last)` does.
unfoldable pub refill : ℕ → BackpressureGate → BackpressureGate
unfolding min_ℤ
refill now g =
    let capacity = g.limits.max_tasks_per_sec in
    record g {
      last = now;
      tokens = min_ℤ (pos (1000 * capacity)) (g.tokens +ℤ pos ((now - g.last) * capacity));
    }

-- `int(round(...))` of a / b, where b is not 0: a half goes to the even neighbour.
unfoldable pub round_half_even : ℕ → ℕ → ℕ
round_half_even a b =
    let q = a / b in
    let r = 2 * (a % b) in
    if ltb r b then q else if ltb b r then q + 1 else if nat_beq (q % 2) 0 then q else q + 1

-- `_retry_after_ms`; a thousandth of a token at one token per second takes a millisecond.
unfoldable pub retry_after : BackpressureGate → ℕ
unfolding round_half_even
retry_after g =
    let rate = g.limits.max_tasks_per_sec in
    let ms = round_half_even (pos_part (pos 1000 -ℤ g.tokens)) rate in
    if nat_beq rate 0 then 1000 else if leb ms 1 then 1 else ms

unfoldable pub count : Text → Dict Text ℕ → ℕ
count reason d = elim (lookup reason d) [ none ↦ 0 | some n ↦ n ]

-- `_refuse`
unfoldable pub refuse : Text → ℕ → ℕ → ℕ → BackpressureGate → Option Rejection × BackpressureGate
unfolding count
refuse reason retry in_flight queue_depth g = (
  some (record {
    reason = reason;
    retry_after_ms = retry;
    queue_depth = queue_depth;
    in_flight = in_flight;
    limits = g.limits;
  }),
  record g {
    rejected = g.rejected + 1;
    rejected_by_reason = insert reason (count reason g.rejected_by_reason + 1) g.rejected_by_reason;
  },
)

-- A ceiling of 0 is none.
unfoldable pub reaches : ℕ → ℕ → Bool
reaches ceiling value = not (nat_beq ceiling 0) && leb ceiling value

-- The end of `admit`, from the test of the tokens on.
unfoldable pub take_token : ℕ → ℕ → BackpressureGate → Option Rejection × BackpressureGate
take_token in_flight queue_depth g =
    if not (nat_beq g.limits.max_tasks_per_sec 0) && ltb_ℤ g.tokens (pos 1000)
    then refuse (codes "rate_limited") (retry_after g) in_flight queue_depth g
    else (none, record g { tokens = g.tokens -ℤ pos 1000; accepted = g.accepted + 1 })

-- `admit`
unfoldable pub admit : ℕ → ℕ → ℕ → BackpressureGate → Option Rejection × BackpressureGate
unfolding reaches
admit in_flight queue_depth now g =
    if not g.limits.enabled
    then (none, record g { accepted = g.accepted + 1 })
    else if reaches g.limits.max_in_flight in_flight
    then refuse (codes "in_flight_limit") 1000 in_flight queue_depth g
    else if reaches g.limits.max_queue_depth queue_depth
    then refuse (codes "task_queue_full") 1000 in_flight queue_depth g
    else take_token in_flight queue_depth (refill now g)

-- `note_rejection`, with the window in milliseconds.
unfoldable pub note_rejection : ℕ → ℕ → BackpressureGate → Bool × BackpressureGate
note_rejection now window g = elim g.last_logged [
  | none ↦ (true, record g { last_logged = some now })
  | some t ↦
      if leb (t + window) now then (true, record g { last_logged = some now }) else (false, g)
]
