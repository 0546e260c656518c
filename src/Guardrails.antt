-- ===== src/Guardrails.antt =====
-- sdk-python/intermesh/guardrails.py: what is checked before a task is accepted. Times are
-- milliseconds and costs whole units, exact where the source has floats; `now` is `time.time()`. The
-- compiled patterns are a parameter `search`, and the cache of them is not kept.
pub mod Trackers
pub mod Submission
mod Tests
use intermesh.Prelude.{
  ℕ, zero, suc, ◌+◌, Text, codes, Bool, true, false, not, ◌&&◌, ◌||◌, Option, none, some, List, [],
  ◌∷◌, ◌++◌, length, ltb, leb, text_eq, ◌==◌, if◌then◌else◌,
}
use intermesh.Prelude.Dict.{Dict, lookup, insert, erase, has_key}
use intermesh.Prelude.Exec.{Result, ok, err, Exec, pure, read, ◌>>=◌, ◌>>◌, raise, raise_if, modify}

pub record GuardrailPolicy : Type 0 where
  pub name : Text
  pub max_cascade_depth : ℕ
  pub max_cost_per_task : ℕ
  pub max_tasks_per_minute : ℕ
  pub circuit_breaker_threshold : ℕ
  pub blocked_patterns : List Text

-- `TaskCascadeTracker`
pub record Cascade : Type 0 where
  pub depth_map : Dict Text ℕ
  pub parent_map : Dict Text Text

-- `CircuitBreaker`
pub record Breaker : Type 0 where
  pub threshold : ℕ
  pub cooldown : ℕ
  pub violation_counts : Dict Text ℕ
  pub tripped_until : Dict Text ℕ

-- `RateWindowTracker`
pub record RateWindow : Type 0 where
  pub window : ℕ
  pub events : Dict Text (List ℕ)

-- `AsimovGuardrailEngine`
pub record Engine : Type 0 where
  pub policy : GuardrailPolicy
  pub cascade : Cascade
  pub breaker : Breaker
  pub rate : RateWindow
  pub org_policies : Dict Text GuardrailPolicy

-- The rule that a `PolicyViolationError` names.
pub data Violation : Type 0 where
  circuit_breaker_tripped infinite_cascade_recursion task_cost_cap_exceeded : Violation
  rate_limit_exceeded forbidden_pattern_intercepted : Violation

unfoldable pub given : Option Text → Bool
given none = false
given (some []) = false
given (some (c ∷ s)) = true

unfoldable pub depth_of : Text → Dict Text ℕ → ℕ
depth_of k d = elim (lookup k d) [ none ↦ 1 | some n ↦ n ]

-- The depth that `register_task` finds.
unfoldable pub next_depth : Option Text → Cascade → ℕ
next_depth none c = 1
next_depth (some []) c = 1
next_depth (some (x ∷ p)) c = elim (lookup (x ∷ p) c.depth_map) [ none ↦ 1 | some n ↦ n + 1 ]

unfoldable pub register_task : Text → Option Text → Cascade → ℕ × Cascade
unfolding next_depth given
register_task task parent c =
    let depth = next_depth parent c in
    (
      depth,
      record {
        depth_map = insert task depth c.depth_map;
        parent_map = elim parent [
          | none ↦ c.parent_map
          | some p ↦ if given (some p) then insert task p c.parent_map else c.parent_map
        ];
      },
    )

-- `get_depth`
unfoldable pub get_depth : Text → Cascade → ℕ
unfolding depth_of
get_depth task c = depth_of task c.depth_map

-- The `while` loop of `count_recent`: the events before the cutoff go, up to the first that stays.
unfoldable pub drop_old : ℕ → ℕ → List ℕ → List ℕ
drop_old now window [] = []
drop_old now window (t ∷ ts) =
    let rest = drop_old now window ts in if ltb (t + window) now then rest else t ∷ ts

unfoldable pub events_of : Text → RateWindow → List ℕ
events_of agent r = elim (lookup agent r.events) [ none ↦ [] | some ts ↦ ts ]

-- The deque that `count_recent` leaves: an agent without events gets none.
unfoldable pub trim : Text → ℕ → RateWindow → RateWindow
trim agent now r = elim (lookup agent r.events) [
  | none ↦ r
  | some [] ↦ r
  | some (t ∷ ts) ↦ record r { events = insert agent (drop_old now r.window (t ∷ ts)) r.events }
]

unfoldable pub count_recent : Text → ℕ → RateWindow → ℕ × RateWindow
unfolding trim events_of drop_old
count_recent agent now r = (length (drop_old now r.window (events_of agent r)), trim agent now r)

-- `record`
unfoldable pub record_task : Text → ℕ → RateWindow → RateWindow
unfolding events_of
record_task agent now r = record r {
  events = insert agent (events_of agent r ++ now ∷ []) r.events;
}

unfoldable pub count_of : Text → Dict Text ℕ → ℕ
count_of k d = elim (lookup k d) [ none ↦ 0 | some n ↦ n ]

unfoldable pub record_violation : Text → ℕ → Breaker → Bool × Breaker
unfolding count_of
record_violation agent now b =
    let count = count_of agent b.violation_counts + 1 in
    let counted : Breaker = record b { violation_counts = insert agent count b.violation_counts } in
    if leb b.threshold count
    then (true, record counted { tripped_until = insert agent (now + b.cooldown) b.tripped_until })
    else (false, counted)

unfoldable pub is_tripped : Text → ℕ → Breaker → Bool × Breaker
is_tripped agent now b = elim (lookup agent b.tripped_until) [
  | none ↦ (false, b)
  | some t ↦ if ltb now t then (true, b) else (
    false,
    record b {
      tripped_until = erase agent b.tripped_until;
      violation_counts = insert agent 0 b.violation_counts;
    },
  )
]

abbrev pub Action : Type 0 → Type 0
Action = Exec Engine Violation

-- `set_org_policy`
unfoldable pub set_org_policy : Text → GuardrailPolicy → Engine → Engine
set_org_policy org p e = record e { org_policies = insert org p e.org_policies }

-- `get_policy`, on the default and the organisations' policies.
unfoldable pub policy_for :
    Option Text → GuardrailPolicy → Dict Text GuardrailPolicy → GuardrailPolicy
policy_for none p orgs = p
policy_for (some []) p orgs = p
policy_for (some (c ∷ o)) p orgs = elim (lookup (c ∷ o) orgs) [ none ↦ p | some q ↦ q ]

abbrev pub get_policy : Option Text → Engine → GuardrailPolicy
get_policy org e = policy_for org e.policy e.org_policies

-- `export_policies` and `import_policies`: the default, if there is one, and those of organisations.
unfoldable pub export_policies : Engine → Option GuardrailPolicy × Dict Text GuardrailPolicy
export_policies e = (some e.policy, e.org_policies)

unfoldable pub import_policies :
    Option GuardrailPolicy × Dict Text GuardrailPolicy → Engine → Engine
import_policies (none, orgs) e = record e { org_policies = orgs }
import_policies (some p, orgs) e = record e {
  policy = p;
  breaker = record e.breaker { threshold = p.circuit_breaker_threshold };
  org_policies = orgs;
}

-- `if self.circuit_breaker.is_tripped(agent_name): raise`
unfoldable pub check_breaker : Text → ℕ → Action (Unit {0})
check_breaker agent now e =
    let (tripped, b) = is_tripped agent now e.breaker in
    (if tripped then err circuit_breaker_tripped else ok tt, record e { breaker = b })

-- `record_violation`, then the exception.
unfoldable pub violate : Text → ℕ → Violation → Action (Unit {0})
violate agent now v e = (err v, record e { breaker = (record_violation agent now e.breaker).1 })

unfoldable pub violate_if : Bool → Text → ℕ → Violation → Action (Unit {0})
unfolding violate
violate_if true agent now v e = violate agent now v e
violate_if false agent now v e = (ok tt, e)

module _ (search : Text → Text → Bool) where
  -- One of the policy's patterns is found in the text.
  unfoldable pub is_forbidden : List Text → Text → Bool
  is_forbidden [] text = false
  is_forbidden (p ∷ ps) text = search p text || is_forbidden ps text

  unfoldable pub inspect_payload : Text → ℕ → Text → Option Text → Action (Unit {0})
  unfolding check_breaker violate_if is_forbidden
  inspect_payload agent now text org = do
    check_breaker agent now
    p ← read (get_policy org)
    violate_if (is_forbidden p.blocked_patterns text) agent now forbidden_pattern_intercepted

  -- `if payload_text: self.inspect_payload(...)`
  unfoldable pub inspect_given : Text → ℕ → Option Text → Option Text → Action (Unit {0})
  unfolding inspect_payload
  inspect_given agent now none org e = (ok tt, e)
  inspect_given agent now (some []) org e = (ok tt, e)
  inspect_given agent now (some (c ∷ s)) org e = inspect_payload agent now (c ∷ s) org e

  unfoldable pub register : Text → Option Text → Action ℕ
  register task parent e =
      let (depth, c) = register_task task parent e.cascade in (ok depth, record e { cascade = c })

  unfoldable pub recent : Text → ℕ → Action ℕ
  recent agent now e = let (n, r) = count_recent agent now e.rate in (ok n, record e { rate = r })

  -- The checks of `validate_task_submission`, once the policy is known.
  unfoldable pub check_limits :
      GuardrailPolicy → Text → ℕ → Text → Option Text → ℕ → Action (Unit {0})
  unfolding violate_if register recent
  check_limits p agent now task parent cost = do
    depth ← register task parent
    violate_if (ltb p.max_cascade_depth depth) agent now infinite_cascade_recursion
    violate_if (ltb p.max_cost_per_task cost) agent now task_cost_cap_exceeded
    n ← recent agent now
    violate_if (leb p.max_tasks_per_minute n) agent now rate_limit_exceeded

  unfoldable pub validate_checks :
      Text → ℕ → Text → Option Text → ℕ → Option Text → Option Text → Action (Unit {0})
  unfolding check_breaker check_limits inspect_given
  validate_checks agent now task parent cost payload org = do
    check_breaker agent now
    p ← read (get_policy org)
    check_limits p agent now task parent cost
    inspect_given agent now payload org

  -- `validate_task_submission`
  unfoldable pub validate_task_submission :
      Text → ℕ → Text → Option Text → ℕ → Option Text → Option Text → Action (Unit {0})
  unfolding validate_checks
  validate_task_submission agent now task parent cost payload org = do
    validate_checks agent now task parent cost payload org
    modify (λ e. record e { rate = record_task agent now e.rate })
