-- ===== src/Guardrails/Tests.antt =====
-- An engine that allows two tasks a minute, and the theorems on the guardrails at it.
use intermesh.Prelude.{codes, ◌≡◌, refl, ◌⊎◌, true, false, ◌||◌, none, [], ◌∷◌, text_eq, text_beq}
use intermesh.Prelude.Dict.{lookup}
use intermesh.Prelude.Exec.{is_err}
use intermesh.Guardrails.{
  GuardrailPolicy, Breaker, Engine, next_depth, policy_for, validate_task_submission, is_tripped,
  record_task, trim,
}
use intermesh.Guardrails.Submission.{forbids, exceeds, Unused, validate_task_submission_lem}

abbrev policy : GuardrailPolicy
policy = record {
  name = codes "p";
  max_cascade_depth = 4;
  max_cost_per_task = 100;
  max_tasks_per_minute = 2;
  circuit_breaker_threshold = 3;
  blocked_patterns = codes "rm" ∷ [];
}

abbrev breaker : Breaker
breaker = record { threshold = 3; cooldown = 60; violation_counts = []; tripped_until = [] }

abbrev engine : Engine
engine = record {
  policy = policy;
  cascade = record { depth_map = []; parent_map = [] };
  breaker = breaker;
  rate = record { window = 60; events = (codes "a", 5 ∷ 70 ∷ []) ∷ [] };
  org_policies = [];
}

abbrev blocked_engine : Engine
blocked_engine = record engine { breaker = record breaker { tripped_until = (codes "a", 99) ∷ [] } }

validate_task_submission_lem_example :
    let r = validate_task_submission text_beq (codes "a") 80 (codes "t") none 1 none none engine in
    let bad =
      exceeds text_beq (codes "a") 80 policy none 1 engine
      || forbids text_beq policy.blocked_patterns none in
    ((bad ≡ true) × (is_err r.0 ≡ true) × Unused text_beq (codes "a") 80 engine.rate r.1.rate)
    ⊎ ((bad ≡ false)
        × (is_err r.0 ≡ false)
        × (r.1.rate ≡ record_task (codes "a") 80 (trim (codes "a") 80 engine.rate)))
unfolding is_tripped lookup text_beq next_depth policy_for
validate_task_submission_lem_example =
    validate_task_submission_lem text_beq (codes "a") 80 (codes "t") none 1 none none engine refl
