-- ===== src/TaskApproval/Tests.antt =====
-- A policy of two rules, and the theorem on suspension at a task that the second one suspends.
use intermesh.Prelude.{codes, ◌≡◌, refl, false, none, some, [], ◌∷◌, text_beq}
use intermesh.Prelude.Int.{pos}
use intermesh.Prelude.Json.{Fields, str, int, field, end}
use intermesh.Prelude.Results.{get}
use intermesh.Assurance.Evidence.Verify.{is_falsy}
use intermesh.TaskApproval.{
  ApprovalRule, ApprovalPolicy, any_of, requires_approval, first_rule, matches, is_any, below,
  with_pattern, shown, cost_of,
}
use intermesh.TaskApproval.Samples.{show_text, whole, plain}

abbrev paying : ApprovalRule
paying = record {
  name = codes "paying";
  reason = codes "r";
  assignees = any_of;
  capabilities = any_of;
  pattern = none;
  min_cost = some (pos 5);
  cross_org_only = false;
}

abbrev small_policy : ApprovalPolicy
small_policy = record {
  name = codes "p";
  rules = record paying { assignees = codes "c" ∷ [] } ∷ paying ∷ [];
}

abbrev costly : Fields
costly =
    field (codes "assignee") (str (codes "b")) (field (codes "estimated_cost") (int (pos 9)) end)

suspended_by : requires_approval plain costly (some small_policy) [] false ≡ some (some paying)
unfolding requires_approval first_rule matches is_any below with_pattern shown cost_of is_falsy get
    text_beq show_text whole
suspended_by = refl
