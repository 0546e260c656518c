-- ===== src/TaskApproval.antt =====
-- sdk-python/intermesh/approval.py: the rules that suspend a task until a person decides. Costs are
-- exact integers; the compiled patterns, `str`, `float` and `json.dumps` are parameters.
pub mod First
pub mod Samples
mod Tests
use intermesh.Prelude.{
  Text, codes, Bool, true, false, not, ◌&&◌, ◌||◌, Option, none, some, List, [], ◌∷◌, ◌++◌,
  contains, text_eq, ◌==◌, if◌then◌else◌,
}
use intermesh.Prelude.Int.{ℤ, pos, ltb_ℤ}
use intermesh.Prelude.Json.{Json, Fields, null, str}
use intermesh.Prelude.Exec.{Result, ok, err}
use intermesh.Prelude.Results.{◌>>=◌, ◌>>◌, require, refuse_if, get}
use intermesh.Assurance.Evidence.Verify.{is_falsy}

pub record ApprovalRule : Type 0 where
  pub name : Text
  pub reason : Text
  pub assignees : List Text
  pub capabilities : List Text
  pub pattern : Option Text
  pub min_cost : Option ℤ
  pub cross_org_only : Bool

pub record ApprovalPolicy : Type 0 where
  pub name : Text
  pub rules : List ApprovalRule

-- The members that `ApprovalRule.from_dict` reads.
pub record RawRule : Type 0 where
  pub name : Option Text
  pub reason : Option Text
  pub assignees : Option (List Text)
  pub capabilities : Option (List Text)
  pub pattern : Option Text
  pub min_cost : Option ℤ
  pub cross_org_only : Bool

-- The KeyErrors of `from_dict`, the ValueErrors of `__post_init__` and the error of `re.compile`.
pub data RuleError : Type 0 where
  absent_name absent_reason no_name no_reason no_criterion bad_pattern : RuleError

pub record Lib : Type 0 where
  pub compiles : Text → Bool
  pub search : Text → Text → Bool
  pub show : Json → Text
  pub dumps : Json → Text
  pub to_float : Json → Option ℤ
  pub overflows : Json → Bool

abbrev pub any_of : List Text
any_of = codes "*" ∷ []

-- `xs == [ANY]`
unfoldable pub is_any : List Text → Bool
is_any [] = false
is_any (x ∷ []) = x == codes "*"
is_any (x ∷ y ∷ ys) = false

unfoldable pub is_blank : Text → Bool
is_blank [] = true
is_blank (c ∷ s) = false

unfoldable pub is_given {ℓ} : {A : Type ℓ} → Option A → Bool
is_given none = false
is_given (some a) = true

-- The test of `__post_init__`: at least one criterion.
unfoldable pub is_specific : ApprovalRule → Bool
unfolding is_any is_given
is_specific r =
    not (is_any r.assignees)
    || not (is_any r.capabilities)
    || is_given r.pattern
    || is_given r.min_cost
    || r.cross_org_only

-- A pattern that is absent or empty is not compiled.
unfoldable pub with_pattern : Option Text → (Text → Bool) → Bool
with_pattern none test = true
with_pattern (some []) test = true
with_pattern (some (c ∷ p)) test = test (c ∷ p)

-- `any(c in self.capabilities for c in capabilities)`
unfoldable pub shares : List Text → List Text → Bool
shares own [] = false
shares own (c ∷ cs) = contains c own || shares own cs

unfoldable pub below : ℤ → Option ℤ → Bool
below cost none = false
below cost (some least) = ltb_ℤ cost least

unfoldable pub or_any : Option (List Text) → List Text
or_any none = any_of
or_any (some xs) = xs

-- `str(task.get(key) or "")`
unfoldable pub shown : (Json → Text) → Option Json → Text
unfolding is_falsy
shown show none = []
shown show (some j) = if is_falsy j then [] else show j

-- `float(task.get("estimated_cost") or 0.0)`, with the 0.0 of the exceptions that are caught; the
-- result `none` is the OverflowError of a number that is too large, which is not.
unfoldable pub cost_of : Lib → Option Json → Option ℤ
unfolding is_falsy
cost_of lib none = some (pos 0)
cost_of lib (some j) =
    if is_falsy j
    then some (pos 0)
    else if lib.overflows j
    then none
    else some (elim (lib.to_float j) [ none ↦ pos 0 | some x ↦ x ])

-- The second part of `_payload_text`, with the newline before it.
unfoldable pub data_part : (Json → Text) → Option Json → Text
data_part dumps none = []
data_part dumps (some null) = []
data_part dumps (some (str s)) = 10 ∷ s
data_part dumps (some j) = 10 ∷ dumps j

module _ (lib : Lib) where
  -- `__post_init__`
  unfoldable pub check_rule : ApprovalRule → Result RuleError ApprovalRule
  unfolding is_blank is_specific with_pattern
  check_rule r = do
    refuse_if (is_blank r.name) no_name
    refuse_if (is_blank r.reason) no_reason
    refuse_if (not (is_specific r)) no_criterion
    refuse_if (not (with_pattern r.pattern lib.compiles)) bad_pattern
    ok r

  -- `ApprovalRule.from_dict`
  unfoldable pub make_rule : RawRule → Result RuleError ApprovalRule
  unfolding check_rule or_any
  make_rule raw = do
    name ← require absent_name raw.name
    reason ← require absent_reason raw.reason
    check_rule (record {
      name = name;
      reason = reason;
      assignees = or_any raw.assignees;
      capabilities = or_any raw.capabilities;
      pattern = raw.pattern;
      min_cost = raw.min_cost;
      cross_org_only = raw.cross_org_only;
    })

  unfoldable pub make_rules : List RawRule → Result RuleError (List ApprovalRule)
  unfolding make_rule
  make_rules [] = ok []
  make_rules (raw ∷ more) = do r ← make_rule raw; rs ← make_rules more; ok (r ∷ rs)

  -- `ApprovalPolicy.from_dict`
  unfoldable pub make_policy : Option Text → List RawRule → Result RuleError ApprovalPolicy
  unfolding make_rules
  make_policy given raws = do
    rules ← make_rules raws
    ok (record { name = elim given [ none ↦ codes "unnamed" | some n ↦ n ]; rules = rules })

  -- `matches`
  unfoldable pub matches : ApprovalRule → Text → List Text → Text → ℤ → Bool → Bool
  unfolding is_any shares below with_pattern
  matches r assignee caps text cost cross =
      not (r.cross_org_only && not cross)
      && (is_any r.assignees || contains assignee r.assignees)
      && (is_any r.capabilities || shares r.capabilities caps)
      && not (below cost r.min_cost)
      && with_pattern r.pattern (λ p. lib.search p text)

  -- `_payload_text`
  unfoldable pub payload_text : Fields → Text
  unfolding shown data_part
  payload_text task =
      shown lib.show (get (codes "title") task)
      ++ data_part lib.dumps (get (codes "input_data") task)

  -- The loop of `requires_approval`.
  unfoldable pub first_rule :
      List ApprovalRule → Text → List Text → Text → ℤ → Bool → Option ApprovalRule
  unfolding matches
  first_rule [] assignee caps text cost cross = none
  first_rule (r ∷ rs) assignee caps text cost cross =
      let rest = first_rule rs assignee caps text cost cross in
      if matches r assignee caps text cost cross then some r else rest

  -- `requires_approval`; an absent policy, or one without rules, suspends nothing. The result `none`
  -- is an OverflowError.
  unfoldable pub requires_approval :
      Fields → Option ApprovalPolicy → List Text → Bool → Option (Option ApprovalRule)
  unfolding first_rule payload_text cost_of shown
  requires_approval task none caps cross = some none
  requires_approval task (some p) caps cross = elim p.rules [
    | [] ↦ some none
    | r ∷ rs ↦ elim (cost_of lib (get (codes "estimated_cost") task)) [
      | none ↦ none
      | some cost ↦ some (
          first_rule (r ∷ rs) (shown lib.show (get (codes "assignee") task)) caps
            (payload_text task) cost cross)
    ]
  ]
