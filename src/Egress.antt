-- ===== src/Egress.antt =====
-- sdk-python/intermesh/egress.py: what a payload loses on its way to another organisation. The
-- compiled patterns are parameters, and `lower` changes the ASCII letters.
pub mod Filter
mod Tests
use intermesh.Prelude.{
  ℕ, Text, codes, Bool, true, false, ◌||◌, Option, none, some, List, [], ◌∷◌, ◌++◌, nat_beq,
  contains, text_eq, ◌==◌, if◌then◌else◌,
}
use intermesh.Prelude.Json.{
  Json, Items, Fields, null, bool, int, float, str, arr, obj, nil, cons, end, field,
}
use intermesh.Prelude.Exec.{Result, ok, err}
use intermesh.Prelude.Results.{◌>>=◌}
use intermesh.Assurance.Policy.{lower, to_lower, truthy}

pub data EgressAction : Type 0 where
  redact drop block : EgressAction

pub record EgressRule : Type 0 where
  pub name : Text
  pub action : EgressAction
  pub pattern : Option Text
  pub field_name : Option Text
  pub replacement : Text
  pub to_orgs : List Text

-- The ValueErrors of `__post_init__`.
pub data RuleError : Type 0 where
  unknown_action no_pattern no_field : RuleError

-- A rule as `EgressRule.from_dict` reads it, with `action` as a text.
pub record RawRule : Type 0 where
  pub name : Text
  pub action : Text
  pub pattern : Option Text
  pub field_name : Option Text
  pub replacement : Option Text
  pub to_orgs : Option (List Text)

unfoldable pub read_action : Text → Option EgressAction
read_action s =
    if s == codes "redact"
    then some redact
    else if s == codes "drop"
    then some drop
    else if s == codes "block"
    then some block
    else none

-- What the action demands of a rule.
unfoldable pub check_action : EgressAction → Option Text → Option Text → Option RuleError
unfolding truthy
check_action redact pattern name = if truthy pattern then none else some no_pattern
check_action block pattern name = if truthy pattern then none else some no_pattern
check_action drop pattern name = if truthy name then none else some no_field

unfoldable pub with_default : {A : Type 0} → A → Option A → A
with_default d none = d
with_default d (some a) = a

-- `EgressRule.from_dict`, with `__post_init__`
unfoldable pub make_rule : RawRule → Result RuleError EgressRule
unfolding read_action check_action with_default
make_rule raw = elim (read_action raw.action) [
  | none ↦ err unknown_action
  | some action ↦ elim (check_action action raw.pattern raw.field_name) [
    | some e ↦ err e
    | none ↦ ok (record {
      name = raw.name;
      action = action;
      pattern = raw.pattern;
      field_name = raw.field_name;
      replacement = with_default (codes "[REDACTED]") raw.replacement;
      to_orgs = with_default (codes "*" ∷ []) raw.to_orgs;
    })
  ]
]

-- `applies_to`
unfoldable pub applies_to : EgressRule → Text → Bool
applies_to r org = contains (codes "*") r.to_orgs || contains org r.to_orgs

-- `rules_for`
unfoldable pub rules_for : List EgressRule → Text → List EgressRule
rules_for [] org = []
rules_for (r ∷ rs) org = let rest = rules_for rs org in if applies_to r org then r ∷ rest else rest

-- `if rule.name not in triggered: triggered.append(rule.name)`
unfoldable pub add_name : Text → List Text → List Text
add_name n t = if contains n t then t else t ++ n ∷ []

-- A rule that drops this key.
unfoldable pub drops : EgressRule → Text → Bool
unfolding to_lower
drops r key = elim r.action [
  | drop ↦ elim r.field_name [ none ↦ false | some f ↦ lower key == lower f ]
  | redact ↦ false
  | block ↦ false
]

-- The loop over the rules at a key.
unfoldable pub dropping : List EgressRule → Text → Option EgressRule
dropping [] key = none
dropping (r ∷ rs) key = let rest = dropping rs key in if drops r key then some r else rest

-- What is done at a key, with the rule that drops it or without one.
unfoldable pub at_key : {A : Type 0} → Option EgressRule → (EgressRule → A) → A → A
at_key none dropped kept = kept
at_key (some r) dropped kept = dropped r

-- `re`: whether a pattern is found, and the text with its matches replaced and their number.
pub record Regex : Type 0 where
  pub search : Text → Text → Bool
  pub subn : Text → Text → Text → Text × ℕ

module _ (re : Regex) (rules : List EgressRule) where
  unfoldable pub blocks : EgressRule → Text → Bool
  blocks r text = elim r.action [
    | block ↦ elim r.pattern [ none ↦ false | some p ↦ re.search p text ]
    | redact ↦ false
    | drop ↦ false
  ]

  -- The first loop at a text: the rule that blocks it.
  unfoldable pub blocking : List EgressRule → Text → Option EgressRule
  unfolding blocks
  blocking [] text = none
  blocking (r ∷ rs) text = let rest = blocking rs text in if blocks r text then some r else rest

  -- One turn of the second loop.
  unfoldable pub redact_step : EgressRule → Text × List Text → Text × List Text
  unfolding add_name
  redact_step r (text, t) = elim r.action [
    | redact ↦ elim r.pattern [
      | none ↦ (text, t)
      | some p ↦
          let (replaced, n) = re.subn p r.replacement text in
          if nat_beq n 0 then (text, t) else (replaced, add_name r.name t)
    ]
    | drop ↦ (text, t)
    | block ↦ (text, t)
  ]

  unfoldable pub redacting : List EgressRule → Text × List Text → Text × List Text
  unfolding redact_step
  redacting [] s = s
  redacting (r ∷ rs) s = redacting rs (redact_step r s)

  unfoldable pub visit_text : Text → List Text → Result Text (Json × List Text)
  unfolding blocking redacting
  visit_text s t = elim (blocking rules s) [
    | some r ↦ err r.name
    | none ↦ let (text, t') = redacting rules (s, t) in ok (str text, t')
  ]

  -- `visit`, with the names of the rules triggered; an error is the rule of an EgressBlocked.
  unfoldable mutual
    pub visit : Json → List Text → Result Text (Json × List Text)
    visit null t = ok (null, t)
    visit (bool b) t = ok (bool b, t)
    visit (int i) t = ok (int i, t)
    visit (float f) t = ok (float f, t)
    visit (str s) t = visit_text s t
    visit (arr xs) t = visit_items xs t >>= λ p. ok (arr p.0, p.1)
    visit (obj f) t = visit_fields f t >>= λ p. ok (obj p.0, p.1)

    pub visit_items : Items → List Text → Result Text (Items × List Text)
    visit_items nil t = ok (nil, t)
    visit_items (cons x xs) t =
        visit x t >>= λ p. visit_items xs p.1 >>= λ q. ok (cons p.0 q.0, q.1)

    pub visit_fields : Fields → List Text → Result Text (Fields × List Text)
    visit_fields end t = ok (end, t)
    visit_fields (field k v f) t =
        at_key (dropping rules k) (λ r. visit_fields f (add_name r.name t))
          (visit v t >>= λ p. visit_fields f p.1 >>= λ q. ok (field k p.0 q.0, q.1))

-- `apply_egress`; no rules at all, or none for the target, leave the payload alone.
unfoldable pub apply_egress :
    Regex → Json → Text → Option (List EgressRule) → Result Text (Json × List Text)
unfolding visit rules_for
apply_egress re payload org none = ok (payload, [])
apply_egress re payload org (some rules) = elim (rules_for rules org) [
  | [] ↦ ok (payload, [])
  | r ∷ rs ↦ visit re (r ∷ rs) payload []
]
