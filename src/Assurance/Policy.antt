-- ===== src/Assurance/Policy.antt =====
-- sdk-python/intermesh/assurance/policy.py: ordered rules and a default. `search` and `compiles`
-- stand for `re`, `split_url` for `urlsplit`; `upper` and `lower` change the ASCII letters.
pub mod Laws
mod Tests
use intermesh.Prelude.{
  ℕ, ◌+◌, ◌≡◌, Text, codes, Bool, true, false, not, ◌&&◌, ◌||◌, Option, none, some, List, [], ◌∷◌,
  ◌++◌, map, leb, nat_beq, contains, ◌==◌, text_eq, if◌then◌else◌,
}
use intermesh.Prelude.Exec.{Result, ok, err}
use intermesh.Payments.Price.{to_upper}
use intermesh.Assurance.Risk.{RiskLevel, RawRisk, r0, r2, r3, value, parse}

pub data Decision : Type 0 where
  allow block approval : Decision

-- `PolicyError` by its cause.
pub data PolicyError : Type 0 where
  no_rules unknown_default bad_risk no_name unknown_decision no_criterion bad_regex : PolicyError
  match_not_object duplicate_name : PolicyError

pub record Rule : Type 0 where
  pub name : Text
  pub risk : RiskLevel
  pub decision : Decision
  pub method : Option Text
  pub host : Option Text
  pub path_contains : Option Text
  pub path_regex : Option Text
  pub reason : Text

pub record Verdict : Type 0 where
  pub decision : Decision
  pub risk : RiskLevel
  pub rule : Text
  pub reason : Text

pub record Policy : Type 0 where
  pub name : Text
  pub rules : List Rule
  pub default_decision : Decision
  pub default_risk : RiskLevel
  pub evidence_threshold : RiskLevel

-- The parts of a URL that `evaluate` reads.
pub record UrlParts : Type 0 where
  pub netloc : Text
  pub path : Text
  pub query : Text

-- What the module takes from the standard library.
pub record Lib : Type 0 where
  pub compiles : Text → Bool
  pub search : Text → Text → Bool
  pub split_url : Text → UrlParts

unfoldable pub to_lower : ℕ → ℕ
to_lower c = if leb 65 c && leb c 90 then c + 32 else c

abbrev pub upper : Text → Text
upper = map to_upper

abbrev pub lower : Text → Text
lower = map to_lower

unfoldable pub starts : Text → Text → Bool
starts [] t = true
starts (c ∷ s) [] = false
starts (c ∷ s) (d ∷ t) = nat_beq c d && starts s t

-- `s in t`
unfoldable pub is_infix : Text → Text → Bool
unfolding starts
is_infix s [] = starts s []
is_infix s (d ∷ t) = starts s (d ∷ t) || is_infix s t

unfoldable pub truthy : Option Text → Bool
truthy none = false
truthy (some []) = false
truthy (some (c ∷ s)) = true

-- A criterion that is absent or empty excludes nothing.
unfoldable pub criterion : Option Text → (Text → Bool) → Bool
criterion none test = true
criterion (some []) test = true
criterion (some (c ∷ s)) test = test (c ∷ s)

-- `str(...).lower()` and the test against `DECISIONS`
unfoldable pub read_decision : Text → Option Decision
unfolding to_lower
read_decision s =
    let t = lower s in
    if t == codes "allow"
    then some allow
    else if t == codes "block"
    then some block
    else if t == codes "approval"
    then some approval
    else none

-- The members of a rule in the file; `criteria` is `none` where `match` is no object.
pub record RawCriteria : Type 0 where
  pub method : Option Text
  pub host : Option Text
  pub path_contains : Option Text
  pub path_regex : Option Text

pub record RawRule : Type 0 where
  pub name : Option Text
  pub risk : Option RawRisk
  pub decision : Option Text
  pub criteria : Option RawCriteria
  pub reason : Option Text

-- `rules` is `none` where it is missing or no list.
pub record RawPolicy : Type 0 where
  pub name : Option Text
  pub rules : Option (List RawRule)
  pub default_decision : Option Text
  pub default_risk : Option RawRisk
  pub evidence_threshold : Option RawRisk

unfoldable pub or_text : Option Text → Text → Text
or_text none d = d
or_text (some s) d = s

unfoldable pub parse_or : RiskLevel → Option RawRisk → Option RiskLevel
unfolding parse
parse_or d none = some d
parse_or d (some r) = parse r

unfoldable pub is_empty : Text → Bool
is_empty [] = true
is_empty (c ∷ s) = false

module _ (lib : Lib) where
  unfoldable pub matches : Rule → Text → Text → Text → Bool
  unfolding criterion
  matches r method host path =
      criterion r.method (λ m. upper m == upper method)
      && criterion r.host (λ h. is_infix (lower h) (lower host))
      && criterion r.path_contains (λ p. is_infix p path)
      && criterion r.path_regex (λ x. lib.search x path)

  -- `__post_init__`, after the name has been read; `decision` is the text of the file.
  unfoldable pub check_rule : Rule → Result PolicyError Rule
  check_rule r =
      if is_empty r.name
      then err no_name
      else if not
          (truthy r.method || truthy r.host || truthy r.path_contains || truthy r.path_regex)
      then err no_criterion
      else if truthy r.path_regex && not (lib.compiles (or_text r.path_regex []))
      then err bad_regex
      else ok r

  -- `Rule.from_dict`. `__post_init__` looks at the name before the decision.
  unfoldable pub read_rule : RawRule → Result PolicyError Rule
  read_rule raw = elim raw.criteria [
    | none ↦ err match_not_object
    | some m ↦ elim (parse_or r0 raw.risk) [
      | none ↦ err bad_risk
      | some risk ↦
          if is_empty (or_text raw.name [])
          then err no_name
          else (elim (read_decision (or_text raw.decision (codes "allow"))) [
            | none ↦ err unknown_decision
            | some decision ↦ check_rule (record {
              name = or_text raw.name [];
              risk = risk;
              decision = decision;
              method = m.method;
              host = m.host;
              path_contains = m.path_contains;
              path_regex = m.path_regex;
              reason = or_text raw.reason [];
            })
          ])
    ]
  ]

  unfoldable pub read_rules : List RawRule → Result PolicyError (List Rule)
  read_rules [] = ok []
  read_rules (raw ∷ rest) = elim (read_rule raw) [
    | err e ↦ err e
    | ok r ↦ elim (read_rules rest) [ err e ↦ err e | ok rs ↦ ok (r ∷ rs) ]
  ]

  -- The loop over `seen`
  unfoldable pub distinct_names : List Text → List Rule → Bool
  distinct_names seen [] = true
  distinct_names seen (r ∷ rs) =
      let rest = distinct_names (r.name ∷ seen) rs in if contains r.name seen then false else rest

  -- `Policy.from_dict`
  unfoldable pub read_policy : RawPolicy → Result PolicyError Policy
  read_policy raw = elim raw.rules [
    | none ↦ err no_rules
    | some [] ↦ err no_rules
    | some (x ∷ xs) ↦ elim (read_decision (or_text raw.default_decision (codes "block"))) [
      | none ↦ err unknown_default
      | some decision ↦ elim (parse_or r3 raw.default_risk) [
        | none ↦ err bad_risk
        | some risk ↦ elim (parse_or r2 raw.evidence_threshold) [
          | none ↦ err bad_risk
          | some threshold ↦ elim (read_rules (x ∷ xs)) [
            | err e ↦ err e
            | ok rules ↦
                if distinct_names [] rules
                then ok (record {
                  name = or_text raw.name (codes "sans-nom");
                  rules = rules;
                  default_decision = decision;
                  default_risk = risk;
                  evidence_threshold = threshold;
                })
                else err duplicate_name
          ]
        ]
      ]
    ]
  ]

  -- The loop of `evaluate`
  unfoldable pub first_match : List Rule → Text → Text → Text → Option Rule
  first_match [] method host path = none
  first_match (r ∷ rs) method host path =
      let rest = first_match rs method host path in
      if matches r method host path then some r else rest

  -- The host and the path with its query, as `evaluate` takes them from the URL.
  unfoldable pub target : Text → Text × Text
  unfolding is_empty
  target url =
      let parts = lib.split_url (if is_infix (codes "//") url then url else 47 ∷ 47 ∷ url) in
      let path = if is_empty parts.path then codes "/" else parts.path in
      (parts.netloc, if is_empty parts.query then path else path ++ 63 ∷ parts.query)

  unfoldable pub evaluate : Policy → Text → Text → Verdict
  evaluate p method url =
      let (host, path) = target url in
      elim (first_match p.rules method host path) [
        | none ↦ record {
          decision = p.default_decision;
          risk = p.default_risk;
          rule = codes "default";
          reason = codes "aucune règle ne correspond";
        }
        | some r ↦ record { decision = r.decision; risk = r.risk; rule = r.name; reason = r.reason }
      ]

unfoldable pub requires_evidence : Policy → RiskLevel → Bool
requires_evidence p risk = leb (value p.evidence_threshold) (value risk)
