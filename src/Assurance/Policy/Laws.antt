-- ===== src/Assurance/Policy/Laws.antt =====
-- What the policy engine of sdk-python/intermesh/assurance/policy.py decides, and what it loads.
use intermesh.Prelude.{
  Text, codes, ◌≡◌, ap, refl, ◌≢◌, ◌⊎◌, inl, inr, true, false, ◌||◌, none, some, List, [], ◌∷◌,
  ◌++◌, All, arith, contains, text_eq, Bool-cases, Option-cases,
}
use intermesh.Prelude.Exec.{ok, Result-cases}
use intermesh.Assurance.Risk.{r0, r2, r3}
use intermesh.Assurance.Policy.{
  Rule, Policy, Lib, RawRule, RawPolicy, matches, check_rule, read_rule, read_rules, distinct_names,
  read_policy, first_match, target, evaluate, truthy, is_empty, read_decision, or_text, parse_or,
}

-- A rule that has a name and at least one criterion.
pub record IsRule (r : Rule) : Type 0 where
  pub named : is_empty r.name ≡ false
  pub narrows :
      (truthy r.method || truthy r.host || truthy r.path_contains || truthy r.path_regex) ≡ true

-- No rule has a name among those seen, nor that of a rule before it.
pub Distinct : List Text → List Rule → Type 0
Distinct seen [] = Unit
Distinct seen (r ∷ rs) = (contains r.name seen ≡ false) × Distinct (r.name ∷ seen) rs

module _ (lib : Lib) where
  -- None of the rules matches.
  abbrev pub NoneMatch : Text → Text → Text → List Rule → Type 0
  NoneMatch method host path = All (λ r. matches lib r method host path ≡ false)

  -- The first rule that matches: those before it do not.
  abbrev pub IsFirst : Text → Text → Text → List Rule → Rule → Type 0
  IsFirst method host path rules r =
      (before : List Rule) × (after : List Rule) × (rules ≡ before ++ r ∷ after)
      × NoneMatch method host path before
      × (matches lib r method host path ≡ true)

  first_match-cases :
      (rules : List Rule) (method host path : Text)
      → (NoneMatch method host path rules × (first_match lib rules method host path ≡ none))
        ⊎ ((r : Rule) × IsFirst method host path rules r
            × (first_match lib rules method host path ≡ some r))
  unfolding first_match
  first_match-cases [] method host path = inl (tt, refl)
  first_match-cases (r ∷ rs) method host path = elim (Bool-cases (matches lib r method host path)) [
    | inl hit ↦ inr (r, ([], rs, refl, tt, hit), rw hit)
    | inr miss ↦ elim (first_match-cases rs method host path) [
      | inl (rest, e) ↦ inl ((miss, rest), rw miss e)
      | inr (q, (before, after, split, skipped, hit), e) ↦
          inr (q, (r ∷ before, after, ap (λ l. r ∷ l) split, (miss, skipped), hit), rw miss e)
    ]
  ]

  -- `evaluate` gives the verdict of the first rule of the file that matches the method and the
  -- host and path of the URL, and the declared default exactly when no rule does.
  pub evaluate-IsFirst :
      (p : Policy) (method url : Text)
      → let (host, path) = target lib url in
        (NoneMatch method host path p.rules
          × (evaluate lib p method url ≡ record {
            decision = p.default_decision;
            risk = p.default_risk;
            rule = codes "default";
            reason = codes "aucune règle ne correspond";
          }))
        ⊎ ((r : Rule) × IsFirst method host path p.rules r
            × (evaluate lib p method url ≡ record {
              decision = r.decision;
              risk = r.risk;
              rule = r.name;
              reason = r.reason;
            }))
  unfolding evaluate
  evaluate-IsFirst p method url =
      let (host, path) = target lib url in
      elim (first_match-cases p.rules method host path) [
        | inl (misses, e) ↦ inl (misses, rw (e, evaluate))
        | inr (r, first, e) ↦ inr (r, first, rw (e, evaluate))
      ]

  check_rule-IsRule : (r q : Rule) → check_rule lib r ≡ ok q → IsRule q
  unfolding check_rule
  check_rule-IsRule r q h = record { named = ground arith; narrows = ground arith }

  read_rule-IsRule : (raw : RawRule) (q : Rule) → read_rule lib raw ≡ ok q → IsRule q
  unfolding read_rule
  read_rule-IsRule raw q h = elim (Option-cases raw.criteria) [
    | inl missing ↦ absurd (ground arith)
    | inr (m, e) ↦ elim (Option-cases (parse_or r0 raw.risk)) [
      | inl bad ↦ absurd (ground arith)
      | inr (risk, f) ↦ elim (Option-cases (read_decision (or_text raw.decision (codes "allow")))) [
        | inl bad ↦ absurd (ground arith)
        | inr (d, g) ↦
            check_rule-IsRule
              (record {
                name = or_text raw.name [];
                risk = risk;
                decision = d;
                method = m.method;
                host = m.host;
                path_contains = m.path_contains;
                path_regex = m.path_regex;
                reason = or_text raw.reason [];
              })
              q (ground arith)
      ]
    ]
  ]

  read_rules-IsRule :
      (raws : List RawRule) (rs : List Rule)
      → read_rules lib raws ≡ ok rs
      → All IsRule rs × (raws ≢ [] → rs ≢ [])
  unfolding read_rules
  read_rules-IsRule [] rs h =
      let e : rs ≡ [] = ground arith in rw e (tt, λ none_left. absurd (none_left refl))
  read_rules-IsRule (raw ∷ raws) rs h = elim (Result-cases (read_rule lib raw)) [
    | inr (e, f) ↦ absurd (ground arith)
    | inl (r, f) ↦ elim (Result-cases (read_rules lib raws)) [
      | inr (e, g) ↦ absurd (ground arith)
      | inl (qs, g) ↦
          let (rules, _) = read_rules-IsRule raws qs g in
          let e : rs ≡ r ∷ qs = ground arith in
          rw e ((read_rule-IsRule raw r f, rules), λ _ nil. absurd (ground arith))
    ]
  ]

  distinct_names-Distinct :
      (seen : List Text) (rs : List Rule) → distinct_names lib seen rs ≡ true → Distinct seen rs
  unfolding distinct_names Distinct
  distinct_names-Distinct seen [] h = tt
  distinct_names-Distinct seen (r ∷ rs) h = elim (Bool-cases (contains r.name seen)) [
    | inl e ↦ absurd (ground arith)
    | inr e ↦ (e, distinct_names-Distinct (r.name ∷ seen) rs (ground arith))
  ]

  raw_rules-cases :
      (raw : RawPolicy)
      → (raw.rules ≡ none)
        ⊎ (raw.rules ≡ some [])
        ⊎ ((x : RawRule) × (xs : List RawRule) × (raw.rules ≡ some (x ∷ xs)))
  raw_rules-cases raw = elim (Option-cases raw.rules) [
    | inl e ↦ inl e
    | inr ([], e) ↦ inr (inl e)
    | inr ((x ∷ xs), e) ↦ inr (inr (x, xs, e))
  ]

  -- What the checks of `from_dict` leave of an accepted policy.
  read_policy_rules :
      (raw : RawPolicy) (p : Policy)
      → read_policy lib raw ≡ ok p
      → (x : RawRule) × (xs : List RawRule) × (read_rules lib (x ∷ xs) ≡ ok p.rules)
        × (distinct_names lib [] p.rules ≡ true)
  unfolding read_policy
  read_policy_rules raw p h = elim (raw_rules-cases raw) [
    | inl e ↦ absurd (ground arith)
    | inr (inl e) ↦ absurd (ground arith)
    | inr (inr (x, xs, e)) ↦
        elim (Option-cases (read_decision (or_text raw.default_decision (codes "block")))) [
          | inl f ↦ absurd (ground arith)
          | inr (d, f) ↦ elim (Option-cases (parse_or r3 raw.default_risk)) [
            | inl g ↦ absurd (ground arith)
            | inr (risk, g) ↦ elim (Option-cases (parse_or r2 raw.evidence_threshold)) [
              | inl k ↦ absurd (ground arith)
              | inr (t, k) ↦ elim (Result-cases (read_rules lib (x ∷ xs))) [
                | inr (_, l) ↦ absurd (ground arith)
                | inl (rs, l) ↦ (x, xs, ground arith, ground arith)
              ]
            ]
          ]
        ]
  ]

  -- A policy that `from_dict` accepts has at least one rule, each rule has a name and a criterion
  -- that is not empty, and no two rules share a name.
  pub read_policy-IsRule :
      (raw : RawPolicy) (p : Policy)
      → read_policy lib raw ≡ ok p
      → (p.rules ≢ []) × All IsRule p.rules × Distinct [] p.rules
  read_policy-IsRule raw p h =
      let (x, xs, loaded, distinct) = read_policy_rules raw p h in
      let (rules, nonempty) = read_rules-IsRule (x ∷ xs) p.rules loaded in
      (nonempty (λ nil. absurd (ground arith)), rules, distinct_names-Distinct [] p.rules distinct)
