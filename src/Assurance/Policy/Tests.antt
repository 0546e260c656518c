-- ===== src/Assurance/Policy/Tests.antt =====
-- A policy of two rules, and the theorems on risk levels and policies at it.
use intermesh.Payments.Price.{to_upper}
use intermesh.Prelude.{
  text_beq, ℕ, Text, codes, ◌≡◌, ◌⊎◌, refl, true, false, none, some, [], ◌∷◌, nat_beq,
  if◌then◌else◌,
}
use intermesh.Assurance.Risk.{RawRisk, r3, r4, r2}
use intermesh.Assurance.Policy.{
  is_infix, matches, to_lower, first_match, allow, block, approval, Rule, Policy, UrlParts, Lib,
  RawPolicy, target, evaluate,
}
use intermesh.Assurance.Policy.Laws.{NoneMatch, IsFirst, evaluate-IsFirst}

-- A text up to a character, and what follows it.
cut : ℕ → Text → Text × Text
cut c [] = ([], [])
cut c (d ∷ s) = let (l, r) = cut c s in if nat_beq c d then ([], s) else (d ∷ l, r)

after_slashes : Text → Text
after_slashes [] = []
after_slashes (c ∷ []) = []
after_slashes (c ∷ d ∷ s) =
    let rest = after_slashes (d ∷ s) in
    if nat_beq c 47 then (if nat_beq d 47 then s else rest) else rest

split : Text → UrlParts
unfolding cut after_slashes
split url =
    let (front, query) = cut 63 (after_slashes url) in
    let (netloc, path) = cut 47 front in
    record {
      netloc = netloc;
      path = if nat_beq 47 (elim path [ [] ↦ 0 | c ∷ s ↦ 47 ]) then 47 ∷ path else [];
      query = query;
    }

abbrev lib : Lib
lib = record { compiles = λ x. true; search = λ x path. false; split_url = split }

abbrev deletes : Rule
deletes = record {
  name = codes "del";
  risk = r4;
  decision = approval;
  method = some (codes "delete");
  host = none;
  path_contains = some (codes "/db");
  path_regex = none;
  reason = codes "w";
}

abbrev reads : Rule
reads = record {
  name = codes "all";
  risk = r2;
  decision = allow;
  method = none;
  host = some (codes "API");
  path_contains = none;
  path_regex = none;
  reason = [];
}

abbrev policy : Policy
policy = record {
  name = codes "p";
  rules = deletes ∷ reads ∷ [];
  default_decision = block;
  default_risk = r3;
  evidence_threshold = r2;
}

abbrev url : Text
url = codes "http://api/db?x"

evaluated :
    evaluate lib policy (codes "DELETE") url
    ≡ record { decision = approval; risk = r4; rule = codes "del"; reason = codes "w" }
unfolding evaluate first_match matches text_beq to_upper is_infix target split to_lower
evaluated = refl

evaluated_other :
    evaluate lib policy (codes "GET") url
    ≡ record { decision = allow; risk = r2; rule = codes "all"; reason = [] }
unfolding evaluate first_match matches text_beq to_upper is_infix target split to_lower
evaluated_other = refl

evaluate-IsFirst_example :
    let (host, path) = target lib url in
    (NoneMatch lib (codes "GET") host path policy.rules
      × (evaluate lib policy (codes "GET") url ≡ record {
        decision = block;
        risk = r3;
        rule = codes "default";
        reason = codes "aucune règle ne correspond";
      }))
    ⊎ ((r : Rule) × IsFirst lib (codes "GET") host path policy.rules r
        × (evaluate lib policy (codes "GET") url
            ≡ record { decision = r.decision; risk = r.risk; rule = r.name; reason = r.reason }))
evaluate-IsFirst_example = evaluate-IsFirst lib policy (codes "GET") url

abbrev raw : RawPolicy
raw = record {
  name = some (codes "p");
  rules = some (
      record {
        name = some (codes "all");
        risk = some (RawRisk.text (codes "R2"));
        decision = some (codes "Allow");
        criteria = some (record {
          method = none;
          host = some (codes "API");
          path_contains = none;
          path_regex = none;
        });
        reason = none;
      }
      ∷ []);
  default_decision = none;
  default_risk = none;
  evidence_threshold = none;
}

abbrev loaded : Policy
loaded = record policy { rules = reads ∷ [] }
