-- ===== src/Egress/Tests.antt =====
-- Two rules for every organisation, and the theorem on the egress filter at them.
use intermesh.Prelude.{
  Text, codes, ◌≡◌, refl, ◌⊎◌, true, false, none, some, List, [], ◌∷◌, text_beq, if◌then◌else◌,
  text_eq,
}
use intermesh.Prelude.Json.{Json, str, obj, end, field}
use intermesh.Prelude.Exec.{ok, is_err}
use intermesh.Egress.{EgressRule, Regex, drop, redact, rules_for, applies_to, apply_egress}
use intermesh.Egress.Filter.{prune, has_blocked, redacted, keeps_dropped, apply_egress_lem}

abbrev whole_text : Regex
whole_text = record { search = text_beq; subn = λ p r t. if text_beq p t then (r, 1) else (t, 0) }

abbrev no_password : EgressRule
no_password = record {
  name = codes "pw";
  action = drop;
  pattern = none;
  field_name = some (codes "password");
  replacement = [];
  to_orgs = codes "*" ∷ [];
}

abbrev no_secret : EgressRule
no_secret = record {
  name = codes "s";
  action = redact;
  pattern = some (codes "secret");
  field_name = none;
  replacement = codes "-";
  to_orgs = codes "*" ∷ [];
}

abbrev payload : Json
payload =
    obj
      (field (codes "password") (str (codes "x")) (field (codes "note") (str (codes "secret")) end))

abbrev both_rules : List EgressRule
both_rules = no_password ∷ no_secret ∷ []

apply_egress_lem_example :
    let kept = prune both_rules payload in
    let sent = apply_egress whole_text payload (codes "o") (some both_rules) in
    ((has_blocked whole_text both_rules kept ≡ true) × (is_err sent ≡ true))
    ⊎ ((has_blocked whole_text both_rules kept ≡ false)
        × ((t : List Text) × (sent ≡ ok (redacted whole_text both_rules kept, t)))
        × (keeps_dropped whole_text both_rules (redacted whole_text both_rules kept) ≡ false))
unfolding rules_for applies_to text_beq
apply_egress_lem_example =
    apply_egress_lem whole_text payload (codes "o") both_rules no_password (no_secret ∷ []) refl
