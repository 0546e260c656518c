-- ===== src/Egress/Filter.antt =====
-- `apply_egress` of sdk-python/intermesh/egress.py against its description in three passes.
use intermesh.Prelude.{
  Text, ◌≡◌, refl, ◌⊎◌, inl, inr, Bool, true, false, ◌||◌, none, some, List, [], ◌∷◌, arith,
  Option-cases,
}
use intermesh.Prelude.Json.{
  Json, Items, Fields, null, bool, int, float, str, arr, obj, nil, cons, end, field,
}
use intermesh.Prelude.Exec.{Result, ok, err, is_err}
use intermesh.Prelude.Results.{◌>>=◌}
use intermesh.Egress.{
  EgressAction, redact, drop, block, EgressRule, Regex, at_key, dropping, blocking, redacting,
  redact_step, add_name, visit, visit_items, visit_fields, visit_text, rules_for, apply_egress,
}

-- The description: which members stay.
unfoldable mutual
  pub prune : List EgressRule → Json → Json
  prune rules (arr xs) = arr (prune_items rules xs)
  prune rules (obj f) = obj (prune_fields rules f)
  prune rules j = j

  pub prune_items : List EgressRule → Items → Items
  prune_items rules nil = nil
  prune_items rules (cons x xs) = cons (prune rules x) (prune_items rules xs)

  pub prune_fields : List EgressRule → Fields → Fields
  prune_fields rules end = end
  prune_fields rules (field k v f) =
      at_key (dropping rules k) (λ r. prune_fields rules f)
        (field k (prune rules v) (prune_fields rules f))

action_cases : (a : EgressAction) → (a ≡ redact) ⊎ (a ≡ drop) ⊎ (a ≡ block)
action_cases redact = inl refl
action_cases drop = inr (inl refl)
action_cases block = inr (inr refl)

-- The outcome of a visit: it is stopped, or it returns this value.
abbrev IsFiltered : {A : Type 0} → Bool → A → Result Text (A × List Text) → Type 0
IsFiltered bad a r =
    ((bad ≡ true) × (is_err r ≡ true)) ⊎ ((bad ≡ false) × ((t : List Text) × (r ≡ ok (a, t))))

then_make :
    {A B : Type 0} (g : A → B) (bad : Bool) (a : A) (r : Result Text (A × List Text))
    → IsFiltered bad a r
    → IsFiltered bad (g a) (r >>= λ p. ok (g p.0, p.1))
then_make g bad a (ok p) (inl (b, wrong)) = ground arith
then_make g bad a (err e) (inl (b, stopped)) = inl (b, refl)
then_make g bad a r (inr (b, (t, done))) = rw done (inr (b, (t, refl)))

then_both :
    {A B C : Type 0} (g : A → B → C) (bad worse : Bool) (a : A) (b : B)
    → (r : Result Text (A × List Text)) (k : List Text → Result Text (B × List Text))
    → IsFiltered bad a r
    → ((t : List Text) → IsFiltered worse b (k t))
    → IsFiltered (bad || worse) (g a b) (r >>= λ p. k p.1 >>= λ q. ok (g p.0 q.0, q.1))
then_both g bad worse a b (ok p) k (inl (h, wrong)) next = ground arith
then_both g bad worse a b (err e) k (inl (h, stopped)) next = inl (rw h refl, refl)
then_both g bad worse a b r k (inr (h, (t, done))) next =
    rw (h, done) (then_make (g a) worse b (k t) (next t))

module _ (re : Regex) (rules : List EgressRule) where
  abbrev is_blocked : Text → Bool
  is_blocked s = elim (blocking re rules rules s) [ none ↦ false | some r ↦ true ]

  -- A text of the value is blocked.
  unfoldable mutual
    pub has_blocked : Json → Bool
    has_blocked (str s) = elim (blocking re rules rules s) [ none ↦ false | some r ↦ true ]
    has_blocked (arr xs) = items_blocked xs
    has_blocked (obj f) = fields_blocked f
    has_blocked j = false

    pub items_blocked : Items → Bool
    items_blocked nil = false
    items_blocked (cons x xs) = has_blocked x || items_blocked xs

    pub fields_blocked : Fields → Bool
    fields_blocked end = false
    fields_blocked (field k v f) = has_blocked v || fields_blocked f

  -- Every text goes through the redacting rules.
  unfoldable mutual
    pub redacted : Json → Json
    redacted (str s) = str (redacting re rules rules (s, [])).0
    redacted (arr xs) = arr (redacted_items xs)
    redacted (obj f) = obj (redacted_fields f)
    redacted j = j

    pub redacted_items : Items → Items
    redacted_items nil = nil
    redacted_items (cons x xs) = cons (redacted x) (redacted_items xs)

    pub redacted_fields : Fields → Fields
    redacted_fields end = end
    redacted_fields (field k v f) = field k (redacted v) (redacted_fields f)

  -- The names triggered before do not change the text.
  step_text :
      (r : EgressRule) (s : Text) (t t' : List Text)
      → (redact_step re rules r (s, t)).0 ≡ (redact_step re rules r (s, t')).0
  unfolding redact_step
  step_text r s t t' = elim (action_cases r.action) [
    | inl is_redact ↦ elim (Option-cases r.pattern) [
      | inl absent ↦ rw (redact_step, is_redact, absent) refl
      | inr (p, there) ↦ ground arith
    ]
    | inr (inl is_drop) ↦ rw (redact_step, is_drop) refl
    | inr (inr is_block) ↦ rw (redact_step, is_block) refl
  ]

  redacting_text :
      (rs : List EgressRule) (p q : Text × List Text)
      → p.0 ≡ q.0
      → (redacting re rules rs p).0 ≡ (redacting re rules rs q).0
  unfolding redacting
  redacting_text [] p q same = same
  redacting_text (r ∷ rs) (s, t) (s', t') same =
      redacting_text rs _ _ (rw same (step_text r s' t t'))

  visit_kept :
      (k : Text) (v : Json) (f : Fields) (t : List Text)
      → dropping rules k ≡ none
      → (visit_fields re rules (field k v f) t ≡ (
          visit re rules v t >>= λ p.
          visit_fields re rules f p.1 >>= λ q. ok (field k p.0 q.0, q.1)))
        × (prune_fields rules (field k v f) ≡ field k (prune rules v) (prune_fields rules f))
  unfolding visit prune at_key
  visit_kept k v f t kept = (rw (visit_fields, kept) refl, rw (prune_fields, kept) refl)

  visit_dropped :
      (k : Text) (v : Json) (f : Fields) (t : List Text) (r : EgressRule)
      → dropping rules k ≡ some r
      → (visit_fields re rules (field k v f) t ≡ visit_fields re rules f (add_name r.name t))
        × (prune_fields rules (field k v f) ≡ prune_fields rules f)
  unfolding visit prune at_key
  visit_dropped k v f t r gone = (rw (visit_fields, gone) refl, rw (prune_fields, gone) refl)

  mutual
    unfolding visit prune has_blocked redacted visit_text

    visit_lem :
        (j : Json) (t : List Text)
        → IsFiltered (has_blocked (prune rules j)) (redacted (prune rules j)) (visit re rules j t)
    visit_lem null t = inr (refl, (t, refl))
    visit_lem (bool b) t = inr (refl, (t, refl))
    visit_lem (int i) t = inr (refl, (t, refl))
    visit_lem (float f) t = inr (refl, (t, refl))
    visit_lem (str s) t = elim (Option-cases (blocking re rules rules s)) [
      | inl free ↦
          rw (has_blocked, visit_text, free)
            (inr (
              refl,
              (
                (redacting re rules rules (s, t)).1,
                rw (redacting_text rules (s, []) (s, t) refl) refl,
              ),
            ))
      | inr (r, stop) ↦ rw (has_blocked, visit_text, stop) (inl (refl, refl))
    ]
    visit_lem (arr xs) t = then_make arr _ _ _ (items_lem xs t)
    visit_lem (obj f) t = then_make obj _ _ _ (fields_lem f t)

    items_lem :
        (xs : Items) (t : List Text)
        → IsFiltered
            (items_blocked (prune_items rules xs))
            (redacted_items (prune_items rules xs))
            (visit_items re rules xs t)
    items_lem nil t = inr (refl, (t, refl))
    items_lem (cons x xs) t =
        then_both cons _ _ _ _ _ (visit_items re rules xs) (visit_lem x t) (items_lem xs)

    fields_lem :
        (f : Fields) (t : List Text)
        → IsFiltered
            (fields_blocked (prune_fields rules f))
            (redacted_fields (prune_fields rules f))
            (visit_fields re rules f t)
    fields_lem end t = inr (refl, (t, refl))
    fields_lem (field k v f) t = elim (Option-cases (dropping rules k)) [
      | inl kept ↦
          rw ((visit_kept k v f t kept).0, (visit_kept k v f t kept).1)
            (then_both (field k) _ _ _ _ _ (visit_fields re rules f) (visit_lem v t) (fields_lem f))
      | inr (r, gone) ↦
          rw ((visit_dropped k v f t r gone).0, (visit_dropped k v f t r gone).1)
            (fields_lem f (add_name r.name t))
    ]

  -- A key somewhere in the value is one that a rule drops.
  unfoldable mutual
    pub keeps_dropped : Json → Bool
    keeps_dropped (arr xs) = items_dropped xs
    keeps_dropped (obj f) = fields_dropped f
    keeps_dropped j = false

    pub items_dropped : Items → Bool
    items_dropped nil = false
    items_dropped (cons x xs) = keeps_dropped x || items_dropped xs

    pub fields_dropped : Fields → Bool
    fields_dropped end = false
    fields_dropped (field k v f) =
        at_key (dropping rules k) (λ r. true) false || (keeps_dropped v || fields_dropped f)

  mutual
    unfolding prune redacted keeps_dropped at_key

    none_dropped : (j : Json) → keeps_dropped (redacted (prune rules j)) ≡ false
    none_dropped null = refl
    none_dropped (bool b) = refl
    none_dropped (int i) = refl
    none_dropped (float f) = refl
    none_dropped (str s) = refl
    none_dropped (arr xs) = items_clear xs
    none_dropped (obj f) = fields_clear f

    items_clear : (xs : Items) → items_dropped (redacted_items (prune_items rules xs)) ≡ false
    items_clear nil = refl
    items_clear (cons x xs) = ground (arith, none_dropped x, items_clear xs)

    fields_clear : (f : Fields) → fields_dropped (redacted_fields (prune_fields rules f)) ≡ false
    fields_clear end = refl
    fields_clear (field k v f) = elim (Option-cases (dropping rules k)) [
      | inl kept ↦
          rw ((visit_kept k v f [] kept).1, fields_dropped, kept)
            (ground (arith, none_dropped v, fields_clear f))
      | inr (r, gone) ↦ rw (visit_dropped k v f [] r gone).1 (fields_clear f)
    ]

-- Where there are rules for the target, sending a payload is stopped exactly if a text of it that is
-- under no dropped key is blocked; else the target gets the payload without the dropped members and
-- with every text redacted, in which no dropped key is left at any depth.
pub apply_egress_lem :
    (re : Regex) (payload : Json) (org : Text) (rules : List EgressRule)
    → (r : EgressRule) (rs : List EgressRule) → rules_for rules org ≡ r ∷ rs
    → let kept = prune (r ∷ rs) payload in
      let sent = apply_egress re payload org (some rules) in
      ((has_blocked re (r ∷ rs) kept ≡ true) × (is_err sent ≡ true))
      ⊎ ((has_blocked re (r ∷ rs) kept ≡ false)
          × ((t : List Text) × (sent ≡ ok (redacted re (r ∷ rs) kept, t)))
          × (keeps_dropped re (r ∷ rs) (redacted re (r ∷ rs) kept) ≡ false))
unfolding apply_egress
apply_egress_lem re payload org rules r rs some_rule = elim (visit_lem re (r ∷ rs) payload []) [
  | inl (bad, stopped) ↦ inl (bad, rw (apply_egress, some_rule) stopped)
  | inr (free, done) ↦
      inr (free, rw (apply_egress, some_rule) done, none_dropped re (r ∷ rs) payload)
]
