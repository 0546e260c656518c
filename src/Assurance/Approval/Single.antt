-- ===== src/Assurance/Approval/Single.antt =====
-- What `consume` of sdk-python/intermesh/assurance/approval.py accepts, and that it does so once.
use intermesh.Prelude.{
  ℕ, Text, ◌≡◌, refl, sym, ◌∙◌, ◌⊎◌, inl, inr, Bool, true, false, not, ◌||◌, ◌&&◌, Option, some,
  arith, ◌==◌, text_eq, text_beq_iff, text_ne, List, [], ◌∷◌, Bool-cases, Option-cases,
}
use intermesh.Prelude.Dict.{lookup, insert, lookup-insert_self, lookup-insert_ne}
use intermesh.Prelude.Exec.{ok, err, is_err}
use intermesh.Assurance.Approval.{
  Approval, already_used, Store, is_spent, is_expired, moment, grant, consume,
}
use intermesh.Assurance.Policy.{upper}

-- The approval as `consume` files it.
abbrev pub spend : ℕ → Option ℕ → Approval → Approval
spend ms now a = record a { used_at = some (moment ms now) }

-- `consume` either raises and leaves the store as it was, or it finds an approval that is neither
-- used nor expired and was given for this very method and target, and it returns it and files it
-- as used, and changes no other.
pub consume_outcome :
    (ms : ℕ) (id method target : Text) (now : Option ℕ) (s : Store)
    → let r = consume ms id method target now s in
      ((is_err r.0 ≡ true) × (r.1 ≡ s))
      ⊎ ((a : Approval) × (lookup id s ≡ some a)
          × (is_spent a ≡ false)
          × (is_expired a (moment ms now) ≡ false)
          × (a.method ≡ upper method)
          × (a.target ≡ target)
          × (r.0 ≡ ok (spend ms now a))
          × (r.1 ≡ insert id (spend ms now a) s))
unfolding consume
consume_outcome ms id method target now s = elim (Option-cases (lookup id s)) [
  | inl missing ↦ inl (ground arith, ground arith)
  | inr (a, found) ↦ elim (Bool-cases (is_spent a)) [
    | inl spent ↦ inl (ground arith, ground arith)
    | inr fresh ↦ elim (Bool-cases (is_expired a (moment ms now))) [
      | inl late ↦ inl (ground arith, ground arith)
      | inr valid ↦ elim (Bool-cases (not (a.method == upper method) || not (a.target == target))) [
        | inl other ↦ inl (ground arith, ground arith)
        | inr same ↦ inr (
          a,
          found,
          fresh,
          valid,
          ground (arith, text_beq_iff a.method (upper method)),
          ground (arith, text_beq_iff a.target target),
          ground arith,
          ground arith,
        )
      ]
    ]
  ]
]

-- A call that may change the store.
pub data Call : Type 0 where
  grants : ℕ → Text → Text → Text → Text → ℕ → Call
  consumes : ℕ → Text → Text → Text → Option ℕ → Call

pub step : Store → Call → Store
step s (grants ms id method target by ttl) = (grant ms id method target by ttl s).1
step s (consumes ms id method target now) = (consume ms id method target now s).1

pub run : Store → List Call → Store
run s [] = s
run s (c ∷ cs) = run (step s c) cs

-- The call grants this action.
unfoldable pub regrants : Text → Call → Bool
regrants id (grants ms k method target by ttl) = id == k
regrants id (consumes ms k method target now) = false

unfoldable pub none_regrants : Text → List Call → Bool
none_regrants id [] = true
none_regrants id (c ∷ cs) = not (regrants id c) && none_regrants id cs

-- The store holds a used approval of the action.
abbrev pub IsUsed : Text → Store → Type 0
IsUsed id s = (a : Approval) × (lookup id s ≡ some a) × (is_spent a ≡ true)

spend-is_spent : (ms : ℕ) (now : Option ℕ) (a : Approval) → is_spent (spend ms now a) ≡ true
unfolding is_spent
spend-is_spent ms now a = refl

step-IsUsed :
    (id : Text) (s : Store) (c : Call) → regrants id c ≡ false → IsUsed id s → IsUsed id (step s c)
unfolding step regrants grant
step-IsUsed id s (grants ms k method target by ttl) other (a, found, used) =
    (a, lookup-insert_ne k id _ s (λ e. text_ne id k other (sym e)) ∙ found, used)
step-IsUsed id s (consumes ms k method target now) other (a, found, used) =
    elim (consume_outcome ms k method target now s) [
      | inl (_, e) ↦ rw e (a, found, used)
      | inr (b, there, fresh, _, _, _, _, e) ↦
          rw e (a, lookup-insert_ne k id _ s (λ same. ground arith) ∙ found, used)
    ]

run-IsUsed :
    (id : Text) (cs : List Call) (s : Store)
    → none_regrants id cs ≡ true
    → IsUsed id s
    → IsUsed id (run s cs)
unfolding run none_regrants
run-IsUsed id [] s h used = used
run-IsUsed id (c ∷ cs) s h used =
    run-IsUsed id cs (step s c) (ground arith) (step-IsUsed id s c (ground arith) used)

consume-IsUsed :
    (ms : ℕ) (id method target : Text) (now : Option ℕ) (s : Store)
    → IsUsed id s
    → consume ms id method target now s ≡ (err already_used, s)
unfolding consume
consume-IsUsed ms id method target now s (a, found, used) = ground arith

-- Once an approval has let an action pass, every later `consume` of that action raises
-- `already_used` and changes nothing, whatever calls stand between them, at whatever time and for
-- whatever method and target, as long as the action is not granted anew.
pub consumed_once :
    (ms : ℕ) (id method target : Text) (now : Option ℕ) (s : Store)
    → is_err (consume ms id method target now s).0 ≡ false
    → (cs : List Call) → none_regrants id cs ≡ true
    → (ms' : ℕ) (method' target' : Text) (now' : Option ℕ)
    → let later = run (consume ms id method target now s).1 cs in
      consume ms' id method' target' now' later ≡ (err already_used, later)
consumed_once ms id method target now s passed cs h ms' method' target' now' =
    consume-IsUsed ms' id method' target' now' _ (
      run-IsUsed id cs _ h (elim (consume_outcome ms id method target now s) [
        | inl (raised, _) ↦ absurd (ground arith)
        | inr (a, found, _, _, _, _, _, e) ↦
            rw e (spend ms now a, lookup-insert_self id (spend ms now a) s, spend-is_spent ms now a)
      ]))
