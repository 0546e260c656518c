-- ===== src/Assurance/Approval.antt =====
-- sdk-python/intermesh/assurance/approval.py: what a human has let pass, once. The store is the dict
-- of approvals; `_save` writes it to disk and is not modelled. `now` is the given time, else `ms`.
pub mod Single
mod Tests
use intermesh.Prelude.{
  ℕ, ◌+◌, Text, Bool, true, false, not, ◌||◌, Option, none, some, List, [], ◌∷◌, ltb, ◌==◌, text_eq,
  if◌then◌else◌,
}
use intermesh.Prelude.Dict.{Dict, lookup, insert}
use intermesh.Prelude.Exec.{Result, ok, err, Exec, pure, read, need, ◌>>=◌, ◌>>◌, raise_if, modify}
use intermesh.Assurance.Policy.{upper}

pub record Approval : Type 0 where
  pub action_id : Text
  pub method : Text
  pub target : Text
  pub approved_by : Text
  pub approved_at : ℕ
  pub expires_at : ℕ
  pub used_at : Option ℕ

-- `ApprovalError` by its cause.
pub data ApprovalError : Type 0 where
  unknown_approval already_used expired other_action : ApprovalError

abbrev pub Store : Type 0
Store = Dict Text Approval

abbrev pub Action : Type 0 → Type 0
Action = Exec Store ApprovalError

unfoldable pub is_spent : Approval → Bool
is_spent a = elim a.used_at [ none ↦ false | some t ↦ true ]

unfoldable pub is_expired : Approval → ℕ → Bool
is_expired a now = ltb a.expires_at now

-- `now if now is not None else now_ms()`
unfoldable pub moment : ℕ → Option ℕ → ℕ
moment ms none = ms
moment ms (some now) = now

-- `grant`
unfoldable pub grant : ℕ → Text → Text → Text → Text → ℕ → Store → Approval × Store
grant ms action_id method target approved_by ttl_ms s =
    let a : Approval = record {
      action_id = action_id;
      method = upper method;
      target = target;
      approved_by = approved_by;
      approved_at = ms;
      expires_at = ms + ttl_ms;
      used_at = none;
    } in
    (a, insert action_id a s)

-- `consume`
unfoldable pub consume : ℕ → Text → Text → Text → Option ℕ → Action Approval
unfolding is_spent is_expired moment
consume ms action_id method target now = do
  found ← read (lookup action_id)
  a ← need unknown_approval found
  raise_if (is_spent a) already_used
  raise_if (is_expired a (moment ms now)) expired
  raise_if (not (a.method == upper method) || not (a.target == target)) other_action
  let used : Approval = record a { used_at = some (moment ms now) }
  modify (insert action_id used)
  pure used
