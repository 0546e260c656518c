-- ===== src/TaskApproval/First.antt =====
-- The rule of sdk-python/intermesh/approval.py that suspends a task is the first that matches it.
use intermesh.Prelude.{
  Text, codes, ◌≡◌, ◌⊎◌, Bool, true, false, Option, none, some, List, ◌∷◌, ◌++◌, All, text_eq,
}
use intermesh.Prelude.Int.{ℤ, pos}
use intermesh.Prelude.Json.{Json, Fields}
use intermesh.Assurance.Evidence.Verify.{is_falsy}
use intermesh.Prelude.Results.{get}
use intermesh.TaskApproval.{ApprovalRule, Lib, matches, payload_text, shown}

module _ (lib : Lib) where
  -- What `requires_approval` hands to `matches`.
  abbrev pub Suspends : Fields → List Text → Bool → ℤ → ApprovalRule → Bool → Type 0
  Suspends task caps cross cost r b =
      matches lib r (shown lib.show (get (codes "assignee") task)) caps (payload_text lib task) cost
        cross
      ≡ b

  -- What a task costs: the number that `float` reads, or 0 where there is none to read.
  abbrev pub IsCost : Option Json → ℤ → Type 0
  IsCost o c =
      ((o ≡ none) × (c ≡ pos 0))
      ⊎ ((j : Json) × (o ≡ some j)
          × (((is_falsy j ≡ true) × (c ≡ pos 0))
              ⊎ ((is_falsy j ≡ false) × (lib.to_float j ≡ some c))
              ⊎ ((is_falsy j ≡ false) × (lib.to_float j ≡ none) × (c ≡ pos 0))))

  -- `float` raises an OverflowError on it.
  abbrev pub IsHuge : Option Json → Type 0
  IsHuge o = (j : Json) × (o ≡ some j) × (is_falsy j ≡ false) × (lib.overflows j ≡ true)

  -- What the rules of a policy decide on a task of this cost.
  abbrev pub IsDecided :
      Fields → List Text → Bool → ℤ → List ApprovalRule → Option ApprovalRule → Type 0
  IsDecided task caps cross c rs result =
      (All (λ r. Suspends task caps cross c r false) rs × (result ≡ none))
      ⊎ ((r : ApprovalRule) × (before : List ApprovalRule) × (after : List ApprovalRule) × (rs
            ≡ before ++ r ∷ after)
          × All (λ q. Suspends task caps cross c q false) before
          × Suspends task caps cross c r true
          × (result ≡ some r))
