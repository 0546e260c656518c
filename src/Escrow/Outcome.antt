-- ===== src/Escrow/Outcome.antt =====
-- How the calls of sdk-python/intermesh/escrow.py may end: refused with nothing changed, or done.
use intermesh.Prelude.{
  ℕ, Text, ◌≡◌, ◌⊎◌, inl, inr, refl, Bool, true, false, none, some, arith, text_eq, pair_eq,
  Option-cases,
}
use intermesh.Prelude.Int.{ℤ, pos, ◌-ℤ◌, ◌≤ℤ◌}
use intermesh.Prelude.Dict.{lookup, insert}
use intermesh.Prelude.Json.{Json}
use intermesh.Prelude.Exec.{ok, is_err}
use intermesh.Escrow.{
  EscrowStatus, held, released, refunded, EscrowHold, Escrow, balance, credit, create_hold, release,
  refund, empty_text, is_held,
}

held-cases : (x : EscrowStatus) → (x ≡ held) ⊎ (is_held x ≡ false)
held-cases held = inl refl
held-cases released = inr refl
held-cases refunded = inr refl

-- What a new hold records.
abbrev pub new_hold : Text → ℕ → Text → Text → Text → ℤ → Text → Bool → Json → EscrowHold
new_hold fresh now task payer payee amount c auto meta = record {
  hold_id = fresh;
  task_id = task;
  payer_org = payer;
  payee_org = payee;
  amount = amount;
  currency = c;
  status = held;
  auto_release = auto;
  created_at = now;
  resolved_at = none;
  metadata = meta;
}

pub create_hold_outcome :
    (fresh : Text) (now : ℕ) (task payer payee : Text) (amount : ℤ) (c : Text) (auto : Bool)
    (meta : Json) (s : Escrow)
    → let r = create_hold fresh now task payer payee amount c auto meta s in
      let h = new_hold fresh now task payer payee amount c auto meta in
      ((is_err r.0 ≡ true) × (r.1 ≡ s))
      ⊎ ((r.0 ≡ ok h)
          × (empty_text task ≡ false)
          × (lookup task s.holds ≡ none)
          × (pos 1 ≤ℤ amount)
          × (amount ≤ℤ balance payer c s.balances)
          × (r.1 ≡ record {
            balances = insert (payer, c) (balance payer c s.balances -ℤ amount) s.balances;
            holds = insert task h s.holds;
          }))
unfolding create_hold
create_hold_outcome fresh now task payer payee amount c auto meta s =
    elim (Option-cases (lookup task s.holds)) [
      | inr (h, old) ↦ inl (ground arith, ground arith)
      | inl new ↦ ground arith
    ]

-- The hold after a resolution.
abbrev pub resolved : EscrowHold → EscrowStatus → ℕ → EscrowHold
resolved h status now = record h { status = status; resolved_at = some now }

pub release_outcome :
    (now : ℕ) (task : Text) (s : Escrow)
    → let r = release now task s in
      ((is_err r.0 ≡ true) × (r.1 ≡ s))
      ⊎ ((h : EscrowHold) × (lookup task s.holds ≡ some h)
          × (h.status ≡ held)
          × (r.0 ≡ ok (resolved h released now))
          × (r.1 ≡ record {
            balances = credit h.payee_org h.amount h.currency s.balances;
            holds = insert task (resolved h released now) s.holds;
          }))
unfolding release
release_outcome now task s = elim (Option-cases (lookup task s.holds)) [
  | inl missing ↦ inl (ground arith, ground arith)
  | inr (h, found) ↦ elim (held-cases h.status) [
    | inl e ↦ inr (h, found, e, ground arith, ground arith)
    | inr e ↦ inl (ground arith, ground arith)
  ]
]

pub refund_outcome :
    (now : ℕ) (task : Text) (s : Escrow)
    → let r = refund now task s in
      ((is_err r.0 ≡ true) × (r.1 ≡ s))
      ⊎ ((h : EscrowHold) × (lookup task s.holds ≡ some h)
          × (h.status ≡ held)
          × (r.0 ≡ ok (resolved h refunded now))
          × (r.1 ≡ record {
            balances = credit h.payer_org h.amount h.currency s.balances;
            holds = insert task (resolved h refunded now) s.holds;
          }))
unfolding refund
refund_outcome now task s = elim (Option-cases (lookup task s.holds)) [
  | inl missing ↦ inl (ground arith, ground arith)
  | inr (h, found) ↦ elim (held-cases h.status) [
    | inl e ↦ inr (h, found, e, ground arith, ground arith)
    | inr e ↦ inl (ground arith, ground arith)
  ]
]
