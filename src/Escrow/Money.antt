-- ===== src/Escrow/Money.antt =====
-- Where the money is under the calls of sdk-python/intermesh/escrow.py: in balances, or in holds
-- that are not resolved yet.
use intermesh.Prelude.{
  ℕ, Text, ◌≡◌, ◌∙◌, ap, refl, inl, inr, Bool, false, none, some, [], ◌∷◌, arith, ◌==◌, text_eq,
  pair_eq, pair_beq_iff, if◌then◌else◌, Bool-cases,
}
use intermesh.Prelude.Int.{ℤ, pos, ◌+ℤ◌, ◌-ℤ◌, int_laws}
use intermesh.Prelude.Dict.{Dict, lookup, insert}
use intermesh.Prelude.Json.{Json}
use intermesh.Escrow.Outcome.{new_hold, create_hold_outcome, release_outcome, refund_outcome}
use intermesh.Escrow.{
  held, EscrowHold, Balances, Escrow, balance, credit, create_hold, release, refund, is_held,
}

-- `amount` if it is in the currency `cur`, else 0.
pub share : Text → Text → ℤ → ℤ
share cur c amount = if c == cur then amount else pos 0

-- The sum of the balances in one currency.
abbrev pub total : Text → Balances → ℤ
total cur [] = pos 0
total cur ((k, x) ∷ b) = share cur k.1 x +ℤ total cur b

-- What a hold still keeps back in one currency.
pub kept : Text → EscrowHold → ℤ
kept cur h = if is_held h.status then share cur h.currency h.amount else pos 0

abbrev pub total_kept : Text → Dict Text EscrowHold → ℤ
total_kept cur [] = pos 0
total_kept cur ((k, h) ∷ d) = kept cur h +ℤ total_kept cur d

-- All the money in one currency.
abbrev pub funds : Text → Escrow → ℤ
funds cur s = total cur s.balances +ℤ total_kept cur s.holds

share-sub : (cur c : Text) (x y : ℤ) → share cur c (x -ℤ y) +ℤ share cur c y ≡ share cur c x
unfolding share
share-sub cur c x y = elim (Bool-cases (c == cur)) [
  | inl e ↦ rw e (grind int_laws)
  | inr e ↦ rw e (grind int_laws)
]

share-add : (cur c : Text) (x y : ℤ) → share cur c (x +ℤ y) ≡ share cur c x +ℤ share cur c y
unfolding share
share-add cur c x y = elim (Bool-cases (c == cur)) [
  | inl e ↦ rw e (grind int_laws)
  | inr e ↦ rw e (grind int_laws)
]

share_zero : (cur c : Text) → share cur c (pos 0) ≡ pos 0
unfolding share
share_zero cur c = ground arith

total-insert :
    (cur org c : Text) (x : ℤ) (b : Balances)
    → total cur (insert (org, c) x b) +ℤ share cur c (balance org c b)
      ≡ total cur b +ℤ share cur c x
unfolding insert balance lookup
total-insert cur org c x [] = rw (share_zero cur c) (grind int_laws)
total-insert cur org c x ((k, y) ∷ b) = elim (Bool-cases (k == (org, c))) [
  | inl same ↦
      let e : k.1 ≡ c = ap (λ (t : Text × Text). t.1) ((pair_beq_iff k (org, c)).0 same) in
      rw (same, e) (grind int_laws)
  | inr differ ↦ rw differ (grind (int_laws, total-insert cur org c x b))
]

pub total-credit :
    (cur org c : Text) (amount : ℤ) (b : Balances)
    → total cur (credit org amount c b) ≡ total cur b +ℤ share cur c amount
unfolding credit
total-credit cur org c amount b =
    cancel_mid _ _ _ _ _ (share-add cur c (balance org c b) amount)
      (total-insert cur org c (balance org c b +ℤ amount) b)
  where
    cancel_mid : (t' b t a d : ℤ) → d ≡ b +ℤ a → t' +ℤ b ≡ t +ℤ d → t' ≡ t +ℤ a
    cancel_mid t' b t a d e f = grind int_laws

total_taken :
    (cur org c : Text) (amount : ℤ) (b : Balances)
    → total cur (insert (org, c) (balance org c b -ℤ amount) b) +ℤ share cur c amount ≡ total cur b
total_taken cur org c amount b =
    cancel_pair _ _ _ _ _ (share-sub cur c (balance org c b) amount)
      (total-insert cur org c (balance org c b -ℤ amount) b)
  where
    cancel_pair : (t' b t a d : ℤ) → d +ℤ a ≡ b → t' +ℤ b ≡ t +ℤ d → t' +ℤ a ≡ t
    cancel_pair t' b t a d e f = grind int_laws

total_kept-insert_new :
    (cur k : Text) (h : EscrowHold) (d : Dict Text EscrowHold)
    → lookup k d ≡ none
    → total_kept cur (insert k h d) ≡ total_kept cur d +ℤ kept cur h
unfolding lookup insert
total_kept-insert_new cur k h [] e = grind int_laws
total_kept-insert_new cur k h ((j, g) ∷ d) e = elim (Bool-cases (j == k)) [
  | inl same ↦ absurd (ground arith)
  | inr differ ↦ rw differ (grind (int_laws, total_kept-insert_new cur k h d (ground arith)))
]

total_kept-insert :
    (cur k : Text) (h old : EscrowHold) (d : Dict Text EscrowHold)
    → lookup k d ≡ some old
    → total_kept cur (insert k h d) +ℤ kept cur old ≡ total_kept cur d +ℤ kept cur h
unfolding lookup insert
total_kept-insert cur k h old [] e = cc
total_kept-insert cur k h old ((j, g) ∷ d) e = elim (Bool-cases (j == k)) [
  | inl same ↦ let o : g ≡ old = ground arith in rw (same, o) (grind int_laws)
  | inr differ ↦ rw differ (grind (int_laws, total_kept-insert cur k h old d (ground arith)))
]

kept_held :
    (cur : Text) (h : EscrowHold) → h.status ≡ held → kept cur h ≡ share cur h.currency h.amount
unfolding kept
kept_held cur h e = ground arith

kept_done : (cur : Text) (h : EscrowHold) → is_held h.status ≡ false → kept cur h ≡ pos 0
unfolding kept
kept_done cur h e = ground arith

-- Whatever `create_hold` does, the money stays: what leaves the payer's balance is held.
pub create_hold-funds :
    (fresh : Text) (now : ℕ) (task payer payee : Text) (amount : ℤ) (c : Text) (auto : Bool)
    (meta : Json) (s : Escrow) (cur : Text)
    → funds cur (create_hold fresh now task payer payee amount c auto meta s).1 ≡ funds cur s
create_hold-funds fresh now task payer payee amount c auto meta s cur =
    elim (create_hold_outcome fresh now task payer payee amount c auto meta s) [
      | inl (_, e) ↦ rw e
      | inr (_, _, new, _, _, e) ↦
          let h = new_hold fresh now task payer payee amount c auto meta in
          rw e (
            moved _ _ _ _ _ (total_taken cur payer c amount s.balances) (
              total_kept-insert_new cur task h s.holds new
              ∙ ap (λ x. total_kept cur s.holds +ℤ x) (kept_held cur h refl)))
    ]
  where
    moved : (t' a t k' k : ℤ) → t' +ℤ a ≡ t → k' ≡ k +ℤ a → t' +ℤ k' ≡ t +ℤ k
    moved t' a t k' k e f = grind int_laws

-- A hold that is paid out, to whomever, leaves the held sum and enters a balance.
paid_out :
    (task org : Text) (h h' : EscrowHold) (s : Escrow) (cur : Text)
    → lookup task s.holds ≡ some h
    → h.status ≡ held
    → is_held h'.status ≡ false
    → total cur (credit org h.amount h.currency s.balances)
        +ℤ total_kept cur (insert task h' s.holds)
      ≡ funds cur s
paid_out task org h h' s cur found unresolved done =
    moved _ _ _ _ _ _ _ (total-credit cur org h.currency h.amount s.balances)
      (total_kept-insert cur task h' h s.holds found) (kept_held cur h unresolved)
      (kept_done cur h' done)
  where
    moved :
        (t' t a k' k o n : ℤ)
        → t' ≡ t +ℤ a
        → k' +ℤ o ≡ k +ℤ n
        → o ≡ a
        → n ≡ pos 0
        → t' +ℤ k' ≡ t +ℤ k
    moved t' t a k' k o n e f g i = grind int_laws

pub release-funds :
    (now : ℕ) (task : Text) (s : Escrow) (cur : Text)
    → funds cur (release now task s).1 ≡ funds cur s
release-funds now task s cur = elim (release_outcome now task s) [
  | inl (_, e) ↦ rw e
  | inr (h, found, unresolved, _, e) ↦
      rw e (paid_out task h.payee_org h _ s cur found unresolved refl)
]

pub refund-funds :
    (now : ℕ) (task : Text) (s : Escrow) (cur : Text)
    → funds cur (refund now task s).1 ≡ funds cur s
refund-funds now task s cur = elim (refund_outcome now task s) [
  | inl (_, e) ↦ rw e
  | inr (h, found, unresolved, _, e) ↦
      rw e (paid_out task h.payer_org h _ s cur found unresolved refl)
]
