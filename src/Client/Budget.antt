-- ===== src/Client/Budget.antt =====
-- What the wallet of sdk-python/intermesh/client/wallet.py signs over a session.
use intermesh.Prelude.{
  ℕ, Text, ◌≡◌, refl, ◌∙◌, ◌⊎◌, inl, inr, false, Option, none, some, List, [], ◌∷◌, map, text_eq,
  text_beq_iff, ◌==◌, arith, Bool-cases, All,
}
use intermesh.Prelude.Int.{ℤ, pos, ◌+ℤ◌, ◌≤ℤ◌, ltb_ℤ, int_laws}
use intermesh.Prelude.Exec.{Result, ok, err, Result-cases}
use intermesh.Payments.Price.{Price, quantize}
use intermesh.Payments.Challenge.{PaymentChallenge, challenge_price, has_lapsed}
use intermesh.Payments.Proof.{Crypto, sign_proof}
use intermesh.Client.{
  unreadable, other_currency, lapsed, price_too_high, budget_exceeded, Wallet, WalletError,
  as_refusal, is_over, check_limits, authorize,
}

-- The amount is within the budget, if there is one.
abbrev pub IsWithin : Option Price → ℤ → Type 0
IsWithin none x = Unit
IsWithin (some b) x = x ≤ℤ b.amount

-- What a price must meet to be signed.
abbrev pub IsPayable : ℕ → PaymentChallenge → Wallet → Price → Type 0
IsPayable ms c w p =
    (challenge_price c ≡ ok p)
    × (p.currency ≡ w.currency)
    × (has_lapsed c ms ≡ false)
    × (p.amount ≤ℤ w.max_price.amount)
    × IsWithin w.budget (w.spent +ℤ p.amount)

is_over-IsWithin :
    (b : Option Price) (spent amount : ℤ)
    → is_over b spent amount ≡ false
    → IsWithin b (spent +ℤ amount)
unfolding is_over
is_over-IsWithin none spent amount h = tt
is_over-IsWithin (some b) spent amount h = ground arith

quantize_ok : (x y : ℤ) → quantize x ≡ ok y → y ≡ x
unfolding quantize
quantize_ok x y h = ground arith

add_zero : (a : ℤ) → a ≡ a +ℤ pos 0
add_zero a = grind int_laws

add_assoc : (a b c : ℤ) → (a +ℤ b) +ℤ c ≡ a +ℤ (b +ℤ c)
add_assoc a b c = grind int_laws

module _ {Key : Type 0} (lib : Crypto Key) where
  check_limits_lem :
      (ms : ℕ) (c : PaymentChallenge) (w : Wallet)
      → ((e : WalletError) × (check_limits lib ms c w ≡ err e))
        ⊎ ((p : Price) × IsPayable ms c w p
            × (check_limits lib ms c w ≡ ok (p, w.spent +ℤ p.amount)))
  unfolding check_limits as_refusal
  check_limits_lem ms c w = elim (Result-cases (challenge_price c)) [
    | inr (e, bad) ↦ inl (unreadable e, rw (check_limits, bad) refl)
    | inl (p, read) ↦ elim (Bool-cases (p.currency == w.currency)) [
      | inr other ↦ inl (other_currency, rw (check_limits, read, other) refl)
      | inl same ↦ elim (Bool-cases (has_lapsed c ms)) [
        | inl late ↦ inl (lapsed, rw (check_limits, read, same, late) refl)
        | inr live ↦ elim (Bool-cases (ltb_ℤ w.max_price.amount p.amount)) [
          | inl dear ↦ inl (price_too_high, rw (check_limits, read, same, live, dear) refl)
          | inr cheap ↦ elim (Bool-cases (is_over w.budget w.spent p.amount)) [
            | inl over ↦
                inl (budget_exceeded, rw (check_limits, read, same, live, cheap, over) refl)
            | inr under ↦ elim (Result-cases (quantize (w.spent +ℤ p.amount))) [
              | inr (e, huge) ↦
                  inl (unreadable e, rw (check_limits, read, same, live, cheap, under, huge) refl)
              | inl (x, exact) ↦ inr (
                p,
                (
                  read,
                  (text_beq_iff p.currency w.currency).0 same,
                  live,
                  ground arith,
                  is_over-IsWithin w.budget w.spent p.amount under,
                ),
                rw (check_limits, read, same, live, cheap, under, exact, quantize_ok _ _ exact)
                    refl,
              )
            ]
          ]
        ]
      ]
    ]
  ]

  -- A refusal leaves the wallet alone; a signature is for a price that meets the limits, and counts it.
  pub authorize_lem :
      (ms : ℕ) (c : PaymentChallenge) (w : Wallet)
      → ((e : WalletError) × (authorize lib ms c w ≡ (err e, w)))
        ⊎ ((p : Price) × IsPayable ms c w p
            × (authorize lib ms c w ≡ (
              ok (sign_proof lib ms c w.agent_id w.key),
              record w { spent = w.spent +ℤ p.amount },
            )))
  unfolding authorize
  authorize_lem ms c w = elim (check_limits_lem ms c w) [
    | inl (e, bad) ↦ inl (e, rw (authorize, bad) refl)
    | inr (p, payable, good) ↦ inr (p, payable, rw (authorize, good) refl)
  ]

  -- The challenges signed, with this one if there is a signature.
  unfoldable pub keep_signed :
      PaymentChallenge → Result WalletError Text → List PaymentChallenge → List PaymentChallenge
  keep_signed c (err e) cs = cs
  keep_signed c (ok header) cs = c ∷ cs

  -- A session: the wallet after it and the challenges for which `authorize` has returned a signature.
  unfoldable pub session : List (ℕ × PaymentChallenge) → Wallet → Wallet × List PaymentChallenge
  unfolding authorize keep_signed
  session [] w = (w, [])
  session ((ms, c) ∷ cs) w =
      let (r, w') = authorize lib ms c w in
      let rest = session cs w' in (rest.0, keep_signed c r rest.1)

  session_empty : (w : Wallet) → session [] w ≡ (w, [])
  unfolding session
  session_empty w = refl

  session_refused :
      (ms : ℕ) (c : PaymentChallenge) (cs : List (ℕ × PaymentChallenge)) (w : Wallet)
      (e : WalletError)
      → authorize lib ms c w ≡ (err e, w)
      → session ((ms, c) ∷ cs) w ≡ session cs w
  unfolding session keep_signed
  session_refused ms c cs w e bad = rw (session, bad) refl

  session_signed :
      (ms : ℕ) (c : PaymentChallenge) (cs : List (ℕ × PaymentChallenge)) (w w' : Wallet)
      (header : Text)
      → authorize lib ms c w ≡ (ok header, w')
      → session ((ms, c) ∷ cs) w ≡ ((session cs w').0, c ∷ (session cs w').1)
  unfolding session keep_signed
  session_signed ms c cs w w' header good = rw (session, good) refl

  -- The prices of the challenges, in their order.
  abbrev pub ArePrices : List PaymentChallenge → List Price → Type 0
  ArePrices cs ps = map (λ c. challenge_price c) cs ≡ map (λ p. ok p) ps

  unfoldable pub total : List Price → ℤ
  total [] = pos 0
  total (p ∷ ps) = p.amount +ℤ total ps

  -- Over any session the wallet signs only challenges with a price within its cap for one request,
  -- what it has spent grows by the sum of these prices, and a budget that was kept at the start is
  -- kept at the end.
  pub session-IsWithin :
      (cs : List (ℕ × PaymentChallenge)) (w : Wallet)
      → IsWithin w.budget w.spent
      → let r = session cs w in
        (ps : List Price) × ArePrices r.1 ps
        × (r.0.spent ≡ w.spent +ℤ total ps)
        × All (λ p. p.amount ≤ℤ w.max_price.amount) ps
        × IsWithin w.budget r.0.spent
  unfolding total
  session-IsWithin [] w h = rw (session_empty w) ([], refl, add_zero w.spent, tt, h)
  session-IsWithin ((ms, c) ∷ cs) w h = elim (authorize_lem ms c w) [
    | inl (e, bad) ↦ rw (session_refused ms c cs w e bad) (session-IsWithin cs w h)
    | inr (p, (read, same, live, cheap, within), good) ↦
        let next : Wallet = record w { spent = w.spent +ℤ p.amount } in
        let (ps, prices, grown, capped, kept) = session-IsWithin cs next within in
        rw (session_signed ms c cs w next _ good) (
          p ∷ ps,
          rw (read, prices) refl,
          grown ∙ add_assoc w.spent p.amount (total ps),
          (cheap, capped),
          kept,
        )
  ]
