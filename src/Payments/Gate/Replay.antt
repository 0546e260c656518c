-- ===== src/Payments/Gate/Replay.antt =====
-- That a proof settles one request of sdk-python/intermesh/server/gate.py at most.
use intermesh.Prelude.{
  ℕ, Text, ◌≡◌, ◌≢◌, inl, inr, true, Option, List, [], ◌∷◌, arith, contains, text_eq, text_beq_iff,
  contains-append,
}
use intermesh.Prelude.Exec.{Result, ok}
use intermesh.Payments.Price.{Raw}
use intermesh.Payments.Proof.{Crypto}
use intermesh.Payments.Ledger.History.{charge_seen, charge-nonces}
use intermesh.Payments.Ledger.Outcome.{charge-IsCharged}
use intermesh.Payments.Gate.{GateError, PaymentGate, Settled, Source, admit}
use intermesh.Payments.Gate.Admission.{admit-IsAdmitted, admit-IsLedgerStep}

-- A request that reaches the gate.
pub record Request : Type 0 where
  pub src : Source
  pub resource : Text
  pub asked : Raw
  pub header : Option Text
  pub now : Option ℕ

module _ {Key : Type 0} (lib : Crypto Key) where
  abbrev pub answer : Request → PaymentGate Key → Result GateError Settled × PaymentGate Key
  answer r g = admit lib r.src r.resource r.asked r.header r.now g

  unfoldable pub serve : PaymentGate Key → List Request → PaymentGate Key
  serve g [] = g
  serve g (r ∷ rs) = serve (answer r g).1 rs

  answer-nonces :
      (n : Text) (r : Request) (g : PaymentGate Key)
      → contains n g.ledger.seen_nonces ≡ true
      → contains n (answer r g).1.ledger.seen_nonces ≡ true
  answer-nonces n r g h = elim (admit-IsLedgerStep lib r.src r.now r.resource r.asked r.header g) [
    | inl e ↦ rw e h
    | inr (p, e, _) ↦ rw e (charge-nonces r.src.env r.src.time r.src.ms p r.now g.ledger n h)
  ]

  serve-nonces :
      (n : Text) (rs : List Request) (g : PaymentGate Key)
      → contains n g.ledger.seen_nonces ≡ true
      → contains n (serve g rs).ledger.seen_nonces ≡ true
  unfolding serve
  serve-nonces n [] g h = h
  serve-nonces n (r ∷ rs) g h = serve-nonces n rs (answer r g).1 (answer-nonces n r g h)

  -- Once a request was settled, no later one is settled by a proof with the same nonce, whatever
  -- requests come between, and even if the gate should issue the nonce again.
  pub settled_once :
      (r q : Request) (rs : List Request) (g g' g'' : PaymentGate Key) (s t : Settled)
      → answer r g ≡ (ok s, g')
      → answer q (serve g' rs) ≡ (ok t, g'')
      → t.proof.nonce ≢ s.proof.nonce
  settled_once r q rs g g' g'' s t first second same =
      let (_, _, a) = admit-IsAdmitted lib r.src r.resource r.asked r.header r.now g g' s first in
      let (_, _, b) =
        admit-IsAdmitted lib q.src q.resource q.asked q.header q.now (serve g' rs) g'' t second in
      let nonces =
        (charge-IsCharged r.src.env r.src.time r.src.ms s.proof r.now g.ledger g'.ledger a.entry
          a.entered).nonces in
      let seen : contains s.proof.nonce g'.ledger.seen_nonces ≡ true = rw nonces (
        ground (
          arith,
          contains-append s.proof.nonce g.ledger.seen_nonces (s.proof.nonce ∷ []),
          text_beq_iff s.proof.nonce s.proof.nonce,
        )) in
      let refused =
        charge_seen q.src.env q.src.time q.src.ms t.proof q.now (serve g' rs).ledger
          (rw same (serve-nonces s.proof.nonce rs g' seen)) in
      cc (refused, b.entered)
