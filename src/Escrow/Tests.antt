-- ===== src/Escrow/Tests.antt =====
-- A task paid for through the escrow, and the theorems of this component at it.
use intermesh.Prelude.{
  codes, ◌≡◌, refl, true, none, some, List, [], ◌∷◌, text_eq, pair_eq, text_beq, pair_beq,
}
use intermesh.Prelude.Int.{pos, ◌+ℤ◌, ◌-ℤ◌}
use intermesh.Prelude.Dict.{lookup, insert}
use intermesh.Prelude.Json.{obj, end}
use intermesh.Prelude.Exec.{ok}
use intermesh.Escrow.{held, released, EscrowHold, Escrow, balance, credit, create_hold, release}
use intermesh.Escrow.Outcome.{resolved}
use intermesh.Escrow.Lifecycle.{
  Call, grants, creates, releases, refunds, run, IsClosed, resolved_for_good,
}

abbrev hold : EscrowHold
hold = record {
  hold_id = codes "id";
  task_id = codes "t";
  payer_org = codes "p";
  payee_org = codes "q";
  amount = pos 30;
  currency = codes "USD";
  status = held;
  auto_release = true;
  created_at = 4;
  resolved_at = none;
  metadata = obj end;
}

abbrev empty : Escrow
empty = record { balances = []; holds = [] }

abbrev paying : Escrow
paying = record {
  balances = ((codes "p", codes "USD"), pos 70) ∷ [];
  holds = (codes "t", hold) ∷ [];
}

abbrev paid : Escrow
paid = record {
  balances = ((codes "p", codes "USD"), pos 70) ∷ ((codes "q", codes "USD"), pos 30) ∷ [];
  holds = (codes "t", resolved hold released 9) ∷ [];
}

release_runs : release 9 (codes "t") paying ≡ (ok (resolved hold released 9), paid)
unfolding release credit lookup insert text_beq pair_beq ◌+ℤ◌
release_runs = refl

create_runs :
    create_hold
      (codes "id")
      4
      (codes "t")
      (codes "p")
      (codes "q")
      (pos 30)
      (codes "USD")
      true
      (obj end)
      (record { balances = ((codes "p", codes "USD"), pos 100) ∷ []; holds = [] })
    ≡ (ok hold, paying)
unfolding create_hold balance lookup insert text_beq pair_beq ◌-ℤ◌
create_runs = refl

abbrev calls : List Call
calls =
    grants (codes "p") (pos 100) (codes "USD")
    ∷ creates (codes "id") 4 (codes "t") (codes "p") (codes "q") (pos 30) (codes "USD") true
        (obj end)
    ∷ releases 9 (codes "t")
    ∷ refunds 10 (codes "t")
    ∷ []

resolved_for_good_example :
    let last = run paid (refunds 10 (codes "t") ∷ []) in
    (lookup (codes "t") last.holds ≡ some (resolved hold released 9))
    × IsClosed (codes "t") (resolved hold released 9) last
unfolding lookup text_beq
resolved_for_good_example =
    resolved_for_good (codes "t") (resolved hold released 9) paid (refunds 10 (codes "t") ∷ []) refl
      refl
