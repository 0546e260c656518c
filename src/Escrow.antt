-- ===== src/Escrow.antt =====
-- sdk-python/intermesh/escrow.py: one hold per task, from the payer's balance to the payee or
-- back. Amounts are exact integers of a smallest unit, where the source has floats; times are
-- whole numbers; the fresh identifier and the time of a call are arguments.
pub mod Outcome
pub mod Money
pub mod Lifecycle
mod Tests
use intermesh.Prelude.{
  ℕ, Text, codes, Bool, true, false, not, ◌||◌, Option, none, some, List, [], ◌∷◌, map, ◌==◌,
  text_eq, pair_eq, if◌then◌else◌,
}
use intermesh.Prelude.Int.{ℤ, pos, ◌+ℤ◌, ◌-ℤ◌, ltb_ℤ, leb_ℤ}
use intermesh.Prelude.Dict.{Dict, lookup, insert, has_key}
use intermesh.Prelude.Json.{Json}
use intermesh.Prelude.Exec.{Result, ok, err, Exec, pure, read, need, ◌>>=◌, ◌>>◌, raise_if, modify}

pub data EscrowStatus : Type 0 where
  held released refunded : EscrowStatus

pub record EscrowHold : Type 0 where
  pub hold_id : Text
  pub task_id : Text
  pub payer_org : Text
  pub payee_org : Text
  pub amount : ℤ
  pub currency : Text
  pub status : EscrowStatus
  pub auto_release : Bool
  pub created_at : ℕ
  pub resolved_at : Option ℕ
  pub metadata : Json

-- `EscrowError` by its cause, and its subclass `InsufficientFundsError`.
pub data EscrowError : Type 0 where
  missing_task_id not_positive duplicate_hold insufficient_funds unknown_hold : EscrowError
  already_resolved : EscrowStatus → EscrowError

-- `SimulatedLedger._balances`, by organisation and currency.
abbrev pub Balances : Type 0
Balances = Dict (Text × Text) ℤ

-- `EscrowManager`
pub record Escrow : Type 0 where
  pub balances : Balances
  pub holds : Dict Text EscrowHold

abbrev pub Action : Type 0 → Type 0
Action = Exec Escrow EscrowError

-- `SimulatedLedger.balance`
unfoldable pub balance : Text → Text → Balances → ℤ
balance org currency b = elim (lookup (org, currency) b) [ none ↦ pos 0 | some x ↦ x ]

-- `SimulatedLedger.credit`, which checks nothing
unfoldable pub credit : Text → ℤ → Text → Balances → Balances
unfolding balance
credit org amount currency b = insert (org, currency) (balance org currency b +ℤ amount) b

-- `SimulatedLedger.grant`
unfoldable pub grant : Text → ℤ → Text → Balances → Result EscrowError ℤ × Balances
unfolding balance
grant org amount currency b =
    if leb_ℤ amount (pos 0)
    then (err not_positive, b)
    else (let b' = insert (org, currency) (balance org currency b +ℤ amount) b in
        (ok (balance org currency b +ℤ amount), b'))

-- `SimulatedLedger.debit`
unfoldable pub debit : Text → ℤ → Text → Balances → Bool × Balances
unfolding balance
debit org amount currency b =
    if ltb_ℤ (balance org currency b) amount
    then (false, b)
    else (true, insert (org, currency) (balance org currency b -ℤ amount) b)

-- `SimulatedLedger.import_state`: later rows of one key win.
unfoldable pub import_balances : Balances → List (Text × Text × ℤ) → Balances
import_balances b [] = b
import_balances b ((org, currency, amount) ∷ rows) =
    import_balances (insert (org, currency) amount b) rows

unfoldable pub empty_text : Text → Bool
empty_text [] = true
empty_text (c ∷ s) = false

-- The call of `debit` in `create_hold`: an `InsufficientFundsError` if it returns False.
take_funds : Text → ℤ → Text → Action (Unit {0})
unfolding debit
take_funds org amount currency s =
    let (done, b) = debit org amount currency s.balances in
    (if done then ok tt else err insufficient_funds, record s { balances = b })

put_hold : EscrowHold → Action (Unit {0})
put_hold h = modify (λ s. record s { holds = insert h.task_id h s.holds })

-- `create_hold`
unfoldable pub create_hold :
    Text → ℕ → Text → Text → Text → ℤ → Text → Bool → Json → Action EscrowHold
unfolding empty_text take_funds put_hold
create_hold fresh now task_id payer payee amount currency auto metadata = do
  raise_if (empty_text task_id) missing_task_id
  raise_if (leb_ℤ amount (pos 0)) not_positive
  exists ← read (λ s. has_key task_id s.holds)
  raise_if exists duplicate_hold
  take_funds payer amount currency
  let h : EscrowHold = record {
    hold_id = fresh;
    task_id = task_id;
    payer_org = payer;
    payee_org = payee;
    amount = amount;
    currency = currency;
    status = held;
    auto_release = auto;
    created_at = now;
    resolved_at = none;
    metadata = metadata;
  }
  put_hold h
  pure h

-- `EscrowManager.get`
unfoldable pub get : Text → Escrow → Option EscrowHold
get task_id s = lookup task_id s.holds

concerns : Text → EscrowHold → Bool
concerns org h = org == h.payer_org || org == h.payee_org

holds_of : Text → Dict Text EscrowHold → List EscrowHold
unfolding concerns
holds_of org [] = []
holds_of org ((k, h) ∷ d) = let rest = holds_of org d in if concerns org h then h ∷ rest else rest

all_holds : Dict Text EscrowHold → List EscrowHold
all_holds [] = []
all_holds ((k, h) ∷ d) = h ∷ all_holds d

-- `list_holds`; an absent or empty organisation asks for all.
unfoldable pub list_holds : Option Text → Escrow → List EscrowHold
unfolding holds_of all_holds
list_holds none s = all_holds s.holds
list_holds (some []) s = all_holds s.holds
list_holds (some (c ∷ org)) s = holds_of (c ∷ org) s.holds

abbrev pub is_held : EscrowStatus → Bool
is_held held = true
is_held released = false
is_held refunded = false

-- `_require_held`
unfoldable pub require_held : Text → Action EscrowHold
require_held task_id = do
  found ← read (λ s. lookup task_id s.holds)
  h ← need unknown_hold found
  raise_if (not (is_held h.status)) (already_resolved h.status)
  pure h

-- `self.ledger.credit(...)`, and the two fields that `release` and `refund` set. A hold is an
-- object that the dict holds, so setting its fields changes the entry of its task.
pay : Text → EscrowHold → Action (Unit {0})
unfolding credit
pay org h = modify λ s. record s { balances = credit org h.amount h.currency s.balances }

resolve : Text → EscrowHold → EscrowStatus → ℕ → Action EscrowHold
resolve key h status now =
    let h' : EscrowHold = record h { status = status; resolved_at = some now } in
    modify (λ s. record s { holds = insert key h' s.holds }) >> pure h'

unfoldable pub release : ℕ → Text → Action EscrowHold
unfolding require_held pay resolve
release now task_id = do h ← require_held task_id; pay h.payee_org h; resolve task_id h released now

unfoldable pub refund : ℕ → Text → Action EscrowHold
unfolding require_held pay resolve
refund now task_id = do h ← require_held task_id; pay h.payer_org h; resolve task_id h refunded now

import_holds : Dict Text EscrowHold → List EscrowHold → Dict Text EscrowHold
import_holds d [] = d
import_holds d (h ∷ rest) = import_holds (insert h.task_id h d) rest

-- `import_state` of the manager: balances and holds are replaced whole.
unfoldable pub import_state : List (Text × Text × ℤ) → List EscrowHold → Escrow → Escrow
unfolding import_balances import_holds
import_state rows holds s = record {
  balances = import_balances [] rows;
  holds = import_holds [] holds;
}
