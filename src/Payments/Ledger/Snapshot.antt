-- ===== src/Payments/Ledger/Snapshot.antt =====
-- `export_state` and `import_state` of sdk-python/intermesh/payments/ledger.py. The decimal amounts
-- are kept as values: `str` of a Decimal and the `Decimal` of that text undo one another.
use intermesh.Prelude.{
  ℕ, Text, ◌≡◌, refl, ◌≢◌, ◌∙◌, sym, Option, none, some, List, [], ◌∷◌, ◌++◌, map, arith, contains,
  text_eq, text_beq_iff, if◌then◌else◌, All, false, ap,
}
use mathlib.Core.List.{append-nil, append_assoc}
use intermesh.Prelude.Dict.{Dict, lookup, insert}
use intermesh.Audit
use intermesh.Audit.{RawEntry, AuditLog}
use intermesh.Audit.Reload.{IsStamped, init-export}
use intermesh.Payments.Ledger.{Account, Charge, Ledger, Env}

pub record Exported : Type 0 where
  pub currency : Text
  pub accounts : List Account
  pub charges : List Charge
  pub audit : List RawEntry

abbrev second : Text × Account → Account
second e = e.1

pub export_state : Ledger → Exported
export_state s = record {
  currency = s.currency;
  accounts = map second s.accounts;
  charges = s.charges;
  audit = Audit.export_entries s.audit;
}

import_accounts : Dict Text Account → List Account → Dict Text Account
import_accounts d [] = d
import_accounts d (a ∷ rest) = import_accounts (insert a.agent_id a d) rest

import_nonces : List Text → List Charge → List Text
import_nonces ns [] = ns
import_nonces ns (c ∷ cs) =
    import_nonces (if contains c.nonce ns then ns else ns ++ c.nonce ∷ []) cs

-- `import_state`: a new ledger with no `on_change`; `none` is the KeyError of a bad audit entry.
pub import_state : Env → ℕ → Exported → Option Ledger
unfolding import_accounts import_nonces
import_state env now x = elim (Audit.init env.digest now x.audit false) [
  | none ↦ none
  | some log ↦ some (record {
    currency = x.currency;
    accounts = import_accounts [] x.accounts;
    charges = x.charges;
    seen_nonces = import_nonces [] x.charges;
    audit = log;
    changes = 0;
  })
]

-- Each account is filed once, under its own identifier.
abbrev pub IsIndex : Dict Text Account → Type 0
IsIndex [] = Unit
IsIndex ((k, a) ∷ d) = (a.agent_id ≡ k) × (lookup k d ≡ none) × IsIndex d

-- The nonces seen are those of the charges, each one once, in their order.
abbrev pub Nonces : List Text → List Charge → List Text → Type 0
Nonces before [] ns = ns ≡ before
Nonces before (c ∷ cs) ns =
    (contains c.nonce before ≡ false) × Nonces (before ++ c.nonce ∷ []) cs ns

insert_new :
    (k : Text) (a : Account) (d : Dict Text Account)
    → lookup k d ≡ none
    → insert k a d ≡ d ++ (k, a) ∷ []
unfolding lookup insert
insert_new k a [] h = refl
insert_new k a ((j, b) ∷ d) h = ground (arith, insert_new k a d)

lookup_snoc :
    (j k : Text) (a : Account) (d : Dict Text Account)
    → lookup j d ≡ none
    → k ≢ j
    → lookup j (d ++ (k, a) ∷ []) ≡ none
unfolding lookup
lookup_snoc j k a [] h n = ground (arith, text_beq_iff k j)
lookup_snoc j k a ((i, b) ∷ d) h n = ground (arith, lookup_snoc j k a d)

-- No key of `d` is filed in `acc`.
abbrev Apart : Dict Text Account → Dict Text Account → Type 0
Apart acc [] = Unit
Apart acc ((k, a) ∷ d) = (lookup k acc ≡ none) × Apart acc d

Apart-snoc :
    (acc : Dict Text Account) (k : Text) (a : Account) (d : Dict Text Account)
    → Apart acc d
    → lookup k d ≡ none
    → Apart (acc ++ (k, a) ∷ []) d
unfolding lookup
Apart-snoc acc k a [] h n = tt
Apart-snoc acc k a ((j, b) ∷ d) h n = (
  lookup_snoc j k a acc h.0 (λ e. ground (arith, text_beq_iff j k)),
  Apart-snoc acc k a d h.1 (ground (arith, text_beq_iff j k)),
)

import_accounts-map :
    (acc d : Dict Text Account)
    → IsIndex d
    → Apart acc d
    → import_accounts acc (map second d) ≡ acc ++ d
unfolding import_accounts
import_accounts-map acc [] i h = sym (append-nil acc)
import_accounts-map acc ((k, a) ∷ d) i h =
    ap (λ x. import_accounts x (map second d))
      (ap (λ (t : Text). insert t a acc) i.0 ∙ insert_new k a acc h.0)
    ∙ import_accounts-map (acc ++ (k, a) ∷ []) d i.2 (Apart-snoc acc k a d h.1 i.1)
    ∙ append_assoc acc ((k, a) ∷ []) d

import_nonces-eq :
    (cs : List Charge) (before ns : List Text) → Nonces before cs ns → import_nonces before cs ≡ ns
unfolding import_nonces
import_nonces-eq [] before ns h = sym h
import_nonces-eq (c ∷ cs) before ns h =
    rw (h.0) (import_nonces-eq cs (before ++ c.nonce ∷ []) ns h.1)

Apart-empty : (d : Dict Text Account) → Apart [] d
unfolding lookup
Apart-empty [] = tt
Apart-empty ((k, a) ∷ d) = (refl, Apart-empty d)

-- A ledger whose accounts are filed once each under their identifiers, whose nonces are those of
-- its charges, and whose audit entries have time stamps and hashes, exported and imported again,
-- is the same ledger, with a log and a ledger that call nothing back.
pub import-export :
    (env : Env) (now : ℕ) (s : Ledger)
    → IsIndex s.accounts
    → Nonces [] s.charges s.seen_nonces
    → s.audit.chain ≢ []
    → All IsStamped s.audit.chain
    → import_state env now (export_state s)
      ≡ some (record s { audit = record s.audit { sink = none }; changes = 0 })
unfolding import_state export_state
import-export env now s i n ne st = ground (
  arith,
  init-export env.digest now false s.audit,
  import_accounts-map [] s.accounts i (Apart-empty s.accounts),
  import_nonces-eq s.charges [] s.seen_nonces n,
)
