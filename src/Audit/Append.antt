-- ===== src/Audit/Append.antt =====
-- `log` of sdk-python/intermesh/audit.py: what an append does to the chain and to its check.
use intermesh.Prelude.{
  ℕ, Text, ◌≡◌, refl, inl, inr, Option, some, List, [], ◌∷◌, ◌++◌, arith, length, Option-cases,
  eq_refl, text_eq,
}
use intermesh.Prelude.Json.{Json}
use intermesh.Audit.{
  Payload, AuditEntry, AuditLog, sink_append, last_entry, log, verify_from, verify_integrity,
}

last_entry-append {ℓ} : {A : Type ℓ} (xs : List A) (a : A) → last_entry (xs ++ a ∷ []) ≡ some a
last_entry-append [] a = refl
last_entry-append (x ∷ []) a = refl
last_entry-append (x ∷ y ∷ xs) a = last_entry-append (y ∷ xs) a

module _ (digest : Payload → Text) where
  -- An entry that links to the last one and carries its own digest leaves the check as it was.
  verify_from-append :
      (p : AuditEntry) (xs : List AuditEntry) (prev e : AuditEntry)
      → last_entry (p ∷ xs) ≡ some prev
      → e.prev_hash ≡ prev.hash
      → e.hash ≡ digest e.payload
      → verify_from digest p.hash (xs ++ e ∷ []) ≡ verify_from digest p.hash xs
  unfolding verify_from
  verify_from-append p [] prev e l h k = ground (arith, eq_refl prev.hash, eq_refl e.hash)
  verify_from-append p (x ∷ xs) prev e l h k = ground (arith, verify_from-append x xs prev e l h k)

  verify_integrity-append :
      (c : List AuditEntry) (prev e : AuditEntry)
      → last_entry c ≡ some prev
      → e.prev_hash ≡ prev.hash
      → e.hash ≡ digest e.payload
      → verify_integrity digest (c ++ e ∷ []) ≡ verify_integrity digest c
  unfolding verify_integrity
  verify_integrity-append [] prev e l h k = cc
  verify_integrity-append (g ∷ rest) prev e l h k = verify_from-append g rest prev e l h k

  -- Whatever the chain held before, `log` adds one entry at its end, numbered by its place, linked
  -- to the entry before it and sealed by its digest; the callback gets that entry; and
  -- `verify_integrity` answers after the call what it answered before.
  pub log_seals :
      (now : ℕ) (kind who : Text) (whom : Option Text) (meta : Option Json) (s s' : AuditLog)
      (e : AuditEntry)
      → log digest now kind who whom meta s ≡ some (s', e)
      → (s'.chain ≡ s.chain ++ e ∷ [])
        × (e.index ≡ length s.chain)
        × (e.hash ≡ digest e.payload)
        × (s'.sink ≡ sink_append s.sink e)
        × (verify_integrity digest s'.chain ≡ verify_integrity digest s.chain)
  unfolding log
  log_seals now kind who whom meta s s' e h = elim (Option-cases (last_entry s.chain)) [
    | inl empty ↦ ground arith
    | inr (prev, l) ↦ ground (arith, verify_integrity-append s.chain prev e l)
  ]
