-- ===== src/Audit/Reload.antt =====
-- `to_dict`, `from_dict` and the constructor of sdk-python/intermesh/audit.py: a stored chain is
-- reloaded as it was.
use intermesh.Prelude.{
  ℕ, Text, ◌≡◌, refl, ◌≢◌, Bool, none, some, List, [], ◌∷◌, map, arith, All, if◌then◌else◌,
}
use intermesh.Audit.{
  Payload, AuditEntry, AuditLog, to_dict, from_dict, from_dicts, init, export_entries,
}

-- The time stamp and the hash are neither of them falsy, so the constructor keeps them.
pub record IsStamped (e : AuditEntry) : Type 0 where
  pub timed : e.timestamp ≢ 0
  pub hashed : e.hash ≢ []

module _ (digest : Payload → Text) where
  from_dict-to_dict :
      (now : ℕ) (e : AuditEntry) → IsStamped e → from_dict digest now (to_dict e) ≡ some e
  unfolding from_dict to_dict
  from_dict-to_dict now e h = ground arith

  from_dicts-map :
      (now : ℕ) (es : List AuditEntry)
      → All IsStamped es
      → from_dicts digest now (map to_dict es) ≡ some es
  unfolding from_dicts
  from_dicts-map now [] h = refl
  from_dicts-map now (e ∷ es) h =
      ground (arith, from_dict-to_dict now e h.0, from_dicts-map now es h.1)

  -- A log whose entries have non-zero time stamps and non-empty hashes, exported and reloaded at
  -- any time, gives back its chain entry for entry, altered ones included, and writes nothing to
  -- the callback. An empty chain is excluded, since no log has one.
  pub init-export :
      (now : ℕ) (callback : Bool) (s : AuditLog)
      → s.chain ≢ []
      → All IsStamped s.chain
      → init digest now (export_entries s) callback
        ≡ some (record { chain = s.chain; sink = if callback then some [] else none })
  unfolding export_entries init
  init-export now callback s ne h = reload s.chain ne h
    where
      reload :
          (c : List AuditEntry)
          → c ≢ []
          → All IsStamped c
          → init digest now (map to_dict c) callback
            ≡ some (record { chain = c; sink = if callback then some [] else none })
      reload [] ne h = absurd (ne refl)
      reload (e ∷ es) ne h = ground (arith, from_dicts-map now (e ∷ es) h)
