-- ===== src/Audit.antt =====
-- sdk-python/intermesh/audit.py: the hash-chained audit log. `digest` stands for SHA-256 over the
-- sorted JSON of an entry's seven hashed members; a time stamp is a whole number, 0 for 0.0.
pub mod Append
pub mod Links
pub mod Reload
mod Tests
use intermesh.Prelude.{
  ℕ, zero, suc, Text, codes, Bool, true, false, Option, none, some, List, [], ◌∷◌, ◌++◌, map,
  length, ◌==◌, text_eq, if◌then◌else◌,
}
use intermesh.Prelude.Json.{Json, obj, end, field, str}

-- What `compute_hash` covers.
pub record Payload : Type 0 where
  pub index : ℕ
  pub timestamp : ℕ
  pub event_type : Text
  pub sender : Text
  pub target : Option Text
  pub metadata : Json
  pub prev_hash : Text

pub record AuditEntry : Type 0 where
  pub payload : Payload
  pub open payload use *
  pub hash : Text

-- The members of a serialized entry, with those that a file may lack.
pub record RawEntry : Type 0 where
  pub index : Option ℕ
  pub timestamp : Option ℕ
  pub event_type : Option Text
  pub sender : Option Text
  pub target : Option Text
  pub metadata : Option Json
  pub prev_hash : Option Text
  pub hash : Option Text

-- `sink` holds the entries that the `on_append` callback has received, if there is one.
pub record AuditLog : Type 0 where
  pub chain : List AuditEntry
  pub sink : Option (List AuditEntry)

-- `timestamp or time.time()`
unfoldable pub or_now : ℕ → Option ℕ → ℕ
or_now now none = now
or_now now (some zero) = now
or_now now (some (suc t)) = suc t

-- `metadata or {}`
unfoldable pub or_empty : Option Json → Json
or_empty none = obj end
or_empty (some Json.null) = obj end
or_empty (some m) = m

abbrev pub genesis_prev : Text
genesis_prev = codes "0000000000000000000000000000000000000000000000000000000000000000"

abbrev pub last_entry {ℓ} : {A : Type ℓ} → List A → Option A
last_entry [] = none
last_entry (e ∷ []) = some e
last_entry (e ∷ f ∷ rest) = last_entry (f ∷ rest)

-- The hash of a chain's last entry, `h` for an empty one.
unfoldable pub tip : Text → List AuditEntry → Text
tip h [] = h
tip h (e ∷ rest) = tip e.hash rest

unfoldable pub sink_append : Option (List AuditEntry) → AuditEntry → Option (List AuditEntry)
sink_append none e = none
sink_append (some es) e = some (es ++ e ∷ [])

unfoldable pub to_dict : AuditEntry → RawEntry
to_dict e = record {
  index = some e.index;
  timestamp = some e.timestamp;
  event_type = some e.event_type;
  sender = some e.sender;
  target = e.target;
  metadata = some e.metadata;
  prev_hash = some e.prev_hash;
  hash = some e.hash;
}

-- What `export_json` prints.
unfoldable pub export_entries : AuditLog → List RawEntry
unfolding to_dict
export_entries s = map to_dict s.chain

module _ (digest : Payload → Text) where
  unfoldable pub compute_hash : AuditEntry → Text
  compute_hash e = digest e.payload

  -- `entry_hash or self.compute_hash()`
  unfoldable pub or_hash : Option Text → Payload → Text
  or_hash none p = digest p
  or_hash (some []) p = digest p
  or_hash (some (c ∷ h)) p = c ∷ h

  -- `AuditEntry(...)`
  unfoldable pub make_entry :
      ℕ → ℕ → Text → Text → Option Text → Json → Text → Option ℕ → Option Text → AuditEntry
  unfolding or_hash or_now
  make_entry now i kind who whom meta prev stamp given =
      let p : Payload = record {
        index = i;
        timestamp = or_now now stamp;
        event_type = kind;
        sender = who;
        target = whom;
        metadata = meta;
        prev_hash = prev;
      } in
      record { payload = p; hash = or_hash given p }

  -- `from_dict`: a missing mandatory member is a KeyError, here `none`.
  unfoldable pub from_dict : ℕ → RawEntry → Option AuditEntry
  unfolding make_entry
  from_dict now r = elim r.index [
    | none ↦ none
    | some i ↦ elim r.event_type [
      | none ↦ none
      | some kind ↦ elim r.sender [
        | none ↦ none
        | some who ↦ elim r.prev_hash [
          | none ↦ none
          | some prev ↦ some (
              make_entry now i kind who r.target (elim r.metadata [ none ↦ obj end | some m ↦ m ])
                prev r.timestamp r.hash)
        ]
      ]
    ]
  ]

  unfoldable pub from_dicts : ℕ → List RawEntry → Option (List AuditEntry)
  from_dicts now [] = some []
  from_dicts now (r ∷ rs) = elim (from_dict now r) [
    | none ↦ none
    | some e ↦ elim (from_dicts now rs) [ none ↦ none | some es ↦ some (e ∷ es) ]
  ]

  unfoldable pub genesis : ℕ → AuditEntry
  unfolding make_entry
  genesis now =
      make_entry now 0 (codes "GENESIS") (codes "intermesh_system") none
        (obj (
          field (codes "system") (str (codes "InterMesh Protocol Immutable Audit Log Initialized"))
            end))
        genesis_prev (some now) none

  -- `ImmutableAuditLog(entries, on_append)`: an absent or empty list starts a new chain.
  unfoldable pub init : ℕ → List RawEntry → Bool → Option AuditLog
  unfolding from_dicts genesis sink_append
  init now [] callback = some (record {
    chain = genesis now ∷ [];
    sink = sink_append (if callback then some [] else none) (genesis now);
  })
  init now (r ∷ rs) callback = elim (from_dicts now (r ∷ rs)) [
    | none ↦ none
    | some es ↦ some (record { chain = es; sink = if callback then some [] else none })
  ]

  -- `log`; `none` is the IndexError of an empty chain.
  unfoldable pub log :
      ℕ → Text → Text → Option Text → Option Json → AuditLog → Option (AuditLog × AuditEntry)
  unfolding make_entry or_empty sink_append
  log now kind who whom meta s = elim (last_entry s.chain) [
    | none ↦ none
    | some prev ↦
        let e : AuditEntry =
          make_entry now (length s.chain) kind who whom (or_empty meta) prev.hash none none in
        some (record { chain = s.chain ++ e ∷ []; sink = sink_append s.sink e }, e)
  ]

  -- The loop of `verify_integrity`, from the hash of the entry before.
  unfoldable pub verify_from : Text → List AuditEntry → Bool
  unfolding compute_hash
  verify_from prev [] = true
  verify_from prev (e ∷ rest) =
      let ok = verify_from e.hash rest in
      if e.prev_hash == prev then (if e.hash == compute_hash e then ok else false) else false

  unfoldable pub verify_integrity : List AuditEntry → Bool
  unfolding verify_from
  verify_integrity [] = true
  verify_integrity (g ∷ rest) = verify_from g.hash rest
