-- ===== src/Audit/Tests.antt =====
-- A small audit log under a concrete digest, and the theorems of this component at it.
use intermesh.Prelude.{
  text_beq, Text, codes, ◌≡◌, refl, ◌↔◌, ◌⊎◌, true, false, none, some, List, [], ◌∷◌, arith,
}
use intermesh.Prelude.Json.{obj, end}
use intermesh.Audit.{Payload, AuditEntry, AuditLog, log, verify_integrity, init, export_entries}
use intermesh.Audit.Links.{IsSealed, Collides, verify_integrity_iff, tamper_evident}
use intermesh.Audit.Reload.{init-export}

abbrev digest : Payload → Text
digest p = p.index ∷ p.timestamp ∷ p.event_type

abbrev first : AuditEntry
first = record {
  payload = record {
    index = 0;
    timestamp = 5;
    event_type = codes "G";
    sender = [];
    target = none;
    metadata = obj end;
    prev_hash = codes "0";
  };
  hash = 0 ∷ 5 ∷ codes "G";
}

abbrev second : AuditEntry
second = record {
  payload = record {
    index = 1;
    timestamp = 7;
    event_type = codes "E";
    sender = codes "a";
    target = some (codes "b");
    metadata = obj end;
    prev_hash = 0 ∷ 5 ∷ codes "G";
  };
  hash = 1 ∷ 7 ∷ codes "E";
}

abbrev before : AuditLog
before = record { chain = first ∷ []; sink = some [] }

abbrev after : AuditLog
after = record { chain = first ∷ second ∷ []; sink = some (second ∷ []) }

second_logged :
    log digest 7 (codes "E") (codes "a") (some (codes "b")) none before ≡ some (after, second)
unfolding log
second_logged = refl

verify_after : verify_integrity digest (first ∷ second ∷ []) ≡ true
unfolding verify_integrity text_beq
verify_after = refl

-- A changed sender of the second entry is not seen by this digest, a changed number is.
verify_renumbered :
    verify_integrity digest
      (first ∷ record second { payload = record second.payload { index = 2 } } ∷ [])
    ≡ false
unfolding verify_integrity text_beq
verify_renumbered = refl

verify_integrity_iff_example :
    (verify_integrity digest (first ∷ second ∷ []) ≡ true)
    ↔ IsSealed digest first.hash (second ∷ [])
verify_integrity_iff_example = verify_integrity_iff digest first (second ∷ [])

tamper_evident_example :
    ((first.hash ≡ first.hash) × (◌≡◌ {A = List AuditEntry} (second ∷ []) (second ∷ [])))
    ⊎ Collides digest (second ∷ []) (second ∷ [])
tamper_evident_example =
    tamper_evident digest first first (second ∷ []) (second ∷ []) verify_after verify_after refl
      refl

init-export_example :
    init digest 9 (export_entries after) true
    ≡ some (record { chain = after.chain; sink = some [] })
init-export_example =
    init-export digest 9 true after (λ e. cc)
      (
        record { timed = omega arith; hashed = λ e. cc },
        (record { timed = omega arith; hashed = λ e. cc }, tt),
      )
