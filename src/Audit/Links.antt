-- ===== src/Audit/Links.antt =====
-- `verify_integrity` of sdk-python/intermesh/audit.py: what it accepts, and what it cannot see.
use intermesh.Prelude.{
  Text, ◌≡◌, refl, ◌≢◌, ◌↔◌, ◌⊎◌, inl, inr, true, List, [], ◌∷◌, ◌++◌, arith, length, text_eq,
  text_beq_iff,
}
use native.Mathlib.Decide.{ℕ_discrete}
use intermesh.Prelude.Json.{Json-discrete}
use intermesh.Audit.{Payload, AuditEntry, tip, verify_from, verify_integrity}

Payload-discrete : Discrete Payload
Payload-discrete = hlevel (ℕ_discrete, Json-discrete)

module _ (digest : Payload → Text) where
  -- Each entry names the hash before it and carries its own digest.
  pub data IsSealed : Text → List AuditEntry → Type 0 where
    nil : (h : Text) → IsSealed h []
    cons :
        {h : Text} (e : AuditEntry) (rest : List AuditEntry)
        → e.prev_hash ≡ h
        → e.hash ≡ digest e.payload
        → IsSealed e.hash rest
        → IsSealed h (e ∷ rest)

  -- At one place of the two chains two different payloads stand, and they have one digest.
  pub data Collides : List AuditEntry → List AuditEntry → Type 0 where
    here :
        (e f : AuditEntry) (xs ys : List AuditEntry)
        → e.payload ≢ f.payload
        → digest e.payload ≡ digest f.payload
        → Collides (e ∷ xs) (f ∷ ys)
    there :
        (e f : AuditEntry) (xs ys : List AuditEntry) → Collides xs ys → Collides (e ∷ xs) (f ∷ ys)

  verify_from_sound :
      (h : Text) (xs : List AuditEntry) → verify_from digest h xs ≡ true → IsSealed h xs
  unfolding verify_from
  verify_from_sound h [] t = nil h
  verify_from_sound h (e ∷ rest) t =
      cons e rest (ground (arith, text_beq_iff e.prev_hash h))
        (ground (arith, text_beq_iff e.hash (digest e.payload)))
        (verify_from_sound e.hash rest (ground arith))

  verify_from_complete :
      (h : Text) (xs : List AuditEntry) → IsSealed h xs → verify_from digest h xs ≡ true
  unfolding verify_from
  verify_from_complete h xs (nil _) = refl
  verify_from_complete h xs (cons e rest p q s) = ground (
    arith,
    text_beq_iff e.prev_hash h,
    text_beq_iff e.hash (digest e.payload),
    verify_from_complete e.hash rest s,
  )

  -- `verify_integrity` answers true of a chain exactly when each entry after the first names the
  -- hash of the entry before it and carries the digest of its own content.
  pub verify_integrity_iff :
      (g : AuditEntry) (rest : List AuditEntry)
      → (verify_integrity digest (g ∷ rest) ≡ true) ↔ IsSealed g.hash rest
  unfolding verify_integrity
  verify_integrity_iff g rest = (verify_from_sound g.hash rest, verify_from_complete g.hash rest)

  sealed_agree :
      (h k : Text) (xs ys : List AuditEntry)
      → IsSealed h xs
      → IsSealed k ys
      → length xs ≡ length ys
      → tip h xs ≡ tip k ys
      → ((h ≡ k) × (xs ≡ ys)) ⊎ Collides xs ys
  unfolding tip
  sealed_agree h k xs ys (nil _) (nil _) l t = inl (t, refl)
  sealed_agree h k xs ys (nil _) (cons f fs _ _ _) l t = absurd (omega arith)
  sealed_agree h k xs ys (cons e es _ _ _) (nil _) l t = absurd (omega arith)
  sealed_agree h k xs ys (cons e es p q s) (cons f fs p' q' s') l t =
      elim (sealed_agree e.hash f.hash es fs s s' (omega arith) t) [
        | inr c ↦ inr (there e f es fs c)
        | inl (eh, er) ↦ elim (Payload-discrete e.payload f.payload) [
          | yes same ↦ inl (ground arith, ground arith)
          | no differ ↦ inr (here e f es fs differ cc)
        ]
      ]

  -- Take two chains of one length that both pass `verify_integrity` and end in the same hash.
  -- Then all their entries after the first are the same, and the first ones carry the same hash;
  -- or at one place of the two chains different payloads stand that have one digest.
  pub tamper_evident :
      (g f : AuditEntry) (xs ys : List AuditEntry)
      → verify_integrity digest (g ∷ xs) ≡ true
      → verify_integrity digest (f ∷ ys) ≡ true
      → length xs ≡ length ys
      → tip g.hash xs ≡ tip f.hash ys
      → ((g.hash ≡ f.hash) × (xs ≡ ys)) ⊎ Collides xs ys
  tamper_evident g f xs ys v w l t =
      sealed_agree g.hash f.hash xs ys ((verify_integrity_iff g xs).0 v)
        ((verify_integrity_iff f ys).0 w) l t

  verify_from-prefix :
      (h : Text) (xs ys : List AuditEntry)
      → verify_from digest h (xs ++ ys) ≡ true
      → verify_from digest h xs ≡ true
  unfolding verify_from
  verify_from-prefix h [] ys v = refl
  verify_from-prefix h (e ∷ xs) ys v = ground (arith, verify_from-prefix e.hash xs ys)

  -- What the check cannot see: a chain that passes still passes after its last entries are cut
  -- off and the content of its first entry is replaced, hash kept.
  pub blind_spots :
      (g : AuditEntry) (p : Payload) (xs ys : List AuditEntry)
      → verify_integrity digest (g ∷ (xs ++ ys)) ≡ true
      → verify_integrity digest (record { payload = p; hash = g.hash } ∷ xs) ≡ true
  unfolding verify_integrity
  blind_spots g p xs ys v = verify_from-prefix g.hash xs ys v
