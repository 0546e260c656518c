-- ===== src/Assurance/Proxy/Recorded.antt =====
-- What a call of sdk-python/intermesh/assurance/proxy.py leaves in the journal.
use intermesh.Prelude.{
  ◌+◌, ◌≡◌, refl, ◌⊎◌, inl, inr, Bool, true, false, Option, none, some, List, [], ◌∷◌, ◌++◌,
  text_eq, Option-cases,
}
use intermesh.Prelude.Exec.{Result, ok, err, is_err, pure, bind_result}
use intermesh.Prelude.Json.{Json, Fields, obj}
use intermesh.Assurance.Evidence.{ActionEvidence, genesis}
use intermesh.Assurance.Proxy.{World, append, Failure, EvidenceStore, hash_or, write_line}

-- The file, if there is one, has one line more.
pub IsAppended : Json → Option (List Json) → Option (List Json) → Type 0
IsAppended r none file = file ≡ none
IsAppended r (some lines) file = file ≡ some (lines ++ r ∷ [])

module _ (signer : ActionEvidence → Option Fields) (Told : ActionEvidence → Type 0) where
  -- One record has been added: evidence of what is told, signed after the last hash of the journal.
  abbrev pub IsAdded : EvidenceStore → EvidenceStore → Type 0
  IsAdded s s' =
      (e : ActionEvidence) × (f : Fields) × Told e
      × (signer (record e { prev_hash = s.last_hash }) ≡ some f)
      × (hash_or genesis f ≡ some s'.last_hash)
      × (s'.count ≡ s.count + 1)
      × IsAppended (obj f) s.file s'.file

  -- The call fails, or it has added such a record, or nothing where evidence is not wanted.
  abbrev pub IsRecorded : {A : Type 0} → Bool → Result Failure A × World → World → Type 0
  IsRecorded wanted r w =
      (is_err r.0 ≡ true) ⊎ IsAdded w.store r.1.store ⊎ ((r.1.store ≡ w.store) × (wanted ≡ false))

  -- Such a call that sends nothing and leaves the approvals alone.
  pub record IsDone {A : Type 0} (wanted : Bool) (r : Result Failure A × World) (w : World)
      : Type 0 where
    pub unsent : r.1.sent ≡ w.sent
    pub unspent : r.1.approvals ≡ w.approvals
    pub recorded : IsRecorded wanted r w

  write_line-IsAppended :
      (r : Json) (file : Option (List Json)) → IsAppended r file (write_line r file)
  unfolding write_line IsAppended
  write_line-IsAppended r none = refl
  write_line-IsAppended r (some lines) = refl

  pub append-IsAdded :
      (e : ActionEvidence) (s : EvidenceStore)
      → Told e
      → (append e signer s ≡ none)
        ⊎ ((p : Fields × EvidenceStore) × (append e signer s ≡ some p) × IsAdded s p.1)
  unfolding append
  append-IsAdded e s told = elim (Option-cases (signer (record e { prev_hash = s.last_hash }))) [
    | inl raised ↦ inl (rw (append, raised) refl)
    | inr (f, made) ↦ elim (Option-cases (hash_or genesis f)) [
      | inl bad ↦ inl (rw (append, made, bad) refl)
      | inr (h, found) ↦ inr (
        (f, record { last_hash = h; count = s.count + 1; file = write_line (obj f) s.file }),
        rw (append, made, found) refl,
        (e, f, told, made, found, refl, write_line-IsAppended (obj f) s.file),
      )
    ]
  ]

  -- A value made of the result changes nothing.
  pub then_pure :
      {A B : Type 0} (wanted : Bool) (f : A → B) (w : World) (r : Result Failure A × World)
      → IsDone wanted r w
      → let k = bind_result r.0 r.1 (λ a. pure (f a)) in IsDone wanted k w
  then_pure wanted f w (ok a, v) h = record {
    unsent = h.unsent;
    unspent = h.unspent;
    recorded = h.recorded;
  }
  then_pure wanted f w (err e, v) h = record {
    unsent = h.unsent;
    unspent = h.unspent;
    recorded = h.recorded;
  }
