-- ===== src/Assurance/Proxy/Journal.antt =====
-- The journal that `EvidenceStore` of sdk-python/intermesh/assurance/proxy.py keeps is a chain.
use intermesh.Prelude.{
  length, ℕ, ◌+◌, Text, ◌≡◌, refl, ap, inl, inr, true, nat_eq, Option, none, some, List, [], ◌∷◌,
  ◌++◌, map, text_eq, text_beq, arith, Option-cases,
}
use intermesh.Prelude.Json.{Json, Fields, obj, int}
use intermesh.Prelude.Int.{pos}
use intermesh.Prelude.Results.{get}
use intermesh.Assurance.Evidence.{
  ActionEvidence, Crypto, sign, body, envelope, with_evidence, genesis,
}
use intermesh.Assurance.Evidence.Verify.{
  VerificationReport, fresh, is_valid, is_linked, hash_of, text_of, verify_evidence, verify_chain,
  chain_from, chain_step,
}
use intermesh.Assurance.Evidence.Signed.{Sound, signed_body, verify_evidence-sign}
use intermesh.Assurance.Proxy.Lines.{AreRead, of_file, read_back}
use intermesh.Assurance.Proxy.{
  EvidenceStore, append, write_line, hash_or, resume_from, LineCodec, file_text, resume,
}

map_append :
    (xs : List Json) (x : Json) (ys : List Json)
    → map Option.some (xs ++ x ∷ ys) ≡ map Option.some xs ++ some x ∷ map Option.some ys
map_append [] x ys = refl
map_append (y ∷ xs) x ys = ap (λ zs. some y ∷ zs) (map_append xs x ys)

module _ {Key Pub : Type 0} (lib : Crypto Key Pub) (key : Key) (pub_key : Pub)
    (issuer : Option Text) where
  -- Records are appended one after the other; one that cannot be signed raises and leaves nothing.
  unfoldable pub append_all : List ActionEvidence → EvidenceStore → EvidenceStore
  unfolding append
  append_all [] s = s
  append_all (e ∷ es) s = elim (append e (sign lib key issuer) s) [
    | none ↦ append_all es s
    | some p ↦ append_all es p.1
  ]

  -- The lines that are written by these appends to an empty file.
  abbrev pub start : EvidenceStore
  start = record { last_hash = genesis; count = 0; file = some [] }

  -- The records `rs` link up from `previous` and end in `last`.
  data IsChain : Text → List Json → Text → Type 0 where
    nothing : (h : Text) → IsChain h [] h
    linked :
        (previous h last : Text) (r : Json) (rs : List Json) (single : VerificationReport)
        → verify_evidence lib r none ≡ some single
        → is_valid single ≡ true
        → is_linked lib previous r ≡ true
        → hash_of lib r ≡ h
        → IsChain h rs last
        → IsChain previous (r ∷ rs) last

  chain_from-IsChain :
      (i : ℕ) (previous last : Text) (rs : List Json) (report : VerificationReport)
      → IsChain previous rs last
      → chain_from lib i rs (report, previous) ≡ some (report, last)
  unfolding chain_from chain_step
  chain_from-IsChain i previous last [] report (nothing h) = refl
  chain_from-IsChain i previous last (r ∷ rs) report
        (linked _ h _ _ _ single checked valid link same rest) =
      rw (chain_from, checked, chain_step, valid, link, same)
        (chain_from-IsChain (i + 1) h last rs report rest)

  -- One more record at the end.
  IsChain-append :
      (previous last h : Text) (rs : List Json) (r : Json) (single : VerificationReport)
      → IsChain previous rs last
      → verify_evidence lib r none ≡ some single
      → is_valid single ≡ true
      → is_linked lib last r ≡ true
      → hash_of lib r ≡ h
      → IsChain previous (rs ++ r ∷ []) h
  IsChain-append previous last h [] r single (nothing _) checked valid link same =
      linked previous h h r [] single checked valid link same (nothing h)
  IsChain-append previous last h (x ∷ rs) r single
        (linked _ k _ _ _ report good_x valid_x link_x same_x rest) checked valid link same =
      linked previous k h x (rs ++ r ∷ []) report good_x valid_x link_x same_x
        (IsChain-append k last h rs r single rest checked valid link same)

  resume_append :
      (lines : List (Option Json)) (f : Fields) (s s' : Text × ℕ) (h : Text)
      → resume_from lines s ≡ some s'
      → hash_or s'.0 f ≡ some h
      → resume_from (lines ++ some (obj f) ∷ []) s ≡ some (h, s'.1 + 1)
  unfolding resume_from
  resume_append [] f (a, n) (b, m) h done found = ground arith
  resume_append (none ∷ lines) f s s' h done found = resume_append lines f s s' h done found
  resume_append (some (obj g) ∷ lines) f (a, n) s' h done found =
      elim (Option-cases (hash_or a g)) [
        | inl bad ↦ ground arith
        | inr (k, good) ↦
            rw (resume_from, good)
              (resume_append lines f (k, n + 1) s' h (rw (resume_from, good) at done) found)
      ]
  resume_append (some j ∷ lines) f s s' h done found = ground arith

  signed_hash :
      (e : ActionEvidence) (f : Fields) (d : Text)
      → sign lib key issuer e ≡ some f
      → hash_or d f ≡ some (hash_of lib (obj f))
  unfolding hash_or hash_of with_evidence body get text_beq envelope text_of
  signed_hash e f d done =
      let (digest, raw, hex, hashed, made) = signed_body lib key pub_key issuer e f done in
      rw made refl

  -- The file holds a chain from the genesis hash, and reading it anew gives the store's state.
  abbrev IsJournal : EvidenceStore → Type 0
  IsJournal s =
      (rs : List Json) × (s.file ≡ some rs)
      × IsChain genesis rs s.last_hash
      × (resume_from (map some rs) (genesis, 0) ≡ some (s.last_hash, s.count))

  append-IsJournal :
      Sound lib key pub_key
      → (e : ActionEvidence) (s : EvidenceStore) (p : Fields × EvidenceStore)
      → append e (sign lib key issuer) s ≡ some p
      → IsJournal s
      → IsJournal p.1
  unfolding append write_line
  append-IsJournal sound e s p done (rs, written, chain, resumed) =
      elim (Option-cases (sign lib key issuer (record e { prev_hash = s.last_hash }))) [
        | inl raised ↦ ground arith
        | inr (f, signed) ↦
            let h = hash_of lib (obj f) in
            let found = signed_hash (record e { prev_hash = s.last_hash }) f genesis signed in
            let same : p ≡ (
              f,
              record { last_hash = h; count = s.count + 1; file = write_line (obj f) s.file },
            ) =
              ground arith in
            let (report, checked, valid, clear, link, hash) =
              verify_evidence-sign lib key pub_key sound none (inl refl) issuer
                (record e { prev_hash = s.last_hash }) f signed in
            rw same (
              rs ++ obj f ∷ [],
              rw written refl,
              IsChain-append genesis s.last_hash h rs (obj f) report chain checked valid link refl,
              rw (map_append rs (obj f) []) (
                  resume_append (map some rs) f _ _ h resumed
                    (signed_hash (record e { prev_hash = s.last_hash }) f s.last_hash signed)),
            )
      ]

  append_all-IsJournal :
      Sound lib key pub_key
      → (es : List ActionEvidence) (s : EvidenceStore) → IsJournal s
      → IsJournal (append_all es s)
  unfolding append_all
  append_all-IsJournal sound [] s h = h
  append_all-IsJournal sound (e ∷ es) s h = elim (Option-cases (append e (sign lib key issuer) s)) [
    | inl raised ↦ rw (append_all, raised) (append_all-IsJournal sound es s h)
    | inr (p, done) ↦
        rw (append_all, done)
          (append_all-IsJournal sound es p.1 (append-IsJournal sound e s p done h))
  ]

  -- Where the codecs and the keys do what `Sound` says, the records that a new store appends for any
  -- evidence pass `verify_chain` without errors. If each of them was written in a line without a
  -- character at which `splitlines` splits, and is read as it was, then a store that is opened on the
  -- text of the file goes on with the last hash and the count of the one that wrote it.
  pub verify_chain-append_all :
      Sound lib key pub_key
      → (codec : LineCodec) (es : List ActionEvidence) → AreRead codec (append_all es start).file
      → let s = append_all es start in
        (rs : List Json) × (s.file ≡ some rs)
        × ((report : VerificationReport) × (verify_chain lib rs ≡ some report)
            × (is_valid report ≡ true)
            × (report.errors ≡ []))
        × (resume codec (file_text codec rs) ≡ some (s.last_hash, s.count))
  unfolding verify_chain is_valid resume_from resume
  verify_chain-append_all sound codec es read =
      let (rs, written, chain, resumed) =
        append_all-IsJournal sound es start ([], refl, nothing genesis, refl) in
      (
        rs,
        written,
        (
          record fresh {
            schema_ok = true;
            integrity_ok = true;
            signature_ok = true;
            action_id = some (int (pos (length rs)));
          },
          rw (verify_chain, chain_from-IsChain 0 genesis _ rs _ chain) refl,
          refl,
          refl,
        ),
        rw (resume, read_back codec rs (of_file codec _ rs written read)) resumed,
      )
