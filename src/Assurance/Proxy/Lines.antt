-- ===== src/Assurance/Proxy/Lines.antt =====
-- The lines of the file that `EvidenceStore` of sdk-python/intermesh/assurance/proxy.py writes and reads.
use intermesh.Prelude.{
  arith, Text, ◌≡◌, refl, sym, inl, inr, Bool, true, not, ◌&&◌, Option, none, some, List, [], ◌∷◌,
  ◌++◌, map, All, contains, nat_eq, Bool-cases,
}
use intermesh.Prelude.Json.{Json}
use intermesh.Assurance.Proxy.{LineCodec, file_text, line_breaks, add_char, splitlines}

-- No character at which `splitlines` splits.
unfoldable pub is_unbroken : Text → Bool
is_unbroken [] = true
is_unbroken (c ∷ s) = not (contains c line_breaks) && is_unbroken s

-- The records of a file are written in lines without such a character, and are read as they were.
unfoldable pub AreRead : LineCodec → Option (List Json) → Type 0
AreRead codec none = Unit
AreRead codec (some rs) =
    All (λ r. (is_unbroken (codec.dump r) ≡ true) × (codec.load (codec.dump r) ≡ some r)) rs

splitlines-append :
    (l t : Text) → is_unbroken l ≡ true → splitlines (l ++ 10 ∷ t) ≡ l ∷ splitlines t
unfolding splitlines is_unbroken add_char
splitlines-append [] t h = refl
splitlines-append (c ∷ l) t h = elim (Bool-cases (contains c line_breaks)) [
  | inl broken ↦ ground arith
  | inr plain ↦
      let rest : is_unbroken l ≡ true = ground arith in
      rw (splitlines, plain, splitlines-append l t rest) refl
]

pub of_file :
    (codec : LineCodec) (file : Option (List Json)) (rs : List Json)
    → file ≡ some rs
    → AreRead codec file
    → AreRead codec (some rs)
of_file codec file rs e h = rw (sym e) h

pub read_back :
    (codec : LineCodec) (rs : List Json)
    → AreRead codec (some rs)
    → map codec.load (splitlines (file_text codec rs)) ≡ map Option.some rs
unfolding file_text AreRead splitlines
read_back codec [] h = refl
read_back codec (r ∷ rs) ((line, same), h) =
    rw (splitlines-append (codec.dump r) (file_text codec rs) line, same, read_back codec rs h) refl
