-- ===== src/Hub/Submission/Keys.antt =====
-- Identifiers that may be absent, compared as Python compares them.
use intermesh.Prelude.{
  arith, ◌≡◌, ◌↔◌, Bool, true, false, Option, none, some, Text, HasEq, text_eq, ◌==◌,
}

unfoldable pub option_beq : Option Text → Option Text → Bool
option_beq none none = true
option_beq none (some t) = false
option_beq (some s) none = false
option_beq (some s) (some t) = s == t

pub option_beq_iff : (s t : Option Text) → (option_beq s t ≡ true) ↔ (s ≡ t)
unfolding option_beq
option_beq_iff none none = ground arith
option_beq_iff none (some t) = ground arith
option_beq_iff (some s) none = ground arith
option_beq_iff (some s) (some t) = ground (arith, text_eq.equal_iff s t)

instance abbrev pub option_eq : HasEq (Option Text)
option_eq = record { equal = option_beq; equal_iff = option_beq_iff }
