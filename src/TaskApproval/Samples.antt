-- ===== src/TaskApproval/Samples.antt =====
-- The functions of the standard library that sdk-python/intermesh/approval.py calls, as samples.
use intermesh.Prelude.{Text, true, false, Option, none, some, []}
use intermesh.Prelude.Int.{ℤ}
use intermesh.Prelude.Json.{Json, str, int}
use intermesh.TaskApproval.{Lib}

unfoldable pub show_text : Json → Text
show_text (str s) = s
show_text j = []

unfoldable pub whole : Json → Option ℤ
whole (int i) = some i
whole j = none

abbrev pub plain : Lib
plain = record {
  compiles = λ p. true;
  search = λ p t. false;
  show = λ j. show_text j;
  dumps = λ j. [];
  to_float = λ j. whole j;
  overflows = λ j. false;
}
