-- ===== src/Message/Tests.antt =====
-- A message with a token and no answer, and the theorem on messages at it.
use intermesh.Prelude.{codes, ◌≡◌, refl, none, some}
use intermesh.Prelude.Int.{pos}
use intermesh.Prelude.Json.{str, int, obj}
use intermesh.Prelude.Exec.{ok}
use intermesh.Assurance.Risk.{strip}
use intermesh.Payments.Price.{skip_spaces, is_space}
use intermesh.Assurance.Evidence.Verify.{is_falsy}
use intermesh.Message.{InterMeshMessage, request, to_dict, from_dict}
use intermesh.Message.Reread.{
  IsWellFormed, is_filled, is_number, is_token, from_dict-to_dict_message,
}

abbrev hello : InterMeshMessage
hello = record {
  id = codes "1";
  version = codes "intermesh/v1";
  kind = request;
  sender = codes "a";
  to = none;
  content = str (codes "hi");
  reply_to = none;
  timestamp = int (pos 7);
  token = some (codes "t");
}

hello_fine : IsWellFormed hello
unfolding is_filled is_number is_token is_falsy strip skip_spaces is_space
hello_fine = record {
  named = refl;
  supported = refl;
  signed = refl;
  stamped = refl;
  dated = refl;
  guarded = refl;
}

from_dict-to_dict_message_example :
    from_dict (codes "2") (int (pos 9)) (obj (to_dict hello)) ≡ ok hello
from_dict-to_dict_message_example =
    from_dict-to_dict_message hello hello_fine (codes "2") (int (pos 9))
