-- ===== src/Task/Tests.antt =====
-- A task, and the theorem on tasks at it.
use intermesh.Prelude.{codes, ◌≡◌, refl, none}
use intermesh.Prelude.Int.{pos}
use intermesh.Prelude.Json.{null, str, int, obj}
use intermesh.Prelude.Exec.{ok}
use intermesh.Assurance.Risk.{strip}
use intermesh.Payments.Price.{skip_spaces, is_space}
use intermesh.Assurance.Evidence.Verify.{is_falsy}
use intermesh.Message.Reread.{is_filled, is_number}
use intermesh.Task.{InterMeshTask, running, to_dict, from_dict}
use intermesh.Task.Reread.{IsValid, from_dict-to_dict_task}

abbrev review : InterMeshTask
review = record {
  task_id = codes "1";
  title = codes "t";
  orchestrator = codes "a";
  assignee = codes "b";
  input_data = str (codes "x");
  status = running;
  output_data = null;
  error_message = null;
  summary = none;
  created_at = int (pos 7);
  updated_at = int (pos 8);
}

review_fine : IsValid review
unfolding is_filled is_number is_falsy strip skip_spaces is_space
review_fine = record {
  named = refl;
  titled = refl;
  ordered = refl;
  assigned = refl;
  created = refl;
  updated = refl;
  created_set = refl;
  updated_set = refl;
}

from_dict-to_dict_task_example :
    from_dict (codes "2") (int (pos 9)) (int (pos 9)) (obj (to_dict review)) ≡ ok review
from_dict-to_dict_task_example =
    from_dict-to_dict_task review review_fine (codes "2") (int (pos 9)) (int (pos 9))
