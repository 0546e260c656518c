-- ===== src/Task/Reread.antt =====
-- A task of sdk-python/intermesh/task.py that is written is read as it was.
use intermesh.Prelude.{◌≡◌, refl, true, false, some, text_beq}
use intermesh.Prelude.Dict.{lookup}
use intermesh.Prelude.Json.{Json, str, obj}
use intermesh.Prelude.Exec.{ok}
use intermesh.Prelude.Results.{get}
use intermesh.Assurance.Risk.{strip}
use intermesh.Assurance.Evidence.Verify.{is_falsy}
use intermesh.Message.{optional_text, content_or_null}
use intermesh.Message.Reread.{
  is_filled, is_number, optional_kept, id_kept, filled_kept, stamp_kept, date_kept,
}
use intermesh.Prelude.{Text}
use intermesh.Task.{
  TaskStatus, pending, running, completed, failed, InterMeshTask, status_text, read_status, to_dict,
  from_fields, from_dict, bad_title, bad_orchestrator, bad_assignee, bad_created_at, bad_updated_at,
  bad_summary,
}

read_status-status_text : (s : TaskStatus) → read_status (some (str (status_text s))) ≡ some s
unfolding read_status status_text lookup text_beq
read_status-status_text pending = refl
read_status-status_text running = refl
read_status-status_text completed = refl
read_status-status_text failed = refl

-- What the constructor and the checks of `from_dict` establish.
pub record IsValid (t : InterMeshTask) : Type 0 where
  pub named : is_filled t.task_id ≡ true
  pub titled : is_filled (strip t.title) ≡ true
  pub ordered : is_filled (strip t.orchestrator) ≡ true
  pub assigned : is_filled (strip t.assignee) ≡ true
  pub created : is_number t.created_at ≡ true
  pub updated : is_number t.updated_at ≡ true
  pub created_set : is_falsy t.created_at ≡ false
  pub updated_set : is_falsy t.updated_at ≡ false

-- A valid task that is written as a dict is read as the same task, at any later time.
pub from_dict-to_dict_task :
    (t : InterMeshTask)
    → IsValid t
    → (fresh : Text) (now later : Json) → from_dict fresh now later (obj (to_dict t)) ≡ ok t
unfolding from_dict from_fields to_dict get text_beq content_or_null optional_text
from_dict-to_dict_task t h fresh now later =
    rw
      (
        read_status-status_text t.status,
        filled_kept bad_title t.title h.titled,
        filled_kept bad_orchestrator t.orchestrator h.ordered,
        filled_kept bad_assignee t.assignee h.assigned,
        stamp_kept bad_created_at t.created_at h.created,
        stamp_kept bad_updated_at t.updated_at h.updated,
        optional_kept bad_summary t.summary,
        id_kept fresh t.task_id h.named,
        date_kept now t.created_at h.created_set,
        date_kept later t.updated_at h.updated_set,
      )
      refl
