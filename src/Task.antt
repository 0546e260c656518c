-- ===== src/Task.antt =====
-- sdk-python/intermesh/task.py: a task, its status and its JSON form. A time stamp is the JSON number
-- that was read; the fresh identifier and the times of a call are arguments.
pub mod Reread
mod Tests
use intermesh.Prelude.{Text, codes, Option, none, some, List, [], ◌∷◌, text_eq, ◌==◌, if◌then◌else◌}
use intermesh.Prelude.Dict.{Dict, lookup}
use intermesh.Prelude.Json.{Json, Fields, str, obj, end, field}
use intermesh.Prelude.Exec.{Result, ok, err}
use intermesh.Prelude.Results.{◌>>=◌, ◌>>◌, require, get}
use intermesh.Message.{
  text_or_null, content_or_null, optional_text, read_filled, read_stamp, id_or, stamp_or,
}

pub data TaskStatus : Type 0 where
  pending running completed failed : TaskStatus

unfoldable pub status_text : TaskStatus → Text
status_text pending = codes "pending"
status_text running = codes "running"
status_text completed = codes "completed"
status_text failed = codes "failed"

abbrev pub task_statuses : Dict Text TaskStatus
task_statuses =
    (codes "pending", pending)
    ∷ (codes "running", running)
    ∷ (codes "completed", completed)
    ∷ (codes "failed", failed)
    ∷ []

-- `TaskStatus(data.get("status", "pending"))`; `none` is its ValueError.
unfoldable pub read_status : Option Json → Option TaskStatus
read_status none = some pending
read_status (some (str s)) = lookup s task_statuses
read_status (some j) = none

-- `error_message` is not validated when a task is read.
pub record InterMeshTask : Type 0 where
  pub task_id : Text
  pub title : Text
  pub orchestrator : Text
  pub assignee : Text
  pub input_data : Json
  pub status : TaskStatus
  pub output_data : Json
  pub error_message : Json
  pub summary : Option Text
  pub created_at : Json
  pub updated_at : Json

-- `TaskValidationError` by its cause: the field that is absent or that has a bad value.
pub data TaskError : Type 0 where
  no_dict absent_title absent_orchestrator absent_assignee absent_input : TaskError
  bad_task_id bad_title bad_orchestrator bad_assignee bad_status : TaskError
  bad_created_at bad_updated_at bad_summary : TaskError

-- `if summary is not None`
unfoldable pub summary_or : Option Text → Option Text → Option Text
summary_or none old = old
summary_or (some s) old = some s

-- `update_status`, at the time `now`.
unfoldable pub update_status :
    TaskStatus → Json → Json → Option Text → Json → InterMeshTask → InterMeshTask
unfolding summary_or
update_status status output error summary now t = record t {
  status = status;
  output_data = output;
  error_message = error;
  summary = summary_or summary t.summary;
  updated_at = now;
}

-- `to_dict`
unfoldable pub to_dict : InterMeshTask → Fields
unfolding status_text text_or_null
to_dict t = field (codes "task_id") (str t.task_id) (
    field (codes "title") (str t.title) (
      field (codes "orchestrator") (str t.orchestrator) (
        field (codes "assignee") (str t.assignee) (
          field (codes "input_data") t.input_data (
            field (codes "status") (str (status_text t.status)) (
              field (codes "output_data") t.output_data (
                field (codes "error_message") t.error_message (
                  field (codes "summary") (text_or_null t.summary) (
                    field (codes "created_at") t.created_at
                      (field (codes "updated_at") t.updated_at end))))))))))

-- `from_dict` of a dict, with a fresh identifier and the times at which the stamps are taken.
unfoldable pub from_fields : Text → Json → Json → Fields → Result TaskError InterMeshTask
unfolding read_status optional_text read_filled read_stamp id_or stamp_or content_or_null
from_fields fresh now later d = do
  raw_title ← require absent_title (get (codes "title") d)
  raw_orchestrator ← require absent_orchestrator (get (codes "orchestrator") d)
  raw_assignee ← require absent_assignee (get (codes "assignee") d)
  input ← require absent_input (get (codes "input_data") d)
  id ← optional_text bad_task_id (get (codes "task_id") d)
  title ← read_filled bad_title raw_title
  orchestrator ← read_filled bad_orchestrator raw_orchestrator
  assignee ← read_filled bad_assignee raw_assignee
  status ← require bad_status (read_status (get (codes "status") d))
  created ← read_stamp bad_created_at (get (codes "created_at") d)
  updated ← read_stamp bad_updated_at (get (codes "updated_at") d)
  summary ← optional_text bad_summary (get (codes "summary") d)
  ok (record {
    task_id = id_or fresh id;
    title = title;
    orchestrator = orchestrator;
    assignee = assignee;
    input_data = input;
    status = status;
    output_data = content_or_null (get (codes "output_data") d);
    error_message = content_or_null (get (codes "error_message") d);
    summary = summary;
    created_at = stamp_or now created;
    updated_at = stamp_or later updated;
  })

-- `from_dict`
unfoldable pub from_dict : Text → Json → Json → Json → Result TaskError InterMeshTask
unfolding from_fields
from_dict fresh now later (obj d) = from_fields fresh now later d
from_dict fresh now later j = err no_dict
