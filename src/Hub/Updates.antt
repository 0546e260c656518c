-- ===== src/Hub/Updates.antt =====
-- sdk-python/intermesh/hub.py: what `handle_agent` does with a `task_update`: it files the task, settles
-- the escrow of a task that has ended, and passes the update on to who ordered the task.
pub mod Settled
use intermesh.Prelude.{
  Text, codes, Bool, true, false, ◌&&◌, Option, none, some, List, [], ◌∷◌, text_eq, ◌==◌,
  if◌then◌else◌,
}
use intermesh.Prelude.Dict.{has_key}
use intermesh.Prelude.Json.{Json, Fields, null, str, int, obj, end, field}
use intermesh.Prelude.Exec.{Result, ok, err, Exec, pure, read, lift, modify, ◌>>=◌, ◌>>◌}
use intermesh.Prelude.Results.{get}
use intermesh.Escrow.{Escrow, EscrowHold, EscrowError, is_held, release, refund}
use intermesh.Escrow
use intermesh.Task.{InterMeshTask, TaskStatus, pending, running, completed, failed}
use intermesh.Message.{InterMeshMessage, text_or_null, task_update}
use intermesh.Hub.{Env, Hub, HubError, bad_escrow, Action}
use intermesh.Hub.Send.{make_message, audit, broadcast, broadcast_entry}
use intermesh.Hub.Delivery.{deliver_or_relay}
use intermesh.Hub.Escrowed.{
  text_member, text_or_empty, or_null, content_fields, remember_task, read_task,
}

-- A call of the escrow manager whose EscrowError leaves the handler.
unfoldable pub call_escrow : {A : Type 0} → Exec Escrow EscrowError A → Action A
call_escrow m h =
    let (r, s) = m h.escrow in
    (elim r [ ok a ↦ ok a | err e ↦ err (bad_escrow e) ], record h { escrow = s })

unfoldable pub note_settled : Env → Text → Text → Text → EscrowHold → Action (Unit {0})
unfolding audit
note_settled env kind org tid hold =
    audit env kind (codes "hub") (some org) (
      field (codes "task_id") (str tid) (
        field (codes "amount") (int hold.amount)
          (field (codes "currency") (str hold.currency) end)))
    >> pure tt

-- The hold of a completed task is released, if it is held and set to be.
unfoldable pub settle_completed : Env → Text → Option EscrowHold → Action (Unit {0})
unfolding call_escrow note_settled
settle_completed env tid none = pure tt
settle_completed env tid (some hold) =
    if is_held hold.status && hold.auto_release
    then (call_escrow (release env.now tid)
        >> note_settled env (codes "ESCROW_RELEASED") hold.payee_org tid hold)
    else pure tt

-- The hold of a failed task is refunded, if it is held.
unfoldable pub settle_failed : Env → Text → Option EscrowHold → Action (Unit {0})
unfolding call_escrow note_settled
settle_failed env tid none = pure tt
settle_failed env tid (some hold) =
    if is_held hold.status
    then (call_escrow (refund env.now tid)
        >> note_settled env (codes "ESCROW_REFUNDED") hold.payer_org tid hold)
    else pure tt

unfoldable pub announce_completed :
    Env → InterMeshMessage → Fields → Text → InterMeshTask → Action (Unit {0})
unfolding audit broadcast broadcast_entry text_or_null text_member
announce_completed env msg td tid t = do
  let facts =
      field (codes "task_id") (str tid) (field (codes "summary") (text_or_null t.summary) end)
  entry ←
      audit env (codes "TASK_COMPLETED") msg.sender (text_member (get (codes "orchestrator") td))
        facts
  broadcast env (codes "task_completed") facts
  broadcast_entry env entry

unfoldable pub announce_failed :
    Env → InterMeshMessage → Fields → Text → InterMeshTask → Action (Unit {0})
unfolding audit broadcast text_or_null text_member
announce_failed env msg td tid t = do
  audit env (codes "TASK_FAILED") msg.sender (text_member (get (codes "orchestrator") td))
      (field (codes "task_id") (str tid) (field (codes "error") t.error_message end))
  broadcast env (codes "task_failed") (
      field (codes "task_id") (str tid) (
        field (codes "summary") (text_or_null t.summary)
          (field (codes "error_message") t.error_message end)))

-- `escrow_manager.get(tid)`, read after the announcement.
unfoldable pub hold_of : Text → Hub → Option EscrowHold
hold_of tid h = intermesh.Escrow.get tid h.escrow

unfoldable pub settle_status :
    Env → InterMeshMessage → Fields → Text → InterMeshTask → TaskStatus → Action (Unit {0})
unfolding announce_completed announce_failed settle_completed settle_failed hold_of
settle_status env msg td tid t completed =
    announce_completed env msg td tid t >> (read (hold_of tid) >>= λ o. settle_completed env tid o)
settle_status env msg td tid t failed =
    announce_failed env msg td tid t >> (read (hold_of tid) >>= λ o. settle_failed env tid o)
settle_status env msg td tid t pending = pure tt
settle_status env msg td tid t running = pure tt

-- What follows the status of the task that has been filed.
unfoldable pub settle_task :
    Env → InterMeshMessage → Fields → Text → InterMeshTask → Action (Unit {0})
unfolding settle_status
settle_task env msg td tid t = settle_status env msg td tid t t.status

-- `if tid in task_registry`
unfoldable pub file_update : Env → InterMeshMessage → Fields → Text → Bool → Action (Unit {0})
unfolding read_task remember_task settle_task
file_update env msg td tid false = pure tt
file_update env msg td tid true = do
  t ← lift (read_task env td)
  modify (remember_task t)
  settle_task env msg td tid t

unfoldable pub pass_update : Env → InterMeshMessage → Fields → InterMeshMessage
unfolding make_message text_member
pass_update env msg td =
    make_message env task_update (codes "hub") (text_member (get (codes "orchestrator") td)) none
      (obj td) msg.token

unfoldable pub process_update : Env → InterMeshMessage → Fields → Action (Unit {0})
unfolding file_update text_or_empty deliver_or_relay pass_update
process_update env msg td = do
  let tid = text_or_empty (get (codes "task_id") td)
  known ← read (λ h. has_key tid h.task_registry)
  file_update env msg td tid known
  deliver_or_relay env (pass_update env msg td)
  pure tt

-- The branch `TASK_UPDATE` of `handle_agent`.
unfoldable pub update_task : Env → InterMeshMessage → Action (Unit {0})
unfolding content_fields process_update
update_task env msg = lift (content_fields msg.content) >>= λ td. process_update env msg td
