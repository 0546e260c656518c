-- ===== src/Hub/Federation.antt =====
-- sdk-python/intermesh/hub.py: `process_relayed`, what a hub does with a message that a peer relays.
pub mod Guarded
pub mod Money
use intermesh.Prelude.{
  ℕ, Text, codes, Bool, true, false, not, Option, none, some, List, [], ◌∷◌, ◌++◌, text_eq, ◌==◌,
  if◌then◌else◌,
}
use intermesh.Prelude.Dict.{lookup, has_key}
use intermesh.Prelude.Json.{Json, Fields, str, bool, obj, end, field}
use intermesh.Prelude.Exec.{Result, ok, err, Exec, pure, read, lift, modify, ◌>>=◌, ◌>>◌}
use intermesh.Prelude.Results.{get}
use intermesh.Guardrails.{Violation}
use intermesh.Identity.{AgentIdentity, to_dict}
use intermesh.Task.{InterMeshTask}
use intermesh.Message.{
  InterMeshMessage, MessageType, register, registered, message, request, response, ack, error,
  who_is, identity, discover, discover_result, task_submit, task_assign, task_update, peer_connect,
  peer_connected, federation_relay, cluster_join, cluster_joined, cluster_relay, admin_request,
  admin_result, telemetry,
}
use intermesh.Hub.{Env, Hub, HubError, Action}
use intermesh.Hub.Tokens.{verify_federated_token}
use intermesh.Hub.Send.{make_message, reply, shown_type, audit, broadcast_entry}
use intermesh.Hub.Delivery.{deliver_or_relay}
use intermesh.Hub.Escrowed.{
  text_member, text_or_empty, or_null, content_fields, remember_task, read_task,
}
use intermesh.Hub.Submission.{check_guardrails, violation_name}
use intermesh.Hub.Requests.{answer_discovery}

unfoldable pub token_text : Option Text → Text
token_text none = []
token_text (some t) = t

unfoldable pub denied_text : Text → Text
denied_text origin =
    codes "FEDERATION_DENIED: jeton invalide ou non signé par l'organisation '"
    ++ origin
    ++ codes "'."

-- The branch of a token that is refused.
unfoldable pub deny_relayed : Env → ℕ → InterMeshMessage → Text → Action (Unit {0})
unfolding audit reply shown_type denied_text
deny_relayed env ws msg origin = do
  audit env (codes "FEDERATION_TOKEN_REJECTED") msg.sender (some env.hub_org) (
      field (codes "origin_org") (str origin)
        (field (codes "message_type") (str (shown_type msg.kind)) end))
  reply env ws error msg (str (denied_text origin)) none

unfoldable pub tell_identity : Env → ℕ → InterMeshMessage → Option AgentIdentity → Action (Unit {0})
unfolding reply to_dict
tell_identity env ws msg none = pure tt
tell_identity env ws msg (some i) =
    if i.org_id == env.hub_org
    then reply env ws identity msg (obj (to_dict i)) msg.token
    else pure tt

unfoldable pub relayed_who_is : Env → ℕ → InterMeshMessage → Action (Unit {0})
unfolding tell_identity text_or_empty
relayed_who_is env ws msg =
    read (λ h. lookup (text_or_empty (some msg.content)) h.identity_registry) >>= λ found.
    tell_identity env ws msg found

unfoldable pub refuse_relayed : Env → ℕ → InterMeshMessage → Fields → Violation → Action (Unit {0})
unfolding audit broadcast_entry reply violation_name text_member or_null
refuse_relayed env ws msg raw v = do
  entry ←
      audit env (codes "ASIMOV_GUARDRAIL_VIOLATION") msg.sender
        (text_member (get (codes "assignee") raw))
        (field (codes "rule") (str (violation_name v)) (
          field (codes "reason") (str (env.tell_violation v)) (
            field (codes "task_id") (or_null (get (codes "task_id") raw))
              (field (codes "federated") (bool true) end))))
  broadcast_entry env entry
  reply env ws error msg (str (env.tell_violation v)) msg.token

-- The task goes to its assignee as it came, with the token that came with it.
unfoldable pub relayed_assignment :
    Env → InterMeshMessage → Fields → InterMeshTask → InterMeshMessage
unfolding make_message
relayed_assignment env msg raw t =
    make_message env task_assign (codes "hub") (some t.assignee) (some msg.id) (obj raw) msg.token

unfoldable pub tell_relayed : Env → InterMeshMessage → Fields → InterMeshTask → Action (Unit {0})
unfolding audit broadcast_entry deliver_or_relay relayed_assignment
tell_relayed env msg raw t = do
  entry ← audit env (codes "TASK_SUBMITTED") msg.sender (some t.assignee) (
      field (codes "task_id") (str t.task_id)
        (field (codes "title") (str t.title) (field (codes "federated") (bool true) end)))
  broadcast_entry env entry
  deliver_or_relay env (relayed_assignment env msg raw t)
  pure tt

unfoldable pub accept_relayed : Env → InterMeshMessage → Fields → Action (Unit {0})
unfolding read_task remember_task tell_relayed
accept_relayed env msg raw = do
  t ← lift (read_task env raw)
  modify (remember_task t)
  tell_relayed env msg raw t

unfoldable pub after_relayed_check :
    Env → ℕ → InterMeshMessage → Fields → Result Violation (Unit {0}) → Action (Unit {0})
unfolding refuse_relayed accept_relayed
after_relayed_check env ws msg raw (err v) = refuse_relayed env ws msg raw v
after_relayed_check env ws msg raw (ok _) = accept_relayed env msg raw

-- The branch `TASK_SUBMIT`: the guardrails alone stand before the task.
unfoldable pub relayed_submit : Env → ℕ → InterMeshMessage → Action (Unit {0})
unfolding content_fields check_guardrails after_relayed_check
relayed_submit env ws msg = do
  raw ← lift (content_fields msg.content)
  checked ← check_guardrails env msg raw
  after_relayed_check env ws msg raw checked

unfoldable pub file_relayed : Env → Fields → Bool → Action (Unit {0})
unfolding read_task remember_task
file_relayed env td false = pure tt
file_relayed env td true = lift (read_task env td) >>= λ t. modify (remember_task t)

-- `if td.get("status") == "completed"`
unfoldable pub note_relayed_end : Env → InterMeshMessage → Fields → Bool → Action (Unit {0})
unfolding audit broadcast_entry text_member or_null
note_relayed_end env msg td false = pure tt
note_relayed_end env msg td true = do
  entry ←
      audit env (codes "TASK_COMPLETED") msg.sender (text_member (get (codes "orchestrator") td)) (
        field (codes "task_id") (or_null (get (codes "task_id") td)) (
          field (codes "federated") (bool true)
            (field (codes "summary") (or_null (get (codes "summary") td)) end)))
  broadcast_entry env entry

unfoldable pub passed_update : Env → InterMeshMessage → Fields → InterMeshMessage
unfolding make_message text_member
passed_update env msg td =
    make_message env task_update msg.sender (text_member (get (codes "orchestrator") td)) none
      (obj td) msg.token

unfoldable pub relayed_update_of : Env → InterMeshMessage → Fields → Action (Unit {0})
unfolding file_relayed note_relayed_end deliver_or_relay passed_update text_or_empty
relayed_update_of env msg td = do
  known ← read (λ h. has_key (text_or_empty (get (codes "task_id") td)) h.task_registry)
  file_relayed env td known
  note_relayed_end env msg td (text_or_empty (get (codes "status") td) == codes "completed")
  deliver_or_relay env (passed_update env msg td)
  pure tt

-- The branch `TASK_UPDATE`
unfoldable pub relayed_update : Env → InterMeshMessage → Action (Unit {0})
unfolding content_fields relayed_update_of
relayed_update env msg = lift (content_fields msg.content) >>= λ td. relayed_update_of env msg td

-- What is done with a message whose token is accepted, by its type.
unfoldable pub serve_kind_of : Env → ℕ → InterMeshMessage → MessageType → Action (Unit {0})
unfolding relayed_who_is answer_discovery relayed_submit relayed_update deliver_or_relay
serve_kind_of env ws msg who_is = relayed_who_is env ws msg
serve_kind_of env ws msg discover = answer_discovery env ws msg env.hub_org
serve_kind_of env ws msg task_submit = relayed_submit env ws msg
serve_kind_of env ws msg task_update = relayed_update env msg
serve_kind_of env ws msg message = deliver_or_relay env msg >> pure tt
serve_kind_of env ws msg request = deliver_or_relay env msg >> pure tt
serve_kind_of env ws msg response = deliver_or_relay env msg >> pure tt
serve_kind_of env ws msg task_assign = deliver_or_relay env msg >> pure tt
serve_kind_of env ws msg _ = pure tt

unfoldable pub serve_relayed : Env → ℕ → InterMeshMessage → Action (Unit {0})
unfolding serve_kind_of
serve_relayed env ws msg = serve_kind_of env ws msg msg.kind

-- `process_relayed`
unfoldable pub process_relayed : Env → ℕ → InterMeshMessage → Text → Action (Unit {0})
unfolding verify_federated_token deny_relayed serve_relayed token_text
process_relayed env ws msg origin h =
    if verify_federated_token env h.peer_public_keys (token_text msg.token) origin msg.sender
    then serve_relayed env ws msg h
    else deny_relayed env ws msg origin h
