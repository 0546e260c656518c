-- ===== src/Hub/Escrowed.antt =====
-- sdk-python/intermesh/hub.py: `finalize_task_submission`, which holds the escrow of a task and then
-- delivers it. A member of a raw task that should be a text and is none counts as absent.
pub mod Holding
pub mod Outcome
use intermesh.Prelude.{
  ℕ, Text, codes, Bool, true, false, not, Option, none, some, List, [], ◌∷◌, text_eq, ◌==◌,
  if◌then◌else◌,
}
use intermesh.Prelude.Int.{ℤ, pos}
use intermesh.Prelude.Dict.{insert}
use intermesh.Prelude.Json.{Json, Fields, null, str, int, bool, arr, float, obj, end, field}
use intermesh.Prelude.Exec.{Result, ok, err, Exec, pure, read, lift, modify, ◌>>=◌, ◌>>◌}
use intermesh.Prelude.Results.{get}
use intermesh.Assurance.Evidence.Verify.{is_falsy}
use intermesh.Escrow.{Escrow, EscrowError, EscrowHold, create_hold}
use intermesh.Message.{InterMeshMessage, task_assign}
use intermesh.Store.{Store, save_task}
use intermesh.Task.{InterMeshTask, TaskError, from_dict, to_dict}
use intermesh.Hub.{Env, Hub, HubError, type_error, no_number, bad_task, Action}
use intermesh.Hub.Names.{agent_org}
use intermesh.Hub.Send.{make_message, audit, broadcast, broadcast_entry}
use intermesh.Hub.Delivery.{deliver_or_relay}

unfoldable pub text_member : Option Json → Option Text
text_member none = none
text_member (some (str s)) = some s
text_member (some j) = none

unfoldable pub text_or_empty : Option Json → Text
text_or_empty none = []
text_or_empty (some (str s)) = s
text_or_empty (some j) = []

-- `raw_task.get(key)` among the metadata of an entry.
unfoldable pub or_null : Option Json → Json
or_null none = null
or_null (some j) = j

-- `msg.content or {}`, of which members are then read.
unfoldable pub content_fields : Json → Result HubError Fields
unfolding is_falsy
content_fields (obj f) = ok f
content_fields null = ok end
content_fields (bool b) = if b then err type_error else ok end
content_fields (int i) = if is_falsy (int i) then ok end else err type_error
content_fields (float f) = if is_falsy (float f) then ok end else err type_error
content_fields (str s) = if is_falsy (str s) then ok end else err type_error
content_fields (arr xs) = if is_falsy (arr xs) then ok end else err type_error

-- `escrow_req = raw_task.get("escrow")`, if it is truthy.
unfoldable pub escrow_request : Option Json → Result HubError (Option Fields)
unfolding is_falsy
escrow_request none = ok none
escrow_request (some (obj end)) = ok none
escrow_request (some (obj (field k v f))) = ok (some (field k v f))
escrow_request (some j) = if is_falsy j then ok none else err type_error

-- `float(... or 0)`
unfoldable pub amount_of : (Json → Option ℤ) → Option Json → Result HubError ℤ
unfolding is_falsy
amount_of to_float none = ok (pos 0)
amount_of to_float (some j) =
    if is_falsy j then ok (pos 0) else elim (to_float j) [ none ↦ err no_number | some x ↦ ok x ]

-- `escrow_req.get("currency", "USD")`
unfoldable pub currency_of : Option Json → Text
currency_of none = codes "USD"
currency_of (some (str s)) = s
currency_of (some j) = codes "USD"

-- `bool(escrow_req.get("auto_release", True))`
unfoldable pub auto_of : Option Json → Bool
unfolding is_falsy
auto_of none = true
auto_of (some j) = not (is_falsy j)

-- A call of the escrow manager whose EscrowError is caught.
unfoldable pub on_escrow : {A : Type 0} → Exec Escrow EscrowError A → Action (Result EscrowError A)
on_escrow m h = let (r, s) = m h.escrow in (ok r, record h { escrow = s })

-- `remember_task`
unfoldable pub remember_task : InterMeshTask → Hub → Hub
unfolding save_task
remember_task t h = record h {
  task_registry = insert t.task_id t h.task_registry;
  store = elim h.store [ none ↦ none | some s ↦ some (save_task t s) ];
}

-- `InterMeshTask.from_dict(raw_task)`, whose exception leaves the handler.
unfoldable pub read_task : Env → Fields → Result HubError InterMeshTask
unfolding from_dict
read_task env raw = elim (from_dict env.fresh (int (pos env.now)) (int (pos env.now)) (obj raw)) [
  | err e ↦ err (bad_task e)
  | ok t ↦ ok t
]

-- The entry and the answer for a hold that is refused or made; `some` is the message of an error.
unfoldable pub note_hold :
    Env → Fields → Text → Result EscrowError EscrowHold → Action (Option Text)
unfolding audit text_member or_null
note_hold env raw submitter (err e) = do
  audit env (codes "ESCROW_REJECTED") submitter (text_member (get (codes "assignee") raw)) (
      field (codes "reason") (str (env.tell_escrow e))
        (field (codes "task_id") (or_null (get (codes "task_id") raw)) end))
  pure (some (env.tell_escrow e))
note_hold env raw submitter (ok hold) = do
  audit env (codes "ESCROW_HELD") submitter (text_member (get (codes "assignee") raw)) (
      field (codes "task_id") (str hold.task_id) (
        field (codes "amount") (int hold.amount)
          (field (codes "currency") (str hold.currency) end)))
  pure none

-- The first half of `finalize_task_submission`.
unfoldable pub hold_escrow : Env → Fields → Text → Option Fields → Action (Option Text)
unfolding amount_of currency_of auto_of on_escrow note_hold text_or_empty
hold_escrow env raw submitter none = pure none
hold_escrow env raw submitter (some req) = do
  orgs ← read (λ h. h.identity_registry)
  amount ← lift (amount_of env.lib.to_float (get (codes "amount") req))
  held ← on_escrow (
      create_hold env.fresh env.now (text_or_empty (get (codes "task_id") raw))
        (agent_org env.hub_org orgs submitter)
        (agent_org env.hub_org orgs (text_or_empty (get (codes "assignee") raw))) amount
        (currency_of (get (codes "currency") req)) (auto_of (get (codes "auto_release") req))
        (obj end))
  note_hold env raw submitter held

-- The second half: the task is remembered, announced and delivered.
unfoldable pub announce_task : Env → Text → InterMeshTask → Action (Unit {0})
unfolding audit broadcast broadcast_entry
announce_task env submitter t = do
  entry ←
      audit env (codes "TASK_SUBMITTED") submitter (some t.assignee)
        (field (codes "task_id") (str t.task_id) (field (codes "title") (str t.title) end))
  broadcast env (codes "task_submitted") (
      field (codes "task_id") (str t.task_id) (
        field (codes "title") (str t.title) (
          field (codes "orchestrator") (str submitter)
            (field (codes "assignee") (str t.assignee) end))))
  broadcast_entry env entry

unfoldable pub assignment : Env → Option Text → Option Text → InterMeshTask → InterMeshMessage
unfolding make_message
assignment env token reply_to t =
    make_message env task_assign (codes "hub") (some t.assignee) reply_to (obj (to_dict t)) token

unfoldable pub tell_task : Env → Text → Option Text → Option Text → InterMeshTask → Action Bool
unfolding announce_task assignment deliver_or_relay
tell_task env submitter token reply_to t = do
  announce_task env submitter t
  deliver_or_relay env (assignment env token reply_to t)

unfoldable pub accept_task : Env → Fields → Text → Option Text → Option Text → Action (Option Text)
unfolding read_task remember_task tell_task
accept_task env raw submitter token reply_to = do
  t ← lift (read_task env raw)
  modify (remember_task t)
  tell_task env submitter token reply_to t
  pure none

unfoldable pub unless_refused : Option Text → Action (Option Text) → Action (Option Text)
unless_refused none next = next
unless_refused (some why) next = pure (some why)

-- `finalize_task_submission`
unfoldable pub finalize_task_submission :
    Env → Fields → Text → Option Text → Option Text → Action (Option Text)
unfolding escrow_request hold_escrow accept_task unless_refused
finalize_task_submission env raw submitter token reply_to = do
  req ← lift (escrow_request (get (codes "escrow") raw))
  refusal ← hold_escrow env raw submitter req
  unless_refused refusal (accept_task env raw submitter token reply_to)
