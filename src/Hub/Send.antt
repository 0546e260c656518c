-- ===== src/Hub/Send.antt =====
-- sdk-python/intermesh/hub.py: what a hub writes: messages, entries of its audit log, and events that
-- go to the observers.
pub mod Answers
pub mod Events
use intermesh.Prelude.{
  ℕ, Text, codes, Bool, true, false, Option, none, some, List, [], ◌∷◌, ◌++◌, map, contains,
  text_eq, nat_eq, ◌==◌, if◌then◌else◌,
}
use intermesh.Prelude.Int.{pos}
use intermesh.Prelude.Json.{Json, Fields, null, str, int, obj, end, field}
use intermesh.Prelude.Exec.{Result, ok, err, Exec, pure, ◌>>=◌, ◌>>◌}
use intermesh.Assurance.Policy.{upper}
use intermesh.Audit.{AuditEntry, log}
use intermesh.Message.{
  MessageType, InterMeshMessage, text_or_null, type_text, to_dict, error, telemetry,
}
use intermesh.Hub.{
  Env, Hub, Frame, envelope, event, closing, HubError, index_error, send_failed, Action,
}

-- `str(msg.type)`, the name of the member.
unfoldable pub shown_type : MessageType → Text
unfolding type_text
shown_type t =
    codes "MessageType."
    ++ (if type_text t == codes "telemetry_event" then codes "TELEMETRY" else upper (type_text t))

-- `InterMeshMessage(...)`, at the time and with the identifier of the step.
unfoldable pub make_message :
    Env → MessageType → Text → Option Text → Option Text → Json → Option Text → InterMeshMessage
make_message env kind sender to reply_to content token = record {
  id = env.fresh;
  version = codes "intermesh/v1";
  kind = kind;
  sender = sender;
  to = to;
  content = content;
  reply_to = reply_to;
  timestamp = int (pos env.now);
  token = token;
}

unfoldable pub push : ℕ → Frame → Hub → Hub
push ws f h = record h { sent = h.sent ++ (ws, f) ∷ [] }

-- `await ws.send(...)`
unfoldable pub send : Env → ℕ → Frame → Action (Unit {0})
unfolding push
send env ws f h = if env.is_open ws then (ok tt, push ws f h) else (err send_failed, h)

-- `ws.send` in a `try` that turns an exception into False.
unfoldable pub try_send : Env → ℕ → Frame → Action Bool
unfolding push
try_send env ws f h = if env.is_open ws then (ok true, push ws f h) else (ok false, h)

-- A reply of the hub to a message, as `InterMeshMessage(..., reply_to=msg.id)`.
unfoldable pub reply :
    Env → ℕ → MessageType → InterMeshMessage → Json → Option Text → Action (Unit {0})
unfolding send make_message
reply env ws kind msg content token =
    send env ws
      (envelope (make_message env kind (codes "hub") (some msg.sender) (some msg.id) content token))

-- `audit_log.log(...)`
unfoldable pub audit : Env → Text → Text → Option Text → Fields → Action AuditEntry
audit env kind who whom meta h =
    elim (log env.digest env.now kind who whom (some (obj meta)) h.audit_log) [
      | none ↦ (err index_error, h)
      | some (l, e) ↦ (ok e, record h { audit_log = l })
    ]

-- `entry.to_dict()` as JSON.
unfoldable pub entry_fields : AuditEntry → Fields
unfolding text_or_null
entry_fields e = field (codes "index") (int (pos e.index)) (
    field (codes "timestamp") (int (pos e.timestamp)) (
      field (codes "event_type") (str e.event_type) (
        field (codes "sender") (str e.sender) (
          field (codes "target") (text_or_null e.target) (
            field (codes "metadata") e.metadata (
              field (codes "prev_hash") (str e.prev_hash)
                (field (codes "hash") (str e.hash) end)))))))

-- The observers that take the event, and what they are sent.
unfoldable pub reached : (ℕ → Bool) → List ℕ → List ℕ
reached is_open [] = []
reached is_open (ws ∷ more) =
    let rest = reached is_open more in if is_open ws then ws ∷ rest else rest

-- `broadcast`: an observer that fails is discarded.
unfoldable pub broadcast : Env → Text → Fields → Action (Unit {0})
unfolding reached
broadcast env name fields h =
    let alive = reached env.is_open h.observers in
    (
      ok tt,
      record h { observers = alive; sent = h.sent ++ map (λ ws. (ws, event name fields)) alive },
    )

-- `broadcast("audit_entry", {"entry": entry.to_dict()})`
unfoldable pub broadcast_entry : Env → AuditEntry → Action (Unit {0})
unfolding broadcast entry_fields
broadcast_entry env e =
    broadcast env (codes "audit_entry") (field (codes "entry") (obj (entry_fields e)) end)
