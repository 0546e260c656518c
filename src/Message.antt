-- ===== src/Message.antt =====
-- sdk-python/intermesh/message.py: the messages that agents and hubs exchange. A time stamp is the JSON
-- number that was read; `strip` takes off the spaces of ASCII.
pub mod Reread
mod Tests
use intermesh.Prelude.{
  ℕ, Text, codes, Bool, true, false, not, Option, none, some, List, [], ◌∷◌, text_eq, ◌==◌,
  if◌then◌else◌,
}
use intermesh.Prelude.Dict.{Dict, lookup}
use intermesh.Prelude.Json.{Json, Fields, null, bool, int, float, str, arr, obj, end, field}
use intermesh.Prelude.Exec.{Result, ok, err}
use intermesh.Prelude.Results.{◌>>=◌, ◌>>◌, require, refuse_if, get}
use intermesh.Assurance.Risk.{strip}
use intermesh.Assurance.Evidence.Verify.{is_falsy, is_text}

pub data MessageType : Type 0 where
  register registered message request response ack error who_is identity discover : MessageType
  discover_result task_submit task_assign task_update peer_connect peer_connected : MessageType
  federation_relay cluster_join cluster_joined cluster_relay admin_request admin_result :
      MessageType
  telemetry : MessageType

unfoldable pub type_text : MessageType → Text
type_text register = codes "register"
type_text registered = codes "registered"
type_text message = codes "message"
type_text request = codes "request"
type_text response = codes "response"
type_text ack = codes "ack"
type_text error = codes "error"
type_text who_is = codes "who_is"
type_text identity = codes "identity"
type_text discover = codes "discover"
type_text discover_result = codes "discover_result"
type_text task_submit = codes "task_submit"
type_text task_assign = codes "task_assign"
type_text task_update = codes "task_update"
type_text peer_connect = codes "peer_connect"
type_text peer_connected = codes "peer_connected"
type_text federation_relay = codes "federation_relay"
type_text cluster_join = codes "cluster_join"
type_text cluster_joined = codes "cluster_joined"
type_text cluster_relay = codes "cluster_relay"
type_text admin_request = codes "admin_request"
type_text admin_result = codes "admin_result"
type_text telemetry = codes "telemetry_event"

abbrev pub message_types : Dict Text MessageType
message_types =
    (codes "register", register)
    ∷ (codes "registered", registered)
    ∷ (codes "message", message)
    ∷ (codes "request", request)
    ∷ (codes "response", response)
    ∷ (codes "ack", ack)
    ∷ (codes "error", error)
    ∷ (codes "who_is", who_is)
    ∷ (codes "identity", identity)
    ∷ (codes "discover", discover)
    ∷ (codes "discover_result", discover_result)
    ∷ (codes "task_submit", task_submit)
    ∷ (codes "task_assign", task_assign)
    ∷ (codes "task_update", task_update)
    ∷ (codes "peer_connect", peer_connect)
    ∷ (codes "peer_connected", peer_connected)
    ∷ (codes "federation_relay", federation_relay)
    ∷ (codes "cluster_join", cluster_join)
    ∷ (codes "cluster_joined", cluster_joined)
    ∷ (codes "cluster_relay", cluster_relay)
    ∷ (codes "admin_request", admin_request)
    ∷ (codes "admin_result", admin_result)
    ∷ (codes "telemetry_event", telemetry)
    ∷ []

-- `MessageType(raw)`; `none` is its ValueError.
unfoldable pub read_type : Json → Option MessageType
read_type (str s) = lookup s message_types
read_type j = none

pub record InterMeshMessage : Type 0 where
  pub id : Text
  pub version : Text
  pub kind : MessageType
  pub sender : Text
  pub to : Option Text
  pub content : Json
  pub reply_to : Option Text
  pub timestamp : Json
  pub token : Option Text

-- `ValidationError` by its cause.
pub data ValidationError : Type 0 where
  not_an_object missing_type missing_sender bad_version bad_type bad_id : ValidationError
  bad_sender bad_to bad_reply_to bad_timestamp bad_token : ValidationError

unfoldable pub text_or_null : Option Text → Json
text_or_null none = null
text_or_null (some s) = str s

-- `if self.token: d["token"] = self.token`
unfoldable pub token_member : Option Text → Fields
token_member none = end
token_member (some []) = end
token_member (some (c ∷ s)) = field (codes "token") (str (c ∷ s)) end

-- `to_dict`
unfoldable pub to_dict : InterMeshMessage → Fields
unfolding text_or_null token_member type_text
to_dict m = field (codes "id") (str m.id) (
    field (codes "version") (str m.version) (
      field (codes "type") (str (type_text m.kind)) (
        field (codes "sender") (str m.sender) (
          field (codes "to") (text_or_null m.to) (
            field (codes "content") m.content (
              field (codes "reply_to") (text_or_null m.reply_to)
                (field (codes "timestamp") m.timestamp (token_member m.token))))))))

-- A text or nothing.
unfoldable pub optional_text : {E : Type 0} → E → Option Json → Result E (Option Text)
optional_text e none = ok none
optional_text e (some null) = ok none
optional_text e (some (str s)) = ok (some s)
optional_text e (some j) = err e

-- A mandatory text that is not blank.
unfoldable pub read_filled : {E : Type 0} → E → Json → Result E Text
unfolding strip
read_filled e (str s) = elim (strip s) [ [] ↦ err e | c ∷ t ↦ ok s ]
read_filled e j = err e

-- A time stamp: a number, which a truth value is too, or nothing.
unfoldable pub read_stamp : {E : Type 0} → E → Option Json → Result E (Option Json)
read_stamp e none = ok none
read_stamp e (some null) = ok none
read_stamp e (some (int i)) = ok (some (int i))
read_stamp e (some (float f)) = ok (some (float f))
read_stamp e (some (bool b)) = ok (some (bool b))
read_stamp e (some j) = err e

-- `data.get("version", "intermesh/v1") != "intermesh/v1"`
unfoldable pub is_other_version : Option Json → Bool
unfolding is_text
is_other_version none = false
is_other_version (some j) = not (is_text (codes "intermesh/v1") (some j))

-- `msg_id or str(uuid.uuid4())`
unfoldable pub id_or : Text → Option Text → Text
id_or fresh none = fresh
id_or fresh (some []) = fresh
id_or fresh (some (c ∷ s)) = c ∷ s

-- `timestamp or time.time()`
unfoldable pub stamp_or : Json → Option Json → Json
unfolding is_falsy
stamp_or now none = now
stamp_or now (some j) = if is_falsy j then now else j

unfoldable pub content_or_null : Option Json → Json
content_or_null none = null
content_or_null (some j) = j

-- `from_dict` of a dict, with a fresh identifier and the time.
unfoldable pub from_fields : Text → Json → Fields → Result ValidationError InterMeshMessage
unfolding read_type optional_text read_filled read_stamp is_other_version id_or stamp_or
    content_or_null
from_fields fresh now d = do
  raw_type ← require missing_type (get (codes "type") d)
  raw_sender ← require missing_sender (get (codes "sender") d)
  refuse_if (is_other_version (get (codes "version") d)) bad_version
  kind ← require bad_type (read_type raw_type)
  id ← optional_text bad_id (get (codes "id") d)
  sender ← read_filled bad_sender raw_sender
  to ← optional_text bad_to (get (codes "to") d)
  reply_to ← optional_text bad_reply_to (get (codes "reply_to") d)
  timestamp ← read_stamp bad_timestamp (get (codes "timestamp") d)
  token ← optional_text bad_token (get (codes "token") d)
  ok (record {
    id = id_or fresh id;
    version = codes "intermesh/v1";
    kind = kind;
    sender = sender;
    to = to;
    content = content_or_null (get (codes "content") d);
    reply_to = reply_to;
    timestamp = stamp_or now timestamp;
    token = token;
  })

-- `from_dict`
unfoldable pub from_dict : Text → Json → Json → Result ValidationError InterMeshMessage
unfolding from_fields
from_dict fresh now (obj d) = from_fields fresh now d
from_dict fresh now j = err not_an_object

-- `from_json`, with `json.loads`; a text that is no JSON is a ValidationError too.
unfoldable pub from_json :
    (Text → Option Json) → Text → Json → Text → Result ValidationError InterMeshMessage
unfolding from_dict
from_json loads fresh now t = elim (loads t) [
  | none ↦ err not_an_object
  | some j ↦ from_dict fresh now j
]
