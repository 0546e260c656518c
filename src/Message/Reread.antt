-- ===== src/Message/Reread.antt =====
-- A message of sdk-python/intermesh/message.py that is written is read as it was.
use intermesh.Prelude.{
  arith, ℕ, Text, codes, ◌≡◌, refl, Bool, true, false, Option, none, some, [], ◌∷◌, text_eq,
  text_beq,
}
use intermesh.Prelude.Dict.{lookup}
use intermesh.Prelude.Json.{Json, null, bool, int, float, str, arr, obj}
use intermesh.Prelude.Exec.{ok}
use intermesh.Prelude.Results.{get}
use intermesh.Assurance.Risk.{strip}
use intermesh.Assurance.Evidence.Verify.{is_falsy, is_text}
use intermesh.Message.{
  MessageType, InterMeshMessage, type_text, read_type, text_or_null, token_member, to_dict,
  optional_text, read_filled, read_stamp, is_other_version, id_or, stamp_or, content_or_null,
  from_fields, from_dict, bad_sender, bad_timestamp, bad_token, bad_to, bad_reply_to, register,
  registered, message, request, response, ack, error, who_is, identity, discover, discover_result,
  task_submit, task_assign, task_update, peer_connect, peer_connected, federation_relay,
  cluster_join, cluster_joined, cluster_relay, admin_request, admin_result, telemetry,
}

read_type-type_text : (t : MessageType) → read_type (str (type_text t)) ≡ some t
unfolding read_type type_text lookup text_beq
read_type-type_text register = refl
read_type-type_text registered = refl
read_type-type_text message = refl
read_type-type_text request = refl
read_type-type_text response = refl
read_type-type_text ack = refl
read_type-type_text error = refl
read_type-type_text who_is = refl
read_type-type_text identity = refl
read_type-type_text discover = refl
read_type-type_text discover_result = refl
read_type-type_text task_submit = refl
read_type-type_text task_assign = refl
read_type-type_text task_update = refl
read_type-type_text peer_connect = refl
read_type-type_text peer_connected = refl
read_type-type_text federation_relay = refl
read_type-type_text cluster_join = refl
read_type-type_text cluster_joined = refl
read_type-type_text cluster_relay = refl
read_type-type_text admin_request = refl
read_type-type_text admin_result = refl
read_type-type_text telemetry = refl

unfoldable pub is_filled : Text → Bool
is_filled [] = false
is_filled (c ∷ s) = true

unfoldable pub is_number : Json → Bool
is_number (int i) = true
is_number (float f) = true
is_number (bool b) = true
is_number j = false

unfoldable pub is_token : Option Text → Bool
unfolding is_filled
is_token none = true
is_token (some s) = is_filled s

-- What the constructor and the checks of `from_dict` establish.
pub record IsWellFormed (m : InterMeshMessage) : Type 0 where
  pub named : is_filled m.id ≡ true
  pub supported : m.version ≡ codes "intermesh/v1"
  pub signed : is_filled (strip m.sender) ≡ true
  pub stamped : is_number m.timestamp ≡ true
  pub dated : is_falsy m.timestamp ≡ false
  pub guarded : is_token m.token ≡ true

pub optional_kept :
    {E : Type 0} (e : E) (o : Option Text) → optional_text e (some (text_or_null o)) ≡ ok o
unfolding optional_text text_or_null
optional_kept e none = refl
optional_kept e (some s) = refl

pub id_kept : (fresh s : Text) → is_filled s ≡ true → id_or fresh (some s) ≡ s
unfolding id_or is_filled
id_kept fresh [] h = ground arith
id_kept fresh (c ∷ s) h = refl

filled_cases : (s : Text) → is_filled s ≡ true → (c : ℕ) × (t : Text) × (s ≡ c ∷ t)
unfolding is_filled
filled_cases [] h = ground arith
filled_cases (c ∷ t) h = (c, t, refl)

pub filled_kept :
    {E : Type 0} (e : E) (s : Text) → is_filled (strip s) ≡ true → read_filled e (str s) ≡ ok s
unfolding read_filled is_filled
filled_kept e s h = let (c, t, q) = filled_cases (strip s) h in rw (read_filled, q) refl

pub stamp_kept :
    {E : Type 0} (e : E) (j : Json) → is_number j ≡ true → read_stamp e (some j) ≡ ok (some j)
unfolding read_stamp is_number
stamp_kept e (int i) h = refl
stamp_kept e (float f) h = refl
stamp_kept e (bool b) h = refl
stamp_kept e null h = ground arith
stamp_kept e (str s) h = ground arith
stamp_kept e (arr xs) h = ground arith
stamp_kept e (obj f) h = ground arith

pub date_kept : (now j : Json) → is_falsy j ≡ false → stamp_or now (some j) ≡ j
unfolding stamp_or
date_kept now j h = rw h refl

token_kept :
    (o : Option Text)
    → is_token o ≡ true
    → optional_text bad_token (get (codes "token") (token_member o)) ≡ ok o
unfolding optional_text token_member is_token is_filled get text_beq
token_kept none h = refl
token_kept (some []) h = ground arith
token_kept (some (c ∷ s)) h = refl

-- A well-formed message that is written as a dict is read as the same message, at any later time.
pub from_dict-to_dict_message :
    (m : InterMeshMessage)
    → IsWellFormed m
    → (fresh : Text) (now : Json) → from_dict fresh now (obj (to_dict m)) ≡ ok m
unfolding from_dict from_fields to_dict get text_beq is_other_version is_text content_or_null
    optional_text
from_dict-to_dict_message m h fresh now =
    rw
      (
        read_type-type_text m.kind,
        filled_kept bad_sender m.sender h.signed,
        optional_kept bad_to m.to,
        optional_kept bad_reply_to m.reply_to,
        stamp_kept bad_timestamp m.timestamp h.stamped,
        token_kept m.token h.guarded,
        id_kept fresh m.id h.named,
        date_kept now m.timestamp h.dated,
      )
      (rw h.supported refl)
