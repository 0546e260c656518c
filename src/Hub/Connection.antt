-- ===== src/Hub/Connection.antt =====
-- sdk-python/intermesh/hub.py: the links between hubs, as `handle_agent` opens and serves them: siblings of
-- a cluster and peers of other organisations, with the kill switch and the end of a connection.
pub mod Dispatch
pub mod Closing
pub mod Closed
use intermesh.Prelude.{
  ℕ, ltb, Text, codes, Bool, true, false, not, Option, none, some, List, [], ◌∷◌, ◌++◌, text_eq,
  nat_eq, ◌==◌, if◌then◌else◌,
}
use intermesh.Prelude.Int.{pos}
use intermesh.Prelude.Dict.{Dict, lookup, insert, erase}
use intermesh.Prelude.Json.{Json, Fields, int, str, obj, end, field}
use intermesh.Prelude.Exec.{Result, ok, err, Exec, pure, read, lift, modify, ◌>>=◌, ◌>>◌}
use intermesh.Prelude.Results.{get}
use intermesh.Assurance.Evidence.Verify.{is_falsy}
use intermesh.Message.{
  InterMeshMessage, MessageType, from_dict, text_or_null, error, cluster_joined, peer_connected,
}
use intermesh.Hub.{Env, Hub, Claims, Frame, envelope, closing, HubError, bad_message, Action}
use intermesh.Hub.Names.{local_name}
use intermesh.Hub.Tokens.{decode_token, is_expired, claims_text}
use intermesh.Hub.Send.{make_message, send, try_send, shown_type, audit, broadcast_entry}
use intermesh.Hub.Escrowed.{text_member, text_or_empty, content_fields}

-- `a or b` of texts.
unfoldable pub or_else : Option Text → Text → Text
or_else none b = b
or_else (some []) b = b
or_else (some (c ∷ s)) b = c ∷ s

-- A frame for a local agent, in a `try` that drops its exception.
unfoldable pub try_local : Env → Text → Frame → Action Bool
unfolding try_send
try_local env name f h = elim (lookup name h.agents) [
  | none ↦ (ok false, h)
  | some ws ↦ try_send env ws f h
]

-- `msg.to or msg.content.get("target_agent")`
unfoldable pub kill_target : InterMeshMessage → Fields → Text
unfolding or_else text_or_empty
kill_target msg d = or_else msg.to (text_or_empty (get (codes "target_agent") d))

unfoldable pub kill_frame : Env → Text → Frame
unfolding make_message
kill_frame env name = envelope (
    make_message env error (codes "hub") (some name) none
      (str (codes "DISCONNECTED_BY_ADMIN: connexion close depuis le plan de contrôle.")) none)

unfoldable pub close_if : Env → Text → Bool → Action (Unit {0})
unfolding try_local
close_if env name false = pure tt
close_if env name true = try_local env name (closing 1000) >> pure tt

unfoldable pub kill_local : Env → InterMeshMessage → Option Text → Action (Unit {0})
unfolding audit broadcast_entry try_local kill_frame close_if
kill_local env msg none = pure tt
kill_local env msg (some name) = do
  entry ←
      audit env (codes "REMOTE_KILL_SWITCH") msg.sender (some name)
        (field (codes "reason") (str (codes "Control Plane Revocation")) end)
  broadcast_entry env entry
  told ← try_local env name (kill_frame env name)
  close_if env name told

-- The kill switch, of a message whose content asks for it.
unfoldable pub kill_agent : Env → InterMeshMessage → Fields → Action (Unit {0})
unfolding kill_target local_name kill_local
kill_agent env msg d h = kill_local env msg (local_name h.agents (kill_target msg d)) h

-- Why a token does not make its bearer a sibling.
unfoldable pub cluster_token_refusal : Env → Option Claims → Option Text
unfolding claims_text is_expired
cluster_token_refusal env none = some (codes "jeton absent ou signature invalide.")
cluster_token_refusal env (some p) =
    if not (claims_text (codes "cluster") p.auth_method)
    then some (codes "jeton non émis pour la grappe.")
    else if is_expired env.now p.expires_at
    then some (codes "jeton expiré.")
    else none

-- The refusal of a `CLUSTER_JOIN`.
unfoldable pub join_refusal : Env → Text → Fields → Dict Text Text → Option Text
unfolding cluster_token_refusal decode_token text_member text_or_empty
join_refusal env my_org d keys =
    let token = decode_token env keys (text_or_empty (get (codes "token") d)) none in
    if text_or_empty (get (codes "org") d) == my_org
    then cluster_token_refusal env token
    else some (codes "organisation différente : utilisez le pairage fédéré.")

unfoldable pub answer_join : Env → ℕ → Text → Option Text → Action (Unit {0})
unfolding send make_message audit
answer_join env ws sibling (some why) = do
  send env ws (
      envelope (
        make_message env error env.hub_id (some sibling) none
          (str (codes "CLUSTER_REJECTED: " ++ why)) none))
  audit env (codes "CLUSTER_REJECTED") sibling (some env.hub_id)
      (field (codes "reason") (str why) end)
  pure tt
answer_join env ws sibling none = do
  send env ws (
      envelope (
        make_message env cluster_joined env.hub_id (some sibling) none
          (obj (field (codes "hub_id") (str env.hub_id) end)) none))
  audit env (codes "CLUSTER_JOINED") sibling (some env.hub_id) end
  pure tt

-- The branch `CLUSTER_JOIN`.
unfoldable pub join_cluster : Env → ℕ → Text → InterMeshMessage → Fields → Action (Unit {0})
unfolding join_refusal answer_join or_else text_member
join_cluster env ws my_org msg d h =
    answer_join env ws (or_else (text_member (get (codes "hub_id") d)) msg.sender)
      (join_refusal env my_org d h.peer_public_keys) h

-- The message that a content holds, read with the identifier and the time of the step.
unfoldable pub read_inner : Env → Json → Result HubError InterMeshMessage
unfolding from_dict
read_inner env content = elim (from_dict env.fresh (int (pos env.now)) content) [
  | err e ↦ err (bad_message e)
  | ok m ↦ ok m
]

unfoldable pub deliver_transported :
    Env → InterMeshMessage → InterMeshMessage → Option Text → Action (Unit {0})
unfolding audit shown_type try_local
deliver_transported env msg inner none =
    audit env (codes "CLUSTER_RELAY_UNDELIVERED") msg.sender inner.to
      (field (codes "message_type") (str (shown_type inner.kind)) end)
    >> pure tt
deliver_transported env msg inner (some name) = try_local env name (envelope inner) >> pure tt

-- The branch `CLUSTER_RELAY`: one hop, to a local agent.
unfoldable pub receive_transport : Env → InterMeshMessage → Action (Unit {0})
unfolding read_inner deliver_transported local_name is_falsy
receive_transport env msg = do
  inner ← lift (read_inner env (if is_falsy msg.content then obj end else msg.content))
  local ← read (λ h. local_name h.agents (or_else inner.to []))
  deliver_transported env msg inner local

-- A refusal of pairing, to the hub that asked for it.
unfoldable pub reject_peer : Env → ℕ → Text → Text → Text → Text → Action (Unit {0})
unfolding send make_message audit
reject_peer env ws my_org org why reason = do
  send env ws (
      envelope
        (make_message env error my_org (some org) none (str (codes "PEER_REJECTED: " ++ why)) none))
  audit env (codes "PEER_REJECTED") org (some my_org) (field (codes "reason") (str reason) end)
  pure tt

-- The two entries of a peer: its key and its socket.
unfoldable pub enter_peer : Text → Text → ℕ → Hub → Hub
enter_peer org key ws h = record h {
  peer_public_keys = insert org key h.peer_public_keys;
  peered_hubs = insert org ws h.peered_hubs;
}

unfoldable pub accept_peer : Env → ℕ → Text → Text → Text → Action (Unit {0})
unfolding enter_peer send make_message audit
accept_peer env ws my_org org key = do
  modify (enter_peer org key ws)
  send env ws (
      envelope (
        make_message env peer_connected my_org none none
          (obj (
            field (codes "org") (str my_org) (
              field (codes "public_key") (str env.public_pem)
                (field (codes "kid") (str env.key_id) end))))
          none))
  audit env (codes "PEER_CONNECTED") org (some my_org) (
      field (codes "direction") (str (codes "inbound"))
        (field (codes "peer_kid") (str (env.key_fingerprint key)) end))
  pure tt

-- The branch `PEER_CONNECT`.
unfoldable pub connect_from : Env → ℕ → Text → InterMeshMessage → Fields → Action (Unit {0})
unfolding or_else text_member text_or_empty reject_peer accept_peer
connect_from env ws my_org msg d =
    let org = or_else (text_member (get (codes "org") d)) msg.sender in
    let key = text_or_empty (get (codes "public_key") d) in
    if key == []
    then reject_peer env ws my_org org (codes "clé publique absente de la demande de pairage.")
        (codes "no_public_key")
    else if env.readable_key key
    then accept_peer env ws my_org org key
    else reject_peer env ws my_org org (env.tell_key key) (codes "bad_public_key")
