-- ===== src/Hub/Connection/Dispatch.antt =====
-- sdk-python/intermesh/hub.py: `handle_agent` for one message that has been read. The branch of the
-- administration console is an argument.
use intermesh.Prelude.{ℕ, ◌+◌, Text, codes, Option, none, some, [], text_eq, ◌==◌, if◌then◌else◌}
use intermesh.Prelude.Dict.{lookup, insert}
use intermesh.Prelude.Json.{Json, Fields, str, obj}
use intermesh.Prelude.Exec.{ok, err, pure, lift, modify, ◌>>=◌, ◌>>◌}
use intermesh.Prelude.Results.{get}
use intermesh.Message.{
  InterMeshMessage, MessageType, register, message, request, response, error, who_is, identity,
  discover, discover_result, task_submit, task_update, peer_connect, federation_relay, cluster_join,
  cluster_relay, admin_request,
}
use intermesh.Hub.{Env, Hub, envelope, Action}
use intermesh.Hub.Names.{local_name}
use intermesh.Hub.Tokens.{verify_token}
use intermesh.Hub.Send.{reply}
use intermesh.Hub.Escrowed.{text_or_empty, content_fields}
use intermesh.Hub.Submission.{submit_task}
use intermesh.Hub.Updates.{update_task}
use intermesh.Hub.Requests.{who_is_agent, discover_for, route_message}
use intermesh.Hub.Federation.{token_text, process_relayed}
use intermesh.Hub.Registration.Enrolment.{Conn}
use intermesh.Hub.Registration.Admission.{register_connection}
use intermesh.Hub.Connection.{
  or_else, try_local, kill_agent, join_cluster, read_inner, receive_transport, connect_from,
}

-- `isinstance(msg.content, dict) and msg.content.get("action") == "kill_agent"`
unfoldable pub kill_request : Json → Option Fields
unfolding text_or_empty
kill_request (obj d) =
    if text_or_empty (get (codes "action") d) == codes "kill_agent" then some d else none
kill_request j = none

-- The branch of `IDENTITY` and `DISCOVER_RESULT`: the answer of a peer, for the agent that asked.
unfoldable pub pass_answer : Env → InterMeshMessage → Action (Unit {0})
unfolding local_name or_else try_local
pass_answer env msg h = elim (local_name h.agents (or_else msg.to [])) [
  | none ↦ (ok tt, h)
  | some name ↦ (try_local env name (envelope msg) >> pure tt) h
]

-- The branch `FEDERATION_RELAY`: a content that is no message is dropped.
unfoldable pub receive_relay : Env → ℕ → InterMeshMessage → Action (Unit {0})
unfolding read_inner process_relayed
receive_relay env ws msg = elim (read_inner env msg.content) [
  | err e ↦ pure tt
  | ok inner ↦ process_relayed env ws inner msg.sender
]

-- `last_seen` and `msg_count` of the connection's agent.
unfoldable pub touch_agent : Env → Option Text → Hub → Hub
touch_agent env none h = h
touch_agent env (some name) h = elim (lookup name h.agent_meta) [
  | none ↦ h
  | some m ↦ record h {
    agent_meta =
        insert name (record m { last_seen = env.now; msg_count = m.msg_count + 1 }) h.agent_meta;
  }
]

-- The request of an agent whose token is accepted.
unfoldable pub serve_agent :
    (Env → ℕ → InterMeshMessage → Action (Unit {0}))
    → Env
    → ℕ
    → InterMeshMessage
    → MessageType
    → Action (Unit {0})
unfolding submit_task update_task who_is_agent discover_for route_message
serve_agent console env ws msg who_is = who_is_agent env ws msg
serve_agent console env ws msg discover = discover_for env ws msg
serve_agent console env ws msg task_submit = submit_task env ws msg
serve_agent console env ws msg task_update = update_task env msg
serve_agent console env ws msg message = route_message env ws msg
serve_agent console env ws msg request = route_message env ws msg
serve_agent console env ws msg response = route_message env ws msg
serve_agent console env ws msg admin_request = console env ws msg
serve_agent console env ws msg _ = pure tt

-- The branch of `AUTHENTICATED_TYPES`.
unfoldable pub serve_authenticated :
    (Env → ℕ → InterMeshMessage → Action (Unit {0}))
    → Env
    → ℕ
    → InterMeshMessage
    → Conn
    → Action (Unit {0})
unfolding verify_token reply token_text touch_agent serve_agent
serve_authenticated console env ws msg conn h =
    if verify_token env h.peer_public_keys (token_text msg.token) msg.sender none
    then (modify (touch_agent env conn.agent_name) >> serve_agent console env ws msg msg.kind) h
    else reply env ws error msg (str (codes "Token invalide.")) none h

-- The branches of the message types.
unfoldable pub dispatch :
    (Env → ℕ → InterMeshMessage → Action (Unit {0}))
    → Env
    → ℕ
    → Text
    → InterMeshMessage
    → Conn
    → MessageType
    → Action Conn
unfolding join_cluster receive_transport connect_from receive_relay pass_answer register_connection
    serve_authenticated
dispatch console env ws my_org msg conn cluster_join =
    lift (content_fields msg.content) >>= λ d. join_cluster env ws my_org msg d >> pure conn
dispatch console env ws my_org msg conn cluster_relay = receive_transport env msg >> pure conn
dispatch console env ws my_org msg conn peer_connect =
    lift (content_fields msg.content) >>= λ d. connect_from env ws my_org msg d >> pure conn
dispatch console env ws my_org msg conn federation_relay = receive_relay env ws msg >> pure conn
dispatch console env ws my_org msg conn identity = pass_answer env msg >> pure conn
dispatch console env ws my_org msg conn discover_result = pass_answer env msg >> pure conn
dispatch console env ws my_org msg conn register = register_connection env ws my_org msg conn
dispatch console env ws my_org msg conn message =
    serve_authenticated console env ws msg conn >> pure conn
dispatch console env ws my_org msg conn request =
    serve_authenticated console env ws msg conn >> pure conn
dispatch console env ws my_org msg conn response =
    serve_authenticated console env ws msg conn >> pure conn
dispatch console env ws my_org msg conn task_submit =
    serve_authenticated console env ws msg conn >> pure conn
dispatch console env ws my_org msg conn task_update =
    serve_authenticated console env ws msg conn >> pure conn
dispatch console env ws my_org msg conn who_is =
    serve_authenticated console env ws msg conn >> pure conn
dispatch console env ws my_org msg conn discover =
    serve_authenticated console env ws msg conn >> pure conn
dispatch console env ws my_org msg conn admin_request =
    serve_authenticated console env ws msg conn >> pure conn
dispatch console env ws my_org msg conn _ = pure conn

-- One turn of the loop of `handle_agent`.
unfoldable pub handle_message :
    (Env → ℕ → InterMeshMessage → Action (Unit {0}))
    → Env
    → ℕ
    → Text
    → InterMeshMessage
    → Conn
    → Action Conn
unfolding kill_request kill_agent dispatch
handle_message console env ws my_org msg conn = elim (kill_request msg.content) [
  | some d ↦ kill_agent env msg d >> pure conn
  | none ↦ dispatch console env ws my_org msg conn msg.kind
]
