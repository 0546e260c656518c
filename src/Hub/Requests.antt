-- ===== src/Hub/Requests.antt =====
-- sdk-python/intermesh/hub.py: the other requests of an agent that `handle_agent` answers: who an agent
-- is, the search for agents, and messages between agents.
pub mod Isolation
use intermesh.Prelude.{
  ℕ, Text, codes, Bool, true, false, not, ◌&&◌, Option, none, some, List, [], ◌∷◌, ◌++◌, text_eq,
  ◌==◌, if◌then◌else◌,
}
use intermesh.Prelude.Dict.{lookup}
use intermesh.Prelude.Json.{Json, Fields, str, obj}
use intermesh.Prelude.Exec.{Result, ok, err, Exec, pure, read, lift, ◌>>=◌, ◌>>◌}
use intermesh.Identity.{AgentIdentity, to_dict}
use intermesh.Message.{InterMeshMessage, error, identity, discover_result}
use intermesh.Hub.{Env, Hub, HubError, Action}
use intermesh.Hub.Names.{agent_org, is_peered}
use intermesh.Hub.Send.{make_message, send, reply}
use intermesh.Hub.Discovery.{read_query, discover_agents, discovery_result}
use intermesh.Hub.Delivery.{relay_to, deliver_or_relay}
use intermesh.Hub.Escrowed.{content_fields, text_or_empty}

-- The peer that is asked for an agent that is unknown here, if its organisation is another one.
unfoldable pub asked_peer : Env → Text → Text → Hub → Option ℕ
asked_peer env sender_org target h =
    let org = agent_org env.hub_org h.identity_registry target in
    if org == sender_org then none else lookup org h.peered_hubs

unfoldable pub ask_peer : Env → InterMeshMessage → Text → Option ℕ → Action (Unit {0})
unfolding send relay_to
ask_peer env msg org none = pure tt
ask_peer env msg org (some ws) = send env ws (relay_to env org msg)

unfoldable pub answer_identity :
    Env → ℕ → InterMeshMessage → Text → Option AgentIdentity → Action (Unit {0})
unfolding reply asked_peer ask_peer to_dict
answer_identity env ws msg target (some i) h =
    if i.org_id == agent_org env.hub_org h.identity_registry msg.sender
    then reply env ws identity msg (obj (to_dict i)) msg.token h
    else (ok tt, h)
answer_identity env ws msg target none h =
    let org = agent_org env.hub_org h.identity_registry in
    ask_peer env msg (org target) (asked_peer env (org msg.sender) target h) h

-- The branch `WHO_IS`; a name that is no text is unknown here.
unfoldable pub who_is_agent : Env → ℕ → InterMeshMessage → Action (Unit {0})
unfolding answer_identity text_or_empty
who_is_agent env ws msg h =
    let target = text_or_empty (some msg.content) in
    answer_identity env ws msg target (lookup target h.identity_registry) h

-- The branch `DISCOVER`, for a caller of an organisation.
unfoldable pub answer_discovery : Env → ℕ → InterMeshMessage → Text → Action (Unit {0})
unfolding content_fields read_query discover_agents discovery_result reply
answer_discovery env ws msg caller = do
  query ← lift (content_fields msg.content)
  q ← lift (read_query query)
  answer ← read (λ h. discovery_result h query (discover_agents env h q caller))
  reply env ws discover_result msg (obj answer) msg.token

unfoldable pub discover_for : Env → ℕ → InterMeshMessage → Action (Unit {0})
unfolding answer_discovery
discover_for env ws msg h =
    answer_discovery env ws msg (agent_org env.hub_org h.identity_registry msg.sender) h

-- `target and target_org != sender_org and not is_peered(target_org)`
unfoldable pub is_foreign : Env → InterMeshMessage → Text → Hub → Bool
unfolding is_peered
is_foreign env msg target h =
    let org = agent_org env.hub_org h.identity_registry in
    not (org target == org msg.sender) && not (is_peered (org target) h)

unfoldable pub isolation_text : Text → Text
isolation_text target =
    codes "Isolement Multi-Tenant : '" ++ target ++ codes "' appartient à une autre organisation."

unfoldable pub route_given : Env → ℕ → InterMeshMessage → Option Text → Action (Unit {0})
unfolding is_foreign isolation_text make_message send deliver_or_relay
route_given env ws msg (some (c ∷ target)) h =
    if is_foreign env msg (c ∷ target) h
    then reply env ws error msg (str (isolation_text (c ∷ target))) none h
    else (deliver_or_relay env msg >> pure tt) h
route_given env ws msg (some []) h = (deliver_or_relay env msg >> pure tt) h
route_given env ws msg none h = (deliver_or_relay env msg >> pure tt) h

-- The branch of `MESSAGE`, `REQUEST` and `RESPONSE`.
unfoldable pub route_message : Env → ℕ → InterMeshMessage → Action (Unit {0})
unfolding route_given
route_message env ws msg = route_given env ws msg msg.to
