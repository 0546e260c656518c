-- ===== src/Hub/Connection/Closing.antt =====
-- sdk-python/intermesh/hub.py: the end of a connection, and what it leaves of it.
use intermesh.Prelude.{
  ℕ, Text, codes, Bool, true, false, Option, none, some, List, [], ◌∷◌, text_eq, nat_eq, ◌==◌,
  if◌then◌else◌,
}
use intermesh.Prelude.Dict.{Dict, lookup, insert, erase}
use intermesh.Prelude.Json.{str, end, field}
use intermesh.Prelude.Exec.{ok, ◌>>=◌, ◌>>◌}
use intermesh.Store.{Store, clear_presence}
use intermesh.Hub.{Env, Hub, AgentMeta, Action}
use intermesh.Hub.Send.{audit, broadcast, broadcast_entry}
use intermesh.Hub.Registration.Enrolment.{Conn}

-- The organisations whose peer is on this socket.
unfoldable pub orgs_on : ℕ → Dict Text ℕ → List Text
orgs_on ws [] = []
orgs_on ws ((org, w) ∷ d) = let rest = orgs_on ws d in if w == ws then org ∷ rest else rest

unfoldable pub erase_all : {A : Type 0} → List Text → Dict Text A → Dict Text A
erase_all [] d = d
erase_all (k ∷ ks) d = erase_all ks (erase k d)

unfoldable pub discard_socket : ℕ → List ℕ → List ℕ
discard_socket ws [] = []
discard_socket ws (w ∷ more) =
    let rest = discard_socket ws more in if w == ws then rest else w ∷ rest

-- The peers of this socket are forgotten, with their keys.
unfoldable pub drop_peers : ℕ → Hub → Hub
unfolding orgs_on erase_all
drop_peers ws h =
    let orgs = orgs_on ws h.peered_hubs in
    record h {
      peered_hubs = erase_all orgs h.peered_hubs;
      peer_public_keys = erase_all orgs h.peer_public_keys;
    }

unfoldable pub mark_unhealthy : Text → Dict Text AgentMeta → Dict Text AgentMeta
mark_unhealthy name d = elim (lookup name d) [
  | none ↦ d
  | some m ↦ insert name (record m { healthy = false }) d
]

unfoldable pub clear_from : Env → Text → Option Store → Option Store
unfolding clear_presence
clear_from env name none = none
clear_from env name (some s) =
    some (if env.cluster_url == [] then s else clear_presence name env.hub_id s)

-- `del agents[agent_name]` and what goes with it.
unfoldable pub drop_agent : Env → Text → Hub → Hub
unfolding mark_unhealthy clear_from
drop_agent env name h = record h {
  agents = erase name h.agents;
  store = clear_from env name h.store;
  agent_meta = mark_unhealthy name h.agent_meta;
}

unfoldable pub announce_disconnection : Env → Text → Action (Unit {0})
unfolding audit broadcast broadcast_entry
announce_disconnection env name = do
  let status = field (codes "status") (str (codes "unhealthy")) end
  entry ← audit env (codes "AGENT_DISCONNECTED") name (some (codes "hub")) status
  broadcast env (codes "agent_disconnected") (field (codes "agent_name") (str name) status)
  broadcast_entry env entry

-- `if agent_name and agent_name in agents`
unfoldable pub leave_agent : Env → Option Text → Action (Unit {0})
unfolding drop_agent announce_disconnection
leave_agent env none h = (ok tt, h)
leave_agent env (some []) h = (ok tt, h)
leave_agent env (some (c ∷ name)) h = elim (lookup (c ∷ name) h.agents) [
  | none ↦ (ok tt, h)
  | some ws ↦ announce_disconnection env (c ∷ name) (drop_agent env (c ∷ name) h)
]

-- `if is_observer: observers.discard(websocket)`
unfoldable pub leave_observer : ℕ → Bool → Hub → Hub
unfolding discard_socket
leave_observer ws false h = h
leave_observer ws true h = record h { observers = discard_socket ws h.observers }

-- The `finally` of `handle_agent`.
unfoldable pub close_connection : Env → ℕ → Conn → Action (Unit {0})
unfolding leave_observer drop_peers leave_agent
close_connection env ws conn h =
    leave_agent env conn.agent_name (drop_peers ws (leave_observer ws conn.is_observer h))
