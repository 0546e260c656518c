-- ===== src/Hub/Registration/Enrolment.antt =====
-- sdk-python/intermesh/hub.py: how an agent or an observer that registers is enrolled.

use intermesh.Prelude.{
  ℕ, Text, codes, Bool, true, Option, none, some, List, [], ◌∷◌, ◌++◌, contains, text_eq, nat_eq,
  ◌==◌, if◌then◌else◌,
}
use intermesh.Prelude.Int.{pos}
use intermesh.Prelude.Dict.{insert}
use intermesh.Prelude.Json.{Json, Items, Fields, int, str, bool, arr, obj, nil, cons, end, field}
use intermesh.Prelude.Exec.{raise, ok, pure, modify, ◌>>◌}
use intermesh.Audit.{AuditEntry}
use intermesh.Guardrails.{is_tripped}
use intermesh.Identity.{AgentIdentity, texts}
use intermesh.Store.{Store, save_identity, record_presence}
use intermesh.Message.{MessageType, text_or_null, error, registered}
use intermesh.Hub.{type_error, Env, Hub, Frame, envelope, event, Action}
use intermesh.Hub.Names.{AgentRow, snapshot_agents}
use intermesh.Hub.Send.{make_message, send, audit, entry_fields}
use intermesh.Hub.Registration.{
  Denial, unknown_key, bad_key, key_required, is_local_connection, registration_refusal,
}

-- The local variables of `handle_agent`.
pub record Conn : Type 0 where
  pub agent_name : Option Text
  pub is_observer : Bool

-- A message of the hub that answers no other one.
unfoldable pub tell : Env → ℕ → MessageType → Text → Json → Action (Unit {0})
unfolding send make_message
tell env ws kind to content =
    send env ws (envelope (make_message env kind (codes "hub") (some to) none content none))

unfoldable pub row_fields : AgentRow → Fields
unfolding texts text_or_null
row_fields r = field (codes "name") (str r.name) (
    field (codes "agent_id") (text_or_null r.agent_id) (
      field (codes "roles") (arr (texts r.roles)) (
        field (codes "capabilities") (arr (texts r.capabilities)) (
          field (codes "status")
            (str (if r.meta.healthy then codes "healthy" else codes "unhealthy"))
            (field (codes "connected_at") (int (pos r.meta.connected_at)) (
              field (codes "last_seen") (int (pos r.meta.last_seen)) (
                field (codes "msg_count") (int (pos r.meta.msg_count))
                  (field (codes "online") (bool r.online) end))))))))

unfoldable pub row_items : List AgentRow → Items
unfolding row_fields
row_items [] = nil
row_items (r ∷ rs) = cons (obj (row_fields r)) (row_items rs)

unfoldable pub entry_items : List AuditEntry → Items
unfolding entry_fields
entry_items [] = nil
entry_items (e ∷ es) = cons (obj (entry_fields e)) (entry_items es)

-- The snapshot that an observer receives: the agents and the whole audit chain.
unfoldable pub snapshot : Env → Hub → Frame
unfolding row_items entry_items snapshot_agents
snapshot env h = event (codes "snapshot") (
    field (codes "agents") (arr (row_items (snapshot_agents h))) (
      field (codes "audit_chain") (arr (entry_items h.audit_log.chain))
        (field (codes "server_time") (int (pos env.now)) end)))

-- `observers.add(websocket)`
unfoldable pub add_observer : ℕ → Hub → Hub
add_observer ws h = record h {
  observers = if contains ws h.observers then h.observers else h.observers ++ ws ∷ [];
}

unfoldable pub send_snapshot : Env → ℕ → Action (Unit {0})
unfolding send snapshot
send_snapshot env ws h = send env ws (snapshot env h) h

-- An observer without a key: telemetry alone, beyond the limit on agents.
unfoldable pub enrol_observer : Env → ℕ → Text → Conn → Action Conn
unfolding registration_refusal tell audit add_observer send_snapshot
enrol_observer env ws name conn = elim (registration_refusal env ws none) [
  | some why ↦ do
    tell env ws error name (str why)
    audit env (codes "OBSERVER_REJECTED") name none
        (field (codes "reason") (str (codes "no_api_key")) end)
    pure conn
  | none ↦ do
    modify (add_observer ws)
    send_snapshot env ws
    tell env ws registered name (
        obj (
          field (codes "status") (str (codes "ready"))
            (field (codes "token") (str (codes "observer")) end)))
    pure (record conn { is_observer = true })
]

-- A registration that is denied.
unfoldable pub deny_registration : Env → ℕ → Text → Denial → Action (Unit {0})
unfolding tell audit is_local_connection
deny_registration env ws name unknown_key =
    tell env ws error name (str (codes "API Key Entreprise invalide."))
deny_registration env ws name bad_key = raise type_error
deny_registration env ws name (key_required why) = do
  tell env ws error name (str why)
  audit env (codes "SELF_DECLARED_REFUSED") name none (
      field (codes "local") (bool (is_local_connection env ws))
        (field (codes "require_api_key") (bool env.require_api_key) end))
  pure tt

-- `asimov_engine.circuit_breaker.is_tripped(agent_name)`
unfoldable pub breaker_tripped : Env → Text → Action Bool
breaker_tripped env name h =
    let (tripped, b) = is_tripped name env.now h.engine.breaker in
    (ok tripped, record h { engine = record h.engine { breaker = b } })

unfoldable pub store_agent : Env → Text → AgentIdentity → Option Store → Option Store
unfolding save_identity record_presence
store_agent env name i none = none
store_agent env name i (some s) = some (
    if env.cluster_url == []
    then save_identity i s
    else record_presence name env.hub_id env.cluster_url i.org_id env.now (save_identity i s))

-- The entries of an agent that is accepted.
unfoldable pub enter_agent : Env → ℕ → Text → AgentIdentity → Hub → Hub
unfolding store_agent
enter_agent env ws name i h = record h {
  agents = insert name ws h.agents;
  identity_registry = insert name i h.identity_registry;
  agent_meta =
      insert name
        (record { connected_at = env.now; last_seen = env.now; msg_count = 0; healthy = true })
        h.agent_meta;
  store = store_agent env name i h.store;
}
