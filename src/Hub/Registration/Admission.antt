-- ===== src/Hub/Registration/Admission.antt =====
-- sdk-python/intermesh/hub.py: the branch `REGISTER` of `handle_agent`, from the limit on agents to the
-- tasks that waited for the agent.
use intermesh.Prelude.{
  ℕ, Text, codes, Bool, true, false, ◌&&◌, ◌||◌, Option, none, some, List, [], ◌∷◌, length, map,
  text_eq, ◌==◌, if◌then◌else◌,
}
use intermesh.Prelude.Dict.{Dict}
use intermesh.Prelude.Json.{Fields, str, bool, arr, obj, end, field}
use intermesh.Prelude.Exec.{Result, ok, err, pure, read, lift, modify, ◌>>=◌, ◌>>◌}
use intermesh.Prelude.Results.{get}
use intermesh.Identity.{AgentIdentity, texts, make_identity}
use intermesh.Identity
use intermesh.Task.{InterMeshTask}
use intermesh.Task
use intermesh.Message.{InterMeshMessage, error, registered, task_assign}
use intermesh.Hub.{Env, Hub, closing, Action}
use intermesh.Hub.Names.{qualified_name, is_pending, sibling_hub_urls}
use intermesh.Hub.Tokens.{generate_token}
use intermesh.Hub.Send.{send, audit, broadcast, broadcast_entry}
use intermesh.Hub.Escrowed.{content_fields}
use intermesh.Hub.Registration.{
  Grant, Denial, is_keyless, wants_telemetry, grant_of, gets_telemetry, raw_identity, is_full,
}
use intermesh.Hub.Registration.Enrolment.{
  Conn, tell, add_observer, send_snapshot, enrol_observer, deny_registration, breaker_tripped,
  enter_agent,
}

-- The pending tasks of an agent.
unfoldable pub waiting_tasks : Text → Dict Text InterMeshTask → List InterMeshTask
unfolding is_pending
waiting_tasks name [] = []
waiting_tasks name ((k, t) ∷ d) =
    let rest = waiting_tasks name d in
    if t.assignee == name && is_pending t.status then t ∷ rest else rest

-- The loop that resumes them.
unfoldable pub resume_tasks : Env → ℕ → Text → List InterMeshTask → Action (Unit {0})
unfolding tell audit
resume_tasks env ws name [] = pure tt
resume_tasks env ws name (t ∷ ts) = do
  tell env ws task_assign name (obj (intermesh.Task.to_dict t))
  audit env (codes "TASK_RESUMED") (codes "hub") (some name)
      (field (codes "task_id") (str t.task_id) end)
  resume_tasks env ws name ts

-- `if cert_cn: details["client_cert_cn"] = cert_cn`
unfoldable pub certificate_member : Option Text → Fields
certificate_member none = end
certificate_member (some []) = end
certificate_member (some (c ∷ s)) = field (codes "client_cert_cn") (str (c ∷ s)) end

unfoldable pub append_fields : Fields → Fields → Fields
append_fields end more = more
append_fields (field k v f) more = field k v (append_fields f more)

-- The entry and the events of an agent that is accepted.
unfoldable pub announce_agent : Env → ℕ → Text → AgentIdentity → Grant → Action (Unit {0})
unfolding audit broadcast broadcast_entry certificate_member append_fields
announce_agent env ws name i g = do
  entry ← audit env (codes "AGENT_REGISTERED") name (some (codes "hub")) (
      field (codes "roles") (arr (texts i.roles)) (
        field (codes "org_id") (str i.org_id)
          (field (codes "auth_method") (str g.auth_method) (certificate_member (env.subject ws)))))
  broadcast env (codes "agent_connected") (
      field (codes "agent")
        (obj (
          append_fields (intermesh.Identity.to_dict i) (
            field (codes "status") (str (codes "healthy"))
              (field (codes "online") (bool true) end))))
        end)
  broadcast_entry env entry

-- The content of the answer `REGISTERED`.
unfoldable pub welcome : Env → Text → AgentIdentity → Grant → Hub → Fields
unfolding sibling_hub_urls generate_token
welcome env name i g h = field (codes "status") (str (codes "ready")) (
    field (codes "agent_id") (str i.agent_id) (
      field (codes "qualified_name") (str name) (
        field (codes "roles") (arr (texts i.roles)) (
          field (codes "permissions") (arr (texts i.permissions)) (
            field (codes "org_id") (str i.org_id) (
              field (codes "token")
                (str (generate_token env name i.agent_id i.roles i.org_id g.auth_method))
                (field (codes "online_agents") (arr (texts (map (λ p. p.0) h.agents)))
                  (field (codes "cluster_hubs") (arr (texts (sibling_hub_urls env h))) end))))))))

unfoldable pub start_telemetry : Env → ℕ → Bool → Action (Unit {0})
unfolding add_observer send_snapshot
start_telemetry env ws false = pure tt
start_telemetry env ws true = modify (add_observer ws) >> send_snapshot env ws

-- What follows the entry of an agent.
unfoldable pub welcome_agent : Env → ℕ → Text → AgentIdentity → Grant → Bool → Action (Unit {0})
unfolding announce_agent tell welcome start_telemetry waiting_tasks resume_tasks
welcome_agent env ws name i g telemetry = do
  announce_agent env ws name i g
  answer ← read (welcome env name i g)
  tell env ws registered name (obj answer)
  start_telemetry env ws telemetry
  waiting ← read (λ h. waiting_tasks name h.task_registry)
  resume_tasks env ws name waiting

-- An agent that the circuit breaker isolates is sent away.
unfoldable pub after_breaker :
    Env → ℕ → Conn → Text → AgentIdentity → Grant → Bool → Bool → Action Conn
unfolding tell send enter_agent welcome_agent
after_breaker env ws conn name i g telemetry true = do
  tell env ws error name
      (str (codes "ASIMOV_GUARDRAIL: agent isolé par le disjoncteur de sécurité."))
  send env ws (closing 1008)
  pure (record conn { agent_name = none })
after_breaker env ws conn name i g telemetry false = do
  modify (enter_agent env ws name i)
  welcome_agent env ws name i g telemetry
  pure (record { agent_name = some name; is_observer = conn.is_observer || telemetry })

unfoldable pub enrol_agent : Env → ℕ → Text → Fields → Bool → Conn → Grant → Action Conn
unfolding raw_identity make_identity qualified_name breaker_tripped after_breaker gets_telemetry
enrol_agent env ws sender d wanted conn g = do
  let i = make_identity env.identity_digest env.fresh env.now (raw_identity sender d g)
  let name = qualified_name i
  tripped ← breaker_tripped env name
  after_breaker env ws conn name i g (gets_telemetry wanted g) tripped

unfoldable pub after_grant :
    Env → ℕ → Text → Fields → Bool → Conn → Result Denial Grant → Action Conn
unfolding deny_registration enrol_agent
after_grant env ws sender d wanted conn (err e) = deny_registration env ws sender e >> pure conn
after_grant env ws sender d wanted conn (ok g) = enrol_agent env ws sender d wanted conn g

-- The path of an agent, and of an observer with a key: the limit, then the rights.
unfoldable pub register_agent : Env → ℕ → Text → Text → Fields → Bool → Conn → Action Conn
unfolding is_full tell grant_of after_grant
register_agent env ws my_org sender d wanted conn h =
    if is_full env.max_agents wanted (length h.agents)
    then (tell env ws error sender (str (env.tell_limit (length h.agents))) >> pure conn) h
    else after_grant env ws sender d wanted conn (grant_of env ws my_org d h.api_keys) h

unfoldable pub register_fields : Env → ℕ → Text → Text → Fields → Conn → Action Conn
unfolding wants_telemetry enrol_observer register_agent is_keyless
register_fields env ws my_org sender d conn =
    let wanted = wants_telemetry d sender in
    if wanted && is_keyless (get (codes "api_key") d)
    then enrol_observer env ws sender conn
    else register_agent env ws my_org sender d wanted conn

-- The branch `REGISTER` of `handle_agent`.
unfoldable pub register_connection : Env → ℕ → Text → InterMeshMessage → Conn → Action Conn
unfolding content_fields register_fields
register_connection env ws my_org msg conn =
    lift (content_fields msg.content) >>= λ d. register_fields env ws my_org msg.sender d conn
