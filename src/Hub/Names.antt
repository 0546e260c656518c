-- ===== src/Hub/Names.antt =====
-- sdk-python/intermesh/hub.py: under which name and in which organisation an agent is known, and what
-- is counted and listed of the hub's state. An absent name is the empty text, which names no agent.
pub mod Load
use intermesh.Prelude.{
  ℕ, ◌+◌, nat_beq, Text, codes, Bool, true, false, not, ◌&&◌, Option, none, some, List, [], ◌∷◌,
  contains, text_eq, nat_eq, ◌==◌, if◌then◌else◌,
}
use intermesh.Prelude.Dict.{Dict, lookup, has_key}
use intermesh.Store.{Store, HubRow, list_hubs}
use intermesh.Identity.{AgentIdentity}
use intermesh.Task.{InterMeshTask, TaskStatus, pending, running, completed, failed}
use intermesh.Hub.{Env, Hub, AgentMeta}

-- `_qualified_name`
unfoldable pub qualified_name : AgentIdentity → Text
qualified_name i = if i.org_id == codes "default" then i.name else i.qualified_name

-- `s[len(p):]`, if s starts with p.
unfoldable pub after_prefix : Text → Text → Option Text
after_prefix [] t = some t
after_prefix (c ∷ p) [] = none
after_prefix (c ∷ p) (d ∷ t) = let rest = after_prefix p t in if nat_beq c d then rest else none

-- `s.split("/")[0]`
unfoldable pub before_slash : Text → Text
before_slash [] = []
before_slash (c ∷ s) = let rest = before_slash s in if nat_beq c 47 then [] else c ∷ rest

-- The shorter of the two names, if it is a key.
unfoldable pub short_key {ℓ} : {A : Type ℓ} → Dict Text A → Text → Option Text
unfolding after_prefix
short_key d name = elim (after_prefix (codes "default/") name) [
  | none ↦ none
  | some short ↦ elim (lookup short d) [ none ↦ none | some a ↦ some short ]
]

-- `_local_name`
unfoldable pub local_name : Dict Text ℕ → Text → Option Text
unfolding short_key
local_name agents [] = none
local_name agents (c ∷ n) = elim (lookup (c ∷ n) agents) [
  | some ws ↦ some (c ∷ n)
  | none ↦ short_key agents (c ∷ n)
]

-- The identity that `_agent_org` finds.
unfoldable pub find_identity : Dict Text AgentIdentity → Text → Option AgentIdentity
unfolding after_prefix
find_identity d name = elim (lookup name d) [
  | some i ↦ some i
  | none ↦ elim (after_prefix (codes "default/") name) [ none ↦ none | some short ↦ lookup short d ]
]

-- `_agent_org`
unfoldable pub agent_org : Text → Dict Text AgentIdentity → Text → Text
unfolding find_identity before_slash
agent_org hub_org d name = elim (find_identity d name) [
  | some i ↦ i.org_id
  | none ↦ if contains 47 name then before_slash name else hub_org
]

-- `is_peered`
unfoldable pub is_peered : Text → Hub → Bool
is_peered org h = has_key org h.peered_hubs

unfoldable pub is_terminal : TaskStatus → Bool
is_terminal completed = true
is_terminal failed = true
is_terminal pending = false
is_terminal running = false

unfoldable pub is_pending : TaskStatus → Bool
is_pending pending = true
is_pending running = false
is_pending completed = false
is_pending failed = false

-- The loop of `task_load`.
unfoldable pub count_tasks : Dict Text InterMeshTask → ℕ × ℕ → ℕ × ℕ
unfolding is_terminal is_pending
count_tasks [] n = n
count_tasks ((k, t) ∷ d) (in_flight, queued) = count_tasks d (
    if is_terminal t.status
    then (in_flight, queued)
    else (in_flight + 1, if is_pending t.status then queued + 1 else queued))

-- `task_load`: the tasks in flight and those in the queue.
unfoldable pub task_load : Hub → ℕ × ℕ
unfolding count_tasks
task_load h = count_tasks h.task_registry (0, 0)

unfoldable pub other_urls : Text → Dict Text HubRow → List Text
other_urls own [] = []
other_urls own ((id, r) ∷ d) =
    let rest = other_urls own d in
    if not (id == own) && not (r.hub_url == []) then r.hub_url ∷ rest else rest

-- `sibling_hub_urls`
unfoldable pub sibling_hub_urls : Env → Hub → List Text
unfolding other_urls
sibling_hub_urls env h = elim h.store [
  | none ↦ []
  | some s ↦
      if env.cluster_url == []
      then []
      else other_urls env.hub_id (list_hubs env.now (some env.hub_org) env.presence_ttl s)
]

-- A row of `snapshot_agents`.
pub record AgentRow : Type 0 where
  pub name : Text
  pub agent_id : Option Text
  pub roles : List Text
  pub capabilities : List Text
  pub meta : AgentMeta
  pub online : Bool

unfoldable pub snapshot_row : Hub → Text → AgentMeta → AgentRow
snapshot_row h name meta = elim (lookup name h.identity_registry) [
  | none ↦ record {
    name = name;
    agent_id = none;
    roles = [];
    capabilities = [];
    meta = meta;
    online = has_key name h.agents;
  }
  | some i ↦ record {
    name = name;
    agent_id = some i.agent_id;
    roles = i.roles;
    capabilities = i.capabilities;
    meta = meta;
    online = has_key name h.agents;
  }
]

unfoldable pub snapshot_rows : Hub → Dict Text AgentMeta → List AgentRow
unfolding snapshot_row
snapshot_rows h [] = []
snapshot_rows h ((n, m) ∷ d) = snapshot_row h n m ∷ snapshot_rows h d

-- `snapshot_agents`
unfoldable pub snapshot_agents : Hub → List AgentRow
unfolding snapshot_rows
snapshot_agents h = snapshot_rows h h.agent_meta
