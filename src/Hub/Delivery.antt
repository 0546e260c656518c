-- ===== src/Hub/Delivery.antt =====
-- sdk-python/intermesh/hub.py: how a message reaches its target: an agent of this hub, an agent of
-- another hub of the cluster, or the hub of another organisation, for which it is filtered.
pub mod Filtering
pub mod Reach
pub mod Writes
use intermesh.Prelude.{
  ℕ, Text, codes, Bool, true, false, not, ◌&&◌, Option, none, some, List, [], ◌∷◌, text_eq, ◌==◌,
  if◌then◌else◌,
}
use intermesh.Prelude.Dict.{lookup, insert, erase}
use intermesh.Prelude.Json.{Json, Items, Fields, str, arr, obj, end, field}
use intermesh.Prelude.Exec.{Result, ok, err, Exec, pure, read, ◌>>=◌, ◌>>◌}
use intermesh.Store.{Presence, find_presence}
use intermesh.Egress.{apply_egress}
use intermesh.Identity.{texts}
use intermesh.Task.{InterMeshTask}
use intermesh.Task
use intermesh.Message.{InterMeshMessage, to_dict, cluster_relay, federation_relay, task_assign}
use intermesh.Hub.{Env, Hub, Frame, envelope, HubError, Action}
use intermesh.Hub.Names.{local_name, agent_org}
use intermesh.Hub.Send.{make_message, try_send, shown_type, audit, broadcast}

-- `_cluster_link`: a link that is open is taken again.
unfoldable pub cluster_link : Env → Text → Text → Action (Option ℕ)
cluster_link env id url h = elim (lookup id h.cluster_links) [
  | some ws ↦ (ok (some ws), h)
  | none ↦ elim (env.join id url) [
    | none ↦ (ok none, h)
    | some ws ↦ (ok (some ws), record h { cluster_links = insert id ws h.cluster_links })
  ]
]

-- A transfer that fails forgets the link.
unfoldable pub forward_on : Env → InterMeshMessage → Text → Option ℕ → Action Bool
unfolding try_send make_message
forward_on env msg id none h = (ok false, h)
forward_on env msg id (some ws) h =
    let relay = make_message env cluster_relay env.hub_id (some id) none (obj (to_dict msg)) none in
    let forgotten : Hub = record h { cluster_links = erase id h.cluster_links } in
    if env.is_open ws then try_send env ws (envelope relay) h else (ok false, forgotten)

-- `_forward_to_sibling`
unfoldable pub forward_to_sibling : Env → InterMeshMessage → Presence → Action Bool
unfolding cluster_link forward_on
forward_to_sibling env msg p = do
  link ← cluster_link env p.hub_id p.hub_url
  forward_on env msg p.hub_id link

-- Where the cluster says that the target is, if that is another hub of this organisation.
unfoldable pub sibling_of : Env → Text → Hub → Option Presence
sibling_of env target h = elim h.store [
  | none ↦ none
  | some s ↦ elim (find_presence env.now target env.presence_ttl s) [
    | none ↦ none
    | some p ↦
        if not (env.cluster_url == []) && not (p.hub_id == env.hub_id) && p.org_id == env.hub_org
        then some p
        else none
  ]
]

-- The entry and the event of an EgressBlocked.
unfoldable pub note_blocked : Env → InterMeshMessage → Text → Text → Action (Option Json)
unfolding audit broadcast shown_type
note_blocked env msg org rule = do
  audit env (codes "EGRESS_BLOCKED") msg.sender (some org) (
      field (codes "rule") (str rule)
        (field (codes "message_type") (str (shown_type msg.kind)) end))
  broadcast env (codes "egress_blocked") (
      field (codes "sender") (str msg.sender)
        (field (codes "target_org") (str org) (field (codes "rule") (str rule) end)))
  pure none

-- `if triggered`: the entry with the names of the rules.
unfoldable pub note_redacted :
    Env → InterMeshMessage → Text → Json → List Text → Action (Option Json)
unfolding audit shown_type texts
note_redacted env msg org content [] = pure (some content)
note_redacted env msg org content (r ∷ rs) = do
  audit env (codes "EGRESS_REDACTED") msg.sender (some org) (
      field (codes "rules") (arr (texts (r ∷ rs)))
        (field (codes "message_type") (str (shown_type msg.kind)) end))
  pure (some content)

-- What the egress policy makes of the content, with its entries in the audit log; `none` if blocked.
unfoldable pub filter_content : Env → InterMeshMessage → Text → Action (Option Json)
unfolding note_blocked note_redacted
filter_content env msg org h = elim (apply_egress env.regex msg.content org env.egress_policy) [
  | err rule ↦ note_blocked env msg org rule h
  | ok (content, names) ↦ note_redacted env msg org content names h
]

-- The message that carries another to the hub of an organisation.
unfoldable pub relay_to : Env → Text → InterMeshMessage → Frame
unfolding make_message
relay_to env org msg =
    envelope
      (make_message env federation_relay env.hub_org (some org) none (obj (to_dict msg)) none)

unfoldable pub relay_on : Env → InterMeshMessage → Text → ℕ → Option Json → Action Bool
unfolding try_send relay_to
relay_on env msg org ws none h = (ok false, h)
relay_on env msg org ws (some content) h =
    try_send env ws (relay_to env org (record msg { content = content })) h

-- The end of `deliver_or_relay`, from the search of the peer on.
unfoldable pub relay_to_peer : Env → InterMeshMessage → Text → Option ℕ → Action Bool
unfolding filter_content relay_on
relay_to_peer env msg org none h = (ok false, h)
relay_to_peer env msg org (some ws) h =
    (filter_content env msg org >>= λ content. relay_on env msg org ws content) h

unfoldable pub deliver_peer : Env → InterMeshMessage → Text → Action Bool
unfolding relay_to_peer
deliver_peer env msg target h =
    let org = agent_org env.hub_org h.identity_registry target in
    relay_to_peer env msg org (lookup org h.peered_hubs) h

-- The sibling is tried first, then the peer.
unfoldable pub deliver_away : Env → InterMeshMessage → Text → Action Bool
unfolding forward_to_sibling sibling_of deliver_peer
deliver_away env msg target h = elim (sibling_of env target h) [
  | none ↦ deliver_peer env msg target h
  | some p ↦
      (forward_to_sibling env msg p >>= λ done.
      if done then pure true else deliver_peer env msg target)
        h
]

unfoldable pub deliver_to : Env → InterMeshMessage → Text → Action Bool
unfolding try_send deliver_away
deliver_to env msg target h = elim (local_name h.agents target) [
  | none ↦ deliver_away env msg target h
  | some name ↦ elim (lookup name h.agents) [
    | none ↦ (ok false, h)
    | some ws ↦ try_send env ws (envelope msg) h
  ]
]

unfoldable pub deliver_given : Env → InterMeshMessage → Option Text → Action Bool
unfolding deliver_to
deliver_given env msg none h = (ok false, h)
deliver_given env msg (some []) h = (ok false, h)
deliver_given env msg (some (c ∷ target)) h = deliver_to env msg (c ∷ target) h

-- `deliver_or_relay`
unfoldable pub deliver_or_relay : Env → InterMeshMessage → Action Bool
unfolding deliver_given
deliver_or_relay env msg = deliver_given env msg msg.to

-- `send_task_to_agent`
unfoldable pub send_task_to_agent : Env → InterMeshTask → Action Bool
unfolding deliver_or_relay make_message
send_task_to_agent env t = deliver_or_relay env (
    make_message env task_assign (codes "hub") (some t.assignee) none
      (obj (intermesh.Task.to_dict t)) none)
