-- ===== src/Hub/Delivery/Writes.antt =====
-- What the delivery of sdk-python/intermesh/hub.py writes to: frames, the audit log, the observers and
-- the links of the cluster, and nothing else of the hub's state.
use intermesh.Prelude.{
  Text, ℕ, ◌≡◌, refl, inl, inr, Bool, true, false, Option, none, some, List, [], ◌∷◌, ◌++◌,
  Option-cases, Bool-cases, text_eq, if◌then◌else◌,
}
use intermesh.Prelude.Dict.{Dict, lookup, insert, erase}
use intermesh.Prelude.Json.{Json, Fields}
use intermesh.Prelude.Exec.{pure, Result-cases, ◌>>=◌}
use intermesh.Audit.{AuditLog, AuditEntry}
use intermesh.Egress.{apply_egress}
use intermesh.Message.{InterMeshMessage}
use intermesh.Store.{Presence}
use intermesh.Hub.{Env, Hub, Frame, envelope, Action}
use intermesh.Hub.Names.{local_name, agent_org}
use intermesh.Hub.Send.{push, try_send, audit, broadcast}
use intermesh.Hub.Send.Events.{audit_step, try_send-cases}
use intermesh.Hub.Delivery.{
  cluster_link, forward_on, forward_to_sibling, sibling_of, note_blocked, note_redacted,
  filter_content, relay_on, relay_to_peer, deliver_peer, deliver_away, deliver_to, deliver_given,
  deliver_or_relay,
}

-- The state after a step that writes to nothing else.
abbrev pub wrote : Hub → List (ℕ × Frame) → AuditLog → List ℕ → Dict Text ℕ → Hub
wrote h s l o c = record h { sent = s; audit_log = l; observers = o; cluster_links = c }

abbrev pub OnlyWrites : Hub → Hub → Type 0
OnlyWrites h h' =
    (s : List (ℕ × Frame)) × (l : AuditLog) × (o : List ℕ) × (c : Dict Text ℕ) × (h'
      ≡ wrote h s l o c)

pub same : (h : Hub) → OnlyWrites h h
same h = (h.sent, h.audit_log, h.observers, h.cluster_links, refl)

pub then_writes : (h h' h'' : Hub) → OnlyWrites h h' → OnlyWrites h' h'' → OnlyWrites h h''
then_writes h h' h'' (s, l, o, c, p) (s', l', o', c', q) = (s', l', o', c', rw (q, p) refl)

pub bind-OnlyWrites :
    {A B : Type 0} (m : Action A) (k : A → Action B) (h : Hub)
    → OnlyWrites h (m h).1
    → ((a : A) (h' : Hub) → OnlyWrites h' (k a h').1)
    → OnlyWrites h ((m >>= k) h).1
bind-OnlyWrites m k h first next = elim (Result-cases (m h).0) [
  | inr (e, q) ↦ rw q first
  | inl (a, q) ↦ rw q (then_writes h (m h).1 (k a (m h).1).1 first (next a (m h).1))
]

pub audit-OnlyWrites :
    {A : Type 0} (env : Env) (kind who : Text) (whom : Option Text) (meta : Fields)
    (k : AuditEntry → Action A) (h : Hub)
    → ((e : AuditEntry) (h' : Hub) → OnlyWrites h' (k e h').1)
    → OnlyWrites h ((audit env kind who whom meta >>= k) h).1
audit-OnlyWrites env kind who whom meta k h next =
    audit_step (λ r. OnlyWrites h r.1) env kind who whom meta k h (same h)
      (λ e l.
        let logged : Hub = record h { audit_log = l } in
        then_writes h logged (k e logged).1 (h.sent, l, h.observers, h.cluster_links, refl)
          (next e logged))

pub broadcast-OnlyWrites :
    (env : Env) (name : Text) (fields : Fields) (h : Hub)
    → OnlyWrites h (broadcast env name fields h).1
unfolding broadcast
broadcast-OnlyWrites env name fields h = (_, h.audit_log, _, h.cluster_links, refl)

pub try_send-OnlyWrites :
    (env : Env) (ws : ℕ) (f : Frame) (h : Hub) → OnlyWrites h (try_send env ws f h).1
unfolding push
try_send-OnlyWrites env ws f h = elim (try_send-cases env ws f h) [
  | inl q ↦ rw q (h.sent ++ (ws, f) ∷ [], h.audit_log, h.observers, h.cluster_links, refl)
  | inr q ↦ rw q (same h)
]

module _ (env : Env) (msg : InterMeshMessage) where
  filter_content-OnlyWrites : (org : Text) (h : Hub) → OnlyWrites h (filter_content env msg org h).1
  unfolding filter_content note_blocked note_redacted
  filter_content-OnlyWrites org h =
      elim (Result-cases (apply_egress env.regex msg.content org env.egress_policy)) [
        | inr (rule, e) ↦
            rw (filter_content, e)
              (audit-OnlyWrites env _ _ _ _ _ h (λ a h'. broadcast-OnlyWrites env _ _ h'))
        | inl ((content, []), e) ↦ rw (filter_content, e) (same h)
        | inl ((content, n ∷ ns), e) ↦
            rw (filter_content, e) (audit-OnlyWrites env _ _ _ _ _ h (λ a h'. same h'))
      ]

  relay_on-OnlyWrites :
      (org : Text) (ws : ℕ) (o : Option Json) (h : Hub)
      → OnlyWrites h (relay_on env msg org ws o h).1
  unfolding relay_on
  relay_on-OnlyWrites org ws none h = same h
  relay_on-OnlyWrites org ws (some content) h = try_send-OnlyWrites env ws _ h

  relay_to_peer-OnlyWrites :
      (org : Text) (o : Option ℕ) (h : Hub) → OnlyWrites h (relay_to_peer env msg org o h).1
  unfolding relay_to_peer
  relay_to_peer-OnlyWrites org none h = same h
  relay_to_peer-OnlyWrites org (some ws) h =
      bind-OnlyWrites (filter_content env msg org) (λ o. relay_on env msg org ws o) h
        (filter_content-OnlyWrites org h) (λ o h'. relay_on-OnlyWrites org ws o h')

  deliver_peer-OnlyWrites :
      (target : Text) (h : Hub) → OnlyWrites h (deliver_peer env msg target h).1
  unfolding deliver_peer
  deliver_peer-OnlyWrites target h =
      let org = agent_org env.hub_org h.identity_registry target in
      relay_to_peer-OnlyWrites org (lookup org h.peered_hubs) h

  forward_on-OnlyWrites :
      (id : Text) (o : Option ℕ) (h : Hub) → OnlyWrites h (forward_on env msg id o h).1
  unfolding forward_on try_send push
  forward_on-OnlyWrites id none h = same h
  forward_on-OnlyWrites id (some ws) h = elim (Bool-cases (env.is_open ws)) [
    | inl live ↦ rw (forward_on, live) (_, h.audit_log, h.observers, h.cluster_links, refl)
    | inr dead ↦
        rw (forward_on, dead) (h.sent, h.audit_log, h.observers, erase id h.cluster_links, refl)
  ]

  cluster_link-OnlyWrites : (id url : Text) (h : Hub) → OnlyWrites h (cluster_link env id url h).1
  unfolding cluster_link
  cluster_link-OnlyWrites id url h = elim (Option-cases (lookup id h.cluster_links)) [
    | inr (ws, linked) ↦ rw (cluster_link, linked) (same h)
    | inl unlinked ↦ elim (Option-cases (env.join id url)) [
      | inl refused ↦ rw (cluster_link, unlinked, refused) (same h)
      | inr (ws, joined) ↦
          rw (cluster_link, unlinked, joined)
            (h.sent, h.audit_log, h.observers, insert id ws h.cluster_links, refl)
    ]
  ]

  forward_to_sibling-OnlyWrites :
      (p : Presence) (h : Hub) → OnlyWrites h (forward_to_sibling env msg p h).1
  unfolding forward_to_sibling
  forward_to_sibling-OnlyWrites p h =
      bind-OnlyWrites (cluster_link env p.hub_id p.hub_url) (λ o. forward_on env msg p.hub_id o) h
        (cluster_link-OnlyWrites p.hub_id p.hub_url h) (λ o h'. forward_on-OnlyWrites p.hub_id o h')

  unless_done-OnlyWrites :
      (done : Bool) (target : Text) (h : Hub)
      → OnlyWrites h ((if done then pure true else deliver_peer env msg target) h).1
  unless_done-OnlyWrites true target h = same h
  unless_done-OnlyWrites false target h = deliver_peer-OnlyWrites target h

  deliver_away-OnlyWrites :
      (target : Text) (h : Hub) → OnlyWrites h (deliver_away env msg target h).1
  unfolding deliver_away
  deliver_away-OnlyWrites target h = elim (Option-cases (sibling_of env target h)) [
    | inl alone ↦ rw (deliver_away, alone) (deliver_peer-OnlyWrites target h)
    | inr (p, there) ↦
        rw (deliver_away, there)
          (bind-OnlyWrites (forward_to_sibling env msg p)
            (λ done. if done then pure true else deliver_peer env msg target) h
            (forward_to_sibling-OnlyWrites p h) (λ done h'. unless_done-OnlyWrites done target h'))
  ]

  deliver_to-OnlyWrites : (target : Text) (h : Hub) → OnlyWrites h (deliver_to env msg target h).1
  unfolding deliver_to
  deliver_to-OnlyWrites target h = elim (Option-cases (local_name h.agents target)) [
    | inl away ↦ rw (deliver_to, away) (deliver_away-OnlyWrites target h)
    | inr (name, here) ↦ elim (Option-cases (lookup name h.agents)) [
      | inl gone ↦ rw (deliver_to, here, gone) (same h)
      | inr (ws, found) ↦ rw (deliver_to, here, found) (try_send-OnlyWrites env ws (envelope msg) h)
    ]
  ]

  deliver_given-OnlyWrites :
      (to : Option Text) (h : Hub) → OnlyWrites h (deliver_given env msg to h).1
  unfolding deliver_given
  deliver_given-OnlyWrites none h = same h
  deliver_given-OnlyWrites (some []) h = same h
  deliver_given-OnlyWrites (some (c ∷ t)) h = deliver_to-OnlyWrites (c ∷ t) h

  pub deliver_or_relay-OnlyWrites : (h : Hub) → OnlyWrites h (deliver_or_relay env msg h).1
  unfolding deliver_or_relay
  deliver_or_relay-OnlyWrites h = deliver_given-OnlyWrites msg.to h
