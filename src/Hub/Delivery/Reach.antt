-- ===== src/Hub/Delivery/Reach.antt =====
-- Whom a message that sdk-python/intermesh/hub.py delivers can reach, and with which content.
use intermesh.Prelude.{
  Text, ℕ, ◌≡◌, refl, ap, ◌∙◌, ◌⊎◌, inl, inr, Bool, true, false, Option, none, some, List, [], ◌∷◌,
  ◌++◌, All, Option-cases, Bool-cases, text_eq,
}
use intermesh.Prelude.Dict.{Dict, lookup, insert, erase}
use intermesh.Prelude.Json.{Json, obj}
use intermesh.Prelude.Exec.{Result, ok}
use intermesh.Egress.{apply_egress}
use intermesh.Message.{InterMeshMessage, to_dict, cluster_relay}
use intermesh.Store.{Presence}
use intermesh.Hub.{Env, Hub, Frame, envelope, HubError}
use intermesh.Hub.Names.{local_name, agent_org}
use intermesh.Hub.Send.{push, try_send, make_message}
use intermesh.Hub.Send.Events.{
  Frames, IsEvent, Adds, OnlyEvents, silent, append_append, try_send-cases,
}
use intermesh.Hub.Delivery.{
  cluster_link, forward_on, forward_to_sibling, sibling_of, filter_content, relay_to, relay_on,
  relay_to_peer, deliver_peer, deliver_away, deliver_to, deliver_given, deliver_or_relay,
}
use intermesh.Hub.Delivery.Filtering.{filter_content-Filtered}

-- The frame in which a message goes to another hub of the cluster.
abbrev pub transported : Env → Presence → InterMeshMessage → Frame
transported env p msg =
    envelope
      (make_message env cluster_relay env.hub_id (some p.hub_id) none (obj (to_dict msg)) none)

-- The organisation that a target belongs to.
abbrev pub org_of : Env → Text → Hub → Text
org_of env target h = agent_org env.hub_org h.identity_registry target

-- What the way to the peer of the target's organisation adds to the frames: events alone, or, after
-- events, the filtered message for the socket of that peer.
pub data IsRelayed (env : Env) (msg : InterMeshMessage) (target : Text) (h : Hub)
    : Frames → Type 0 where
  unreached : {es : Frames} → All IsEvent es → IsRelayed env msg target h es
  by_peer :
      (es : Frames) (ws : ℕ) (content : Json) (names : List Text)
      → local_name h.agents target ≡ none
      → All IsEvent es
      → lookup (org_of env target h) h.peered_hubs ≡ some ws
      → apply_egress env.regex msg.content (org_of env target h) env.egress_policy
        ≡ ok (content, names)
      → IsRelayed env msg target h
          (es ++ (ws, relay_to env (org_of env target h) (record msg { content = content })) ∷ [])

-- The socket that leads to a hub of the cluster: its link, or the one that a handshake has just opened.
abbrev pub IsLink : Env → Presence → Hub → ℕ → Type 0
IsLink env p h ws =
    (lookup p.hub_id h.cluster_links ≡ some ws)
    ⊎ ((lookup p.hub_id h.cluster_links ≡ none) × (env.join p.hub_id p.hub_url ≡ some ws))

-- What the delivery of a message adds to the frames: the message for the socket of the agent that
-- the target names; the message in a transport on the link to the hub that holds the agent, of this
-- organisation; or what the way to the peer adds.
pub data IsDelivered (env : Env) (msg : InterMeshMessage) (target : Text) (h : Hub)
    : Frames → Type 0 where
  locally :
      (name : Text) (ws : ℕ)
      → local_name h.agents target ≡ some name
      → lookup name h.agents ≡ some ws
      → IsDelivered env msg target h ((ws, envelope msg) ∷ [])
  by_sibling :
      (p : Presence) (ws : ℕ)
      → local_name h.agents target ≡ none
      → sibling_of env target h ≡ some p
      → IsLink env p h ws
      → IsDelivered env msg target h ((ws, transported env p msg) ∷ [])
  outside : {fs : Frames} → IsRelayed env msg target h fs → IsDelivered env msg target h fs

module _ (env : Env) (msg : InterMeshMessage) (target : Text) where
  abbrev pub Delivers : Hub → Hub → Type 0
  Delivers h = Adds (IsDelivered env msg target h) h

  abbrev Relays : Hub → Hub → Type 0
  Relays h = Adds (IsRelayed env msg target h) h

  quiet : (h h' : Hub) → OnlyEvents h h' → Relays h h'
  quiet h h' (es, e, events) = (es, e, unreached events)

  goes_outside : (h h' : Hub) → Relays h h' → Delivers h h'
  goes_outside h h' (new, e, relayed) = (new, e, outside relayed)

  relay_to_peer-Relays :
      (h : Hub) (ws : ℕ)
      → local_name h.agents target ≡ none
      → lookup (org_of env target h) h.peered_hubs ≡ some ws
      → Relays h (relay_to_peer env msg (org_of env target h) (some ws) h).1
  unfolding relay_to_peer relay_on
  relay_to_peer-Relays h ws away found =
      let org = org_of env target h in
      let h' = (filter_content env msg org h).1 in
      let ((es, e, events), kind) = filter_content-Filtered env msg org h in
      elim kind [
        | inl blocked ↦ rw (relay_to_peer, blocked) (es, e, unreached events)
        | inr (inl (x, raised)) ↦ rw (relay_to_peer, raised) (es, e, unreached events)
        | inr (inr (content, names, passed, kept)) ↦
            let f = relay_to env org (record msg { content = content }) in
            rw (relay_to_peer, kept)
              (elim (try_send-cases env ws f h') [
                | inl q ↦ rw q (
                  es ++ (ws, f) ∷ [],
                  ap (λ l. l ++ (ws, f) ∷ []) e ∙ append_append h.sent es ((ws, f) ∷ []),
                  by_peer es ws content names away events found passed,
                )
                | inr q ↦ rw q (es, e, unreached events)
              ])
      ]

  deliver_peer-Relays :
      (h : Hub) → local_name h.agents target ≡ none → Relays h (deliver_peer env msg target h).1
  unfolding deliver_peer relay_to_peer
  deliver_peer-Relays h away =
      let org = org_of env target h in
      elim (Option-cases (lookup org h.peered_hubs)) [
        | inl unknown ↦ rw (deliver_peer, unknown) (quiet h h (silent h h refl))
        | inr (ws, found) ↦
            let q : deliver_peer env msg target h ≡ relay_to_peer env msg org (some ws) h =
              rw (deliver_peer, found) refl in
            rw q (relay_to_peer-Relays h ws away found)
      ]

  relink :
      (h : Hub) (c : Dict Text ℕ) (fs : Frames)
      → IsRelayed env msg target (record h { cluster_links = c }) fs
      → IsRelayed env msg target h fs
  relink h c _ (unreached events) = unreached events
  relink h c _ (by_peer es ws content names e events f g) = by_peer es ws content names e events f g

  -- A transfer to another hub of the cluster succeeds with one frame on the link to it, or leaves all
  -- but the links.
  Forwards : Presence → Hub → Result HubError Bool × Hub → Type 0
  Forwards p h r =
      ((c : Dict Text ℕ) × (ws : ℕ) × IsLink env p h ws
        × (r ≡ (ok true, push ws (transported env p msg) (record h { cluster_links = c }))))
      ⊎ ((c : Dict Text ℕ) × (r ≡ (ok false, record h { cluster_links = c })))

  forward_on-cases :
      (p : Presence) (ws : ℕ) (h : Hub)
      → (forward_on env msg p.hub_id (some ws) h ≡ (ok true, push ws (transported env p msg) h))
        ⊎ ((c : Dict Text ℕ) × (forward_on env msg p.hub_id (some ws) h
              ≡ (ok false, record h { cluster_links = c })))
  unfolding forward_on try_send
  forward_on-cases p ws h = elim (Bool-cases (env.is_open ws)) [
    | inl live ↦ inl (rw (forward_on, live, try_send) refl)
    | inr dead ↦ inr (erase p.hub_id h.cluster_links, rw (forward_on, dead) refl)
  ]

  forward_on-Forwards :
      (p : Presence) (ws : ℕ) (c : Dict Text ℕ) (h : Hub)
      → IsLink env p h ws
      → Forwards p h (forward_on env msg p.hub_id (some ws) (record h { cluster_links = c }))
  unfolding Forwards push
  forward_on-Forwards p ws c h link =
      elim (forward_on-cases p ws (record h { cluster_links = c })) [
        | inl q ↦ inl (c, ws, link, q)
        | inr (c', q) ↦ inr (c', q)
      ]

  forward_to_sibling-Forwards :
      (p : Presence) (h : Hub) → Forwards p h (forward_to_sibling env msg p h)
  unfolding forward_to_sibling cluster_link Forwards
  forward_to_sibling-Forwards p h = elim (Option-cases (lookup p.hub_id h.cluster_links)) [
    | inr (ws, linked) ↦
        let call : forward_to_sibling env msg p h ≡ forward_on env msg p.hub_id (some ws) h =
          rw (forward_to_sibling, cluster_link, linked) refl in
        rw call (forward_on-Forwards p ws h.cluster_links h (inl linked))
    | inl unlinked ↦ elim (Option-cases (env.join p.hub_id p.hub_url)) [
      | inl refused ↦
          inr (h.cluster_links, rw (forward_to_sibling, cluster_link, unlinked, refused) refl)
      | inr (ws, joined) ↦
          let c = insert p.hub_id ws h.cluster_links in
          let call : forward_to_sibling env msg p h
              ≡ forward_on env msg p.hub_id (some ws) (record h { cluster_links = c }) =
            rw (forward_to_sibling, cluster_link, unlinked, joined) refl in
          rw call (forward_on-Forwards p ws c h (inr (unlinked, joined)))
    ]
  ]

  deliver_away-Delivers :
      (h : Hub) → local_name h.agents target ≡ none → Delivers h (deliver_away env msg target h).1
  unfolding deliver_away Forwards
  deliver_away-Delivers h away = elim (Option-cases (sibling_of env target h)) [
    | inl alone ↦
        rw (deliver_away, alone)
          (goes_outside h (deliver_peer env msg target h).1 (deliver_peer-Relays h away))
    | inr (p, there) ↦ elim (forward_to_sibling-Forwards p h) [
      | inl (c, ws, link, q) ↦
          rw (deliver_away, there, q)
            ((ws, transported env p msg) ∷ [], refl, by_sibling p ws away there link)
      | inr (c, q) ↦
          let h' : Hub = record h { cluster_links = c } in
          let (new, e, holds) = deliver_peer-Relays h' away in
          rw (deliver_away, there, q) (new, e, outside (relink h c new holds))
    ]
  ]

  nowhere : (h : Hub) → Delivers h h
  nowhere h = goes_outside h h (quiet h h (silent h h refl))

  deliver_to-Delivers : (h : Hub) → Delivers h (deliver_to env msg target h).1
  unfolding deliver_to
  deliver_to-Delivers h = elim (Option-cases (local_name h.agents target)) [
    | inl away ↦ rw (deliver_to, away) (deliver_away-Delivers h away)
    | inr (name, here) ↦ elim (Option-cases (lookup name h.agents)) [
      | inl gone ↦ rw (deliver_to, here, gone) (nowhere h)
      | inr (ws, found) ↦ elim (try_send-cases env ws (envelope msg) h) [
        | inl q ↦
            rw (deliver_to, here, found, q)
              ((ws, envelope msg) ∷ [], refl, locally name ws here found)
        | inr q ↦ rw (deliver_to, here, found, q) (nowhere h)
      ]
    ]
  ]

-- The target of a message, the empty text if it has none.
unfoldable pub name_or_empty : Option Text → Text
name_or_empty none = []
name_or_empty (some t) = t

deliver_given-Delivers :
    (env : Env) (msg : InterMeshMessage) (to : Option Text) (h : Hub)
    → Delivers env msg (name_or_empty to) h (deliver_given env msg to h).1
unfolding deliver_given name_or_empty
deliver_given-Delivers env msg none h = nowhere env msg [] h
deliver_given-Delivers env msg (some []) h = nowhere env msg [] h
deliver_given-Delivers env msg (some (c ∷ t)) h = deliver_to-Delivers env msg (c ∷ t) h

-- Whatever the hub does with a message, only events are added to what it sends, or one frame after
-- them: the message, on the socket of the agent that the target names; the message, on the link
-- to the hub of this organisation that holds the agent; or, to the peer of the target's organisation, the message
-- with the content that the egress policy makes of it.
pub deliver_or_relay-IsDelivered :
    (env : Env) (msg : InterMeshMessage) (h : Hub)
    → Adds (IsDelivered env msg (name_or_empty msg.to) h) h (deliver_or_relay env msg h).1
unfolding deliver_or_relay
deliver_or_relay-IsDelivered env msg h = deliver_given-Delivers env msg msg.to h
