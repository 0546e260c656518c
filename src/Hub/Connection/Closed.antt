-- ===== src/Hub/Connection/Closed.antt =====
-- What the end of a connection to sdk-python/intermesh/hub.py leaves of it.
use intermesh.Prelude.{
  arith, ℕ, Text, ◌≡◌, ◌≢◌, refl, sym, ap, ◌∙◌, ◌⊎◌, inl, inr, Bool, true, false, Option, none,
  some, List, [], ◌∷◌, contains, text_eq, nat_eq, eq_refl, Bool-cases, Option-cases, if◌then◌else◌,
}
use intermesh.Prelude.Dict.{Dict, lookup, erase, lookup-erase}
use intermesh.Hub.{Env, Hub}
use intermesh.Hub.Send.{broadcast, broadcast_entry}
use intermesh.Hub.Delivery.Writes.{
  OnlyWrites, audit-OnlyWrites, bind-OnlyWrites, broadcast-OnlyWrites,
}
use intermesh.Hub.Federation.Guarded.{no_clash}
use intermesh.Hub.Connection.Closing.{
  orgs_on, erase_all, drop_peers, drop_agent, announce_disconnection, leave_agent, leave_observer,
  close_connection,
}

lookup-erase_all :
    {A : Type 0} (k : Text) (ks : List Text) (d : Dict Text A)
    → lookup k (erase_all ks d) ≡ (if contains k ks then none else lookup k d)
unfolding erase_all
lookup-erase_all k [] d = refl
lookup-erase_all k (j ∷ js) d = ground (
  arith,
  lookup-erase_all k js (erase j d),
  lookup-erase j k d,
  text_eq.equal_iff j k,
  text_eq.equal_iff k j,
)

orgs_on-contains :
    (k : Text) (ws : ℕ) (d : Dict Text ℕ) → lookup k d ≡ some ws → contains k (orgs_on ws d) ≡ true
unfolding orgs_on lookup
orgs_on-contains k ws [] h = ground arith
orgs_on-contains k ws ((j, w) ∷ d) h = ground (
  arith,
  orgs_on-contains k ws d,
  text_eq.equal_iff j k,
  text_eq.equal_iff k j,
  nat_eq.equal_iff w ws,
)

-- No key is twice in a dict.
unfoldable pub IsUnique : {A : Type 0} → Dict Text A → Type 0
IsUnique [] = Unit
IsUnique ((k, v) ∷ d) = (lookup k d ≡ none) × IsUnique d

orgs_on-lookup :
    (k : Text) (ws : ℕ) (d : Dict Text ℕ)
    → IsUnique d
    → contains k (orgs_on ws d) ≡ true
    → lookup k d ≡ some ws
unfolding orgs_on lookup IsUnique
orgs_on-lookup k ws [] u h = ground arith
orgs_on-lookup k ws ((j, w) ∷ d) (new, u) h = ground (
  arith,
  orgs_on-lookup k ws d u,
  text_eq.equal_iff j k,
  text_eq.equal_iff k j,
  nat_eq.equal_iff w ws,
)

announce_disconnection-OnlyWrites :
    (env : Env) (name : Text) (h : Hub) → OnlyWrites h (announce_disconnection env name h).1
unfolding announce_disconnection broadcast_entry
announce_disconnection-OnlyWrites env name h = audit-OnlyWrites env _ _ _ _ _ h (λ e h'.
    bind-OnlyWrites (broadcast env _ _) (λ _. broadcast_entry env e) h'
      (broadcast-OnlyWrites env _ _ h') (λ _ h''. broadcast-OnlyWrites env _ _ h''))

-- The end of an agent's connection leaves the peers alone.
leave_agent-peers :
    (env : Env) (name : Option Text) (h : Hub)
    → ((leave_agent env name h).1.peered_hubs ≡ h.peered_hubs)
      × ((leave_agent env name h).1.peer_public_keys ≡ h.peer_public_keys)
unfolding leave_agent drop_agent
leave_agent-peers env none h = (refl, refl)
leave_agent-peers env (some []) h = (refl, refl)
leave_agent-peers env (some (c ∷ rest)) h =
    let name = c ∷ rest in
    elim (Option-cases (lookup name h.agents)) [
      | inl gone ↦ rw (leave_agent, gone) (refl, refl)
      | inr (w, there) ↦
          let h' = drop_agent env name h in
          let (s, l, o, c, e) = announce_disconnection-OnlyWrites env name h' in
          rw (leave_agent, there)
            (ap (λ (x : Hub). x.peered_hubs) e, ap (λ (x : Hub). x.peer_public_keys) e)
    ]

leave_agent-agents :
    (env : Env) (name : Text) (h : Hub)
    → name ≢ []
    → lookup name (leave_agent env (some name) h).1.agents ≡ none
unfolding leave_agent drop_agent
leave_agent-agents env [] h given = absurd (given refl)
leave_agent-agents env (c ∷ rest) h given =
    let name = c ∷ rest in
    elim (Option-cases (lookup name h.agents)) [
      | inl gone ↦ rw (leave_agent, gone) gone
      | inr (w, there) ↦
          let (s, l, o, c, e) =
            announce_disconnection-OnlyWrites env name (drop_agent env name h) in
          rw (leave_agent, there)
            (ap (λ (x : Hub). lookup name x.agents) e
              ∙ lookup-erase name name h.agents
              ∙ ground (arith, eq_refl name))
    ]

-- How an organisation stands with the hub when a connection has ended: forgotten, if its peer was on
-- the socket, and otherwise as it was.
abbrev pub IsParted : ℕ → Text → Hub → Hub → Type 0
IsParted ws org h h' =
    ((lookup org h.peered_hubs ≡ some ws)
      × (lookup org h'.peered_hubs ≡ none)
      × (lookup org h'.peer_public_keys ≡ none))
    ⊎ ((lookup org h.peered_hubs ≢ some ws)
        × (lookup org h'.peered_hubs ≡ lookup org h.peered_hubs)
        × (lookup org h'.peer_public_keys ≡ lookup org h.peer_public_keys))

drop_peers-IsParted :
    (ws : ℕ) (org : Text) (h : Hub) → IsUnique h.peered_hubs → IsParted ws org h (drop_peers ws h)
unfolding drop_peers
drop_peers-IsParted ws org h unique =
    let orgs = orgs_on ws h.peered_hubs in
    elim (Bool-cases (contains org orgs)) [
      | inl dropped ↦ inl (
        orgs_on-lookup org ws h.peered_hubs unique dropped,
        lookup-erase_all org orgs h.peered_hubs ∙ rw dropped refl,
        lookup-erase_all org orgs h.peer_public_keys ∙ rw dropped refl,
      )
      | inr kept ↦ inr (
        (λ found. no_clash (sym (orgs_on-contains org ws h.peered_hubs found) ∙ kept)),
        lookup-erase_all org orgs h.peered_hubs ∙ rw kept refl,
        lookup-erase_all org orgs h.peer_public_keys ∙ rw kept refl,
      )
    ]

leave_agent-IsParted :
    (env : Env) (ws : ℕ) (name org : Text) (h : Hub)
    → name ≢ []
    → IsUnique h.peered_hubs
    → let h' = (leave_agent env (some name) (drop_peers ws h)).1 in
      (lookup name h'.agents ≡ none) × IsParted ws org h h'
leave_agent-IsParted env ws name org h given unique =
    let dropped = drop_peers ws h in
    let (hubs, keys) = leave_agent-peers env (some name) dropped in
    let last : IsParted ws org h (leave_agent env (some name) dropped).1 =
      rw (hubs, keys) (drop_peers-IsParted ws org h unique) in
    (leave_agent-agents env name dropped given, last)

-- When the connection of a registered agent ends, an organisation whose peer was on its socket is a peer
-- no longer, and its key is forgotten; every other organisation is what it was. The agent that
-- registered on the connection is no longer entered, whatever socket its entry named.
pub close_connection_lem :
    (env : Env) (ws : ℕ) (name : Text) (watching : Bool) (h : Hub) (org : Text)
    → name ≢ []
    → IsUnique h.peered_hubs
    → let h' =
        (close_connection env ws (record { agent_name = some name; is_observer = watching }) h).1 in
      (lookup name h'.agents ≡ none) × IsParted ws org h h'
unfolding close_connection leave_observer
close_connection_lem env ws name false h org given unique =
    leave_agent-IsParted env ws name org h given unique
close_connection_lem env ws name true h org given unique =
    leave_agent-IsParted env ws name org (leave_observer ws true h) given unique
