-- ===== src/Store/Moves.antt =====
-- Where sdk-python/intermesh/store.py says an agent can be reached, when it moves from hub to hub.
use intermesh.Prelude.{
  ℕ, Text, ◌≡◌, refl, inl, inr, none, some, text_eq, ◌==◌, if◌then◌else◌, Bool-cases, eq_refl,
}
use intermesh.Prelude.Dict.{lookup-insert_self, lookup-erase}
use intermesh.Store.{Store, Presence, record_presence, clear_presence, find_presence, is_stale}

-- An agent that has gone over to a hub is found there, whatever the hub that it left clears later,
-- unless that is the same hub: then it is found nowhere.
pub find_presence-clear_presence :
    (agent new old url org : Text) (seen : ℕ) (s : Store)
    → find_presence seen agent 0
        (clear_presence agent old (record_presence agent new url org seen s))
      ≡ (if new == old
          then none
          else some (record { hub_id = new; hub_url = url; org_id = org; last_seen = seen }))
unfolding find_presence clear_presence record_presence is_stale
find_presence-clear_presence agent new old url org seen s =
    let row : Presence = record { hub_id = new; hub_url = url; org_id = org; last_seen = seen } in
    elim (Bool-cases (new == old)) [
      | inl same ↦
          rw
            (
              find_presence,
              clear_presence,
              lookup-insert_self agent row s.presence,
              same,
              lookup-erase agent agent,
              eq_refl agent,
            )
            refl
      | inr other ↦
          rw
            (
              find_presence,
              clear_presence,
              lookup-insert_self agent row s.presence,
              other,
              lookup-insert_self agent row s.presence,
            )
            refl
    ]
