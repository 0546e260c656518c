-- ===== src/Hub/Discovery/Found.antt =====
-- Which agents the search of sdk-python/intermesh/hub.py finds.
use intermesh.Prelude.{
  arith, ltb, if◌then◌else◌, ℕ, ◌+◌, ◌≤◌, Text, ◌≡◌, inl, inr, true, false, List, [], ◌∷◌, ◌++◌,
  length, length-append, All, All-append, Bool-cases, eq_of, text_eq,
}
use intermesh.Prelude.Int.{ℤ, pos, negsuc, leb_ℤ, pos_part}
use intermesh.Prelude.Dict.{Dict}
use intermesh.Identity.{AgentIdentity}
use intermesh.Hub.{Env, Hub}
use intermesh.Hub.Discovery.{Query, answers, search_agents, discover_agents}

-- A limit below 1 stops the search no sooner than 1.
unfoldable pub least_one : ℤ → ℕ
least_one limit = if ltb (pos_part limit) 1 then 1 else pos_part limit

room_left : (limit : ℤ) (m : ℕ) → leb_ℤ limit (pos m) ≡ false → m + 1 ≤ least_one limit
unfolding least_one
room_left (pos n) m h = ground arith
room_left (negsuc n) m h = ground arith

module _ (env : Env) (h : Hub) (q : Query) (caller : Text) where
  -- An agent that passes every test of the query, of the caller's organisation first of all.
  abbrev pub IsAnswer : Text × AgentIdentity → Type 0
  IsAnswer (name, i) = (answers env h q caller name i ≡ true) × (i.org_id ≡ caller)

  answers-org :
      (name : Text) (i : AgentIdentity) → answers env h q caller name i ≡ true → i.org_id ≡ caller
  unfolding answers
  answers-org name i hit = eq_of i.org_id caller (ground arith)

  search_agents-answers :
      (d : Dict Text AgentIdentity) (found : List (Text × AgentIdentity))
      → All IsAnswer found
      → All IsAnswer (search_agents env h q caller d found)
  unfolding search_agents
  search_agents-answers [] found so_far = so_far
  search_agents-answers ((name, i) ∷ d) found so_far =
      let more = found ++ (name, i) ∷ [] in
      elim (Bool-cases (answers env h q caller name i)) [
        | inr miss ↦ rw (search_agents, miss) (search_agents-answers d found so_far)
        | inl hit ↦
            let all_more =
              All-append IsAnswer found ((name, i) ∷ []) so_far
                ((hit, answers-org name i hit), tt) in
            elim (Bool-cases (leb_ℤ q.limit (pos (length more)))) [
              | inl full ↦ rw (search_agents, hit, full) all_more
              | inr room ↦ rw (search_agents, hit, room) (search_agents-answers d more all_more)
            ]
      ]

  search_agents-length :
      (d : Dict Text AgentIdentity) (found : List (Text × AgentIdentity))
      → length found + 1 ≤ least_one q.limit
      → length (search_agents env h q caller d found) ≤ least_one q.limit
  unfolding search_agents
  search_agents-length [] found room = omega (arith, room)
  search_agents-length ((name, i) ∷ d) found room =
      let more = found ++ (name, i) ∷ [] in
      let longer : length more ≡ length found + 1 = length-append found ((name, i) ∷ []) in
      elim (Bool-cases (answers env h q caller name i)) [
        | inr miss ↦ rw (search_agents, miss) (search_agents-length d found room)
        | inl hit ↦ elim (Bool-cases (leb_ℤ q.limit (pos (length more)))) [
          | inl full ↦ rw (search_agents, hit, full) (omega (arith, longer, room))
          | inr open_room ↦
              rw (search_agents, hit, open_room)
                (search_agents-length d more (room_left q.limit (length more) open_room))
        ]
      ]

  -- Every agent that the search finds passes all tests of the query, of being in the caller's
  -- organisation first, and they are no more than the limit, or one if the limit is below one.
  pub discover_agents_lem :
      All IsAnswer (discover_agents env h q caller)
      × (length (discover_agents env h q caller) ≤ least_one q.limit)
  unfolding discover_agents least_one
  discover_agents_lem = (
    search_agents-answers h.identity_registry [] tt,
    search_agents-length h.identity_registry [] (ground arith),
  )
