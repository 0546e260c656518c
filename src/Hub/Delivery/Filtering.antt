-- ===== src/Hub/Delivery/Filtering.antt =====
-- What sdk-python/intermesh/hub.py does with a content that is to leave the organisation.
use intermesh.Prelude.{Text, ◌≡◌, refl, ◌⊎◌, inl, inr, Option, none, some, List, [], ◌∷◌, text_eq}
use intermesh.Prelude.Json.{Json}
use intermesh.Prelude.Exec.{Result, ok, err, Result-cases}
use intermesh.Egress.{apply_egress}
use intermesh.Message.{InterMeshMessage}
use intermesh.Hub.{Env, Hub, HubError, index_error}
use intermesh.Hub.Send.Events.{OnlyEvents, silent, audit_step, broadcast-OnlyEvents}
use intermesh.Hub.Delivery.{note_blocked, note_redacted, filter_content}

-- What filtering can return, and that it sends only events.
abbrev pub Filtered : Env → InterMeshMessage → Text → Result HubError (Option Json) → Type 0
Filtered env msg org r =
    (r ≡ ok none)
    ⊎ ((e : HubError) × (r ≡ err e))
    ⊎ ((content : Json) × (names : List Text) × (apply_egress env.regex msg.content org
            env.egress_policy
          ≡ ok (content, names))
        × (r ≡ ok (some content)))

note_blocked-OnlyEvents :
    (env : Env) (msg : InterMeshMessage) (org rule : Text) (h : Hub)
    → OnlyEvents h (note_blocked env msg org rule h).1
      × Filtered env msg org (note_blocked env msg org rule h).0
unfolding note_blocked
note_blocked-OnlyEvents env msg org rule h =
    audit_step (λ r. OnlyEvents h r.1 × Filtered env msg org r.0) env _ _ _ _ _ h
      (silent h h refl, inr (inl (index_error, refl)))
      (λ e l. (broadcast-OnlyEvents env _ _ (record h { audit_log = l }), inl refl))

note_redacted-OnlyEvents :
    (env : Env) (msg : InterMeshMessage) (org : Text) (content : Json) (names : List Text) (h : Hub)
    → apply_egress env.regex msg.content org env.egress_policy ≡ ok (content, names)
    → OnlyEvents h (note_redacted env msg org content names h).1
      × Filtered env msg org (note_redacted env msg org content names h).0
unfolding note_redacted
note_redacted-OnlyEvents env msg org content [] h p =
    (silent h h refl, inr (inr (content, [], p, refl)))
note_redacted-OnlyEvents env msg org content (n ∷ ns) h p =
    audit_step (λ r. OnlyEvents h r.1 × Filtered env msg org r.0) env _ _ _ _ _ h
      (silent h h refl, inr (inl (index_error, refl)))
      (λ e l. (silent h (record h { audit_log = l }) refl, inr (inr (content, n ∷ ns, p, refl))))

pub filter_content-Filtered :
    (env : Env) (msg : InterMeshMessage) (org : Text) (h : Hub)
    → OnlyEvents h (filter_content env msg org h).1
      × Filtered env msg org (filter_content env msg org h).0
unfolding filter_content
filter_content-Filtered env msg org h =
    elim (Result-cases (apply_egress env.regex msg.content org env.egress_policy)) [
      | inr (rule, e) ↦
          let q : filter_content env msg org h ≡ note_blocked env msg org rule h =
            rw (filter_content, e) refl in
          rw q (note_blocked-OnlyEvents env msg org rule h)
      | inl ((content, names), e) ↦
          let q : filter_content env msg org h ≡ note_redacted env msg org content names h =
            rw (filter_content, e) refl in
          rw q (note_redacted-OnlyEvents env msg org content names h e)
    ]
