-- ===== src/Hub/Federation/Money.antt =====
-- The escrow of sdk-python/intermesh/hub.py under messages that peers relay.
use intermesh.Prelude.{
  ℕ, Text, codes, ◌≡◌, refl, ap, ◌∙◌, inl, inr, Bool, true, false, Option, none, some, Bool-cases,
  text_eq, ◌==◌,
}
use intermesh.Prelude.Dict.{has_key}
use intermesh.Prelude.Json.{Fields, obj, str}
use intermesh.Prelude.Exec.{Result, ok, err, pure, lift, Result-cases, ◌>>=◌, ◌>>◌}
use intermesh.Prelude.Results.{get}
use intermesh.Guardrails.{Violation}
use intermesh.Identity.{AgentIdentity}
use intermesh.Task.{InterMeshTask}
use intermesh.Message.{
  InterMeshMessage, MessageType, message, request, response, error, who_is, identity, discover,
  discover_result, task_submit, task_assign, task_update,
}
use intermesh.Hub.{Env, Hub, HubError, Action}
use intermesh.Hub.Send.{broadcast_entry, reply}
use intermesh.Hub.Discovery.{read_query, discover_agents, discovery_result}
use intermesh.Hub.Delivery.{deliver_or_relay}
use intermesh.Hub.Delivery.Writes.{
  OnlyWrites, same, audit-OnlyWrites, bind-OnlyWrites, broadcast-OnlyWrites,
  deliver_or_relay-OnlyWrites,
}
use intermesh.Hub.Escrowed.{text_or_empty, content_fields, read_task, remember_task}
use intermesh.Hub.Submission.{check_guardrails}
use intermesh.Hub.Submission.Gates.{reply-OnlyWrites, check_guardrails-Keeps}
use intermesh.Hub.Requests.{answer_discovery}
use intermesh.Hub.Federation.{
  tell_identity, relayed_who_is, refuse_relayed, relayed_assignment, tell_relayed, accept_relayed,
  after_relayed_check, relayed_submit, file_relayed, note_relayed_end, passed_update,
  relayed_update_of, relayed_update, serve_kind_of, serve_relayed, process_relayed,
}
use intermesh.Hub.Federation.Guarded.{process_relayed-IsTrusted}

-- No money has moved.
abbrev pub SameEscrow : Hub → Hub → Type 0
SameEscrow h h' = h'.escrow ≡ h.escrow

writes_nothing : (h h' : Hub) → OnlyWrites h h' → SameEscrow h h'
writes_nothing h h' (s, l, o, c, e) = ap (λ (x : Hub). x.escrow) e

bind-SameEscrow :
    {A B : Type 0} (m : Action A) (k : A → Action B) (h : Hub)
    → SameEscrow h (m h).1
    → ((a : A) (h' : Hub) → SameEscrow h' (k a h').1)
    → SameEscrow h ((m >>= k) h).1
bind-SameEscrow m k h first next = elim (Result-cases (m h).0) [
  | inr (e, q) ↦ rw q first
  | inl (a, q) ↦ rw q (next a (m h).1 ∙ first)
]

lift-SameEscrow :
    {A B : Type 0} (r : Result HubError A) (k : A → Action B) (h : Hub)
    → ((a : A) → SameEscrow h (k a h).1)
    → SameEscrow h ((lift r >>= k) h).1
lift-SameEscrow (ok a) k h next = next a
lift-SameEscrow (err e) k h next = refl

module _ (env : Env) (ws : ℕ) (msg : InterMeshMessage) where
  deliver-SameEscrow :
      (m : InterMeshMessage) (h : Hub) → SameEscrow h ((deliver_or_relay env m >> pure tt) h).1
  deliver-SameEscrow m h =
      bind-SameEscrow (deliver_or_relay env m) (λ _. pure tt) h
        (writes_nothing h (deliver_or_relay env m h).1 (deliver_or_relay-OnlyWrites env m h))
        (λ _ h'. refl)

  tell_identity-SameEscrow :
      (o : Option AgentIdentity) (h : Hub) → SameEscrow h (tell_identity env ws msg o h).1
  unfolding tell_identity
  tell_identity-SameEscrow none h = refl
  tell_identity-SameEscrow (some i) h = elim (Bool-cases (i.org_id == env.hub_org)) [
    | inl own ↦
        rw (tell_identity, own)
          (writes_nothing h _ (reply-OnlyWrites env ws identity msg _ msg.token h))
    | inr other ↦ rw (tell_identity, other) refl
  ]

  discovery-SameEscrow : (h : Hub) → SameEscrow h (answer_discovery env ws msg env.hub_org h).1
  unfolding answer_discovery
  discovery-SameEscrow h = lift-SameEscrow (content_fields msg.content) _ h (λ query.
      lift-SameEscrow (read_query query) _ h (λ q.
        let answer = obj (discovery_result h query (discover_agents env h q env.hub_org)) in
        writes_nothing h (reply env ws discover_result msg answer msg.token h).1
          (reply-OnlyWrites env ws discover_result msg answer msg.token h)))

  refuse_relayed-OnlyWrites :
      (raw : Fields) (v : Violation) (h : Hub) → OnlyWrites h (refuse_relayed env ws msg raw v h).1
  unfolding refuse_relayed broadcast_entry
  refuse_relayed-OnlyWrites raw v h =
      let why = str (env.tell_violation v) in
      audit-OnlyWrites env _ _ _ _ _ h (λ e h'.
        bind-OnlyWrites (broadcast_entry env e) (λ _. reply env ws error msg why msg.token) h'
          (broadcast-OnlyWrites env _ _ h')
          (λ _ h''. reply-OnlyWrites env ws error msg why msg.token h''))

  tell_relayed-SameEscrow :
      (raw : Fields) (t : InterMeshTask) (h : Hub) → SameEscrow h (tell_relayed env msg raw t h).1
  unfolding tell_relayed broadcast_entry
  tell_relayed-SameEscrow raw t h =
      let to_assignee = relayed_assignment env msg raw t in
      writes_nothing h (tell_relayed env msg raw t h).1 (
        audit-OnlyWrites env _ _ _ _ _ h (λ e h'.
          bind-OnlyWrites (broadcast_entry env e) (λ _. deliver_or_relay env to_assignee >> pure tt)
            h' (broadcast-OnlyWrites env _ _ h')
            (λ _ h''.
              bind-OnlyWrites (deliver_or_relay env to_assignee) (λ _. pure tt) h''
                (deliver_or_relay-OnlyWrites env to_assignee h'') (λ _ last. same last))))

  after_check-SameEscrow :
      (raw : Fields) (checked : Result Violation (Unit {0})) (h : Hub)
      → SameEscrow h (after_relayed_check env ws msg raw checked h).1
  unfolding after_relayed_check accept_relayed remember_task
  after_check-SameEscrow raw (err v) h =
      writes_nothing h (refuse_relayed env ws msg raw v h).1 (refuse_relayed-OnlyWrites raw v h)
  after_check-SameEscrow raw (ok done) h =
      lift-SameEscrow (read_task env raw) _ h
        (λ t. tell_relayed-SameEscrow raw t (remember_task t h))

  submit-SameEscrow : (h : Hub) → SameEscrow h (relayed_submit env ws msg h).1
  unfolding relayed_submit
  submit-SameEscrow h = lift-SameEscrow (content_fields msg.content) _ h (λ raw.
      bind-SameEscrow (check_guardrails env msg raw)
        (λ checked. after_relayed_check env ws msg raw checked) h
        (check_guardrails-Keeps env ws msg raw h).0
        (λ checked h'. after_check-SameEscrow raw checked h'))

  file-SameEscrow : (td : Fields) (b : Bool) (h : Hub) → SameEscrow h (file_relayed env td b h).1
  unfolding file_relayed remember_task
  file-SameEscrow td false h = refl
  file-SameEscrow td true h = lift-SameEscrow (read_task env td) _ h (λ t. refl)

  note_end-SameEscrow :
      (td : Fields) (b : Bool) (h : Hub) → SameEscrow h (note_relayed_end env msg td b h).1
  unfolding note_relayed_end broadcast_entry
  note_end-SameEscrow td false h = refl
  note_end-SameEscrow td true h =
      writes_nothing h (note_relayed_end env msg td true h).1
        (audit-OnlyWrites env _ _ _ _ _ h (λ e h'. broadcast-OnlyWrites env _ _ h'))

  update-SameEscrow : (h : Hub) → SameEscrow h (relayed_update env msg h).1
  unfolding relayed_update relayed_update_of
  update-SameEscrow h = lift-SameEscrow (content_fields msg.content) _ h (λ td.
      let known = has_key (text_or_empty (get (codes "task_id") td)) h.task_registry in
      let ended = text_or_empty (get (codes "status") td) == codes "completed" in
      bind-SameEscrow (file_relayed env td known)
        (λ _.
          note_relayed_end env msg td ended
          >> (deliver_or_relay env (passed_update env msg td) >> pure tt))
        h (file-SameEscrow td known h)
        (λ _ h'.
          bind-SameEscrow (note_relayed_end env msg td ended)
            (λ _. deliver_or_relay env (passed_update env msg td) >> pure tt) h'
            (note_end-SameEscrow td ended h')
            (λ _ h''. deliver-SameEscrow (passed_update env msg td) h'')))

  serve_kind : (kind : MessageType) (h : Hub) → SameEscrow h (serve_kind_of env ws msg kind h).1
  unfolding serve_kind_of relayed_who_is
  serve_kind who_is h = tell_identity-SameEscrow _ h
  serve_kind discover h = discovery-SameEscrow h
  serve_kind task_submit h = submit-SameEscrow h
  serve_kind task_update h = update-SameEscrow h
  serve_kind message h = deliver-SameEscrow msg h
  serve_kind request h = deliver-SameEscrow msg h
  serve_kind response h = deliver-SameEscrow msg h
  serve_kind task_assign h = deliver-SameEscrow msg h
  serve_kind _ h = refl

  -- No message that a peer relays moves money: neither holds, nor releases, nor refunds.
  pub process_relayed-SameEscrow :
      (origin : Text) (h : Hub) → SameEscrow h (process_relayed env ws msg origin h).1
  unfolding serve_relayed serve_kind_of
  process_relayed-SameEscrow origin h = elim (process_relayed-IsTrusted env ws msg origin h) [
    | inl (new, l, o, told, pruned, e) ↦ ap (λ (x : Hub). x.escrow) e
    | inr (trusted, served) ↦ rw served (serve_kind msg.kind h)
  ]
