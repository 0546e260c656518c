-- ===== src/Hub/Submission/Gates.antt =====
-- What the gates before a task of sdk-python/intermesh/hub.py leave alone when they stop it.
use intermesh.Prelude.{
  ℕ, Text, codes, ◌≡◌, refl, ap, ◌∙◌, ◌⊎◌, inl, inr, Bool, true, false, Option, none, some, [], ◌∷◌,
  ◌++◌, Bool-cases, All,
}
use intermesh.Prelude.Json.{Json, Fields}
use intermesh.Prelude.Exec.{Result, ok, err, bind_result, Result-cases, ◌>>=◌}
use intermesh.Prelude.Results.{get}
use intermesh.Backpressure.{Rejection, admit}
use intermesh.Guardrails.{Violation}
use intermesh.TaskApproval.{ApprovalRule}
use intermesh.Message.{InterMeshMessage, MessageType, error}
use intermesh.Hub.{Env, Hub, Frame, HubError, Action}
use intermesh.Hub.Names.{task_load}
use intermesh.Hub.Send.{send, push, reply, broadcast, broadcast_entry}
use intermesh.Hub.Send.Events.{Adds, append_nil, append_append}
use intermesh.Hub.Send.Answers.{
  IsAnswer, Answers, All-append, bind-Answers, audit-Answers, broadcast-Answers, reply-Answers,
}
use intermesh.Hub.Delivery.Writes.{OnlyWrites, same}
use intermesh.Hub.Escrowed.{content_fields, amount_of}
use intermesh.Hub.Submission.{
  on_engine, check_guardrails, refuse_violation, admit_task, note_saturation, announce_saturation,
  refuse_saturated, approval_rule, saturation_answer, put_pending, announce_pending, suspend_task,
  finish_submission, after_approval, after_admission, after_guardrails, submit_task,
}

-- No money has moved, no task is remembered or stored, no link is opened, and nothing is sent but
-- events and frames for the socket `ws`.
abbrev pub Keeps : ℕ → Hub → Hub → Type 0
Keeps ws h h' =
    (h'.escrow ≡ h.escrow)
    × (h'.task_registry ≡ h.task_registry)
    × (h'.store ≡ h.store)
    × (h'.cluster_links ≡ h.cluster_links)
    × Adds (All (IsAnswer ws)) h h'

Adds-twice :
    (ws : ℕ) (h h' h'' : Hub)
    → Adds (All (IsAnswer ws)) h h'
    → Adds (All (IsAnswer ws)) h' h''
    → Adds (All (IsAnswer ws)) h h''
Adds-twice ws h h' h'' (new, e, answers) (new', e', answers') = (
  new ++ new',
  e' ∙ ap (λ s. s ++ new') e ∙ append_append h.sent new new',
  All-append (IsAnswer ws) new new' answers answers',
)

chain_up : (ws : ℕ) (h h' h'' : Hub) → Keeps ws h h' → Keeps ws h' h'' → Keeps ws h h''
chain_up ws h h' h'' (a, b, c, d, e) (a', b', c', d', e') =
    (a' ∙ a, b' ∙ b, c' ∙ c, d' ∙ d, Adds-twice ws h h' h'' e e')

pub Answers-Keeps : (env : Env) (ws : ℕ) (h h' : Hub) → Answers env ws h h' → Keeps ws h h'
Answers-Keeps env ws h h' (new, l, o, answers, pruned, e) = (
  ap (λ (x : Hub). x.escrow) e,
  ap (λ (x : Hub). x.task_registry) e,
  ap (λ (x : Hub). x.store) e,
  ap (λ (x : Hub). x.cluster_links) e,
  (new, ap (λ (x : Hub). x.sent) e, answers),
)

bind-Keeps :
    {A B : Type 0} (ws : ℕ) (m : Action A) (k : A → Action B) (h : Hub)
    → Keeps ws h (m h).1
    → ((a : A) (h' : Hub) → Keeps ws h' (k a h').1)
    → Keeps ws h ((m >>= k) h).1
bind-Keeps ws m k h first next = elim (Result-cases (m h).0) [
  | inr (e, q) ↦ rw q first
  | inl (a, q) ↦ rw q (chain_up ws h (m h).1 (k a (m h).1).1 first (next a (m h).1))
]

pub send-OnlyWrites : (env : Env) (ws : ℕ) (f : Frame) (h : Hub) → OnlyWrites h (send env ws f h).1
unfolding send push
send-OnlyWrites env ws f h = elim (Bool-cases (env.is_open ws)) [
  | inl live ↦
      rw (send, live) (h.sent ++ (ws, f) ∷ [], h.audit_log, h.observers, h.cluster_links, refl)
  | inr shut ↦ rw (send, shut) (same h)
]

pub reply-OnlyWrites :
    (env : Env) (ws : ℕ) (kind : MessageType) (msg : InterMeshMessage) (content : Json)
    (token : Option Text) (h : Hub)
    → OnlyWrites h (reply env ws kind msg content token h).1
unfolding reply
reply-OnlyWrites env ws kind msg content token h = send-OnlyWrites env ws _ h

module _ (env : Env) (ws : ℕ) (msg : InterMeshMessage) (raw : Fields) where
  refuse_violation-Keeps :
      (v : Violation) (h : Hub) → Keeps ws h (refuse_violation env ws msg raw v h).1
  unfolding refuse_violation
  refuse_violation-Keeps v h =
      Answers-Keeps env ws h (refuse_violation env ws msg raw v h).1
        (audit-Answers env ws _ _ _ _ _ h (λ e h'. reply-Answers env ws error msg _ _ h'))

  pub check_guardrails-Keeps : (h : Hub) → Keeps ws h (check_guardrails env msg raw h).1
  unfolding check_guardrails on_engine
  check_guardrails-Keeps h =
      elim (Result-cases (amount_of env.lib.to_float (get (codes "estimated_cost") raw))) [
        | inr (e, q) ↦
            rw (check_guardrails, q) (refl, refl, refl, refl, ([], append_nil h.sent, tt))
        | inl (cost, q) ↦
            rw (check_guardrails, q) (refl, refl, refl, refl, ([], append_nil h.sent, tt))
      ]

  announce_saturation-Keeps :
      (r : Rejection) (first : Bool) (h : Hub)
      → Keeps ws h (announce_saturation env msg raw r first h).1
  unfolding announce_saturation
  announce_saturation-Keeps r false h = (refl, refl, refl, refl, ([], append_nil h.sent, tt))
  announce_saturation-Keeps r true h =
      Answers-Keeps env ws h (announce_saturation env msg raw r true h).1
        (audit-Answers env ws _ _ _ _ _ h (λ e h'. broadcast-Answers env ws _ _ h'))

  refuse_saturated-Keeps :
      (r : Rejection) (h : Hub) → Keeps ws h (refuse_saturated env ws msg raw r h).1
  unfolding refuse_saturated note_saturation
  refuse_saturated-Keeps r h =
      bind-Keeps ws (note_saturation env)
        (λ first. announce_saturation env msg raw r first >>= λ _.
          reply env ws error msg (saturation_answer raw r) msg.token)
        h (refl, refl, refl, refl, ([], append_nil h.sent, tt))
        (λ first h'.
          bind-Keeps ws (announce_saturation env msg raw r first)
            (λ _. reply env ws error msg (saturation_answer raw r) msg.token) h'
            (announce_saturation-Keeps r first h')
            (λ _ h''.
              Answers-Keeps env ws h''
                (reply env ws error msg (saturation_answer raw r) msg.token h'').1
                (reply-Answers env ws error msg (saturation_answer raw r) msg.token h'')))

  announce_pending-Answers :
      (r : ApprovalRule) (h : Hub) → Answers env ws h (announce_pending env msg raw r h).1
  unfolding announce_pending broadcast_entry
  announce_pending-Answers r h = audit-Answers env ws _ _ _ _ _ h (λ e h'.
      bind-Answers env ws (broadcast env _ _) (λ _. broadcast_entry env e) h'
        (broadcast-Answers env ws _ _ h') (λ _ h''. broadcast-Answers env ws _ _ h''))

  suspend_task-Keeps : (r : ApprovalRule) (h : Hub) → Keeps ws h (suspend_task env msg raw r h).1
  unfolding suspend_task put_pending
  suspend_task-Keeps r h =
      let h' = put_pending env msg raw r h in
      chain_up ws h h' (suspend_task env msg raw r h).1
        (refl, refl, refl, refl, ([], append_nil h.sent, tt))
        (Answers-Keeps env ws h' (suspend_task env msg raw r h).1 (announce_pending-Answers r h'))

  -- A submission that all gates let through: it goes on to the escrow from the state they leave.
  abbrev pub Passes : Hub → Result HubError (Unit {0}) × Hub → Type 0
  Passes h r =
      (h1 : Hub) × (h2 : Hub) × (check_guardrails env msg raw h ≡ (ok (ok tt), h1))
      × (admit_task env h1 ≡ (ok none, h2))
      × (approval_rule env msg raw h2 ≡ ok none)
      × (r ≡ finish_submission env ws msg raw h2)

  after_admission-cases :
      (refusal : Option Rejection) (h : Hub)
      → let r = after_admission env ws msg raw refusal h in
        Keeps ws h r.1
        ⊎ ((refusal ≡ none)
            × (approval_rule env msg raw h ≡ ok none)
            × (r ≡ finish_submission env ws msg raw h))
  unfolding after_admission after_approval
  after_admission-cases (some r) h = inl (refuse_saturated-Keeps r h)
  after_admission-cases none h = elim (Result-cases (approval_rule env msg raw h)) [
    | inr (e, raised) ↦
        let stop : after_admission env ws msg raw none h ≡ (err e, h) =
          rw (after_admission, raised) refl in
        inl (rw stop (refl, refl, refl, refl, ([], append_nil h.sent, tt)))
    | inl (none, free) ↦ inr (refl, free, rw (after_admission, free) refl)
    | inl (some r, found) ↦
        let call : after_admission env ws msg raw none h ≡ suspend_task env msg raw r h =
          rw (after_admission, found) refl in
        inl (rw call (suspend_task-Keeps r h))
  ]

  after_guardrails-cases :
      (checked : Result Violation (Unit {0})) (h : Hub)
      → let r = after_guardrails env ws msg raw checked h in
        Keeps ws h r.1
        ⊎ ((checked ≡ ok tt)
            × ((h2 : Hub) × (admit_task env h ≡ (ok none, h2))
                × (approval_rule env msg raw h2 ≡ ok none)
                × (r ≡ finish_submission env ws msg raw h2)))
  unfolding after_guardrails admit_task
  after_guardrails-cases (err v) h = inl (refuse_violation-Keeps v h)
  after_guardrails-cases (ok done) h =
      let (refusal, h2) : Option Rejection × Hub =
        (let (in_flight, queued) = task_load h in
          let (r, g) = admit in_flight queued env.now h.gate in (r, record h { gate = g })) in
      elim (after_admission-cases refusal h2) [
        | inl kept ↦ inl kept
        | inr (open_gate, free, e) ↦ inr (refl, (h2, rw (admit_task, open_gate) refl, free, e))
      ]

  after_check :
      (h h1 : Hub) (r : Result HubError (Result Violation (Unit {0})))
      → check_guardrails env msg raw h ≡ (r, h1)
      → Keeps ws h h1
      → let last = bind_result r h1 (λ checked. after_guardrails env ws msg raw checked) in
        Keeps ws h last.1 ⊎ Passes h last
  after_check h h1 (err e) q kept = inl kept
  after_check h h1 (ok checked) q kept = elim (after_guardrails-cases checked h1) [
    | inl stopped ↦
        inl (chain_up ws h h1 (after_guardrails env ws msg raw checked h1).1 kept stopped)
    | inr (passed, (h2, opened, free, e)) ↦
        inr (h1, h2, q ∙ ap (λ x. (ok x, h1)) passed, opened, free, e)
  ]

module _ (env : Env) (ws : ℕ) (msg : InterMeshMessage) where
  -- A task that is submitted either has passed the guardrails, then the back-pressure, then the rules
  -- of approval, and goes on to the escrow and the delivery; or the escrow, the tasks, the store and
  -- the links are what they were, and nothing is sent but events and frames for the submitter's socket.
  pub submit_task-Passes :
      (h : Hub)
      → let last = submit_task env ws msg h in
        Keeps ws h last.1
        ⊎ ((raw : Fields) × (content_fields msg.content ≡ ok raw) × Passes env ws msg raw h last)
  unfolding submit_task
  submit_task-Passes h = elim (Result-cases (content_fields msg.content)) [
    | inr (e, q) ↦
        let stop : submit_task env ws msg h ≡ (err e, h) = rw (submit_task, q) refl in
        rw stop (inl (refl, refl, refl, refl, ([], append_nil h.sent, tt)))
    | inl (raw, q) ↦
        let (r, h1) = check_guardrails env msg raw h in
        let call : submit_task env ws msg h
            ≡ bind_result r h1 (λ checked. after_guardrails env ws msg raw checked) =
          rw (submit_task, q) refl in
        rw call
          (elim (after_check env ws msg raw h h1 r refl (check_guardrails-Keeps env ws msg raw h)) [
            | inl kept ↦ inl kept
            | inr passes ↦ inr (raw, q, passes)
          ])
  ]
