-- ===== src/Hub/Submission.antt =====
-- sdk-python/intermesh/hub.py: what `handle_agent` does with a `task_submit`: the guardrails, the
-- back-pressure and the rules of approval in turn, and then the escrow and the delivery.
pub mod Keys
pub mod Gates
use intermesh.Prelude.{
  ℕ, Text, codes, Bool, true, false, not, Option, none, some, List, [], ◌∷◌, text_eq, ◌==◌, HasEq,
  if◌then◌else◌,
}
use intermesh.Prelude.Int.{ℤ, pos, pos_part}
use intermesh.Prelude.Dict.{lookup, insert}
use intermesh.Prelude.Json.{Json, Fields, null, str, int, obj, end, field}
use intermesh.Prelude.Exec.{Result, ok, err, Exec, pure, read, lift, modify, ◌>>=◌, ◌>>◌}
use intermesh.Prelude.Results.{get}
use intermesh.Backpressure.{Rejection, BackpressureGate, admit, note_rejection}
use intermesh.Guardrails.{
  Engine, Violation, circuit_breaker_tripped, infinite_cascade_recursion, task_cost_cap_exceeded,
  rate_limit_exceeded, forbidden_pattern_intercepted, validate_task_submission,
}
use intermesh.TaskApproval.{ApprovalRule, requires_approval}
use intermesh.Message.{InterMeshMessage, error}
use intermesh.Hub.{Env, Hub, PendingApproval, HubError, no_number, Action}
use intermesh.Hub.Names.{agent_org, task_load}
use intermesh.Hub.Send.{reply, audit, broadcast, broadcast_entry}
use intermesh.Hub.Escrowed.{
  text_member, text_or_empty, or_null, content_fields, amount_of, finalize_task_submission,
}
use intermesh.Hub.Submission.Keys.{option_eq}

-- The `rule_name` of a PolicyViolationError.
unfoldable pub violation_name : Violation → Text
violation_name circuit_breaker_tripped = codes "CIRCUIT_BREAKER_TRIPPED"
violation_name infinite_cascade_recursion = codes "INFINITE_CASCADE_RECURSION"
violation_name task_cost_cap_exceeded = codes "TASK_COST_CAP_EXCEEDED"
violation_name rate_limit_exceeded = codes "RATE_LIMIT_EXCEEDED"
violation_name forbidden_pattern_intercepted = codes "FORBIDDEN_PATTERN_INTERCEPTED"

-- `str(raw_task.get("input_data", raw_task.get("title", "")))`
unfoldable pub checked_text : (Json → Text) → Option Json → Option Json → Text
checked_text show (some input) title = show input
checked_text show none (some title) = show title
checked_text show none none = []

-- A call of the guardrails whose PolicyViolationError is caught.
unfoldable pub on_engine : {A : Type 0} → Exec Engine Violation A → Action (Result Violation A)
on_engine m h = let (r, e) = m h.engine in (ok r, record h { engine = e })

-- The call of `validate_task_submission`, with the cost that `float` reads.
unfoldable pub check_guardrails :
    Env → InterMeshMessage → Fields → Action (Result Violation (Unit {0}))
unfolding amount_of checked_text on_engine text_member text_or_empty
check_guardrails env msg raw = do
  org ← read (λ h. agent_org env.hub_org h.identity_registry msg.sender)
  cost ← lift (amount_of env.lib.to_float (get (codes "estimated_cost") raw))
  on_engine (
      validate_task_submission env.pattern_search msg.sender env.now
        (text_or_empty (get (codes "task_id") raw)) (text_member (get (codes "parent_task_id") raw))
        (pos_part cost)
        (some (checked_text env.lib.show (get (codes "input_data") raw) (get (codes "title") raw)))
        (some org))

-- The branch of a PolicyViolationError.
unfoldable pub refuse_violation :
    Env → ℕ → InterMeshMessage → Fields → Violation → Action (Unit {0})
unfolding audit reply violation_name text_member or_null
refuse_violation env ws msg raw v = do
  audit env (codes "ASIMOV_GUARDRAIL_VIOLATION") msg.sender
      (text_member (get (codes "assignee") raw))
      (field (codes "rule") (str (violation_name v)) (
        field (codes "reason") (str (env.tell_violation v))
          (field (codes "task_id") (or_null (get (codes "task_id") raw)) end)))
  reply env ws error msg (str (env.tell_violation v)) msg.token

-- `Rejection.to_dict`, before the members that follow.
unfoldable pub rejection_fields : Rejection → Fields → Fields
rejection_fields r more = field (codes "code") (str (codes "HUB_SATURATED")) (
    field (codes "reason") (str r.reason) (
      field (codes "retry_after_ms") (int (pos r.retry_after_ms)) (
        field (codes "queue_depth") (int (pos r.queue_depth)) (
          field (codes "in_flight") (int (pos r.in_flight)) (
            field (codes "hub_tasks_per_sec_limit") (int (pos r.limits.max_tasks_per_sec)) (
              field (codes "hub_in_flight_limit") (int (pos r.limits.max_in_flight)) (
                field (codes "hub_queue_depth_limit") (int (pos r.limits.max_queue_depth))
                  more)))))))

-- `backpressure.admit(*task_load())`
unfoldable pub admit_task : Env → Action (Option Rejection)
unfolding task_load
admit_task env h =
    let (in_flight, queued) = task_load h in
    let (r, g) = admit in_flight queued env.now h.gate in (ok r, record h { gate = g })

-- `backpressure.note_rejection(time.time())`, with its period of ten seconds.
unfoldable pub note_saturation : Env → Action Bool
note_saturation env h =
    let (first, g) = note_rejection env.now 10000 h.gate in (ok first, record h { gate = g })

unfoldable pub announce_saturation :
    Env → InterMeshMessage → Fields → Rejection → Bool → Action (Unit {0})
unfolding audit broadcast rejection_fields text_member
announce_saturation env msg raw r false = pure tt
announce_saturation env msg raw r true = do
  audit env (codes "HUB_SATURATED") msg.sender (text_member (get (codes "assignee") raw)) (
      field (codes "reason") (str r.reason) (
        field (codes "in_flight") (int (pos r.in_flight)) (
          field (codes "queue_depth") (int (pos r.queue_depth)) (
            field (codes "note")
              (str (
                codes
                  "premier refus de cette période ; les suivants sont comptés, pas journalisés"))
              end))))
  broadcast env (codes "hub_saturated") (rejection_fields r end)

-- The refusal names the task.
unfoldable pub saturation_answer : Fields → Rejection → Json
unfolding rejection_fields or_null
saturation_answer raw r =
    obj (rejection_fields r (field (codes "task_id") (or_null (get (codes "task_id") raw)) end))

-- The branch of a refusal of the back-pressure.
unfoldable pub refuse_saturated :
    Env → ℕ → InterMeshMessage → Fields → Rejection → Action (Unit {0})
unfolding note_saturation announce_saturation reply saturation_answer
refuse_saturated env ws msg raw r = do
  first ← note_saturation env
  announce_saturation env msg raw r first
  reply env ws error msg (saturation_answer raw r) msg.token

-- The rule that suspends the task, if there is one, or the exception of `float`.
unfoldable pub approval_rule :
    Env → InterMeshMessage → Fields → Hub → Result HubError (Option ApprovalRule)
unfolding text_or_empty
approval_rule env msg raw h =
    let assignee = text_or_empty (get (codes "assignee") raw) in
    let org = agent_org env.hub_org h.identity_registry in
    elim (requires_approval env.lib raw env.approval_policy
      (elim (lookup assignee h.identity_registry) [ none ↦ [] | some i ↦ i.capabilities ])
      (not (org assignee == org msg.sender))) [ none ↦ err no_number | some rule ↦ ok rule ]

-- The entry of `pending_approvals` for a task that a person must approve.
unfoldable pub put_pending : Env → InterMeshMessage → Fields → ApprovalRule → Hub → Hub
unfolding text_member
put_pending env msg raw r h = record h {
  pending_approvals =
      insert (text_member (get (codes "task_id") raw))
        (record {
          task = raw;
          submitter = msg.sender;
          org_id = agent_org env.hub_org h.identity_registry msg.sender;
          rule = r.name;
          reason = r.reason;
          token = msg.token;
          reply_to = some msg.id;
          submitted_at = env.now;
        })
        h.pending_approvals;
}

unfoldable pub announce_pending : Env → InterMeshMessage → Fields → ApprovalRule → Action (Unit {0})
unfolding audit broadcast broadcast_entry text_or_empty or_null
announce_pending env msg raw r = do
  entry ←
      audit env (codes "APPROVAL_REQUIRED") msg.sender
        (some (text_or_empty (get (codes "assignee") raw)))
        (field (codes "task_id") (or_null (get (codes "task_id") raw)) (
          field (codes "title") (or_null (get (codes "title") raw))
            (field (codes "rule") (str r.name) (field (codes "reason") (str r.reason) end))))
  broadcast env (codes "approval_required") (
      field (codes "task_id") (or_null (get (codes "task_id") raw)) (
        field (codes "title") (or_null (get (codes "title") raw)) (
          field (codes "orchestrator") (str msg.sender) (
            field (codes "assignee") (str (text_or_empty (get (codes "assignee") raw)))
              (field (codes "rule") (str r.name) (field (codes "reason") (str r.reason) end))))))
  broadcast_entry env entry

-- The branch of a task that a person must approve.
unfoldable pub suspend_task : Env → InterMeshMessage → Fields → ApprovalRule → Action (Unit {0})
unfolding put_pending announce_pending
suspend_task env msg raw r h = announce_pending env msg raw r (put_pending env msg raw r h)

-- `if err: await websocket.send(...)`
unfoldable pub tell_refusal : Env → ℕ → InterMeshMessage → Option Text → Action (Unit {0})
unfolding reply
tell_refusal env ws msg none = pure tt
tell_refusal env ws msg (some []) = pure tt
tell_refusal env ws msg (some (c ∷ why)) = reply env ws error msg (str (c ∷ why)) msg.token

unfoldable pub finish_submission : Env → ℕ → InterMeshMessage → Fields → Action (Unit {0})
unfolding finalize_task_submission tell_refusal
finish_submission env ws msg raw = do
  why ← finalize_task_submission env raw msg.sender msg.token (some msg.id)
  tell_refusal env ws msg why

unfoldable pub after_approval :
    Env → ℕ → InterMeshMessage → Fields → Option ApprovalRule → Action (Unit {0})
unfolding suspend_task finish_submission
after_approval env ws msg raw none = finish_submission env ws msg raw
after_approval env ws msg raw (some r) = suspend_task env msg raw r

unfoldable pub after_admission :
    Env → ℕ → InterMeshMessage → Fields → Option Rejection → Action (Unit {0})
unfolding refuse_saturated approval_rule after_approval
after_admission env ws msg raw (some r) = refuse_saturated env ws msg raw r
after_admission env ws msg raw none =
    read (approval_rule env msg raw) >>= λ r. lift r >>= λ rule. after_approval env ws msg raw rule

unfoldable pub after_guardrails :
    Env → ℕ → InterMeshMessage → Fields → Result Violation (Unit {0}) → Action (Unit {0})
unfolding refuse_violation admit_task after_admission
after_guardrails env ws msg raw (err v) = refuse_violation env ws msg raw v
after_guardrails env ws msg raw (ok _) =
    admit_task env >>= λ refusal. after_admission env ws msg raw refusal

-- The branch `TASK_SUBMIT` of `handle_agent`.
unfoldable pub submit_task : Env → ℕ → InterMeshMessage → Action (Unit {0})
unfolding content_fields check_guardrails after_guardrails
submit_task env ws msg = do
  raw ← lift (content_fields msg.content)
  checked ← check_guardrails env msg raw
  after_guardrails env ws msg raw checked
