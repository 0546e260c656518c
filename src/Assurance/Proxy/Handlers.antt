-- ===== src/Assurance/Proxy/Handlers.antt =====
-- `AssuranceProxy.record` and the handlers of sdk-python/intermesh/assurance/proxy.py.
use intermesh.Prelude.{
  ℕ, Text, codes, Bool, true, false, Option, none, some, List, [], ◌∷◌, ◌++◌, text_eq,
  if◌then◌else◌,
}
use intermesh.Prelude.Int.{pos}
use intermesh.Prelude.Dict.{Dict}
use intermesh.Prelude.Json.{Fields, null, bool, str, end, field}
use intermesh.Prelude.Exec.{Result, ok, err, pure, ◌>>=◌, ◌>>◌, raise}
use intermesh.Assurance.Policy.{
  Lib, Verdict, Decision, allow, block, approval, evaluate, requires_evidence, starts,
}
use intermesh.Assurance.Approval.{Approval, consume, ApprovalError}
use intermesh.Assurance.Evidence.{ActionEvidence, Crypto, build, sign, genesis, payload_digest}
use intermesh.Assurance.Evidence.Dicts.{update}
use intermesh.Assurance.Proxy.{
  AssuranceProxy, Attempt, attempt, Answer, not_a_proxy_request, upstream_unreachable,
  connect_failed, tunnel, refusal, relayed, unrecorded, bad_number, Request, connected, os_error,
  bad_port, Outside, reason_of, move_approval, Handler, split_port, approval_fields, append,
  kept_headers,
}

module _ {Key Pub : Type 0} (crypto : Crypto Key Pub) (lib : Lib) (proxy : AssuranceProxy Key) where
  -- `assess`
  unfoldable pub assess : Text → Text → Verdict
  assess method url = evaluate lib proxy.policy method url

  -- The evidence that `record` hands to the store.
  unfoldable pub make_evidence : Outside → Attempt → ActionEvidence
  unfolding move_approval reason_of update
  make_evidence o a = move_approval (
      build o.uuid (pos o.now_ms) (record {
        agent_id = proxy.agent_id;
        organization_id = proxy.organization_id;
        method = a.method;
        target = a.url;
        risk = a.verdict.risk;
        decision = a.verdict.decision;
        policy = proxy.policy_label;
        rule = some a.verdict.rule;
        payload_hash = a.payload_hash;
        action_type = none;
        status = a.status;
        response_status = a.response_status;
        response_hash = a.response_hash;
        prev_hash = genesis;
        extra = update a.extra (field (codes "reason") (reason_of a.verdict.reason) end);
      }))

  -- `AssuranceProxy.record`
  unfoldable pub record_action : Outside → Attempt → Handler Fields
  unfolding make_evidence append
  record_action o a w = elim (append (make_evidence o a) (sign crypto proxy.key none) w.store) [
    | none ↦ (err unrecorded, w)
    | some (f, store) ↦ (ok f, record w { store = store })
  ]

  -- `record`, then `_refusal`.
  unfoldable pub refuse : Outside → Attempt → Text → Handler Answer
  unfolding record_action
  refuse o a kind = do f ← record_action o a; pure (refusal kind f)

  -- The call of `_send_upstream`
  unfoldable pub send_upstream :
      Outside → Text → Text → Dict Text Text → Text → Handler (Result Text (ℕ × Text))
  send_upstream o method url headers content w = (
    ok (o.send method url headers content),
    record w { sent = w.sent ++ (method, url, headers, content) ∷ [] },
  )

  -- `record` if the policy wants evidence of the risk.
  unfoldable pub record_if : Bool → Outside → Attempt → Handler (Option Fields)
  unfolding record_action
  record_if false o a = pure none
  record_if true o a = do f ← record_action o a; pure (some f)

  unfoldable pub failed_attempt : Text → Text → Text → Verdict → Option Approval → Text → Attempt
  unfolding attempt payload_digest
  failed_attempt method url content verdict a kind =
      attempt method url verdict (codes "failed") (payload_digest crypto content) (
        field (codes "error") (str kind)
          (field (codes "approval_id") (elim a [ none ↦ null | some b ↦ str b.action_id ]) end))

  unfoldable pub executed_attempt :
      Text → Text → Text → Verdict → Option Approval → ℕ → Text → Attempt
  unfolding attempt payload_digest approval_fields
  executed_attempt method url content verdict a status payload =
      record (attempt method url verdict (codes "executed") (payload_digest crypto content)
        (approval_fields a)) {
          response_status = some status;
          response_hash = payload_digest crypto payload;
        }

  -- What `_forward` does with the outcome of the call.
  unfoldable pub after_send :
      Outside
      → Text
      → Text
      → Text
      → Verdict
      → Option Approval
      → Result Text (ℕ × Text)
      → Handler Answer
  unfolding record_action record_if failed_attempt executed_attempt
  after_send o method url content verdict a (err kind) = do
    record_action o (failed_attempt method url content verdict a kind)
    pure upstream_unreachable
  after_send o method url content verdict a (ok (status, payload)) = do
    f ←
        record_if (requires_evidence proxy.policy verdict.risk) o
          (executed_attempt method url content verdict a status payload)
    pure (relayed status payload f)

  -- `_forward`
  unfoldable pub forward :
      Outside → Text → Text → List (Text × Text) → Text → Verdict → Option Approval → Handler Answer
  unfolding send_upstream after_send kept_headers
  forward o method url headers content verdict a = do
    result ← send_upstream o method url (kept_headers headers []) content
    after_send o method url content verdict a result

  -- `self.proxy.approvals.consume(...)`, with the exception as a value.
  unfoldable pub try_consume :
      Outside → Text → Text → Text → Handler (Result ApprovalError Approval)
  unfolding consume
  try_consume o token method url w =
      let (r, s) = consume o.now_ms token method url none w.approvals in
      (ok r, record w { approvals = s })

  unfoldable pub rejected_attempt : Outside → Text → Text → Text → Verdict → ApprovalError → Attempt
  unfolding attempt payload_digest
  rejected_attempt o method url content verdict e =
      attempt method url verdict (codes "approval_rejected") (payload_digest crypto content)
        (field (codes "approval_error") (str (o.str_error e)) end)

  -- What `_handle` does with the outcome of `consume`.
  unfoldable pub after_consume :
      Outside
      → Text
      → Text
      → List (Text × Text)
      → Text
      → Verdict
      → Result ApprovalError Approval
      → Handler Answer
  unfolding forward refuse rejected_attempt
  after_consume o method url headers content verdict (err e) =
      refuse o (rejected_attempt o method url content verdict e) (codes "approval_invalid")
  after_consume o method url headers content verdict (ok a) =
      forward o method url headers content verdict (some a)

  unfoldable pub ask_approval :
      Outside → Text → Text → List (Text × Text) → Text → Verdict → Option Text → Handler Answer
  unfolding try_consume after_consume refuse
  ask_approval o method url headers content verdict (some (c ∷ token)) = do
    r ← try_consume o (c ∷ token) method url
    after_consume o method url headers content verdict r
  ask_approval o method url headers content verdict _ =
      refuse o
        (attempt method url verdict (codes "pending_approval") (payload_digest crypto content) end)
        (codes "approval_required")

  -- The three decisions of `_handle`.
  unfoldable pub decide : Outside → Request → Verdict → Decision → Handler Answer
  unfolding ask_approval forward refuse
  decide o q verdict block =
      refuse o
        (attempt q.method q.path verdict (codes "blocked") (payload_digest crypto q.content) end)
        (codes "blocked")
  decide o q verdict approval =
      ask_approval o q.method q.path q.headers q.content verdict q.approval_header
  decide o q verdict allow = forward o q.method q.path q.headers q.content verdict none

  -- `_handle`
  unfoldable pub handle : Outside → Request → Handler Answer
  unfolding decide assess
  handle o q =
      let verdict = assess q.method q.path in
      if starts (codes "http") q.path
      then decide o q verdict verdict.decision
      else pure not_a_proxy_request

  -- `port or 443`
  unfoldable pub port_or : Text → Text
  port_or [] = codes "443"
  port_or (c ∷ p) = c ∷ p

  -- `create_connection`, and what follows it in `do_CONNECT`.
  unfoldable pub open_tunnel : Outside → Text → Text → Text → Verdict → Handler Answer
  unfolding record_if port_or
  open_tunnel o host port url verdict = elim (o.dial host (port_or port)) [
    | os_error ↦ pure connect_failed
    | bad_port ↦ raise bad_number
    | connected ↦ do
      record_if (requires_evidence proxy.policy verdict.risk) o (
          attempt (codes "CONNECT") url verdict (codes "tunnelled") none
            (field (codes "tls_opaque") (bool true) end))
      pure tunnel
  ]

  unfoldable pub decide_tunnel : Outside → Text → Text → Text → Verdict → Decision → Handler Answer
  unfolding open_tunnel refuse
  decide_tunnel o host port url verdict block =
      refuse o
        (attempt (codes "CONNECT") url verdict (codes "blocked") none
          (field (codes "tls_opaque") (bool true) end))
        (codes "blocked")
  decide_tunnel o host port url verdict approval =
      refuse o
        (attempt (codes "CONNECT") url verdict (codes "pending_approval") none
          (field (codes "tls_opaque") (bool true) end))
        (codes "pending_approval")
  decide_tunnel o host port url verdict allow = open_tunnel o host port url verdict

  -- `do_CONNECT`
  unfoldable pub do_connect : Outside → Text → Handler Answer
  unfolding decide_tunnel split_port
  do_connect o path =
      let (host, port) = split_port path in
      let url = codes "https://" ++ host in
      let verdict = assess (codes "CONNECT") url in
      decide_tunnel o host port url verdict verdict.decision
