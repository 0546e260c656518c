-- ===== src/Assurance/Proxy/Forwarding.antt =====
-- What `_handle` of sdk-python/intermesh/assurance/proxy.py lets out, and what it leaves in writing.
use intermesh.Prelude.{
  ℕ, Text, codes, ◌≡◌, refl, ◌⊎◌, inl, inr, Bool, true, false, Option, none, some, List, [], ◌∷◌,
  ◌++◌, text_eq, arith,
}
use intermesh.Prelude.Dict.{lookup, insert}
use intermesh.Prelude.Exec.{Result, ok, err, Result-cases}
use intermesh.Prelude.Json.{Fields, str, end, field}
use intermesh.Assurance.Policy.{
  Lib, Verdict, Decision, allow, block, approval, requires_evidence, starts, upper,
}
use intermesh.Assurance.Approval.{Approval, consume, is_spent, is_expired, moment}
use intermesh.Assurance.Approval.Single.{consume_outcome, spend}
use intermesh.Assurance.Evidence.{payload_digest, ActionEvidence, Crypto, sign}
use intermesh.Assurance.Proxy.{
  attempt, upstream_unreachable, relayed, AssuranceProxy, World, Attempt, Answer, Request, Outside,
  Failure, kept_headers,
}
use intermesh.Assurance.Proxy.Handlers.{
  rejected_attempt, failed_attempt, executed_attempt, assess, make_evidence, record_action, refuse,
  record_if, after_send, forward, send_upstream, try_consume, after_consume, ask_approval, decide,
  handle,
}
use intermesh.Assurance.Proxy.Recorded.{IsRecorded, IsDone, append-IsAdded, then_pure}

module _ {Key Pub : Type 0} (crypto : Crypto Key Pub) (lib : Lib) (proxy : AssuranceProxy Key)
    (o : Outside) where
  abbrev pub signs : ActionEvidence → Option Fields
  signs = sign crypto proxy.key none

  -- Evidence of an attempt with this method, target and verdict.
  abbrev pub Tells : Text → Text → Verdict → ActionEvidence → Type 0
  Tells method url v e =
      (a : Attempt) × (a.method ≡ method)
      × (a.url ≡ url)
      × (a.verdict ≡ v)
      × (e ≡ make_evidence crypto lib proxy o a)

  abbrev Done :
      {A : Type 0} → Text → Text → Verdict → Bool → Result Failure A × World → World → Type 0
  Done method url v = IsDone signs (Tells method url v)

  record_action_lem :
      (wanted : Bool) (a : Attempt) (w : World)
      → let r = record_action crypto lib proxy o a w in Done a.method a.url a.verdict wanted r w
  unfolding record_action
  record_action_lem wanted a w =
      elim (append-IsAdded signs (Tells a.method a.url a.verdict)
        (make_evidence crypto lib proxy o a) w.store (a, refl, refl, refl, refl)) [
          | inl raised ↦
              rw (record_action, raised)
                (record { unsent = refl; unspent = refl; recorded = inl refl })
          | inr (p, done, more) ↦
              rw (record_action, done)
                (record { unsent = refl; unspent = refl; recorded = inr (inl more) })
        ]

  refuse_lem :
      (wanted : Bool) (a : Attempt) (kind : Text) (w : World)
      → let r = refuse crypto lib proxy o a kind w in Done a.method a.url a.verdict wanted r w
  unfolding refuse
  refuse_lem wanted a kind w = then_pure signs _ wanted _ w _ (record_action_lem wanted a w)

  record_if_lem :
      (wanted : Bool) (a : Attempt) (w : World)
      → let r = record_if crypto lib proxy wanted o a w in Done a.method a.url a.verdict wanted r w
  unfolding record_if
  record_if_lem true a w = then_pure signs _ true _ w _ (record_action_lem true a w)
  record_if_lem false a w = record {
    unsent = refl;
    unspent = refl;
    recorded = inr (inr (refl, refl));
  }

  after_send_lem :
      (method url content : Text) (v : Verdict) (a : Option Approval)
      → (x : Result Text (ℕ × Text)) (w : World)
      → let r = after_send crypto lib proxy o method url content v a x w in
        Done method url v (requires_evidence proxy.policy v.risk) r w
  unfolding after_send failed_attempt executed_attempt attempt
  after_send_lem method url content v a (err kind) w =
      then_pure signs _ _ (λ _. upstream_unreachable) w _
        (record_action_lem _ (failed_attempt crypto lib proxy method url content v a kind) w)
  after_send_lem method url content v a (ok (status, payload)) w =
      then_pure signs _ _ (relayed status payload) w _ (
        record_if_lem _ (executed_attempt crypto lib proxy method url content v a status payload) w)

  -- The call sends this request once.
  forward_lem :
      (method url : Text) (headers : List (Text × Text)) (content : Text) (v : Verdict)
      (a : Option Approval) (w : World)
      → let r = forward crypto lib proxy o method url headers content v a w in
        (r.1.sent ≡ w.sent ++ (method, url, kept_headers headers [], content) ∷ [])
        × (r.1.approvals ≡ w.approvals)
        × IsRecorded signs (Tells method url v) (requires_evidence proxy.policy v.risk) r w
  unfolding forward send_upstream
  forward_lem method url headers content v a w =
      let sending : World = record w {
        sent = w.sent ++ (method, url, kept_headers headers [], content) ∷ [];
      } in
      let done =
        after_send_lem method url content v a (o.send method url (kept_headers headers []) content)
          sending in
      (done.unsent, done.unspent, done.recorded)

  -- An approval of this very method and target, neither used nor expired, is used up.
  abbrev pub IsConsumed : Text → Text → Option Text → World → World → Type 0
  IsConsumed method url token w w' =
      (id : Text) × (a : Approval) × (token ≡ some id)
      × (lookup id w.approvals ≡ some a)
      × (is_spent a ≡ false)
      × (is_expired a o.now_ms ≡ false)
      × (a.method ≡ upper method)
      × (a.target ≡ url)
      × (w'.approvals ≡ insert id (spend o.now_ms none a) w.approvals)

  -- Nothing is sent and one record is left, or the request is sent once, since it is allowed or such
  -- an approval is used up, and one record is left unless its risk needs none.
  abbrev pub IsPermitted :
      Text
      → Text
      → List (Text × Text)
      → Text
      → Option Text
      → Verdict
      → Decision
      → World
      → Result Failure Answer × World
      → Type 0
  IsPermitted method url headers content token v d w r =
      ((r.1.sent ≡ w.sent)
        × (r.1.approvals ≡ w.approvals)
        × IsRecorded signs (Tells method url v) true r w)
      ⊎ ((r.1.sent ≡ w.sent ++ (method, url, kept_headers headers [], content) ∷ [])
          × (((d ≡ allow) × (r.1.approvals ≡ w.approvals))
              ⊎ ((d ≡ approval) × IsConsumed method url token w r.1))
          × IsRecorded signs (Tells method url v) (requires_evidence proxy.policy v.risk) r w)

  refuse_passes :
      (method url : Text) (headers : List (Text × Text)) (content : Text) (token : Option Text)
      (d : Decision) (v : Verdict)
      → (status : Text) (extra : Fields) (kind : Text) (w : World)
      → let a = attempt method url v status (payload_digest crypto content) extra in
        let r = refuse crypto lib proxy o a kind w in
        IsPermitted method url headers content token v d w r
  unfolding attempt
  refuse_passes method url headers content token d v status extra kind w =
      let a = attempt method url v status (payload_digest crypto content) extra in
      let done = refuse_lem true a kind w in inl (done.unsent, done.unspent, done.recorded)

  after_consume_lem :
      (method url : Text) (headers : List (Text × Text)) (content : Text) (v : Verdict) (id : Text)
      (w : World)
      → let c = consume o.now_ms id method url none w.approvals in
        let r =
          after_consume crypto lib proxy o method url headers content v c.0
            (record w { approvals = c.1 }) in
        IsPermitted method url headers content (some id) v approval w r
  unfolding after_consume moment rejected_attempt
  after_consume_lem method url headers content v id w =
      elim (consume_outcome o.now_ms id method url none w.approvals) [
        | inl (raised, same) ↦
            elim (Result-cases (consume o.now_ms id method url none w.approvals).0) [
              | inl (a, fine) ↦ ground arith
              | inr (e, bad) ↦
                  rw (bad, same)
                    (refuse_passes method url headers content (some id) approval v
                      (codes "approval_rejected")
                      (field (codes "approval_error") (str (o.str_error e)) end)
                      (codes "approval_invalid") w)
            ]
        | inr (a, found, fresh, valid, for_method, for_url, passed, used) ↦
            let (sent, kept, logged) =
              forward_lem method url headers content v (some (spend o.now_ms none a))
                (record w { approvals = insert id (spend o.now_ms none a) w.approvals }) in
            rw (passed, used)
              (inr (
                sent,
                inr (refl, (id, a, refl, found, fresh, valid, for_method, for_url, kept)),
                logged,
              ))
      ]

  ask_approval_lem :
      (method url : Text) (headers : List (Text × Text)) (content : Text) (v : Verdict)
      (token : Option Text) (w : World)
      → let r = ask_approval crypto lib proxy o method url headers content v token w in
        IsPermitted method url headers content token v approval w r
  unfolding ask_approval try_consume
  ask_approval_lem method url headers content v none w =
      refuse_passes method url headers content _ approval v (codes "pending_approval") end
        (codes "approval_required") w
  ask_approval_lem method url headers content v (some []) w =
      refuse_passes method url headers content _ approval v (codes "pending_approval") end
        (codes "approval_required") w
  ask_approval_lem method url headers content v (some (c ∷ id)) w =
      after_consume_lem method url headers content v (c ∷ id) w

  decide_lem :
      (q : Request) (v : Verdict) (d : Decision) (w : World)
      → let r = decide crypto lib proxy o q v d w in
        IsPermitted q.method q.path q.headers q.content q.approval_header v d w r
  unfolding decide
  decide_lem q v block w =
      refuse_passes q.method q.path q.headers q.content _ block v (codes "blocked") end
        (codes "blocked") w
  decide_lem q v approval w =
      ask_approval_lem q.method q.path q.headers q.content v q.approval_header w
  decide_lem q v allow w =
      let (sent, kept, logged) = forward_lem q.method q.path q.headers q.content v none w in
      inr (sent, inl (refl, kept), logged)

  -- A request that came through the proxy is sent at most once, with its method, its target and its
  -- body unchanged and the headers that `kept_headers` leaves, and only if the policy allows it or an
  -- approval for exactly this method and target is used up by it. Unless an exception leaves the
  -- handler, a request that is not sent adds to the journal and to its file one signed record of this
  -- method, target and verdict, and so does one that is sent if the policy wants evidence of its risk;
  -- one that is sent without need of evidence adds such a record or leaves the journal as it was.
  pub handle-IsPermitted :
      (q : Request) (w : World)
      → starts (codes "http") q.path ≡ true
      → let r = handle crypto lib proxy o q w in
        let v = assess crypto lib proxy q.method q.path in
        IsPermitted q.method q.path q.headers q.content q.approval_header v v.decision w r
  unfolding handle
  handle-IsPermitted q w h =
      let v = assess crypto lib proxy q.method q.path in rw h (decide_lem q v v.decision w)
