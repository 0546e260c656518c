-- ===== src/Hub/Escrowed/Outcome.antt =====
-- How `finalize_task_submission` of sdk-python/intermesh/hub.py may end.
use intermesh.Prelude.{Text, codes, ◌≡◌, refl, ap, ◌∙◌, ◌⊎◌, inl, inr, Option, none, some, text_eq}
use intermesh.Prelude.Dict.{lookup, lookup-insert_self}
use intermesh.Prelude.Json.{Fields}
use intermesh.Prelude.Exec.{Result, ok, err, pure, bind_result, Result-cases}
use intermesh.Prelude.Results.{get}
use intermesh.Task.{InterMeshTask}
use intermesh.Hub.{Env, Hub, HubError}
use intermesh.Hub.Send.{broadcast, broadcast_entry}
use intermesh.Hub.Delivery.{deliver_or_relay}
use intermesh.Hub.Delivery.Writes.{
  OnlyWrites, bind-OnlyWrites, audit-OnlyWrites, broadcast-OnlyWrites, deliver_or_relay-OnlyWrites,
}
use intermesh.Hub.Escrowed.{
  escrow_request, remember_task, read_task, hold_escrow, announce_task, assignment, tell_task,
  accept_task, unless_refused, finalize_task_submission,
}
use intermesh.Hub.Escrowed.Holding.{OnlyLogs, IsFunded, Held, hold_escrow-Held}

module _ (env : Env) (raw : Fields) (submitter : Text) where
  -- How `accept_task` may end.
  Accepted : Hub → Result HubError (Option Text) × Hub → Type 0
  Accepted h (ok (some why), h') = ⊥
  Accepted h (ok none, h') =
      (t : InterMeshTask) × (read_task env raw ≡ ok t)
      × (lookup t.task_id h'.task_registry ≡ some t)
      × (h'.escrow ≡ h.escrow)
  Accepted h (err e, h') = h'.escrow ≡ h.escrow

  announce_task-OnlyWrites :
      (t : InterMeshTask) (h : Hub) → OnlyWrites h (announce_task env submitter t h).1
  unfolding announce_task broadcast_entry
  announce_task-OnlyWrites t h = audit-OnlyWrites env _ _ _ _ _ h (λ e h'.
      bind-OnlyWrites (broadcast env _ _) (λ _. broadcast_entry env e) h'
        (broadcast-OnlyWrites env _ _ h') (λ _ h''. broadcast-OnlyWrites env _ _ h''))

  tell_task-OnlyWrites :
      (t : InterMeshTask) (token reply_to : Option Text) (h : Hub)
      → OnlyWrites h (tell_task env submitter token reply_to t h).1
  unfolding tell_task
  tell_task-OnlyWrites t token reply_to h =
      let msg = assignment env token reply_to t in
      bind-OnlyWrites (announce_task env submitter t) (λ _. deliver_or_relay env msg) h
        (announce_task-OnlyWrites t h) (λ _ h'. deliver_or_relay-OnlyWrites env msg h')

  accept_task-Accepted :
      (token reply_to : Option Text) (h : Hub)
      → Accepted h (accept_task env raw submitter token reply_to h)
  unfolding accept_task Accepted remember_task
  accept_task-Accepted token reply_to h = elim (Result-cases (read_task env raw)) [
    | inr (e, q) ↦
        let stop : accept_task env raw submitter token reply_to h ≡ (err e, h) =
          rw (accept_task, q) refl in
        rw stop refl
    | inl (t, q) ↦
        let told = tell_task env submitter token reply_to t (remember_task t h) in
        let call : accept_task env raw submitter token reply_to h
            ≡ bind_result told.0 told.1 (λ _. pure none) =
          rw (accept_task, q) refl in
        let (s, l, o, c, wrote_only) = tell_task-OnlyWrites t token reply_to (remember_task t h) in
        let escrow_kept : told.1.escrow ≡ h.escrow = ap (λ (x : Hub). x.escrow) wrote_only in
        let found : lookup t.task_id told.1.task_registry ≡ some t =
          ap (λ (x : Hub). lookup t.task_id x.task_registry) wrote_only
          ∙ lookup-insert_self t.task_id t h.task_registry in
        rw call (elim (Result-cases told.0) [
          | inr (e, failed) ↦ rw failed escrow_kept
          | inl (b, done) ↦ rw done (t, q, found, escrow_kept)
        ])
  ]

  -- How `finalize_task_submission` may end.
  abbrev pub IsFinal : Hub → Result HubError (Option Text) → Hub → Type 0
  IsFinal h r h' =
      ((why : Text) × (r ≡ ok (some why)) × OnlyLogs env raw submitter h h')
      ⊎ ((t : InterMeshTask) × (req : Option Fields) × (r ≡ ok none)
          × (read_task env raw ≡ ok t)
          × (lookup t.task_id h'.task_registry ≡ some t)
          × (escrow_request (get (codes "escrow") raw) ≡ ok req)
          × IsFunded env raw submitter req h h'.escrow)
      ⊎ ((e : HubError) × (r ≡ err e)
          × ((h'.escrow ≡ h.escrow)
              ⊎ ((req : Option Fields) × (escrow_request (get (codes "escrow") raw) ≡ ok req)
                  × IsFunded env raw submitter req h h'.escrow)))

  after_accept :
      (h h' h'' : Hub) (req : Option Fields) (r : Result HubError (Option Text))
      → escrow_request (get (codes "escrow") raw) ≡ ok req
      → IsFunded env raw submitter req h h'.escrow
      → Accepted h' (r, h'')
      → IsFinal h r h''
  unfolding Accepted
  after_accept h h' h'' req (ok (some why)) q funded a = absurd a
  after_accept h h' h'' req (ok none) q funded (t, parsed, found, kept) =
      inr (inl (t, req, refl, parsed, found, q, rw kept funded))
  after_accept h h' h'' req (err e) q funded kept =
      inr (inr (e, refl, inr (req, q, rw kept funded)))

  after_hold :
      (token reply_to : Option Text) (h h' : Hub) (req : Option Fields)
      (r : Result HubError (Option Text))
      → escrow_request (get (codes "escrow") raw) ≡ ok req
      → Held env raw submitter req h (r, h')
      → let last =
          bind_result r h'
            (λ why. unless_refused why (accept_task env raw submitter token reply_to)) in
        IsFinal h last.0 last.1
  unfolding Held unless_refused
  after_hold token reply_to h h' req (ok (some why)) q writes = inl (why, refl, writes)
  after_hold token reply_to h h' req (ok none) q (funded, kept) =
      let (r, h'') = accept_task env raw submitter token reply_to h' in
      after_accept h h' h'' req r q funded (accept_task-Accepted token reply_to h')
  after_hold token reply_to h h' req (err e) q (inl kept, _) = inr (inr (e, refl, inl kept))
  after_hold token reply_to h h' req (err e) q (inr funded, _) =
      inr (inr (e, refl, inr (req, q, funded)))

  -- `finalize_task_submission` ends in one of three ways. It returns a refusal: then it has written to
  -- the audit log alone, and nothing is sent. Or it returns nothing: then the raw task is valid and
  -- in the registry, and its escrow, if it asked for one, is held to the amount asked for. Or an
  -- exception leaves it, with the escrow untouched or held as asked.
  pub finalize_task_submission-IsFinal :
      (token reply_to : Option Text) (h : Hub)
      → let last = finalize_task_submission env raw submitter token reply_to h in
        IsFinal h last.0 last.1
  unfolding finalize_task_submission
  finalize_task_submission-IsFinal token reply_to h =
      elim (Result-cases (escrow_request (get (codes "escrow") raw))) [
        | inr (e, q) ↦
            let stop : finalize_task_submission env raw submitter token reply_to h ≡ (err e, h) =
              rw (finalize_task_submission, q) refl in
            rw stop (inr (inr (e, refl, inl refl)))
        | inl (req, q) ↦
            let (r, h') = hold_escrow env raw submitter req h in
            let call : finalize_task_submission env raw submitter token reply_to h
                ≡ bind_result r h'
                    (λ why. unless_refused why (accept_task env raw submitter token reply_to)) =
              rw (finalize_task_submission, q) refl in
            rw call
              (after_hold token reply_to h h' req r q (hold_escrow-Held env raw submitter req h))
      ]
