-- ===== src/Hub/Updates/Settled.antt =====
-- How the updates of tasks move money in sdk-python/intermesh/hub.py.
use intermesh.Prelude.{
  arith, Text, codes, ◌≡◌, refl, sym, ap, ◌∙◌, ◌⊎◌, inl, inr, Bool, true, false, ◌&&◌, Option, none,
  some, Bool-cases, text_eq,
}
use intermesh.Prelude.Dict.{lookup, has_key}
use intermesh.Prelude.Json.{Fields}
use intermesh.Prelude.Exec.{Exec, ok, err, pure, Result-cases, ◌>>◌}
use intermesh.Prelude.Results.{get}
use intermesh.Escrow.{Escrow, EscrowHold, EscrowError, is_held, held, release, refund}
use intermesh.Escrow
use intermesh.Task.{InterMeshTask, TaskStatus, pending, running, completed, failed}
use intermesh.Message.{InterMeshMessage}
use intermesh.Hub.{Env, Hub}
use intermesh.Hub.Send.{broadcast, broadcast_entry}
use intermesh.Hub.Delivery.{deliver_or_relay}
use intermesh.Hub.Delivery.Writes.{
  OnlyWrites, same, audit-OnlyWrites, bind-OnlyWrites, broadcast-OnlyWrites,
  deliver_or_relay-OnlyWrites,
}
use intermesh.Hub.Escrowed.{text_or_empty, content_fields, read_task, remember_task}
use intermesh.Hub.Updates.{
  call_escrow, note_settled, settle_completed, settle_failed, announce_completed, announce_failed,
  hold_of, settle_status, settle_task, file_update, pass_update, process_update, update_task,
}

-- What an update does to the escrow: nothing; or it releases a hold that is set to be released
-- with a task that it reports completed; or it refunds the hold of a task that it reports failed.
pub data IsSettled (env : Env) (td : Fields) (before after : Escrow) : Type 0 where
  untouched : after ≡ before → IsSettled env td before after
  released_for :
      (t : InterMeshTask) (hold : EscrowHold)
      → read_task env td ≡ ok t
      → t.status ≡ completed
      → lookup (text_or_empty (get (codes "task_id") td)) before.holds ≡ some hold
      → is_held hold.status ≡ true
      → hold.auto_release ≡ true
      → after ≡ (release env.now (text_or_empty (get (codes "task_id") td)) before).1
      → IsSettled env td before after
  refunded_for :
      (t : InterMeshTask) (hold : EscrowHold)
      → read_task env td ≡ ok t
      → t.status ≡ failed
      → lookup (text_or_empty (get (codes "task_id") td)) before.holds ≡ some hold
      → is_held hold.status ≡ true
      → after ≡ (refund env.now (text_or_empty (get (codes "task_id") td)) before).1
      → IsSettled env td before after

escrow_kept : (h h' : Hub) → OnlyWrites h h' → h'.escrow ≡ h.escrow
escrow_kept h h' (s, l, o, c, e) = ap (λ (x : Hub). x.escrow) e

module _ (env : Env) (tid : Text) where
  note_settled-escrow :
      (kind org : Text) (hold : EscrowHold) (h : Hub)
      → (note_settled env kind org tid hold h).1.escrow ≡ h.escrow
  unfolding note_settled
  note_settled-escrow kind org hold h =
      escrow_kept h _ (audit-OnlyWrites env _ _ _ _ _ h (λ e h'. same h'))

  -- A call of the escrow, and then the entry of it.
  called-escrow :
      (m : Exec Escrow EscrowError EscrowHold) (kind org : Text) (hold : EscrowHold) (h : Hub)
      → ((call_escrow m >> note_settled env kind org tid hold) h).1.escrow ≡ (m h.escrow).1
  unfolding call_escrow
  called-escrow m kind org hold h = elim (Result-cases (m h.escrow).0) [
    | inl (a, q) ↦ rw q (note_settled-escrow kind org hold (record h { escrow = (m h.escrow).1 }))
    | inr (e, q) ↦ rw q refl
  ]

  settle_completed-cases :
      (o : Option EscrowHold) (h : Hub)
      → let after = (settle_completed env tid o h).1.escrow in
        (after ≡ h.escrow)
        ⊎ ((hold : EscrowHold) × (o ≡ some hold)
            × (is_held hold.status ≡ true)
            × (hold.auto_release ≡ true)
            × (after ≡ (release env.now tid h.escrow).1))
  unfolding settle_completed
  settle_completed-cases none h = inl refl
  settle_completed-cases (some hold) h =
      elim (Bool-cases (is_held hold.status && hold.auto_release)) [
        | inr no_release ↦ inl (rw (settle_completed, no_release) refl)
        | inl due ↦ inr (
          hold,
          refl,
          ground arith,
          ground arith,
          rw (settle_completed, due)
              (called-escrow (release env.now tid) (codes "ESCROW_RELEASED") hold.payee_org hold h),
        )
      ]

  settle_failed-cases :
      (o : Option EscrowHold) (h : Hub)
      → let after = (settle_failed env tid o h).1.escrow in
        (after ≡ h.escrow)
        ⊎ ((hold : EscrowHold) × (o ≡ some hold)
            × (is_held hold.status ≡ true)
            × (after ≡ (refund env.now tid h.escrow).1))
  unfolding settle_failed
  settle_failed-cases none h = inl refl
  settle_failed-cases (some hold) h = elim (Bool-cases (is_held hold.status)) [
    | inr no_refund ↦ inl (rw (settle_failed, no_refund) refl)
    | inl due ↦ inr (
      hold,
      refl,
      due,
      rw (settle_failed, due)
          (called-escrow (refund env.now tid) (codes "ESCROW_REFUNDED") hold.payer_org hold h),
    )
  ]

module _ (env : Env) (msg : InterMeshMessage) (td : Fields) where
  abbrev pub tid_of : Text
  tid_of = text_or_empty (get (codes "task_id") td)

  announce_completed-escrow :
      (t : InterMeshTask) (h : Hub) → (announce_completed env msg td tid_of t h).1.escrow ≡ h.escrow
  unfolding announce_completed broadcast_entry
  announce_completed-escrow t h = escrow_kept h _ (
      audit-OnlyWrites env _ _ _ _ _ h (λ e h'.
        bind-OnlyWrites (broadcast env _ _) (λ _. broadcast_entry env e) h'
          (broadcast-OnlyWrites env _ _ h') (λ _ h''. broadcast-OnlyWrites env _ _ h'')))

  announce_failed-escrow :
      (t : InterMeshTask) (h : Hub) → (announce_failed env msg td tid_of t h).1.escrow ≡ h.escrow
  unfolding announce_failed
  announce_failed-escrow t h =
      escrow_kept h _ (audit-OnlyWrites env _ _ _ _ _ h (λ e h'. broadcast-OnlyWrites env _ _ h'))

  settle_status-IsSettled :
      (t : InterMeshTask) (status : TaskStatus) (h : Hub)
      → read_task env td ≡ ok t
      → t.status ≡ status
      → IsSettled env td h.escrow (settle_status env msg td tid_of t status h).1.escrow
  unfolding settle_status hold_of intermesh.Escrow.get
  settle_status-IsSettled t pending h parsed e = untouched refl
  settle_status-IsSettled t running h parsed e = untouched refl
  settle_status-IsSettled t completed h parsed e =
      let (r, h') = announce_completed env msg td tid_of t h in
      let kept : h'.escrow ≡ h.escrow = announce_completed-escrow t h in
      elim (Result-cases r) [
        | inr (x, q) ↦ rw (settle_status, q) (untouched kept)
        | inl (done, q) ↦
            rw (settle_status, q)
              (elim (settle_completed-cases env tid_of (hold_of tid_of h') h') [
                | inl same_money ↦ untouched (same_money ∙ kept)
                | inr (hold, found, is_on, auto, after) ↦
                    released_for t hold parsed e
                      (ap (λ (x : Escrow). lookup tid_of x.holds) (sym kept) ∙ found) is_on auto
                      (after ∙ ap (λ x. (release env.now tid_of x).1) kept)
              ])
      ]
  settle_status-IsSettled t failed h parsed e =
      let (r, h') = announce_failed env msg td tid_of t h in
      let kept : h'.escrow ≡ h.escrow = announce_failed-escrow t h in
      elim (Result-cases r) [
        | inr (x, q) ↦ rw (settle_status, q) (untouched kept)
        | inl (done, q) ↦
            rw (settle_status, q)
              (elim (settle_failed-cases env tid_of (hold_of tid_of h') h') [
                | inl same_money ↦ untouched (same_money ∙ kept)
                | inr (hold, found, is_on, after) ↦
                    refunded_for t hold parsed e
                      (ap (λ (x : Escrow). lookup tid_of x.holds) (sym kept) ∙ found) is_on
                      (after ∙ ap (λ x. (refund env.now tid_of x).1) kept)
              ])
      ]

  file_update-IsSettled :
      (known : Bool) (h : Hub)
      → IsSettled env td h.escrow (file_update env msg td tid_of known h).1.escrow
  unfolding file_update remember_task settle_task
  file_update-IsSettled false h = untouched refl
  file_update-IsSettled true h = elim (Result-cases (read_task env td)) [
    | inr (e, q) ↦
        let stop : file_update env msg td tid_of true h ≡ (err e, h) = rw (file_update, q) refl in
        rw stop (untouched refl)
    | inl (t, q) ↦
        let call : file_update env msg td tid_of true h
            ≡ settle_task env msg td tid_of t (remember_task t h) =
          rw (file_update, q) refl in
        rw call (settle_status-IsSettled t t.status (remember_task t h) q refl)
  ]

  process_update-escrow :
      (h : Hub)
      → (process_update env msg td h).1.escrow
        ≡ (file_update env msg td tid_of (has_key tid_of h.task_registry) h).1.escrow
  unfolding process_update
  process_update-escrow h =
      let (r, h') = file_update env msg td tid_of (has_key tid_of h.task_registry) h in
      elim (Result-cases r) [
        | inr (e, q) ↦ rw (process_update, q) refl
        | inl (done, q) ↦
            rw (process_update, q)
              (escrow_kept h' _ (
                bind-OnlyWrites (deliver_or_relay env (pass_update env msg td)) (λ _. pure tt) h'
                  (deliver_or_relay-OnlyWrites env (pass_update env msg td) h')
                  (λ _ last. same last)))
      ]

-- An update of a task moves money in two cases alone: it reports the task completed, and then a hold
-- that is set to be released is released; or it reports the task failed, and then a hold that is
-- unresolved is refunded. All else leaves the escrow as it was.
pub update_task-IsSettled :
    (env : Env) (msg : InterMeshMessage) (h : Hub)
    → let after = (update_task env msg h).1.escrow in
      (after ≡ h.escrow)
      ⊎ ((td : Fields) × (content_fields msg.content ≡ ok td) × IsSettled env td h.escrow after)
unfolding update_task
update_task-IsSettled env msg h = elim (Result-cases (content_fields msg.content)) [
  | inr (e, q) ↦
      let stop : update_task env msg h ≡ (err e, h) = rw (update_task, q) refl in rw stop (inl refl)
  | inl (td, q) ↦
      let call : update_task env msg h ≡ process_update env msg td h = rw (update_task, q) refl in
      rw (call, process_update-escrow env msg td h)
        (inr (td, q, file_update-IsSettled env msg td _ h))
]
