-- ===== src/Hub/Escrowed/Holding.antt =====
-- How the escrow of a task is held by sdk-python/intermesh/hub.py, or refused.
use intermesh.Prelude.{
  arith, Text, codes, ◌≡◌, refl, sym, ap, ◌∙◌, ◌⊎◌, inl, inr, Option, none, some, text_eq,
}
use intermesh.Prelude.Int.{ℤ}
use intermesh.Prelude.Json.{Fields, obj, end}
use intermesh.Prelude.Exec.{Result, ok, err, Result-cases}
use intermesh.Prelude.Results.{get}
use intermesh.Escrow.{Escrow, EscrowError, EscrowHold, create_hold}
use intermesh.Escrow.Outcome.{create_hold_outcome}
use intermesh.Hub.{Env, Hub, HubError}
use intermesh.Hub.Names.{agent_org}
use intermesh.Hub.Send.Events.{audit_step}
use intermesh.Audit.{AuditLog}
use intermesh.Hub.Escrowed.{
  text_or_empty, amount_of, currency_of, auto_of, on_escrow, note_hold, hold_escrow,
}

err_ok : {E A : Type 0} {e : E} {a : A} → ◌≡◌ {A = Result E A} (err e) (ok a) → ⊥
err_ok h = ground arith

module _ (env : Env) (raw : Fields) (submitter : Text) where
  -- The hold that the request asks for.
  abbrev pub hold_call : Fields → ℤ → Hub → Result EscrowError EscrowHold × Escrow
  hold_call req amount h =
      create_hold env.fresh env.now (text_or_empty (get (codes "task_id") raw))
        (agent_org env.hub_org h.identity_registry submitter)
        (agent_org env.hub_org h.identity_registry (text_or_empty (get (codes "assignee") raw)))
        amount (currency_of (get (codes "currency") req)) (auto_of (get (codes "auto_release") req))
        (obj end) h.escrow

  -- The escrow is untouched if none was asked for, and otherwise holds the amount that was.
  abbrev pub IsFunded : Option Fields → Hub → Escrow → Type 0
  IsFunded none h after = after ≡ h.escrow
  IsFunded (some req) h after =
      (amount : ℤ) × (hold : EscrowHold) × (amount_of env.lib.to_float (get (codes "amount") req)
        ≡ ok amount)
      × (hold_call req amount h ≡ (ok hold, after))

  -- A step that writes to the audit log alone.
  abbrev pub OnlyLogs : Hub → Hub → Type 0
  OnlyLogs h h' = (l : AuditLog) × (h' ≡ record h { audit_log = l })

  -- How `hold_escrow` may end.
  unfoldable pub Held : Option Fields → Hub → Result HubError (Option Text) × Hub → Type 0
  Held req h (ok (some why), h') = OnlyLogs h h'
  Held req h (ok none, h') = IsFunded req h h'.escrow × (h'.task_registry ≡ h.task_registry)
  Held req h (err e, h') =
      ((h'.escrow ≡ h.escrow) ⊎ IsFunded req h h'.escrow) × (h'.task_registry ≡ h.task_registry)

  refused_same :
      (req : Fields) (amount : ℤ) (h : Hub) (e : EscrowError) (s : Escrow)
      → hold_call req amount h ≡ (err e, s)
      → s ≡ h.escrow
  refused_same req amount h e s p =
      elim (create_hold_outcome env.fresh env.now (text_or_empty (get (codes "task_id") raw))
        (agent_org env.hub_org h.identity_registry submitter)
        (agent_org env.hub_org h.identity_registry (text_or_empty (get (codes "assignee") raw)))
        amount (currency_of (get (codes "currency") req)) (auto_of (get (codes "auto_release") req))
        (obj end) h.escrow) [
          | inl (failed, kept) ↦ ap (λ x. x.1) (sym p) ∙ kept
          | inr done ↦ absurd (err_ok (sym (ap (λ x. x.0) p) ∙ done.0))
        ]

  note_hold-Held :
      (req : Fields) (amount : ℤ) (h : Hub) (r : Result EscrowError EscrowHold) (s : Escrow)
      → amount_of env.lib.to_float (get (codes "amount") req) ≡ ok amount
      → hold_call req amount h ≡ (r, s)
      → Held (some req) h (note_hold env raw submitter r (record h { escrow = s }))
  unfolding note_hold Held
  note_hold-Held req amount h (err e) s a p =
      let kept = refused_same req amount h e s p in
      audit_step (Held (some req) h) env _ _ _ _ _ (record h { escrow = s }) (inl kept, refl)
        (λ entry l. (l, rw kept refl))
  note_hold-Held req amount h (ok hold) s a p =
      audit_step (Held (some req) h) env _ _ _ _ _ (record h { escrow = s })
        (inr (amount, hold, a, p), refl) (λ entry l. ((amount, hold, a, p), refl))

  pub hold_escrow-Held :
      (req : Option Fields) (h : Hub) → Held req h (hold_escrow env raw submitter req h)
  unfolding hold_escrow on_escrow Held
  hold_escrow-Held none h = (refl, refl)
  hold_escrow-Held (some req) h =
      elim (Result-cases (amount_of env.lib.to_float (get (codes "amount") req))) [
        | inr (e, q) ↦
            let stop : hold_escrow env raw submitter (some req) h ≡ (err e, h) =
              rw (hold_escrow, q) refl in
            rw stop (inl refl, refl)
        | inl (amount, q) ↦
            let (r, s) = hold_call req amount h in
            let call : hold_escrow env raw submitter (some req) h
                ≡ note_hold env raw submitter r (record h { escrow = s }) =
              rw (hold_escrow, q) refl in
            rw call (note_hold-Held req amount h r s q refl)
      ]
