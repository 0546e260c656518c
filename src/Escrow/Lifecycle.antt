-- ===== src/Escrow/Lifecycle.antt =====
-- Sequences of calls on sdk-python/intermesh/escrow.py, refused ones included.
use intermesh.Prelude.{
  ℕ, Text, ◌≡◌, refl, ◌∙◌, sym, ap, inl, inr, Bool, false, some, List, [], ◌∷◌, arith, text_eq,
  text_beq_iff, if◌then◌else◌, Bool-cases,
}
use intermesh.Prelude.Int.{ℤ, pos, ◌+ℤ◌, leb_ℤ, int_laws}
use intermesh.Prelude.Dict.{lookup, insert, lookup-insert, lookup-insert_self}
use intermesh.Prelude.Json.{Json}
use intermesh.Prelude.Exec.{ok, err}
use intermesh.Escrow.{
  held, released, EscrowHold, Balances, Escrow, credit, grant, create_hold, release, refund,
  is_held, already_resolved, require_held,
}
use intermesh.Escrow.Outcome.{
  new_hold, resolved, create_hold_outcome, release_outcome, refund_outcome,
}
use intermesh.Escrow.Money.{
  share, total, funds, total-credit, create_hold-funds, release-funds, refund-funds,
}

-- One call that may change the state.
pub data Call : Type 0 where
  grants : Text → ℤ → Text → Call
  creates : Text → ℕ → Text → Text → Text → ℤ → Text → Bool → Json → Call
  releases refunds : ℕ → Text → Call

pub step : Escrow → Call → Escrow
step s (grants org amount c) = record s { balances = (grant org amount c s.balances).1 }
step s (creates fresh now task payer payee amount c auto meta) =
    (create_hold fresh now task payer payee amount c auto meta s).1
step s (releases now task) = (release now task s).1
step s (refunds now task) = (refund now task s).1

pub run : Escrow → List Call → Escrow
run s [] = s
run s (c ∷ cs) = run (step s c) cs

-- What a call brings in: an accepted grant its amount, anything else nothing.
pub brought : Text → Call → ℤ
brought cur (grants org amount c) = if leb_ℤ amount (pos 0) then pos 0 else share cur c amount
brought cur (creates fresh now task payer payee amount c auto meta) = pos 0
brought cur (releases now task) = pos 0
brought cur (refunds now task) = pos 0

pub brought_by : Text → List Call → ℤ
brought_by cur [] = pos 0
brought_by cur (c ∷ cs) = brought cur c +ℤ brought_by cur cs

grant-total :
    (cur org : Text) (amount : ℤ) (c : Text) (b : Balances)
    → total cur (grant org amount c b).1
      ≡ total cur b +ℤ (if leb_ℤ amount (pos 0) then pos 0 else share cur c amount)
unfolding grant credit
grant-total cur org amount c b = elim (Bool-cases (leb_ℤ amount (pos 0))) [
  | inl e ↦ rw e (grind int_laws)
  | inr e ↦ rw e (total-credit cur org c amount b)
]

plus_zero : (x : ℤ) → x +ℤ pos 0 ≡ x
plus_zero x = omega int_laws

funds-step :
    (cur : Text) (s : Escrow) (c : Call) → funds cur (step s c) ≡ funds cur s +ℤ brought cur c
unfolding step brought
funds-step cur s (grants org amount c) = regroup _ _ _ _ (grant-total cur org amount c s.balances)
  where
    regroup : (t' t g k : ℤ) → t' ≡ t +ℤ g → t' +ℤ k ≡ t +ℤ k +ℤ g
    regroup t' t g k e = grind int_laws
funds-step cur s (creates fresh now task payer payee amount c auto meta) =
    create_hold-funds fresh now task payer payee amount c auto meta s cur ∙ sym (plus_zero _)
funds-step cur s (releases now task) = release-funds now task s cur ∙ sym (plus_zero _)
funds-step cur s (refunds now task) = refund-funds now task s cur ∙ sym (plus_zero _)

-- With exact amounts, after any grants, holds, releases and refunds, in every currency, the balances and
-- the unresolved holds together are what they were before plus the accepted grants.
pub funds-run :
    (cur : Text) (calls : List Call) (s : Escrow)
    → funds cur (run s calls) ≡ funds cur s +ℤ brought_by cur calls
unfolding run brought_by
funds-run cur [] s = omega int_laws
funds-run cur (c ∷ cs) s = regroup _ _ _ _ _ (funds-run cur cs (step s c)) (funds-step cur s c)
  where
    regroup : (r m f a b : ℤ) → r ≡ m +ℤ b → m ≡ f +ℤ a → r ≡ f +ℤ (a +ℤ b)
    regroup r m f a b e g = grind int_laws

module _ (task : Text) (h : EscrowHold) (done : is_held h.status ≡ false) where
  stays :
      (k : Text) (old new : EscrowHold) (s : Escrow)
      → lookup k s.holds ≡ some old
      → old.status ≡ held
      → lookup task s.holds ≡ some h
      → lookup task (insert k new s.holds) ≡ some h
  stays k old new s f unresolved g =
      ground (arith, lookup-insert k task new s.holds, text_beq_iff k task)

  step_final :
      (s : Escrow) (c : Call) → lookup task s.holds ≡ some h → lookup task (step s c).holds ≡ some h
  unfolding step
  step_final s (grants org amount c) g = g
  step_final s (creates fresh now k payer payee amount c auto meta) g =
      elim (create_hold_outcome fresh now k payer payee amount c auto meta s) [
        | inl (_, e) ↦ rw e g
        | inr (_, _, new, _, _, e) ↦ rw e (
            ground (
              arith,
              text_beq_iff k task,
              lookup-insert k task (new_hold fresh now k payer payee amount c auto meta) s.holds,
            ))
      ]
  step_final s (releases now k) g = elim (release_outcome now k s) [
    | inl (_, e) ↦ rw e g
    | inr (old, f, o, _, e) ↦ rw e (stays k old _ s f o g)
  ]
  step_final s (refunds now k) g = elim (refund_outcome now k s) [
    | inl (_, e) ↦ rw e g
    | inr (old, f, o, _, e) ↦ rw e (stays k old _ s f o g)
  ]

  run_final :
      (calls : List Call) (s : Escrow)
      → lookup task s.holds ≡ some h
      → lookup task (run s calls).holds ≡ some h
  unfolding run
  run_final [] s g = g
  run_final (c ∷ cs) s g = run_final cs (step s c) (step_final s c g)

-- A release or a refund of a hold that is resolved raises, and changes nothing.
abbrev pub IsClosed : Text → EscrowHold → Escrow → Type 0
IsClosed task h s =
    (now : ℕ)
    → (release now task s ≡ (err (already_resolved h.status), s))
      × (refund now task s ≡ (err (already_resolved h.status), s))

resolved-IsClosed :
    (task : Text) (h : EscrowHold) (s : Escrow)
    → is_held h.status ≡ false
    → lookup task s.holds ≡ some h
    → IsClosed task h s
unfolding release refund require_held
resolved-IsClosed task h s done found now =
    (rw (release, require_held, found, done) refl, rw (refund, require_held, found, done) refl)

-- A hold that has been released or refunded stays as it is: whatever grants, holds, releases and
-- refunds are called afterwards, it is not resolved again, replaced or removed, and any release or
-- refund of its task then raises and leaves holds and balances as they are.
pub resolved_for_good :
    (task : Text) (h : EscrowHold) (s : Escrow) (calls : List Call)
    → is_held h.status ≡ false
    → lookup task s.holds ≡ some h
    → (lookup task (run s calls).holds ≡ some h) × IsClosed task h (run s calls)
resolved_for_good task h s calls done g =
    let kept = run_final task h done calls s g in
    (kept, resolved-IsClosed task h (run s calls) done kept)

-- A release that returns a hold has found the hold of its task held, has credited its amount to the
-- payee, and has filed what it returns: the same hold, released at the time of the call.
pub release_pays :
    (now : ℕ) (task : Text) (s : Escrow) (h : EscrowHold)
    → (release now task s).0 ≡ ok h
    → (old : EscrowHold) × (lookup task s.holds ≡ some old)
      × (old.status ≡ held)
      × (h ≡ resolved old released now)
      × ((release now task s).1.balances ≡ credit old.payee_org old.amount old.currency s.balances)
      × (lookup task (release now task s).1.holds ≡ some h)
release_pays now task s h r = elim (release_outcome now task s) [
  | inl (e, _) ↦ absurd (ground arith)
  | inr (old, f, o, q, e) ↦
      let same : h ≡ resolved old released now = ground arith in
      (
        old,
        f,
        o,
        same,
        ap (λ (x : Escrow). x.balances) e,
        ap (λ (x : Escrow). lookup task x.holds) e
            ∙ lookup-insert_self task (resolved old released now) s.holds
            ∙ ap some (sym same),
      )
]
