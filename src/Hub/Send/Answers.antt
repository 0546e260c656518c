-- ===== src/Hub/Send/Answers.antt =====
-- The steps of sdk-python/intermesh/hub.py that answer on one socket and otherwise only tell observers.
use intermesh.Prelude.{
  Text, ℕ, ◌≡◌, refl, sym, ap, ◌∙◌, ◌⊎◌, inl, inr, Bool, Option, List, [], ◌∷◌, ◌++◌, All,
  Bool-cases, arith,
}
use intermesh.Prelude.Json.{Json, Fields}
use intermesh.Prelude.Exec.{Result-cases, ◌>>=◌}
use intermesh.Audit.{AuditLog, AuditEntry}
use intermesh.Message.{InterMeshMessage, MessageType}
use intermesh.Hub.{Env, Hub, Frame, Action}
use intermesh.Hub.Send.{send, push, reply, audit, reached, broadcast}
use intermesh.Hub.Send.Events.{
  Frames, IsEvent, append_nil, append_append, audit_step, broadcast-OnlyEvents,
}

-- An event, or a frame for the socket `ws`.
abbrev pub IsAnswer : ℕ → ℕ × Frame → Type 0
IsAnswer ws p = IsEvent p ⊎ (p.0 ≡ ws)

-- The observers are the old ones, or those of them that take what they are sent.
abbrev pub IsPruned : Env → List ℕ → List ℕ → Type 0
IsPruned env old new = (new ≡ old) ⊎ (new ≡ reached env.is_open old)

-- Events and frames for `ws` are sent, the audit log is written to, observers that fail are dropped,
-- and the rest of the state is what it was.
abbrev pub Answers : Env → ℕ → Hub → Hub → Type 0
Answers env ws h h' =
    (new : Frames) × (l : AuditLog) × (o : List ℕ) × All (IsAnswer ws) new
    × IsPruned env h.observers o
    × (h' ≡ record h { sent = h.sent ++ new; audit_log = l; observers = o })

pub All-append :
    {A : Type 0} (P : A → Type 0) (xs ys : List A) → All P xs → All P ys → All P (xs ++ ys)
All-append P [] ys a b = b
All-append P (x ∷ xs) ys (p, a) b = (p, All-append P xs ys a b)

pub events-IsAnswer : (ws : ℕ) (es : Frames) → All IsEvent es → All (IsAnswer ws) es
events-IsAnswer ws [] a = tt
events-IsAnswer ws (e ∷ es) (p, a) = (inl p, events-IsAnswer ws es a)

reached-reached : (f : ℕ → Bool) (xs : List ℕ) → reached f (reached f xs) ≡ reached f xs
unfolding reached
reached-reached f [] = refl
reached-reached f (x ∷ xs) = ground (arith, reached-reached f xs)

IsPruned-twice :
    (env : Env) (a b c : List ℕ) → IsPruned env a b → IsPruned env b c → IsPruned env a c
IsPruned-twice env a b c (inl p) (inl q) = inl (q ∙ p)
IsPruned-twice env a b c (inr p) (inl q) = inr (q ∙ p)
IsPruned-twice env a b c (inl p) (inr q) = inr (q ∙ ap (λ x. reached env.is_open x) p)
IsPruned-twice env a b c (inr p) (inr q) =
    inr (q ∙ ap (λ x. reached env.is_open x) p ∙ reached-reached env.is_open a)

carry : (P : Hub → Type 0) (a b : Hub) → a ≡ b → P a → P b
carry P a b e x = rw (sym e) x

module _ (env : Env) (ws : ℕ) where
  pub untouched : (h : Hub) → Answers env ws h h
  untouched h = (
    [],
    h.audit_log,
    h.observers,
    tt,
    inl refl,
    ap (λ s. record h { sent = s; audit_log = h.audit_log; observers = h.observers })
        (append_nil h.sent),
  )

  then-Answers :
      (h h' h'' : Hub) → Answers env ws h h' → Answers env ws h' h'' → Answers env ws h h''
  then-Answers h h' h'' (new, l, o, answers, pruned, p) second =
      let mid : Hub = record h { sent = h.sent ++ new; audit_log = l; observers = o } in
      let (new', l', o', answers', pruned', q) =
        carry (λ x. Answers env ws x h'') h' mid p second in
      (
        new ++ new',
        l',
        o',
        All-append (IsAnswer ws) new new' answers answers',
        IsPruned-twice env h.observers o o' pruned pruned',
        q
            ∙ ap (λ s. record h { sent = s; audit_log = l'; observers = o' })
                (append_append h.sent new new'),
      )

  pub bind-Answers :
      {A B : Type 0} (m : Action A) (k : A → Action B) (h : Hub)
      → Answers env ws h (m h).1
      → ((a : A) (h' : Hub) → Answers env ws h' (k a h').1)
      → Answers env ws h ((m >>= k) h).1
  bind-Answers m k h first next = elim (Result-cases (m h).0) [
    | inr (e, q) ↦ rw q first
    | inl (a, q) ↦ rw q (then-Answers h (m h).1 (k a (m h).1).1 first (next a (m h).1))
  ]

  pub audit-Answers :
      {A : Type 0} (kind who : Text) (whom : Option Text) (meta : Fields)
      (k : AuditEntry → Action A) (h : Hub)
      → ((e : AuditEntry) (h' : Hub) → Answers env ws h' (k e h').1)
      → Answers env ws h ((audit env kind who whom meta >>= k) h).1
  audit-Answers kind who whom meta k h next =
      audit_step (λ r. Answers env ws h r.1) env kind who whom meta k h (untouched h)
        (λ e l.
          let logged : Hub = record h { audit_log = l } in
          let (new, l', o, answers, pruned, q) = next e logged in (new, l', o, answers, pruned, q))

  pub broadcast-Answers :
      (name : Text) (fields : Fields) (h : Hub) → Answers env ws h (broadcast env name fields h).1
  unfolding broadcast
  broadcast-Answers name fields h =
      let (es, e, events) = broadcast-OnlyEvents env name fields h in
      (
        es,
        h.audit_log,
        reached env.is_open h.observers,
        events-IsAnswer ws es events,
        inr refl,
        ap
            (λ s. record h {
              sent = s;
              audit_log = h.audit_log;
              observers = reached env.is_open h.observers;
            })
            e,
      )

  pub reply-Answers :
      (kind : MessageType) (msg : InterMeshMessage) (content : Json) (token : Option Text) (h : Hub)
      → Answers env ws h (reply env ws kind msg content token h).1
  unfolding reply send push
  reply-Answers kind msg content token h = elim (Bool-cases (env.is_open ws)) [
    | inl live ↦
        rw (reply, send, live) (_, h.audit_log, h.observers, (inr refl, tt), inl refl, refl)
    | inr shut ↦ rw (reply, send, shut) (untouched h)
  ]
