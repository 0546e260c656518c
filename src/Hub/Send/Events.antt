-- ===== src/Hub/Send/Events.antt =====
-- What the writes of sdk-python/intermesh/hub.py add to the frames that are sent.
use intermesh.Prelude.{
  Text, ℕ, ◌≡◌, refl, ap, ◌∙◌, ◌⊎◌, inl, inr, true, false, Option, some, List, [], ◌∷◌, ◌++◌, map,
  All, Option-cases, Bool-cases,
}
use intermesh.Prelude.Json.{Fields, obj}
use intermesh.Prelude.Exec.{Result, ok, err, ◌>>=◌}
use intermesh.Audit.{AuditEntry, AuditLog, log}
use intermesh.Hub.{Env, Hub, Frame, event, HubError, index_error, Action}
use intermesh.Hub.Send.{push, try_send, audit, reached, broadcast}

abbrev pub Frames : Type 0
Frames = List (ℕ × Frame)

-- An event of the telemetry.
abbrev pub IsEvent : ℕ × Frame → Type 0
IsEvent p = (name : Text) × (fields : Fields) × (p.1 ≡ event name fields)

-- What a step adds to the frames that are sent.
abbrev pub Adds : (Frames → Type 0) → Hub → Hub → Type 0
Adds P h h' = (new : Frames) × (h'.sent ≡ h.sent ++ new) × P new

abbrev pub OnlyEvents : Hub → Hub → Type 0
OnlyEvents = Adds (All IsEvent)

pub append_nil : {A : Type 0} (xs : List A) → xs ≡ xs ++ []
append_nil [] = refl
append_nil (x ∷ xs) = ap (λ l. x ∷ l) (append_nil xs)

pub append_append : {A : Type 0} (xs ys zs : List A) → (xs ++ ys) ++ zs ≡ xs ++ (ys ++ zs)
append_append [] ys zs = refl
append_append (x ∷ xs) ys zs = ap (λ l. x ∷ l) (append_append xs ys zs)

pub silent : (h h' : Hub) → h'.sent ≡ h.sent → OnlyEvents h h'
silent h h' e = ([], e ∙ append_nil h.sent, tt)

pub after_events :
    (P : Frames → Type 0) (h h' h'' : Hub)
    → ((es ps : Frames) → All IsEvent es → P ps → P (es ++ ps))
    → OnlyEvents h h'
    → Adds P h' h''
    → Adds P h h''
after_events P h h' h'' join (es, e, events) (ps, p, holds) =
    (es ++ ps, p ∙ ap (λ l. l ++ ps) e ∙ append_append h.sent es ps, join es ps events holds)

pub audit-cases :
    (env : Env) (kind who : Text) (whom : Option Text) (meta : Fields) (h : Hub)
    → (audit env kind who whom meta h ≡ (err index_error, h))
      ⊎ ((l : AuditLog) × (e : AuditEntry) × (audit env kind who whom meta h
            ≡ (ok e, record h { audit_log = l })))
unfolding audit
audit-cases env kind who whom meta h =
    elim (Option-cases (log env.digest env.now kind who whom (some (obj meta)) h.audit_log)) [
      | inl none_there ↦ inl (rw (audit, none_there) refl)
      | inr ((l, e), q) ↦ inr (l, e, rw (audit, q) refl)
    ]

-- What holds of a step that begins with an entry in the audit log: it may raise on an empty chain.
pub audit_step :
    {A : Type 0} (Q : Result HubError A × Hub → Type 0) (env : Env) (kind who : Text)
    (whom : Option Text) (meta : Fields) (k : AuditEntry → Action A) (h : Hub)
    → Q (err index_error, h)
    → ((e : AuditEntry) (l : AuditLog) → Q (k e (record h { audit_log = l })))
    → Q ((audit env kind who whom meta >>= k) h)
audit_step Q env kind who whom meta k h raised logged =
    elim (audit-cases env kind who whom meta h) [
      | inl q ↦ rw q raised
      | inr (l, e, q) ↦ rw q (logged e l)
    ]

events_lem :
    (name : Text) (fields : Fields) (ws : List ℕ)
    → All IsEvent (map (λ w. (w, event name fields)) ws)
events_lem name fields [] = tt
events_lem name fields (w ∷ ws) = ((name, fields, refl), events_lem name fields ws)

pub broadcast-OnlyEvents :
    (env : Env) (name : Text) (fields : Fields) (h : Hub)
    → OnlyEvents h (broadcast env name fields h).1
unfolding broadcast
broadcast-OnlyEvents env name fields h =
    let alive = reached env.is_open h.observers in
    (map (λ w. (w, event name fields)) alive, refl, events_lem name fields alive)

pub try_send-cases :
    (env : Env) (ws : ℕ) (f : Frame) (h : Hub)
    → (try_send env ws f h ≡ (ok true, push ws f h)) ⊎ (try_send env ws f h ≡ (ok false, h))
unfolding try_send
try_send-cases env ws f h = elim (Bool-cases (env.is_open ws)) [
  | inl open_ws ↦ inl (rw (try_send, open_ws) refl)
  | inr shut ↦ inr (rw (try_send, shut) refl)
]
