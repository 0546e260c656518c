-- ===== src/Hub/Requests/Isolation.antt =====
-- The isolation of organisations in the messages that sdk-python/intermesh/hub.py routes.
use intermesh.Prelude.{
  arith, ℕ, Text, ◌≡◌, refl, sym, ◌⊎◌, inl, inr, true, false, Option, none, some, [], ◌∷◌,
  Bool-cases, text_eq, ◌==◌, eq_of,
}
use intermesh.Prelude.Exec.{pure, Result-cases, ◌>>◌}
use intermesh.Prelude.Json.{Json, str}
use intermesh.Message.{InterMeshMessage, error}
use intermesh.Hub.{Env, Hub, Frame}
use intermesh.Hub.Names.{is_peered}
use intermesh.Hub.Send.{send, push, reply}
use intermesh.Hub.Send.Events.{Frames, Adds, append_nil}
use intermesh.Hub.Delivery.{deliver_or_relay}
use intermesh.Hub.Delivery.Reach.{IsDelivered, name_or_empty, org_of, deliver_or_relay-IsDelivered}
use intermesh.Hub.Requests.{is_foreign, isolation_text, route_given, route_message}

-- Frames for one socket.
abbrev pub IsOnlyTo : ℕ → Frames → Type 0
IsOnlyTo ws fs = (fs ≡ []) ⊎ ((f : Frame) × (fs ≡ (ws, f) ∷ []))

reply-IsOnlyTo :
    (env : Env) (ws : ℕ) (msg : InterMeshMessage) (content : Json) (h : Hub)
    → Adds (IsOnlyTo ws) h (reply env ws error msg content none h).1
unfolding reply send push
reply-IsOnlyTo env ws msg content h = elim (Bool-cases (env.is_open ws)) [
  | inl live ↦ rw (reply, send, live) (_, refl, inr (_, refl))
  | inr shut ↦ rw (reply, send, shut) ([], append_nil h.sent, inl refl)
]

-- Who may be written to: an agent of the sender's organisation, or of an organisation that has a peering
-- with this hub; a message without a target has none.
abbrev pub IsAllowed : Env → InterMeshMessage → Text → Hub → Type 0
IsAllowed env msg target h =
    (target ≡ [])
    ⊎ (org_of env target h ≡ org_of env msg.sender h)
    ⊎ (is_peered (org_of env target h) h ≡ true)

is_foreign-cases :
    (env : Env) (msg : InterMeshMessage) (target : Text) (h : Hub)
    → is_foreign env msg target h ≡ false
    → IsAllowed env msg target h
unfolding is_foreign
is_foreign-cases env msg target h e =
    elim (Bool-cases (org_of env target h == org_of env msg.sender h)) [
      | inl own ↦ inr (inl (eq_of (org_of env target h) (org_of env msg.sender h) own))
      | inr other ↦ inr (inr (ground arith))
    ]

-- The message is handed to `deliver_or_relay` and has gone to its target.
abbrev pub Passed : Env → InterMeshMessage → Hub → Text → Type 0
Passed env msg h target =
    Adds (IsDelivered env msg target h) h ((deliver_or_relay env msg >> pure tt) h).1

passes-IsDelivered :
    (env : Env) (msg : InterMeshMessage) (h : Hub) → Passed env msg h (name_or_empty msg.to)
passes-IsDelivered env msg h = elim (Result-cases (deliver_or_relay env msg h).0) [
  | inl (b, q) ↦ rw q (deliver_or_relay-IsDelivered env msg h)
  | inr (e, q) ↦ rw q (deliver_or_relay-IsDelivered env msg h)
]

to_name :
    (P : Text → Type 0) (o p : Option Text) → o ≡ p → P (name_or_empty o) → P (name_or_empty p)
to_name P o p e x = rw (sym e) x

route_given-cases :
    (env : Env) (ws : ℕ) (msg : InterMeshMessage) (to : Option Text) (h : Hub)
    → msg.to ≡ to
    → let h' = (route_given env ws msg to h).1 in
      Adds (IsOnlyTo ws) h h'
      ⊎ (IsAllowed env msg (name_or_empty to) h
          × Adds (IsDelivered env msg (name_or_empty to) h) h h')
unfolding route_given name_or_empty
route_given-cases env ws msg none h e =
    inr (inl refl, to_name (Passed env msg h) msg.to none e (passes-IsDelivered env msg h))
route_given-cases env ws msg (some []) h e =
    inr (inl refl, to_name (Passed env msg h) msg.to (some []) e (passes-IsDelivered env msg h))
route_given-cases env ws msg (some (c ∷ t)) h e = elim (Bool-cases (is_foreign env msg (c ∷ t) h)) [
  | inl foreign ↦
      let call : route_given env ws msg (some (c ∷ t)) h
          ≡ reply env ws error msg (str (isolation_text (c ∷ t))) none h =
        rw (route_given, foreign) refl in
      inl (rw call (reply-IsOnlyTo env ws msg (str (isolation_text (c ∷ t))) h))
  | inr allowed ↦
      let call : route_given env ws msg (some (c ∷ t)) h ≡ (deliver_or_relay env msg >> pure tt) h =
        rw (route_given, allowed) refl in
      let passed =
        to_name (Passed env msg h) msg.to (some (c ∷ t)) e (passes-IsDelivered env msg h) in
      inr (is_foreign-cases env msg (c ∷ t) h allowed, rw call passed)
]

-- A message of an agent is handed on only if the organisation that its target's name stands for is the
-- sender's or has a peering with the hub, or if it names no target; what is then sent is the message
-- on its way to that target, on its socket, on the link to the hub of the cluster that holds it, or
-- filtered to its peer. Otherwise nothing is sent but an answer on the sender's own socket.
pub route_message-IsAllowed :
    (env : Env) (ws : ℕ) (msg : InterMeshMessage) (h : Hub)
    → let h' = (route_message env ws msg h).1 in
      Adds (IsOnlyTo ws) h h'
      ⊎ (IsAllowed env msg (name_or_empty msg.to) h
          × Adds (IsDelivered env msg (name_or_empty msg.to) h) h h')
unfolding route_message
route_message-IsAllowed env ws msg h = route_given-cases env ws msg msg.to h refl
