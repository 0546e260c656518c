-- ===== src/Hub/Federation/Guarded.antt =====
-- What a peer of sdk-python/intermesh/hub.py can do with the messages that it relays.
use intermesh.Prelude.{
  arith, ℕ, Text, ◌≡◌, refl, sym, ◌∙◌, ◌⊎◌, inl, inr, true, false, none, Bool-cases, text_eq,
}
use intermesh.Hub.{Env, Hub}
use intermesh.Message.{InterMeshMessage, error}
use intermesh.Hub.Tokens.{verify_federated_token}
use intermesh.Hub.Tokens.Accepted.{IsTrusted, verify_federated_token_lem}
use intermesh.Hub.Send.Answers.{Answers, audit-Answers, reply-Answers}
use intermesh.Hub.Federation.{token_text, deny_relayed, serve_relayed, process_relayed}

deny_relayed-Answers :
    (env : Env) (ws : ℕ) (msg : InterMeshMessage) (origin : Text) (h : Hub)
    → Answers env ws h (deny_relayed env ws msg origin h).1
unfolding deny_relayed
deny_relayed-Answers env ws msg origin h =
    audit-Answers env ws _ _ _ _ _ h (λ e h'. reply-Answers env ws error msg _ none h')

pub no_clash : true ≡ false → ⊥
no_clash h = ground arith

pub process_relayed-IsTrusted :
    (env : Env) (ws : ℕ) (msg : InterMeshMessage) (origin : Text) (h : Hub)
    → let last = process_relayed env ws msg origin h in
      Answers env ws h last.1
      ⊎ (IsTrusted env h.peer_public_keys (token_text msg.token) origin msg.sender
          × (last ≡ serve_relayed env ws msg h))
unfolding process_relayed
process_relayed-IsTrusted env ws msg origin h =
    let accepts =
      verify_federated_token env h.peer_public_keys (token_text msg.token) origin msg.sender in
    elim (Bool-cases accepts) [
      | inr refused ↦ rw (process_relayed, refused) (inl (deny_relayed-Answers env ws msg origin h))
      | inl accepted ↦
          elim (verify_federated_token_lem env h.peer_public_keys (token_text msg.token) origin
            msg.sender) [
              | inl refused ↦ absurd (no_clash (sym accepted ∙ refused))
              | inr trusted ↦ inr (trusted, rw (process_relayed, accepted) refl)
            ]
    ]
