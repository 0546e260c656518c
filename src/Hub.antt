-- ===== src/Hub.antt =====
-- sdk-python/intermesh/hub.py: the state of a hub and what it sends. A websocket is a number; `now` is
-- the time of the step and `fresh` its new identifier, for every clock reading and identifier of it.
pub mod Names
pub mod Tokens
pub mod Send
pub mod Discovery
pub mod Delivery
pub mod Escrowed
pub mod Submission
pub mod Updates
pub mod Requests
pub mod Federation
pub mod Registration
pub mod Connection
mod Tests
use intermesh.Prelude.{ℕ, Text, Bool, Option, List}
use intermesh.Prelude.Int.{ℤ}
use intermesh.Prelude.Dict.{Dict}
use intermesh.Prelude.Json.{Json, Fields}
use intermesh.Prelude.Exec.{Exec}
use intermesh.ApiKeys.{ApiKeyStore}
use intermesh.Audit.{AuditLog, Payload}
use intermesh.Backpressure.{BackpressureGate}
use intermesh.Egress.{EgressRule, Regex}
use intermesh.Escrow.{Escrow, EscrowError}
use intermesh.Guardrails.{Engine, Violation}
use intermesh.Identity.{AgentIdentity, Covered}
use intermesh.Message.{InterMeshMessage, ValidationError}
use intermesh.Store.{Store}
use intermesh.Task.{InterMeshTask, TaskError}
use intermesh.TaskApproval.{ApprovalPolicy, Lib}

-- What a token claims; a claim that is absent is `none`, and its times are numbers.
pub record Claims : Type 0 where
  pub agent_name : Option Text
  pub agent_id : Option Text
  pub roles : List Text
  pub org_id : Option Text
  pub auth_method : Option Text
  pub issued_at : Option ℕ
  pub expires_at : Option ℕ
  pub issuer : Option Text
  pub iss_org : Option Text

-- The settings of `main`, and the libraries: `encode` and `decode` are those of `jwt`, with the hub's
-- private key and a public key; `is_open` tells whether a websocket takes what it is sent,
-- `join` is the handshake of a cluster with the hub of an identifier at an address, `remote_host` the
-- host of a websocket and `subject` the name on its certificate; `tell_limit`, `tell_escrow` and
-- `tell_violation` are the texts of exceptions, and `same_value` is the equality of JSON values.
pub record Env : Type 0 where
  pub hub_org : Text
  pub hub_id : Text
  pub public_pem : Text
  pub key_id : Text
  pub cluster_url : Text
  pub presence_ttl : ℕ
  pub max_agents : ℕ
  pub allow_self_declared : Bool
  pub require_api_key : Bool
  pub egress_policy : Option (List EgressRule)
  pub approval_policy : Option ApprovalPolicy
  pub lib : Lib
  pub regex : Regex
  pub digest : Payload → Text
  pub identity_digest : Covered → Text
  pub hash_key : Text → Text
  pub pattern_search : Text → Text → Bool
  pub same_value : Json → Json → Bool
  pub tell_limit : ℕ → Text
  pub tell_escrow : EscrowError → Text
  pub tell_violation : Violation → Text
  pub encode : Claims → Text
  pub decode : Text → Text → Option Claims
  pub readable_key : Text → Bool
  pub key_fingerprint : Text → Text
  pub tell_key : Text → Text
  pub is_open : ℕ → Bool
  pub join : Text → Text → Option ℕ
  pub remote_host : ℕ → Option Text
  pub subject : ℕ → Option Text
  pub fresh : Text
  pub now : ℕ

-- `agent_meta[name]`
pub record AgentMeta : Type 0 where
  pub connected_at : ℕ
  pub last_seen : ℕ
  pub msg_count : ℕ
  pub healthy : Bool

-- `pending_approvals[task_id]`
pub record PendingApproval : Type 0 where
  pub task : Fields
  pub submitter : Text
  pub org_id : Text
  pub rule : Text
  pub reason : Text
  pub token : Option Text
  pub reply_to : Option Text
  pub submitted_at : ℕ

-- What is written to a websocket: a message, an event of the telemetry, or its closing.
pub data Frame : Type 0 where
  envelope : InterMeshMessage → Frame
  event : Text → Fields → Frame
  closing : ℕ → Frame

-- The hub's shared state, with what it has sent, in order.
pub record Hub : Type 0 where
  pub agents : Dict Text ℕ
  pub identity_registry : Dict Text AgentIdentity
  pub task_registry : Dict Text InterMeshTask
  pub peered_hubs : Dict Text ℕ
  pub peer_public_keys : Dict Text Text
  pub cluster_links : Dict Text ℕ
  pub observers : List ℕ
  pub agent_meta : Dict Text AgentMeta
  pub pending_approvals : Dict (Option Text) PendingApproval
  pub audit_log : AuditLog
  pub api_keys : ApiKeyStore
  pub engine : Engine
  pub escrow : Escrow
  pub gate : BackpressureGate
  pub store : Option Store
  pub sent : List (ℕ × Frame)

-- The exceptions that leave a handler: they end the connection.
pub data HubError : Type 0 where
  index_error type_error no_number send_failed : HubError
  bad_task : TaskError → HubError
  bad_escrow : EscrowError → HubError
  bad_message : ValidationError → HubError

abbrev pub Action : Type 0 → Type 0
Action = Exec Hub HubError
