-- ===== src/Hub/Tests.antt =====
-- A hub with an agent of another organisation and a peer, and the theorems on hubs at it.
use intermesh.Prelude.{
  arith, ◌+◌, ◌≤◌, codes, ◌≡◌, refl, ◌⊎◌, true, false, not, none, some, [], ◌∷◌, ltb, All, length,
  text_eq,
}
use intermesh.Prelude.Int.{pos}
use intermesh.Prelude.Dict.{lookup}
use intermesh.Prelude.Json.{Fields, str, int, obj, end, field}
use intermesh.Prelude.Exec.{ok}
use intermesh.Audit.{genesis}
use intermesh.Guardrails.{GuardrailPolicy}
use intermesh.Identity.{AgentIdentity}
use intermesh.Message.{InterMeshMessage, request, task_update, task_submit}
use intermesh.Task.{pending, running}
use intermesh.TaskApproval.Samples.{plain}
use intermesh.Hub.{Env, Hub, Claims}
use intermesh.Hub.Names.{task_load}
use intermesh.Hub.Names.Load.{having, task_load_lem}
use intermesh.Hub.Tokens.{generate_token, token_claims, token_expiry, verify_token}
use intermesh.Hub.Tokens.Accepted.{verify_token-generate_token}
use intermesh.Hub.Send.Answers.{Answers}
use intermesh.Hub.Send.Events.{Adds}
use intermesh.Hub.Discovery.{Query, discover_agents}
use intermesh.Hub.Discovery.Found.{IsAnswer, least_one, discover_agents_lem}
use intermesh.Hub.Delivery.{deliver_or_relay}
use intermesh.Hub.Delivery.Reach.{IsDelivered, name_or_empty, deliver_or_relay-IsDelivered}
use intermesh.Hub.Escrowed.{content_fields, finalize_task_submission}
use intermesh.Hub.Escrowed.Outcome.{IsFinal, finalize_task_submission-IsFinal}
use intermesh.Hub.Submission.{submit_task}
use intermesh.Hub.Submission.Gates.{Keeps, Passes, submit_task-Passes}
use intermesh.Hub.Updates.{update_task}
use intermesh.Hub.Updates.Settled.{IsSettled, update_task-IsSettled}
use intermesh.Hub.Requests.{route_message}
use intermesh.Hub.Requests.Isolation.{IsOnlyTo, IsAllowed, route_message-IsAllowed}
use intermesh.Hub.Federation.{process_relayed}
use intermesh.Hub.Federation.Money.{SameEscrow, process_relayed-SameEscrow}
use intermesh.Hub.Connection.Closing.{close_connection}
use intermesh.Hub.Connection.Closed.{IsParted, close_connection_lem}

abbrev worker : AgentIdentity
worker = record {
  agent_id = codes "1";
  org_id = codes "o";
  name = codes "w";
  qualified_name = codes "o/w";
  capabilities = codes "sum" ∷ [];
  roles = [];
  permissions = [];
  created_at = 1;
  metadata = end;
  public_key = none;
  schema = none;
  fingerprint = [];
}

abbrev agent_claims : Claims
agent_claims = record {
  agent_name = some (codes "a");
  agent_id = some (codes "2");
  roles = [];
  org_id = some (codes "h");
  auth_method = some (codes "api_key");
  issued_at = some 100;
  expires_at = some (100 + token_expiry);
  issuer = some (codes "intermesh-hub");
  iss_org = some (codes "h");
}

abbrev settings : Env
settings = record {
  hub_org = codes "h";
  hub_id = codes "hub-1";
  public_pem = codes "pem";
  key_id = codes "kid";
  cluster_url = [];
  presence_ttl = 45000;
  max_agents = 0;
  allow_self_declared = false;
  require_api_key = false;
  egress_policy = none;
  approval_policy = none;
  lib = plain;
  regex = record { search = λ p t. false; subn = λ p r t. (t, 0) };
  digest = λ p. p.event_type;
  identity_digest = λ c. c.name;
  hash_key = λ k. k;
  pattern_search = λ p t. false;
  same_value = λ a b. true;
  tell_limit = λ n. [];
  tell_escrow = λ e. codes "no";
  tell_violation = λ v. codes "no";
  encode = λ p. codes "t";
  decode = λ t k. some agent_claims;
  readable_key = λ k. true;
  key_fingerprint = λ k. k;
  tell_key = λ k. k;
  is_open = λ ws. true;
  join = λ i u. none;
  remote_host = λ ws. some (codes "127.0.0.1");
  subject = λ ws. none;
  fresh = codes "9";
  now = 100;
}

abbrev policy : GuardrailPolicy
policy = record {
  name = codes "p";
  max_cascade_depth = 4;
  max_cost_per_task = 100;
  max_tasks_per_minute = 2;
  circuit_breaker_threshold = 3;
  blocked_patterns = [];
}

abbrev hub : Hub
hub = record {
  agents = (codes "o/w", 7) ∷ [];
  identity_registry = (codes "o/w", worker) ∷ [];
  task_registry = [];
  peered_hubs = (codes "q", 8) ∷ [];
  peer_public_keys = (codes "q", codes "k") ∷ [];
  cluster_links = [];
  observers = [];
  agent_meta = [];
  pending_approvals = [];
  audit_log = record { chain = genesis (λ p. p.event_type) 1 ∷ []; sink = none };
  api_keys = record {
    by_hash =
        (
          codes "s",
          record {
            org_id = codes "o";
            roles = [];
            permissions = [];
            label = none;
            created_at = none;
          },
        )
        ∷ [];
    has_file = true;
  };
  engine = record {
    policy = policy;
    cascade = record { depth_map = []; parent_map = [] };
    breaker = record { threshold = 3; cooldown = 60; violation_counts = []; tripped_until = [] };
    rate = record { window = 60; events = [] };
    org_policies = [];
  };
  escrow = record { balances = ((codes "h", codes "USD"), pos 9) ∷ []; holds = [] };
  gate = record {
    limits = record {
      max_tasks_per_sec = 2;
      max_in_flight = 4;
      max_queue_depth = 0;
      enabled = true;
    };
    tokens = pos 2000;
    last = 100;
    accepted = 0;
    rejected = 0;
    rejected_by_reason = [];
    last_logged = none;
  };
  store = none;
  sent = [];
}

abbrev order : Fields
order = field (codes "task_id") (str (codes "t1")) (
    field (codes "title") (str (codes "sum")) (
      field (codes "orchestrator") (str (codes "a")) (
        field (codes "assignee") (str (codes "o/w")) (
          field (codes "input_data") (int (pos 2))
            (field (codes "escrow") (obj (field (codes "amount") (int (pos 5)) end)) end)))))

abbrev letter : InterMeshMessage
letter = record {
  id = codes "m1";
  version = codes "intermesh/v1";
  kind = request;
  sender = codes "a";
  to = some (codes "o/w");
  content = obj order;
  reply_to = none;
  timestamp = int (pos 100);
  token = some (codes "t");
}

verify_token-generate_token_example :
    verify_token
      (record settings { now = 200 })
      []
      (generate_token settings (codes "a") (codes "2") [] (codes "h") (codes "api_key"))
      (codes "a")
      none
    ≡ not (ltb (100 + token_expiry) 200)
unfolding generate_token token_claims
verify_token-generate_token_example =
    verify_token-generate_token settings [] (codes "a") (codes "2") [] (codes "h") (codes "api_key")
      200 116 [] refl refl

task_load_lem_example :
    (task_load hub ≡ (
      having pending hub.task_registry + having running hub.task_registry,
      having pending hub.task_registry,
    ))
    × ((task_load hub).1 ≤ (task_load hub).0)
    × ((task_load hub).0 ≤ length hub.task_registry)
task_load_lem_example = task_load_lem hub

abbrev for_sums : Query
for_sums = record {
  limit = pos 1;
  online_only = true;
  capabilities = codes "sum" ∷ [];
  roles = [];
  metadata = end;
  name_contains = none;
}

discover_agents_lem_example :
    All
      (IsAnswer settings hub for_sums (codes "o"))
      (discover_agents settings hub for_sums (codes "o"))
    × (length (discover_agents settings hub for_sums (codes "o")) ≤ least_one for_sums.limit)
discover_agents_lem_example = discover_agents_lem settings hub for_sums (codes "o")

deliver_or_relay-IsDelivered_example :
    Adds
      (IsDelivered settings letter (name_or_empty letter.to) hub)
      hub
      (deliver_or_relay settings letter hub).1
deliver_or_relay-IsDelivered_example = deliver_or_relay-IsDelivered settings letter hub

finalize_task_submission-IsFinal_example :
    let last = finalize_task_submission settings order (codes "a") (some (codes "t")) none hub in
    IsFinal settings order (codes "a") hub last.0 last.1
finalize_task_submission-IsFinal_example =
    finalize_task_submission-IsFinal settings order (codes "a") (some (codes "t")) none hub

submit_task-Passes_example :
    let last = submit_task settings 5 (record letter { kind = task_submit }) hub in
    Keeps 5 hub last.1
    ⊎ ((raw : Fields) × (content_fields letter.content ≡ ok raw)
        × Passes settings 5 (record letter { kind = task_submit }) raw hub last)
submit_task-Passes_example =
    submit_task-Passes settings 5 (record letter { kind = task_submit }) hub

update_task-IsSettled_example :
    let after = (update_task settings (record letter { kind = task_update }) hub).1.escrow in
    (after ≡ hub.escrow)
    ⊎ ((td : Fields) × (content_fields letter.content ≡ ok td)
        × IsSettled settings td hub.escrow after)
update_task-IsSettled_example =
    update_task-IsSettled settings (record letter { kind = task_update }) hub

route_message-IsAllowed_example :
    let h' = (route_message settings 5 letter hub).1 in
    Adds (IsOnlyTo 5) hub h'
    ⊎ (IsAllowed settings letter (name_or_empty letter.to) hub
        × Adds (IsDelivered settings letter (name_or_empty letter.to) hub) hub h')
route_message-IsAllowed_example = route_message-IsAllowed settings 5 letter hub

process_relayed-SameEscrow_example :
    SameEscrow hub (process_relayed settings 8 letter (codes "q") hub).1
process_relayed-SameEscrow_example = process_relayed-SameEscrow settings 8 letter (codes "q") hub

abbrev with_key : Fields
with_key = field (codes "api_key") (str (codes "s")) end

close_connection_lem_example :
    let h' =
      (close_connection settings 8
        (record { agent_name = some (codes "o/w"); is_observer = true })
        hub).1 in
    (lookup (codes "o/w") h'.agents ≡ none) × IsParted 8 (codes "q") hub h'
unfolding intermesh.Hub.Connection.Closed.IsUnique lookup
close_connection_lem_example =
    close_connection_lem settings 8 (codes "o/w") true hub (codes "q") (λ e. ground arith)
      (refl, tt)
