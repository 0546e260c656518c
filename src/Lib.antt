-- ===== src/Lib.antt =====
-- A model of InterMesh, and what is proved of it. InterMesh lets software agents of several
-- organisations call one another and outside services: a hub routes messages and tasks, and beside
-- it stand the parts that decide, that pay and that keep a record of what was done. The model
-- covers parts of sdk-python/intermesh:
--
-- * audit.py, the log in which each entry holds the hash of the one before it, in Audit and below:
--   `log` is AuditLog.log, `verify_integrity` the check of the chain, `export_entries` and `init`
--   what is written and read back. The hash is a parameter, and a statement about a change that
--   nobody notices names the collision it would take.
-- * payments/price.py, challenge.py, proof.py, keyring.py and ledger.py, in Payments and below. A
--   price is a number of units of 10^-8; the decimal context of 28 digits is modelled, with the
--   InvalidOperation beyond it. The ledger is a record of accounts, nonces and transactions, and
--   `charge` keeps the order of the writes of Ledger.charge, so that what a call wrote before it
--   raised is visible. A proof of payment is signed and verified with a signature scheme as a
--   parameter; the keyring keeps its cache of parsed keys.
-- * server/gate.py, which admits a paid request, in Payments.Gate and below: `admit` is
--   PaymentGate.admit on the ledger, the keyring and the pending and settled challenges.
-- * client/wallet.py and client/http.py, which pay for it, in Client and below: `authorize` is
--   Wallet.authorize, `pay_and_retry` the answer to a 402 with the caller's `send` as a parameter.
-- * escrow.py, the holds of money for a task, in Escrow and below, with amounts as exact integers in
--   place of floats: of rounding, and so of the sums of money, the model says nothing. Escrow and ledger are separate: neither calls the other.
-- * policy.py, which organisation may send to which, in Routing and below.
-- * backpressure.py, the gate that refuses tasks when the hub is full, in Backpressure and below, with
--   milliseconds and thousandths of tokens in place of floats.
-- * apikeys.py, the keys of service accounts, in ApiKeys and below.
-- * message.py, the messages of the protocol, in Message and below.
-- * guardrails.py, what is checked before a task is accepted, in Guardrails and below: the depth of a
--   cascade, the cost, the rate, forbidden patterns and the circuit breaker.
-- * egress.py, what a payload loses on its way to another organisation, in Egress and below.
-- * assurance/risk.py, policy.py, approval.py, evidence.py and proxy.py, in Assurance and below: the
--   level of an action, the rule that decides on it, the approval of a person that lets it pass once,
--   the signed record of it, and the proxy that puts them together. `handle` is _handle with _forward
--   and `do_connect` is do_CONNECT, on the approvals, the journal of evidence and the list of what was
--   given to the network. Regular expressions, `urlsplit`, Ed25519 and the network are parameters.
-- * canonical.py, the bytes that are signed, in Canonical, with `json.dumps` and SHA-256 as parameters.
-- * task.py, the tasks and their JSON form, in Task and below; approval.py, the rules that suspend a
--   task until a person decides, in TaskApproval and below; identity.py, who an agent is, in Identity.
-- * store.py, the rows that the hubs of a cluster share, in Store and below.
-- * hub.py, in Hub and below, on all of these. `handle_message` is one turn of the loop of
--   handle_agent and `close_connection` its `finally`; the branches of the loop are
--   `register_connection` (Hub.Registration), `submit_task` with `finalize_task_submission`
--   (Hub.Submission, Hub.Escrowed), `update_task` (Hub.Updates), `discover_agents`, `route_message` and
--   the like (Hub.Discovery, Hub.Requests), and `process_relayed` for a peer (Hub.Federation).
--   `deliver_or_relay` (Hub.Delivery) takes a message to its target, and Hub.Tokens signs and checks
--   tokens. A websocket is a number, what is sent is collected in `sent`, and `is_open` decides whether
--   a socket takes it. jwt, the handshake of a cluster and the console's requests are parameters. A
--   member that has another type than the SDK sends counts as absent.
--
-- Methods that may raise are functions from a state to a result and the state they leave
-- (Prelude.Exec). Dicts are association lists (Prelude.Dict), texts are lists of code points, JSON
-- values, a float by its literal, are in Prelude.Json. Time and fresh identifiers are arguments. Every
-- loop is a recursion on a list, a text or a JSON value, so there is no fuel. Locks are not modelled:
-- each method runs alone, as it does under its lock.
--
-- Not modelled: in hub.py the pairing that a hub starts itself, its `main` and the requests of the
-- console; the administration (admin.py, cli.py), the agent's side of a websocket (agent.py), pipelines,
-- the rate limiter, whose arithmetic is on floats, the translation between schemas, snapshots and their
-- restoration, the transports between hubs (peering.py, bridge.py, relay.py), the SQL of the store,
-- files, metrics and logs, the cryptographic libraries, and the programs in other languages.
pub mod Prelude
pub mod Canonical
pub mod Audit
pub mod Payments
pub mod Client
pub mod Escrow
pub mod Routing
pub mod Identity
pub mod Store
pub mod Task
pub mod Hub
pub mod TaskApproval
pub mod Backpressure
pub mod ApiKeys
pub mod Message
pub mod Guardrails
pub mod Egress
pub mod Assurance
