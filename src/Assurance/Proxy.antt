-- ===== src/Assurance/Proxy.antt =====
-- sdk-python/intermesh/assurance/proxy.py: the journal of evidence and what the proxy lets out. The
-- network is a parameter; `sent` keeps what was given to it.
pub mod Lines
pub mod Journal
pub mod Handlers
pub mod Recorded
pub mod Forwarding
mod Tests
use intermesh.Prelude.{
  ℕ, ◌+◌, Text, codes, Bool, true, false, not, Option, none, some, List, [], ◌∷◌, ◌++◌, nat_beq,
  contains, map, nat_eq, text_eq, ◌==◌, if◌then◌else◌,
}
use intermesh.Prelude.Int.{ℤ, pos}
use intermesh.Prelude.Dict.{Dict, insert}
use intermesh.Prelude.Json.{Json, Fields, null, bool, int, str, obj, end, field}
use intermesh.Prelude.Exec.{
  Result, ok, err, Exec, pure, read, ◌>>=◌, ◌>>◌, raise, modify, bind_result,
}
use intermesh.Prelude.Results.{get}
use intermesh.Assurance.Risk.{RiskLevel}
use intermesh.Assurance.Policy.{
  Lib, Policy, Verdict, Decision, allow, block, approval, evaluate, requires_evidence, upper, lower,
  is_infix,
}
use intermesh.Assurance.Approval.{Approval, Store, consume, ApprovalError}
use intermesh.Assurance.Evidence.{
  ActionEvidence, Crypto, Observed, build, sign, genesis, payload_digest,
}
use intermesh.Assurance.Evidence.Dicts.{set_field, update, drop_field, or_null}
use intermesh.Assurance.Evidence.Verify.{is_falsy, is_object, object_or_empty, text_of}

-- `EvidenceStore`; `file` holds the records written, one after the other, if there is a path.
pub record EvidenceStore : Type 0 where
  pub last_hash : Text
  pub count : ℕ
  pub file : Option (List Json)

unfoldable pub write_line : Json → Option (List Json) → Option (List Json)
write_line r none = none
write_line r (some lines) = some (lines ++ r ∷ [])

-- The text of a member, `d` where there is none; a hash is a text in every record.
unfoldable pub text_or : Text → Option Json → Text
text_or d none = d
text_or d (some (str s)) = s
text_or d (some j) = d

-- `(record.get("evidence") or {}).get("hash", d)`; `none` is its AttributeError.
unfoldable pub hash_or : Text → Fields → Option Text
unfolding text_or object_or_empty
hash_or d f = elim (object_or_empty (get (codes "evidence") f)) [
  | none ↦ none
  | some envelope ↦ some (text_or d (get (codes "hash") envelope))
]

-- `append`, with the function that signs; `none` is what that function raises.
unfoldable pub append :
    ActionEvidence
    → (ActionEvidence → Option Fields)
    → EvidenceStore
    → Option (Fields × EvidenceStore)
unfolding write_line hash_or
append e signer s = elim (signer (record e { prev_hash = s.last_hash })) [
  | none ↦ none
  | some f ↦ elim (hash_or genesis f) [
    | none ↦ none
    | some h ↦
        some (f, record { last_hash = h; count = s.count + 1; file = write_line (obj f) s.file })
  ]
]

-- `_resume` over the lines of the file; a line that is no JSON text is `none` and passed over. The
-- result `none` is an AttributeError.
unfoldable pub resume_from : List (Option Json) → Text × ℕ → Option (Text × ℕ)
unfolding hash_or
resume_from [] s = some s
resume_from (none ∷ lines) s = resume_from lines s
resume_from (some (obj f) ∷ lines) (last, n) = elim (hash_or last f) [
  | none ↦ none
  | some h ↦ resume_from lines (h, n + 1)
]
resume_from (some j ∷ lines) s = none

-- `json.dumps(..., ensure_ascii=False)` and `json.loads`.
pub record LineCodec : Type 0 where
  pub dump : Json → Text
  pub load : Text → Option Json

-- The text of the file: each record is written with a newline after it.
unfoldable pub file_text : LineCodec → List Json → Text
file_text codec [] = []
file_text codec (r ∷ rs) = codec.dump r ++ 10 ∷ file_text codec rs

-- The characters at which `splitlines` splits.
abbrev pub line_breaks : List ℕ
line_breaks = 10 ∷ 11 ∷ 12 ∷ 13 ∷ 28 ∷ 29 ∷ 30 ∷ 133 ∷ 8232 ∷ 8233 ∷ []

unfoldable pub add_char : ℕ → List Text → List Text
add_char c [] = (c ∷ []) ∷ []
add_char c (l ∷ ls) = (c ∷ l) ∷ ls

-- `splitlines`; the empty line within a CR LF is passed over like any other.
unfoldable pub splitlines : Text → List Text
unfolding add_char
splitlines [] = []
splitlines (c ∷ s) =
    let rest = splitlines s in if contains c line_breaks then [] ∷ rest else add_char c rest

-- `_resume` on the text of the file.
unfoldable pub resume : LineCodec → Text → Option (Text × ℕ)
unfolding splitlines resume_from
resume codec text = resume_from (map codec.load (splitlines text)) (genesis, 0)

-- `AssuranceProxy`; `policy_label` is `policy.version_label()`.
pub record AssuranceProxy (Key : Type 0) : Type 0 where
  pub policy : Policy
  pub policy_label : Text
  pub key : Key
  pub agent_id : Text
  pub organization_id : Text

-- What a request changes.
pub record World : Type 0 where
  pub approvals : Store
  pub store : EvidenceStore
  pub sent : List (Text × Text × Dict Text Text × Text)

-- The arguments of `AssuranceProxy.record`.
pub record Attempt : Type 0 where
  pub method : Text
  pub url : Text
  pub verdict : Verdict
  pub status : Text
  pub payload_hash : Option Text
  pub response_status : Option ℕ
  pub response_hash : Option Text
  pub extra : Fields

-- What a handler answers: a refusal by its kind with the evidence, or a relayed status and payload.
pub data Answer : Type 0 where
  not_a_proxy_request upstream_unreachable connect_failed tunnel : Answer
  refusal : Text → Fields → Answer
  relayed : ℕ → Text → Option Fields → Answer

-- `unrecorded` is an exception of `record`, `bad_number` one of `int(port)`.
pub data Failure : Type 0 where
  unrecorded bad_number : Failure

-- A request: its absolute URI, headers and body, and the header that names an approval.
pub record Request : Type 0 where
  pub method : Text
  pub path : Text
  pub headers : List (Text × Text)
  pub content : Text
  pub approval_header : Option Text

-- How `create_connection` ends.
pub data Dial : Type 0 where
  connected os_error bad_port : Dial

-- The network, the clock and the source of identifiers at one request. `send` gives the type of the
-- exception that `_send_upstream` raised, or the status and the payload.
pub record Outside : Type 0 where
  pub send : Text → Text → Dict Text Text → Text → Result Text (ℕ × Text)
  pub dial : Text → Text → Dial
  pub str_error : ApprovalError → Text
  pub now_ms : ℕ
  pub uuid : Text

-- `HOP_BY_HOP`
abbrev pub hop_by_hop : List Text
hop_by_hop =
    codes "connection"
    ∷ codes "keep-alive"
    ∷ codes "proxy-authenticate"
    ∷ codes "te"
    ∷ codes "proxy-authorization"
    ∷ codes "trailers"
    ∷ codes "transfer-encoding"
    ∷ codes "upgrade"
    ∷ []

-- The headers that `_forward` passes on: a dict, in which the last value of a name stands.
unfoldable pub kept_headers : List (Text × Text) → Dict Text Text → Dict Text Text
kept_headers [] d = d
kept_headers ((k, v) ∷ more) d =
    kept_headers more (if contains (lower k) hop_by_hop then d else insert k v d)

-- `verdict.reason or None`
unfoldable pub reason_of : Text → Json
reason_of [] = null
reason_of (c ∷ s) = str (c ∷ s)

-- The `approval_id` and `approved_by` of the execution move to the authorization.
unfoldable pub move_approval : ActionEvidence → ActionEvidence
unfolding is_falsy set_field drop_field
move_approval e =
    let id = get (codes "approval_id") e.execution in
    let by = get (codes "approved_by") e.execution in
    record e {
      execution = drop_field (codes "approved_by") (drop_field (codes "approval_id") e.execution);
      authorization = elim id [
        | none ↦ e.authorization
        | some j ↦
            if is_falsy j
            then e.authorization
            else set_field (codes "approved_by") (elim by [ none ↦ null | some b ↦ b ])
                (set_field (codes "approval_id") j e.authorization)
      ];
    }

abbrev pub Handler : Type 0 → Type 0
Handler = Exec World Failure

-- `partition(":")`, without the colon.
unfoldable pub split_port : Text → Text × Text
split_port [] = ([], [])
split_port (c ∷ s) =
    let (host, port) = split_port s in if nat_beq c 58 then ([], s) else (c ∷ host, port)

unfoldable pub approval_fields : Option Approval → Fields
approval_fields none = field (codes "approval_id") null (field (codes "approved_by") null end)
approval_fields (some a) =
    field (codes "approval_id") (str a.action_id)
      (field (codes "approved_by") (str a.approved_by) end)

-- The arguments of `record`, without those on a response.
unfoldable pub attempt : Text → Text → Verdict → Text → Option Text → Fields → Attempt
attempt method url verdict status payload_hash extra = record {
  method = method;
  url = url;
  verdict = verdict;
  status = status;
  payload_hash = payload_hash;
  response_status = none;
  response_hash = none;
  extra = extra;
}
