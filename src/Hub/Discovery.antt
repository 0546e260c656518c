-- ===== src/Hub/Discovery.antt =====
-- sdk-python/intermesh/hub.py: the search for agents, within the caller's organisation. A member of a
-- query that has another type than the SDK sends is refused here.
pub mod Found
use intermesh.Prelude.{
  ℕ, Text, codes, Bool, true, false, not, ◌&&◌, ◌||◌, Option, none, some, List, [], ◌∷◌, ◌++◌,
  length, contains, text_eq, ◌==◌, if◌then◌else◌,
}
use intermesh.Prelude.Int.{ℤ, pos, leb_ℤ}
use intermesh.Prelude.Dict.{Dict, has_key}
use intermesh.Prelude.Json.{
  Json, Items, Fields, null, bool, int, str, arr, obj, nil, cons, end, field,
}
use intermesh.Prelude.Exec.{Result, ok, err}
use intermesh.Prelude.Results.{◌>>=◌, get}
use intermesh.Assurance.Evidence.Verify.{is_falsy}
use intermesh.Assurance.Policy.{is_infix}
use intermesh.TaskApproval.{shares}
use intermesh.Message.{text_or_null}
use intermesh.Identity.{AgentIdentity, texts}
use intermesh.Hub.{Env, Hub, HubError, type_error, no_number}

pub record Query : Type 0 where
  pub limit : ℤ
  pub online_only : Bool
  pub capabilities : List Text
  pub roles : List Text
  pub metadata : Fields
  pub name_contains : Option Text

-- `int(query.get("limit", 15))`
unfoldable pub read_limit : Option Json → Result HubError ℤ
read_limit none = ok (pos 15)
read_limit (some (int i)) = ok i
read_limit (some j) = err no_number

unfoldable pub item_texts : Items → Result HubError (List Text)
item_texts nil = ok []
item_texts (cons (str s) xs) = item_texts xs >>= λ r. ok (s ∷ r)
item_texts (cons x xs) = err type_error

-- `set(query.get(key) or [])`
unfoldable pub read_texts : Option Json → Result HubError (List Text)
unfolding item_texts is_falsy
read_texts none = ok []
read_texts (some (arr xs)) = item_texts xs
read_texts (some j) = if is_falsy j then ok [] else err type_error

unfoldable pub read_metadata : Option Json → Result HubError Fields
unfolding is_falsy
read_metadata none = ok end
read_metadata (some (obj f)) = ok f
read_metadata (some j) = if is_falsy j then ok end else err type_error

unfoldable pub read_name : Option Json → Result HubError (Option Text)
unfolding is_falsy
read_name none = ok none
read_name (some (str [])) = ok none
read_name (some (str (c ∷ s))) = ok (some (c ∷ s))
read_name (some j) = if is_falsy j then ok none else err type_error

unfoldable pub true_unless : Option Json → Bool
unfolding is_falsy
true_unless none = true
true_unless (some j) = not (is_falsy j)

unfoldable pub read_query : Fields → Result HubError Query
unfolding read_limit read_texts read_metadata read_name true_unless
read_query d = do
  limit ← read_limit (get (codes "limit") d)
  caps ← read_texts (get (codes "capabilities") d)
  roles ← read_texts (get (codes "roles") d)
  metadata ← read_metadata (get (codes "metadata") d)
  name ← read_name (get (codes "name_contains") d)
  ok (record {
    limit = limit;
    online_only = true_unless (get (codes "online_only") d);
    capabilities = caps;
    roles = roles;
    metadata = metadata;
    name_contains = name;
  })

-- `req_caps.issubset(set(ident.capabilities))`
unfoldable pub covers : List Text → List Text → Bool
covers own [] = true
covers own (c ∷ cs) = contains c own && covers own cs

unfoldable pub meets : List Text → List Text → Bool
unfolding shares
meets own [] = true
meets own (r ∷ rs) = shares own (r ∷ rs)

unfoldable pub null_if_absent : Option Json → Json
null_if_absent none = null
null_if_absent (some j) = j

-- `all(ident.metadata.get(k) == v for k, v in req_meta.items())`
unfoldable pub has_metadata : (Json → Json → Bool) → Fields → Fields → Bool
unfolding null_if_absent
has_metadata equal own end = true
has_metadata equal own (field k v more) =
    equal (null_if_absent (get k own)) v && has_metadata equal own more

unfoldable pub has_infix : Option Text → Text → Bool
has_infix none name = true
has_infix (some part) name = is_infix part name

-- The tests of the loop of `discover_agents`.
unfoldable pub answers : Env → Hub → Query → Text → Text → AgentIdentity → Bool
unfolding covers meets has_metadata has_infix
answers env h q caller name i =
    (i.org_id == caller)
    && (not q.online_only || has_key name h.agents)
    && covers i.capabilities q.capabilities
    && meets i.roles q.roles
    && has_metadata env.same_value i.metadata q.metadata
    && has_infix q.name_contains name

-- The loop: the agents found so far, and the test of the limit after each.
unfoldable pub search_agents :
    Env
    → Hub
    → Query
    → Text
    → Dict Text AgentIdentity
    → List (Text × AgentIdentity)
    → List (Text × AgentIdentity)
unfolding answers
search_agents env h q caller [] found = found
search_agents env h q caller ((name, i) ∷ d) found =
    let more = found ++ (name, i) ∷ [] in
    let rest = search_agents env h q caller d found in
    let rest_more = search_agents env h q caller d more in
    if answers env h q caller name i
    then (if leb_ℤ q.limit (pos (length more)) then more else rest_more)
    else rest

-- `discover_agents`, as names with their identities.
unfoldable pub discover_agents : Env → Hub → Query → Text → List (Text × AgentIdentity)
unfolding search_agents
discover_agents env h q caller = search_agents env h q caller h.identity_registry []

-- A row of the answer.
unfoldable pub agent_row : Hub → Text × AgentIdentity → Fields
unfolding texts text_or_null
agent_row h (name, i) = field (codes "name") (str name) (
    field (codes "qualified_name") (str name) (
      field (codes "agent_id") (str i.agent_id) (
        field (codes "capabilities") (arr (texts i.capabilities)) (
          field (codes "roles") (arr (texts i.roles)) (
            field (codes "permissions") (arr (texts i.permissions)) (
              field (codes "public_key") (text_or_null i.public_key) (
                field (codes "schema") (text_or_null i.schema)
                  (field (codes "online") (bool (has_key name h.agents)) end))))))))

unfoldable pub agent_rows : Hub → List (Text × AgentIdentity) → Items
unfolding agent_row
agent_rows h [] = nil
agent_rows h (r ∷ rs) = cons (obj (agent_row h r)) (agent_rows h rs)

-- `{"query": query, "count": len(matched), "agents": matched}`
unfoldable pub discovery_result : Hub → Fields → List (Text × AgentIdentity) → Fields
unfolding agent_rows
discovery_result h query found = field (codes "query") (obj query) (
    field (codes "count") (int (pos (length found)))
      (field (codes "agents") (arr (agent_rows h found)) end))
