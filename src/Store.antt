-- ===== src/Store.antt =====
-- sdk-python/intermesh/store.py: the tables that the hubs of a cluster share, a row per key. SQL and the
-- serialization of rows are libraries; a table is a dict in the order of its first writes, and a
-- statement that the database refuses is not modelled.
pub mod Moves
use intermesh.Prelude.{
  ℕ, ◌+◌, ltb, nat_beq, Text, codes, Bool, true, false, not, ◌&&◌, ◌||◌, Option, none, some, List,
  [], ◌∷◌, ◌++◌, text_eq, nat_eq, ◌==◌, if◌then◌else◌,
}
use intermesh.Prelude.Dict.{Dict, lookup, insert, erase}
use intermesh.Audit.{AuditEntry}
use intermesh.Identity.{AgentIdentity}
use intermesh.Task.{InterMeshTask}

pub record Presence : Type 0 where
  pub hub_id : Text
  pub hub_url : Text
  pub org_id : Text
  pub last_seen : ℕ

pub record HubRow : Type 0 where
  pub hub_url : Text
  pub org_id : Text
  pub last_seen : ℕ

pub record Store : Type 0 where
  pub identities : Dict Text AgentIdentity
  pub tasks : Dict Text InterMeshTask
  pub presence : Dict Text Presence
  pub hubs : Dict Text HubRow
  pub audit : Dict ℕ AuditEntry

-- `_identity_key`
unfoldable pub identity_key : AgentIdentity → Text
identity_key i = if i.org_id == codes "default" then i.name else i.qualified_name

unfoldable pub save_identity : AgentIdentity → Store → Store
unfolding identity_key
save_identity i s = record s { identities = insert (identity_key i) i s.identities }

unfoldable pub delete_identity : Text → Store → Store
delete_identity name s = record s { identities = erase name s.identities }

unfoldable pub save_task : InterMeshTask → Store → Store
save_task t s = record s { tasks = insert t.task_id t s.tasks }

unfoldable pub append_audit : AuditEntry → Store → Store
append_audit e s = record s { audit = insert e.index e s.audit }

unfoldable pub record_presence : Text → Text → Text → Text → ℕ → Store → Store
record_presence agent hub url org seen s = record s {
  presence =
      insert agent (record { hub_id = hub; hub_url = url; org_id = org; last_seen = seen })
        s.presence;
}

-- `DELETE FROM presence WHERE agent_name = ? AND hub_id = ?`
unfoldable pub clear_presence : Text → Text → Store → Store
clear_presence agent hub s = elim (lookup agent s.presence) [
  | none ↦ s
  | some p ↦ if p.hub_id == hub then record s { presence = erase agent s.presence } else s
]

-- The rows that another hub holds.
unfoldable pub without_hub : Text → Dict Text Presence → Dict Text Presence
without_hub hub [] = []
without_hub hub ((a, p) ∷ d) =
    let rest = without_hub hub d in if p.hub_id == hub then rest else (a, p) ∷ rest

unfoldable pub clear_hub_presence : Text → Store → Store
unfolding without_hub
clear_hub_presence hub s = record s { presence = without_hub hub s.presence }

unfoldable pub touch : Text → ℕ → Dict Text Presence → Dict Text Presence
touch hub seen [] = []
touch hub seen ((a, p) ∷ d) =
    (a, if p.hub_id == hub then record p { last_seen = seen } else p) ∷ touch hub seen d

unfoldable pub touch_presence : Text → ℕ → Store → Store
unfolding touch
touch_presence hub seen s = record s { presence = touch hub seen s.presence }

-- `max_age and (now - last_seen) > max_age`
unfoldable pub is_stale : ℕ → ℕ → ℕ → Bool
is_stale now max_age seen = not (nat_beq max_age 0) && ltb (seen + max_age) now

unfoldable pub find_presence : ℕ → Text → ℕ → Store → Option Presence
unfolding is_stale
find_presence now agent max_age s = elim (lookup agent s.presence) [
  | none ↦ none
  | some p ↦ if is_stale now max_age p.last_seen then none else some p
]

unfoldable pub fresh_rows : ℕ → ℕ → Dict Text Presence → Dict Text Presence
unfolding is_stale
fresh_rows now max_age [] = []
fresh_rows now max_age ((a, p) ∷ d) =
    let rest = fresh_rows now max_age d in
    if is_stale now max_age p.last_seen then rest else (a, p) ∷ rest

unfoldable pub list_presence : ℕ → ℕ → Store → Dict Text Presence
unfolding fresh_rows
list_presence now max_age s = fresh_rows now max_age s.presence

unfoldable pub record_hub : Text → Text → Text → ℕ → Store → Store
record_hub hub url org seen s = record s {
  hubs = insert hub (record { hub_url = url; org_id = org; last_seen = seen }) s.hubs;
}

unfoldable pub clear_hub : Text → Store → Store
clear_hub hub s = record s { hubs = erase hub s.hubs }

unfoldable pub is_other_org : Option Text → Text → Bool
is_other_org none org = false
is_other_org (some wanted) org = not (org == wanted)

unfoldable pub live_hubs : ℕ → Option Text → ℕ → Dict Text HubRow → Dict Text HubRow
unfolding is_other_org is_stale
live_hubs now org max_age [] = []
live_hubs now org max_age ((h, r) ∷ d) =
    let rest = live_hubs now org max_age d in
    if is_other_org org r.org_id || is_stale now max_age r.last_seen then rest else (h, r) ∷ rest

unfoldable pub list_hubs : ℕ → Option Text → ℕ → Store → Dict Text HubRow
unfolding live_hubs
list_hubs now org max_age s = live_hubs now org max_age s.hubs
