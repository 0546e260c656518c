-- ===== src/Hub/Names/Load.antt =====
-- What sdk-python/intermesh/hub.py counts as load is what its registry of tasks holds.
use intermesh.Prelude.{
  arith, ℕ, ◌+◌, ◌≤◌, Text, ◌≡◌, refl, ◌∙◌, Bool, true, false, [], ◌∷◌, length, if◌then◌else◌,
}
use intermesh.Prelude.Dict.{Dict}
use intermesh.Task.{InterMeshTask, TaskStatus, pending, running, completed, failed}
use intermesh.Hub.{Hub}
use intermesh.Hub.Names.{is_terminal, is_pending, count_tasks, task_load}

unfoldable pub is_status : TaskStatus → TaskStatus → Bool
is_status pending pending = true
is_status running running = true
is_status completed completed = true
is_status failed failed = true
is_status _ _ = false

-- How many tasks have the status `s`.
unfoldable pub having : TaskStatus → Dict Text InterMeshTask → ℕ
unfolding is_status
having s [] = 0
having s ((k, t) ∷ d) = if is_status s t.status then having s d + 1 else having s d

pair_path : {a b c d : ℕ} → a ≡ b → c ≡ d → ◌≡◌ {A = ℕ × ℕ} (a, c) (b, d)
pair_path p q = rw (p, q) refl

-- What the loop has counted when it has been over `d`, from `n`.
abbrev pub IsCounted : Dict Text InterMeshTask → ℕ × ℕ → ℕ × ℕ → Type 0
IsCounted d n r = r ≡ (n.0 + (having pending d + having running d), n.1 + having pending d)

-- One task more, by its status.
count_one :
    (s : TaskStatus) (d : Dict Text InterMeshTask) (a b : ℕ)
    → ((n : ℕ × ℕ) → IsCounted d n (count_tasks d n))
    → let p = having pending d in
      let r = having running d in
      count_tasks d (if is_terminal s then (a, b) else (a + 1, if is_pending s then b + 1 else b))
      ≡ (
        a
            + ((if is_status pending s then p + 1 else p)
                + (if is_status running s then r + 1 else r)),
        b + (if is_status pending s then p + 1 else p),
      )
unfolding is_status is_terminal is_pending
count_one pending d a b rest = rest (a + 1, b + 1) ∙ pair_path (omega arith) (omega arith)
count_one running d a b rest = rest (a + 1, b) ∙ pair_path (omega arith) refl
count_one completed d a b rest = rest (a, b)
count_one failed d a b rest = rest (a, b)

count_tasks_lem : (d : Dict Text InterMeshTask) (n : ℕ × ℕ) → IsCounted d n (count_tasks d n)
unfolding count_tasks having
count_tasks_lem [] (a, b) = pair_path (omega arith) (omega arith)
count_tasks_lem ((k, t) ∷ d) (a, b) = count_one t.status d a b (count_tasks_lem d)

one_more :
    (s : TaskStatus) (p r n : ℕ)
    → p + r ≤ n
    → (if is_status pending s then p + 1 else p) + (if is_status running s then r + 1 else r)
      ≤ n + 1
unfolding is_status
one_more pending p r n h = omega arith
one_more running p r n h = omega arith
one_more completed p r n h = omega arith
one_more failed p r n h = omega arith

having_at_most : (d : Dict Text InterMeshTask) → having pending d + having running d ≤ length d
unfolding having is_status
having_at_most [] = omega arith
having_at_most ((k, t) ∷ d) = ground (arith, one_more t.status _ _ _ (having_at_most d))

-- The tasks in flight are those that are pending or running, the queue is those that are pending, and
-- so the queue is never longer than what is in flight, nor that than the registry.
pub task_load_lem :
    (h : Hub)
    → (task_load h ≡ (
      having pending h.task_registry + having running h.task_registry,
      having pending h.task_registry,
    ))
      × ((task_load h).1 ≤ (task_load h).0)
      × ((task_load h).0 ≤ length h.task_registry)
unfolding task_load
task_load_lem h =
    let d = h.task_registry in
    let counted : task_load h ≡ (having pending d + having running d, having pending d) =
      count_tasks_lem d (0, 0) ∙ pair_path (omega arith) (omega arith) in
    (counted, rw counted (omega arith), rw counted (having_at_most d))
