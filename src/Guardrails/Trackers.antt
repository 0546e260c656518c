-- ===== src/Guardrails/Trackers.antt =====
-- The circuit breaker of sdk-python/intermesh/guardrails.py over several violations.
use intermesh.Prelude.{
  ℕ, zero, suc, ◌+◌, ◌<◌, Text, ◌≡◌, refl, ◌&&◌, none, some, ltb, leb, text_eq, Bool-cases, inl,
  inr, if◌then◌else◌, arith,
}
use intermesh.Prelude.Dict.{lookup, lookup-insert_self}
use intermesh.Guardrails.{Breaker, record_violation, is_tripped, count_of}

-- The breaker after an agent's violations, all at one time.
unfoldable pub violations : ℕ → Text → ℕ → Breaker → Breaker
violations zero agent now b = b
violations (suc n) agent now b = (record_violation agent now (violations n agent now b)).1

record_violation_lem :
    (agent : Text) (now : ℕ) (b : Breaker)
    → let b' = (record_violation agent now b).1 in
      (b'.threshold ≡ b.threshold)
      × (b'.cooldown ≡ b.cooldown)
      × (count_of agent b'.violation_counts ≡ count_of agent b.violation_counts + 1)
      × (lookup agent b'.tripped_until ≡ (
          if leb b.threshold (count_of agent b.violation_counts + 1)
          then some (now + b.cooldown)
          else lookup agent b.tripped_until))
unfolding record_violation count_of
record_violation_lem agent now b =
    elim (Bool-cases (leb b.threshold (count_of agent b.violation_counts + 1))) [
      | inl over ↦ ground (
        arith,
        lookup-insert_self agent (count_of agent b.violation_counts + 1) b.violation_counts,
        lookup-insert_self agent (now + b.cooldown) b.tripped_until,
      )
      | inr under ↦ ground (
        arith,
        lookup-insert_self agent (count_of agent b.violation_counts + 1) b.violation_counts,
      )
    ]

counted :
    (n : ℕ) (agent : Text) (now : ℕ) (b : Breaker)
    → count_of agent b.violation_counts ≡ 0
    → lookup agent b.tripped_until ≡ none
    → 0 < b.threshold
    → let b' = violations n agent now b in
      (b'.threshold ≡ b.threshold)
      × (b'.cooldown ≡ b.cooldown)
      × (count_of agent b'.violation_counts ≡ n)
      × (lookup agent b'.tripped_until
          ≡ (if leb b.threshold n then some (now + b.cooldown) else none))
unfolding violations
counted zero agent now b fresh free some_threshold = (refl, refl, fresh, ground arith)
counted (suc n) agent now b fresh free some_threshold =
    let (same, long, count, until) = counted n agent now b fresh free some_threshold in
    let step = record_violation_lem agent now (violations n agent now b) in
    (ground arith, ground arith, ground arith, ground arith)

-- After n violations of an agent without earlier ones, the breaker holds the agent back exactly if n
-- is at least the threshold, and until the cooldown is over.
pub is_tripped-violations :
    (n : ℕ) (agent : Text) (now t : ℕ) (b : Breaker)
    → count_of agent b.violation_counts ≡ 0
    → lookup agent b.tripped_until ≡ none
    → 0 < b.threshold
    → (is_tripped agent t (violations n agent now b)).0
      ≡ (leb b.threshold n && ltb t (now + b.cooldown))
unfolding is_tripped
is_tripped-violations n agent now t b fresh free some_threshold =
    let (same, long, count, until) = counted n agent now b fresh free some_threshold in ground arith
