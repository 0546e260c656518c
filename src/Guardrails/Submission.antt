-- ===== src/Guardrails/Submission.antt =====
-- Which tasks sdk-python/intermesh/guardrails.py accepts, and what a refusal leaves behind.
use intermesh.Prelude.{
  ap, sym, ℕ, Text, ◌≡◌, refl, ◌⊎◌, inl, inr, Bool, true, false, ◌||◌, Option, none, some, List, [],
  ◌∷◌, ltb, leb, text_eq, text_beq_iff, Bool-cases, Option-cases, arith,
}
use intermesh.Prelude.Dict.{lookup, lookup-erase}
use intermesh.Prelude.Exec.{
  Result, ok, err, is_err, bind_result, read, modify, ◌>>=◌, ◌>>◌, Result-cases,
}
use intermesh.Guardrails.{
  Action, Engine, GuardrailPolicy, RateWindow, Violation, circuit_breaker_tripped, next_depth,
  count_recent, trim, record_task, register_task, is_tripped, get_policy, check_limits, register,
  recent, violate_if, violate, check_breaker, is_forbidden, inspect_given, inspect_payload,
  validate_checks, validate_task_submission,
}

-- The text of the payload holds a blocked pattern; a text that is empty or absent is not searched.
abbrev pub forbids : (Text → Text → Bool) → List Text → Option Text → Bool
forbids search ps none = false
forbids search ps (some []) = false
forbids search ps (some (c ∷ s)) = is_forbidden search ps (c ∷ s)

module _ (search : Text → Text → Bool) (agent : Text) (now : ℕ) where
  check_breaker-cases :
      (e : Engine)
      → ((is_tripped agent now e.breaker).0 ≡ true)
          × (check_breaker agent now e ≡ (err circuit_breaker_tripped, e))
        ⊎ (((is_tripped agent now e.breaker).0 ≡ false)
            × (check_breaker agent now e
                ≡ (ok tt, record e { breaker = (is_tripped agent now e.breaker).1 }))
            × ((is_tripped agent now (is_tripped agent now e.breaker).1).0 ≡ false))
  unfolding check_breaker is_tripped
  check_breaker-cases e = elim (Option-cases (lookup agent e.breaker.tripped_until)) [
    | inl free ↦ inr (ground arith, ground arith, ground arith)
    | inr (t, e') ↦ elim (Bool-cases (ltb now t)) [
      | inl late ↦ inl (ground arith, ground arith)
      | inr done ↦ inr (
        ground arith,
        ground arith,
        ground (arith, lookup-erase agent agent e.breaker.tripped_until, text_beq_iff agent agent),
      )
    ]
  ]

  inspect_payload_lem :
      (e : Engine) (text : Text) (org : Option Text)
      → (is_tripped agent now e.breaker).0 ≡ false
      → let r = inspect_payload search agent now text org e in
        (is_err r.0 ≡ is_forbidden search (get_policy org e).blocked_patterns text)
        × (r.1.rate ≡ e.rate)
  unfolding inspect_payload check_breaker
  inspect_payload_lem e text org h =
      elim (Bool-cases (is_forbidden search (get_policy org e).blocked_patterns text)) [
        | inl bad ↦ ground arith
        | inr good ↦ ground arith
      ]

  inspect_given_lem :
      (e : Engine) (payload org : Option Text)
      → (is_tripped agent now e.breaker).0 ≡ false
      → let r = inspect_given search agent now payload org e in
        (is_err r.0 ≡ forbids search (get_policy org e).blocked_patterns payload)
        × (r.1.rate ≡ e.rate)
  unfolding inspect_given
  inspect_given_lem e none org h = (refl, refl)
  inspect_given_lem e (some []) org h = (refl, refl)
  inspect_given_lem e (some (c ∷ s)) org h = inspect_payload_lem e (c ∷ s) org h

  count_recent-trim : (r : RateWindow) → (count_recent agent now r).1 ≡ trim agent now r
  unfolding count_recent
  count_recent-trim r = refl

  -- The numbers that are checked: how deep, how dear, how often.
  abbrev pub exceeds : GuardrailPolicy → Option Text → ℕ → Engine → Bool
  exceeds p parent cost e =
      ltb p.max_cascade_depth (next_depth parent e.cascade)
      || ltb p.max_cost_per_task cost
      || leb p.max_tasks_per_minute (count_recent agent now e.rate).0

  check_limits_lem :
      (p : GuardrailPolicy) (task : Text) (parent : Option Text) (cost : ℕ) (e : Engine)
      → let r = check_limits search p agent now task parent cost e in
        ((is_err r.0 ≡ true)
          × (exceeds p parent cost e ≡ true)
          × ((r.1.rate ≡ e.rate) ⊎ (r.1.rate ≡ trim agent now e.rate)))
        ⊎ ((exceeds p parent cost e ≡ false)
            × (r ≡ (
              ok tt,
              record e {
                cascade = (register_task task parent e.cascade).1;
                rate = trim agent now e.rate;
              },
            )))
  unfolding check_limits violate_if violate register recent register_task count_recent
  check_limits_lem p task parent cost e =
      elim (Bool-cases (ltb p.max_cascade_depth (next_depth parent e.cascade))) [
        | inl deep ↦ inl (ground arith, ground arith, inl (ground arith))
        | inr flat ↦ elim (Bool-cases (ltb p.max_cost_per_task cost)) [
          | inl dear ↦ inl (ground arith, ground arith, inl (ground arith))
          | inr cheap ↦
              elim (Bool-cases (leb p.max_tasks_per_minute (count_recent agent now e.rate).0)) [
                | inl often ↦ inl (ground arith, ground arith, inr (rw (flat, cheap, often)))
                | inr few ↦ inr (rw (flat, cheap, few), rw (flat, cheap, few))
              ]
        ]
      ]

  -- What a submission does to the rates: nothing, or the agent's old events go.
  abbrev pub Unused : RateWindow → RateWindow → Type 0
  Unused r r' = (r' ≡ r) ⊎ (r' ≡ trim agent now r)

  check_limits-inspect_given :
      (p : GuardrailPolicy) (task : Text) (parent : Option Text) (cost : ℕ)
      → (payload org : Option Text) (e : Engine) → (is_tripped agent now e.breaker).0 ≡ false
      → p ≡ get_policy org e
      → let r =
          (check_limits search p agent now task parent cost
              >> inspect_given search agent now payload org)
            e in
        (is_err r.0 ≡ (exceeds p parent cost e || forbids search p.blocked_patterns payload))
        × (is_err r.0 ≡ true → Unused e.rate r.1.rate)
        × (is_err r.0 ≡ false → r.1.rate ≡ trim agent now e.rate)
  check_limits-inspect_given p task parent cost payload org e calm same =
      elim (check_limits_lem p task parent cost e) [
        | inl (bad, over, kept) ↦
            elim (Result-cases (check_limits search p agent now task parent cost e).0) [
              | inl (a, fine) ↦ ground arith
              | inr (v, failed) ↦ rw (failed, over) (refl, λ _. kept, λ wrong. ground arith)
            ]
        | inr (under, run) ↦
            let given =
              inspect_given_lem
                (record e {
                  cascade = (register_task task parent e.cascade).1;
                  rate = trim agent now e.rate;
                })
                payload org calm in
            rw (run, under, same) (given.0, λ _. inr given.1, λ _. given.1)
      ]

  -- The state in which the limits are read: an expired trip of the breaker is gone.
  abbrev pub checked : Engine → Engine
  checked e = record e { breaker = (is_tripped agent now e.breaker).1 }

  -- `validate_task_submission` without its first check.
  abbrev pub remaining : Text → Option Text → ℕ → Option Text → Option Text → Action (Unit {0})
  remaining task parent cost payload org = do
    p ← read (get_policy org)
    check_limits search p agent now task parent cost
    inspect_given search agent now payload org

  validate_from :
      (task : Text) (parent : Option Text) (cost : ℕ) (payload org : Option Text) (e : Engine)
      → (x : Result Violation (Unit {0}) × Engine) → check_breaker agent now e ≡ x
      → validate_task_submission search agent now task parent cost payload org e ≡ (
          let y = bind_result x.0 x.1 (λ _. remaining task parent cost payload org) in
          bind_result y.0 y.1 (λ _. modify (λ s. record s { rate = record_task agent now s.rate })))
  unfolding validate_task_submission validate_checks
  validate_from task parent cost payload org e x run = rw (← run) refl

  recorded :
      (e : Engine) (x : Result Violation (Unit {0}) × Engine) (bad : Bool)
      → (is_err x.0 ≡ bad)
        × (is_err x.0 ≡ true → Unused e.rate x.1.rate)
        × (is_err x.0 ≡ false → x.1.rate ≡ trim agent now e.rate)
      → let r =
          bind_result x.0 x.1
            (λ _. modify (λ s. record s { rate = record_task agent now s.rate })) in
        ((bad ≡ true) × (is_err r.0 ≡ true) × Unused e.rate r.1.rate)
        ⊎ ((bad ≡ false)
            × (is_err r.0 ≡ false)
            × (r.1.rate ≡ record_task agent now (trim agent now e.rate)))
  recorded e (ok tt, s) bad (same, _, kept) =
      inr (sym same, refl, ap (record_task agent now) (kept refl))
  recorded e (err v, s) bad (same, unused, _) = inl (sym same, refl, unused refl)

  -- An agent that the circuit breaker holds back is refused, and the engine is left as it was.
  pub held_refused :
      (task : Text) (parent : Option Text) (cost : ℕ) (payload org : Option Text) (e : Engine)
      → (is_tripped agent now e.breaker).0 ≡ true
      → validate_task_submission search agent now task parent cost payload org e
        ≡ (err circuit_breaker_tripped, e)
  held_refused task parent cost payload org e h = elim (check_breaker-cases e) [
    | inl (held, run) ↦ rw (validate_from task parent cost payload org e _ run) refl
    | inr (free, run, calm) ↦ ground arith
  ]

  -- A task of an agent that is not held back is refused, if the depth, the cost or the number of
  -- recent tasks is over its organisation's limit or the payload holds a forbidden pattern: then it
  -- is not counted in the agent's rate. In every other case it is accepted and is counted once,
  -- after the events before the window are dropped.
  pub validate_task_submission_lem :
      (task : Text) (parent : Option Text) (cost : ℕ) (payload org : Option Text) (e : Engine)
      → (is_tripped agent now e.breaker).0 ≡ false
      → let r = validate_task_submission search agent now task parent cost payload org e in
        let p = get_policy org e in
        let bad = exceeds p parent cost e || forbids search p.blocked_patterns payload in
        ((bad ≡ true) × (is_err r.0 ≡ true) × Unused e.rate r.1.rate)
        ⊎ ((bad ≡ false)
            × (is_err r.0 ≡ false)
            × (r.1.rate ≡ record_task agent now (trim agent now e.rate)))
  validate_task_submission_lem task parent cost payload org e h = elim (check_breaker-cases e) [
    | inl (held, run) ↦ ground arith
    | inr (free, run, calm) ↦ rw (validate_from task parent cost payload org e _ run) (
        recorded e _ _ (
          check_limits-inspect_given (get_policy org e) task parent cost payload org (checked e)
            calm refl))
  ]
