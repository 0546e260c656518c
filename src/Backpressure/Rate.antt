-- ===== src/Backpressure/Rate.antt =====
-- How many tasks the gate of sdk-python/intermesh/backpressure.py lets pass in a time.
use intermesh.Prelude.{
  codes, Text, ℕ, ◌+◌, ◌-◌, ◌*◌, ◌≤◌, ◌≡◌, ◌⊎◌, inl, inr, refl, ap, true, false, none, List, [],
  ◌∷◌, arith,
}
use intermesh.Prelude.Int.{ℤ, pos, pos_part, neg_part, ◌+ℤ◌, ◌-ℤ◌, ltb_ℤ, +ℤ_parts}
use intermesh.Backpressure.{
  BackpressureLimits, BackpressureGate, init, min_ℤ, retry_after, refill, refuse, take_token, admit,
}

-- A request to admit a task.
pub record Ask : Type 0 where
  pub in_flight : ℕ
  pub queue_depth : ℕ
  pub now : ℕ

unfoldable pub run : BackpressureGate → List Ask → BackpressureGate
run g [] = g
run g (a ∷ asks) = run (admit a.in_flight a.queue_depth a.now g).1 asks

-- The clock does not go back, and ends at the second time.
unfoldable pub InOrder : ℕ → ℕ → List Ask → Type 0
InOrder start stop [] = start ≤ stop
InOrder start stop (a ∷ asks) = (start ≤ a.now) × InOrder a.now stop asks

times-sub : (n m k : ℕ) → m ≤ n → (n - m) * k + m * k ≡ n * k
times-sub n m k h = grind arith

-- What a step leaves of the tokens, the time and the tasks let through.
record IsStep (g h : BackpressureGate) (now : ℕ) : Type 0 where
  same : h.limits ≡ g.limits
  positive : neg_part h.tokens ≡ 0
  later : g.last ≤ h.last
  until : h.last ≤ now
  paid :
      1000 * h.accepted + pos_part h.tokens + g.last * g.limits.max_tasks_per_sec
      ≤ 1000 * g.accepted + pos_part g.tokens + h.last * g.limits.max_tasks_per_sec

refuse-IsStep :
    (reason : Text) (retry in_flight queue_depth now : ℕ) (g h : BackpressureGate)
    → IsStep g h now
    → IsStep g (refuse reason retry in_flight queue_depth h).1 now
unfolding refuse
refuse-IsStep reason retry in_flight queue_depth now g h s = record {
  same = s.same;
  positive = s.positive;
  later = s.later;
  until = s.until;
  paid = s.paid;
}

filled :
    (c t : ℤ) (d : ℕ)
    → neg_part c ≡ 0
    → neg_part t ≡ 0
    → (neg_part (min_ℤ c (t +ℤ pos d)) ≡ 0) × (pos_part (min_ℤ c (t +ℤ pos d)) ≤ pos_part t + d)
unfolding min_ℤ
filled c t d h k = ground (arith, +ℤ_parts t (pos d))

refill-IsStep :
    (now : ℕ) (g : BackpressureGate)
    → g.last ≤ now
    → neg_part g.tokens ≡ 0
    → IsStep g (refill now g) now
unfolding refill
refill-IsStep now g h k =
    let capacity = g.limits.max_tasks_per_sec in
    let (positive, bound) =
      filled (pos (1000 * capacity)) g.tokens ((now - g.last) * capacity) refl k in
    let times = times-sub now g.last capacity h in
    record { same = refl; positive = positive; later = h; until = omega arith; paid = omega arith }

less :
    (t : ℤ)
    → ltb_ℤ t (pos 1000) ≡ false
    → neg_part t ≡ 0
    → (neg_part (t -ℤ pos 1000) ≡ 0) × (pos_part (t -ℤ pos 1000) + 1000 ≡ pos_part t)
unfolding ◌-ℤ◌
less t h k = ground arith

taken :
    (now : ℕ) (g h : BackpressureGate)
    → IsStep g h now
    → ltb_ℤ h.tokens (pos 1000) ≡ false
    → IsStep g (record h { tokens = h.tokens -ℤ pos 1000; accepted = h.accepted + 1 }) now
taken now g h s enough =
    let (positive, rest) = less h.tokens enough s.positive in
    let paid = s.paid in
    record {
      same = s.same;
      positive = positive;
      later = s.later;
      until = s.until;
      paid = omega arith;
    }

take_token-cases :
    (in_flight queue_depth : ℕ) (g : BackpressureGate)
    → 1 ≤ g.limits.max_tasks_per_sec
    → (take_token in_flight queue_depth g
        ≡ refuse (codes "rate_limited") (retry_after g) in_flight queue_depth g)
      ⊎ ((ltb_ℤ g.tokens (pos 1000) ≡ false)
          × (take_token in_flight queue_depth g
              ≡ (none, record g { tokens = g.tokens -ℤ pos 1000; accepted = g.accepted + 1 })))
unfolding take_token
take_token-cases in_flight queue_depth g c = ground arith

take_token-IsStep :
    (in_flight queue_depth now : ℕ) (g h : BackpressureGate)
    → 1 ≤ h.limits.max_tasks_per_sec
    → IsStep g h now
    → IsStep g (take_token in_flight queue_depth h).1 now
take_token-IsStep in_flight queue_depth now g h c s =
    elim (take_token-cases in_flight queue_depth h c) [
      | inl e ↦ rw e (refuse-IsStep _ _ in_flight queue_depth now g h s)
      | inr (enough, e) ↦ rw e (taken now g h s enough)
    ]

same-IsStep :
    (now : ℕ) (g : BackpressureGate) → g.last ≤ now → neg_part g.tokens ≡ 0 → IsStep g g now
same-IsStep now g h k = record {
  same = refl;
  positive = k;
  later = omega arith;
  until = h;
  paid = omega arith;
}

admit-cases :
    (in_flight queue_depth now : ℕ) (g : BackpressureGate)
    → g.limits.enabled ≡ true
    → (admit in_flight queue_depth now g
        ≡ refuse (codes "in_flight_limit") 1000 in_flight queue_depth g)
      ⊎ (admit in_flight queue_depth now g
          ≡ refuse (codes "task_queue_full") 1000 in_flight queue_depth g)
      ⊎ (admit in_flight queue_depth now g ≡ take_token in_flight queue_depth (refill now g))
unfolding admit
admit-cases in_flight queue_depth now g on = ground arith

admit-IsStep :
    (in_flight queue_depth now : ℕ) (g : BackpressureGate)
    → g.limits.enabled ≡ true
    → 1 ≤ g.limits.max_tasks_per_sec
    → g.last ≤ now
    → neg_part g.tokens ≡ 0
    → IsStep g (admit in_flight queue_depth now g).1 now
admit-IsStep in_flight queue_depth now g on c h k =
    let stay = same-IsStep now g h k in
    let s = refill-IsStep now g h k in
    elim (admit-cases in_flight queue_depth now g on) [
      | inl e ↦ rw e (refuse-IsStep _ _ in_flight queue_depth now g g stay)
      | inr (inl e) ↦ rw e (refuse-IsStep _ _ in_flight queue_depth now g g stay)
      | inr (inr e) ↦
          rw e (take_token-IsStep in_flight queue_depth now g (refill now g) (rw s.same c) s)
    ]

earlier-InOrder :
    (m n stop : ℕ) (asks : List Ask) → m ≤ n → InOrder n stop asks → InOrder m stop asks
unfolding InOrder
earlier-InOrder m n stop [] h k = omega arith
earlier-InOrder m n stop (a ∷ asks) h k = (omega arith, k.1)

run_paid :
    (asks : List Ask) (stop : ℕ) (g : BackpressureGate)
    → g.limits.enabled ≡ true
    → 1 ≤ g.limits.max_tasks_per_sec
    → neg_part g.tokens ≡ 0
    → InOrder g.last stop asks
    → 1000 * (run g asks).accepted + g.last * g.limits.max_tasks_per_sec
      ≤ 1000 * g.accepted + pos_part g.tokens + stop * g.limits.max_tasks_per_sec
unfolding run InOrder
run_paid [] stop g on c k order =
    let times = times-sub stop g.last g.limits.max_tasks_per_sec order in omega arith
run_paid (a ∷ asks) stop g on c k order =
    let h = (admit a.in_flight a.queue_depth a.now g).1 in
    let s = admit-IsStep a.in_flight a.queue_depth a.now g on c order.0 k in
    let rest =
      run_paid asks stop h (rw s.same on) (rw s.same c) s.positive
        (earlier-InOrder h.last a.now stop asks s.until order.1) in
    let paid = s.paid in
    let same : h.limits.max_tasks_per_sec ≡ g.limits.max_tasks_per_sec =
      ap (λ l. l.max_tasks_per_sec) s.same in
    grind arith

start_stop : (start stop : ℕ) (asks : List Ask) → InOrder start stop asks → start ≤ stop
unfolding InOrder
start_stop start stop [] h = h
start_stop start stop (a ∷ asks) h =
    let rest = start_stop a.now stop asks h.1 in let first = h.0 in omega arith

spread : (c n : ℕ) → c * (1000 + n) ≡ 1000 * c + n * c
spread c n = grind arith

-- An enabled gate with a limit of r tasks per second lets through, of any requests in the order of
-- their times, at most r tasks at once and r more for every second since it was made.
pub accepted_bound :
    (limits : BackpressureLimits) (start stop : ℕ) (asks : List Ask)
    → limits.enabled ≡ true
    → 1 ≤ limits.max_tasks_per_sec
    → InOrder start stop asks
    → 1000 * (run (init limits start) asks).accepted
      ≤ limits.max_tasks_per_sec * (1000 + (stop - start))
unfolding init
accepted_bound limits start stop asks on c order =
    let paid = run_paid asks stop (init limits start) on c refl order in
    let times = times-sub stop start limits.max_tasks_per_sec (start_stop start stop asks order) in
    let sum = spread limits.max_tasks_per_sec (stop - start) in omega arith
