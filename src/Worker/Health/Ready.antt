-- ===== src/Worker/Health/Ready.antt =====
-- When the worker of health.ts is ready.
use void.Base.{
  ℕ, ◌+◌, ◌≡◌, refl, ap, ◌∙◌, sym, subst, Bool, true, false, ◌&&◌, ◌||◌, not, Option, none, some,
  List, [], ◌∷◌, arith, if◌then◌else◌, leb, ltb, Result, throws, ◌>>=◌, Bool-cases, inl, inr,
  length, bind_ok, ok-injective,
}
use void.Base.Int.{ℤ}
use void.Text.Equality.{text_eq-eq}
use void.Text.{Text, codes, text_eq}
use void.Worker.Health.{
  HealthError, HealthReason, HealthStatus, Number, finite, WorkerHealthEvaluation,
  WorkerHealthState, age_of, before_first_cycle, create_worker_health_state, evaluate_cycle,
  evaluate_worker_health, last_status_evaluation, normalized_status, number_or, record_cycle,
  snapshot, WorkerHealthSnapshot, count_or, is_date, to_iso_string, optional_iso_string,
  timestamp_ms, validate_durations, optional_timestamp_ms, finite_option,
}

-- The cycles of a worker, the latest first, and its state after them.
abbrev pub Cycles : Type 0
Cycles = List (Text × ℤ)

abbrev or_same : WorkerHealthState → Result HealthError WorkerHealthState → WorkerHealthState
or_same s (Result.ok t) = t
or_same s (throws e) = s

unfoldable pub after_cycles : WorkerHealthState → Cycles → WorkerHealthState
after_cycles s [] = s
after_cycles s (c ∷ cs) = let t = after_cycles s cs in or_same t (record_cycle c.0 (finite c.1) t)

-- When the latest cycle was.
abbrev pub latest : Cycles → Option ℤ
latest [] = none
latest (c ∷ cs) = some c.1

-- A cycle that went well.
abbrev pub went_well : Text → Bool
went_well status =
    text_eq (normalized_status status) (codes "OK")
    || text_eq (normalized_status status) (codes "HEALTHY")

-- Ready: young enough before the first cycle, and else after a latest cycle that went well and is
-- young enough.
abbrev pub is_ready : ℤ → ℕ × ℕ → ℤ → Cycles → Bool
is_ready started durations now [] = ltb (age_of now started) durations.0
is_ready started durations now (c ∷ cs) = went_well c.0 && ltb (age_of now c.1) durations.1

other_name :
    (name a b : Text) → text_eq name a ≡ true → text_eq a b ≡ false → text_eq name b ≡ false
other_name name a b e n = subst (λ x. text_eq x b ≡ false) (sym (text_eq-eq name a e)) n

-- A name that is not that of a cycle that went well.
not_well :
    (status a : Text)
    → text_eq (normalized_status status) a ≡ true
    → text_eq a (codes "OK") ≡ false
    → text_eq a (codes "HEALTHY") ≡ false
    → went_well status ≡ false
not_well status a e n m = ground (
  arith,
  other_name (normalized_status status) a (codes "OK") e n,
  other_name (normalized_status status) a (codes "HEALTHY") e m,
)

abbrev ready_of : WorkerHealthEvaluation → Bool
ready_of e = e.ready

last_status_evaluation-ready :
    (status : Text) (age stale_after : ℕ)
    → (last_status_evaluation status age stale_after).ready
      ≡ (went_well status && ltb age stale_after)
unfolding last_status_evaluation
last_status_evaluation-ready status age stale_after =
    let name = normalized_status status in
    elim (Bool-cases (text_eq name (codes "DEGRADED"))) [
      | inl e ↦ rw (e, not_well status (codes "DEGRADED") e refl refl) refl
      | inr e ↦ elim (Bool-cases (text_eq name (codes "DOWN"))) [
        | inl f ↦ rw (e, f, not_well status (codes "DOWN") f refl refl) refl
        | inr f ↦ elim (Bool-cases (text_eq name (codes "ERROR"))) [
          | inl g ↦ rw (e, f, g, not_well status (codes "ERROR") g refl refl) refl
          | inr g ↦
              rw (e, f, g)
                (accepted (text_eq name (codes "OK")) (text_eq name (codes "HEALTHY")) age
                  stale_after)
        ]
      ]
    ]
  where
    accepted :
        (a b : Bool) (age stale_after : ℕ)
        → ready_of (
            if not a && not b
            then record {
              ready = false;
              status = HealthStatus.starting;
              reason = some HealthReason.last_cycle_status_unknown;
              age_ms = none;
            }
            else if leb stale_after age
            then record {
              ready = false;
              status = HealthStatus.stale;
              reason = some HealthReason.last_cycle_stale;
              age_ms = some age;
            }
            else record {
              ready = true;
              status = HealthStatus.ok;
              reason = none;
              age_ms = some age;
            })
          ≡ ((a || b) && ltb age stale_after)
    accepted a b age stale_after = ground arith

before_first_cycle-ready : (age grace : ℕ) → (before_first_cycle age grace).ready ≡ ltb age grace
unfolding before_first_cycle
before_first_cycle-ready age grace = ground arith

-- What the state keeps of the cycles.
record Kept (s : WorkerHealthState) (cs : Cycles) (t : WorkerHealthState) : Type 0 where
  same_start : t.started_at ≡ s.started_at
  same_grace : t.startup_grace_ms ≡ s.startup_grace_ms
  same_stale : t.stale_after_ms ≡ s.stale_after_ms
  counted : t.cycle_count ≡ s.cycle_count + length cs

after_cycles-Kept : (s : WorkerHealthState) (cs : Cycles) → Kept s cs (after_cycles s cs)
unfolding after_cycles record_cycle timestamp_ms
after_cycles-Kept s [] = record {
  same_start = refl;
  same_grace = refl;
  same_stale = refl;
  counted = omega arith;
}
after_cycles-Kept s (c ∷ cs) =
    let h = after_cycles-Kept s cs in
    record {
      same_start = h.same_start;
      same_grace = h.same_grace;
      same_stale = h.same_stale;
      counted = omega (arith, h.counted);
    }

evaluate_cycle-ready :
    (s : WorkerHealthState) (cs : Cycles) (durations : ℕ × ℕ) (now : ℤ)
    → s.last_cycle_at ≡ none
    → let t = after_cycles s cs in
      (evaluate_cycle t.last_cycle_at t.last_cycle_status s.started_at now durations).ready
      ≡ is_ready s.started_at durations now cs
unfolding after_cycles record_cycle timestamp_ms evaluate_cycle
evaluate_cycle-ready s [] durations now e =
    rw e (before_first_cycle-ready (age_of now s.started_at) durations.0)
evaluate_cycle-ready s (c ∷ cs) durations now e =
    last_status_evaluation-ready c.0 (age_of now c.1) durations.1

optional_finite : (o : Option ℤ) → optional_timestamp_ms (finite_option o) ≡ o
optional_finite none = refl
optional_finite (some t) = refl

-- The start and the latest cycle are times that a Date can hold.
abbrev pub dates_valid : ℤ → Cycles → Bool
dates_valid started [] = is_date started
dates_valid started (c ∷ cs) = is_date started && is_date c.1

-- A snapshot of a worker: where the dates are valid it says if the worker is ready, when it started,
-- the latest cycle and the count of runs; and else it throws.
pub record Snapped (s : WorkerHealthState) (durations : ℕ × ℕ) (now : ℤ) (cs : Cycles)
    (runs : Option ℤ) (r : Result HealthError WorkerHealthSnapshot) : Type 0 where
  pub valid :
      dates_valid s.started_at cs ≡ true
      → (x : WorkerHealthSnapshot) × (r ≡ Result.ok x)
        × (x.evaluation.ready ≡ is_ready s.started_at durations now cs)
        × (x.started_at ≡ s.started_at)
        × (x.last_cycle_at ≡ latest cs)
        × (x.run_count ≡ count_or runs (length cs))
  pub invalid : dates_valid s.started_at cs ≡ false → r ≡ throws HealthError.invalid_time_value

after_cycles-latest :
    (s : WorkerHealthState) (cs : Cycles)
    → s.last_cycle_at ≡ none
    → (after_cycles s cs).last_cycle_at ≡ latest cs
unfolding after_cycles record_cycle timestamp_ms
after_cycles-latest s [] n = n
after_cycles-latest s (c ∷ cs) n = refl

-- The two dates of a snapshot.
isos-valid :
    (started : ℤ) (cs : Cycles)
    → dates_valid started cs ≡ true
    → (to_iso_string started ≡ Result.ok started)
      × (optional_iso_string (latest cs) ≡ Result.ok (latest cs))
unfolding to_iso_string optional_iso_string
isos-valid started [] d = (rw d refl, refl)
isos-valid started (c ∷ cs) d = elim (Bool-cases (is_date started)) [
  | inl t ↦ let u : is_date c.1 ≡ true = rw t at d in (rw t refl, rw u refl)
  | inr t ↦ let u : false ≡ true = rw t at d in cc
]

isos-invalid :
    {A : Type 0} (started : ℤ) (cs : Cycles) (f : ℤ → Option ℤ → A)
    → dates_valid started cs ≡ false
    → (to_iso_string started >>= λ a. optional_iso_string (latest cs) >>= λ b. Result.ok (f a b))
      ≡ throws HealthError.invalid_time_value
unfolding to_iso_string optional_iso_string
isos-invalid started [] f d = rw d refl
isos-invalid started (c ∷ cs) f d = elim (Bool-cases (is_date started)) [
  | inl t ↦ let u : is_date c.1 ≡ false = rw t at d in rw (t, u) refl
  | inr t ↦ rw t refl
]

evaluated :
    (s : WorkerHealthState) (durations : ℕ × ℕ) (now : ℤ) (cs : Cycles)
    → validate_durations s.startup_grace_ms s.stale_after_ms ≡ Result.ok durations
    → let t = after_cycles s cs in
      evaluate_worker_health (record {
        started_at = finite t.started_at;
        now = finite now;
        last_cycle_at = finite_option t.last_cycle_at;
        last_cycle_status = t.last_cycle_status;
        startup_grace_ms = t.startup_grace_ms;
        stale_after_ms = t.stale_after_ms;
      })
      ≡ Result.ok (evaluate_cycle t.last_cycle_at t.last_cycle_status s.started_at now durations)
unfolding evaluate_worker_health timestamp_ms
evaluated s durations now cs v =
    let t = after_cycles s cs in
    let h = after_cycles-Kept s cs in
    rw (h.same_grace, h.same_stale, h.same_start, v, optional_finite t.last_cycle_at) refl

snapshot-Snapped :
    (s : WorkerHealthState) (durations : ℕ × ℕ) (now : ℤ) (cs : Cycles) (runs : Option ℤ)
    → validate_durations s.startup_grace_ms s.stale_after_ms ≡ Result.ok durations
    → s.last_cycle_at ≡ none
    → s.cycle_count ≡ 0
    → Snapped s durations now cs runs (snapshot (after_cycles s cs) runs (finite now))
unfolding snapshot
snapshot-Snapped s durations now cs runs v n z =
    let t = after_cycles s cs in
    let h = after_cycles-Kept s cs in
    let last = after_cycles-latest s cs n in
    let e = evaluate_cycle t.last_cycle_at t.last_cycle_status s.started_at now durations in
    let count : t.cycle_count ≡ length cs = omega (arith, h.counted, z) in
    let made : ℤ → Option ℤ → WorkerHealthSnapshot = λ a b. record {
      evaluation = e;
      started_at = a;
      last_cycle_at = b;
      last_cycle_status = t.last_cycle_status;
      run_count = count_or runs t.cycle_count;
    } in
    let opened : snapshot t runs (finite now) ≡ (
        to_iso_string s.started_at >>= λ a.
        optional_iso_string (latest cs) >>= λ b. Result.ok (made a b)) =
      ap
        (λ r. r >>= λ x. to_iso_string t.started_at >>= λ a.
          optional_iso_string t.last_cycle_at >>= λ b. Result.ok (record {
            evaluation = x;
            started_at = a;
            last_cycle_at = b;
            last_cycle_status = t.last_cycle_status;
            run_count = count_or runs t.cycle_count;
          }))
        (evaluated s durations now cs v)
      ∙ ap
          (λ x. to_iso_string x >>= λ a.
            optional_iso_string t.last_cycle_at >>= λ b. Result.ok (made a b))
          h.same_start
      ∙ ap
          (λ x.
            to_iso_string s.started_at >>= λ a. optional_iso_string x >>= λ b. Result.ok (made a b))
          last in
    record {
      valid = λ d.
          let (p, q) = isos-valid s.started_at cs d in
          (
            made s.started_at (latest cs),
            opened
                ∙ ap (λ r. r >>= λ a. optional_iso_string (latest cs) >>= λ b. Result.ok (made a b))
                    p
                ∙ ap (λ r. r >>= λ b. Result.ok (made s.started_at b)) q,
            evaluate_cycle-ready s cs durations now n,
            refl,
            refl,
            ap (count_or runs) count,
          );
      invalid = λ d. opened ∙ isos-invalid s.started_at cs made d;
    }

-- A state that was created has durations that are valid, and no cycle.
create-valid :
    (started : Number) (grace stale_after : Option Number) (s : WorkerHealthState)
    → create_worker_health_state started grace stale_after ≡ Result.ok s
    → (durations : ℕ × ℕ) × (validate_durations s.startup_grace_ms s.stale_after_ms
        ≡ Result.ok durations)
      × (s.last_cycle_at ≡ none)
      × (s.cycle_count ≡ 0)
unfolding create_worker_health_state
create-valid started grace stale_after s e =
    let (at, _, f) = bind_ok (timestamp_ms started HealthError.invalid_started_at) _ s e in
    let (durations, v, g) =
      bind_ok (validate_durations (number_or grace 30000) (number_or stale_after 300000)) _ s f in
    subst
      (λ (t : WorkerHealthState).
        (d : ℕ × ℕ) × (validate_durations t.startup_grace_ms t.stale_after_ms ≡ Result.ok d)
        × (t.last_cycle_at ≡ none)
        × (t.cycle_count ≡ 0))
      (ok-injective g) (durations, v, refl, refl)

-- A created state counts the cycles that are recorded at finite times. Its snapshot at a finite time
-- then throws exactly if the start or the latest cycle is out of the range of a Date; and else it has
-- the start, the latest cycle and the count, and the worker is ready exactly if it is young enough and
-- had no cycle, or its latest cycle went well and is young enough.
pub snapshot-is_ready :
    (started : Number) (grace stale_after : Option Number) (s : WorkerHealthState) (now : ℤ)
    (cs : Cycles) (runs : Option ℤ)
    → create_worker_health_state started grace stale_after ≡ Result.ok s
    → (durations : ℕ × ℕ) × (validate_durations s.startup_grace_ms s.stale_after_ms
        ≡ Result.ok durations)
      × ((after_cycles s cs).cycle_count ≡ length cs)
      × Snapped s durations now cs runs (snapshot (after_cycles s cs) runs (finite now))
snapshot-is_ready started grace stale_after s now cs runs c =
    let (durations, v, n, z) = create-valid started grace stale_after s c in
    (
      durations,
      v,
      omega (arith, (after_cycles-Kept s cs).counted, z),
      snapshot-Snapped s durations now cs runs v n z,
    )
