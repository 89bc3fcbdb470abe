-- ===== src/Worker/Health.antt =====
-- workers/odds-collector/src/health.ts: the health of the worker, its state, and the answers of the
-- health endpoint. A number is in whole milliseconds or not finite; a timestamp is a number, or the
-- result of `Date.parse` on a string.
pub mod Ready
use void.Base.{
  ℕ, suc, ◌+◌, Bool, true, false, ◌&&◌, ◌||◌, not, Option, none, some, List, [], ◌∷◌, if◌then◌else◌,
  leb, ltb, ◌==◌, max, Result, throws, ◌>>=◌,
}
use void.Base.Int.{ℤ, pos, pos_part, neg_part, ◌-ℤ◌}
use void.Text.{Text, codes, text_eq}
use void.Text.Trim.{trim, trim_start, trim_end, upper, before}

pub data Number : Type 0 where
  finite : ℤ → Number
  not_finite : Number

pub data HealthStatus : Type 0 where
  ok starting degraded down error stale : HealthStatus

pub data HealthReason : Type 0 where
  last_cycle_degraded last_cycle_down last_cycle_error last_cycle_status_unknown : HealthReason
  last_cycle_stale startup_grace no_cycle_after_grace last_cycle_status_missing : HealthReason

pub record WorkerHealthEvaluation : Type 0 where
  pub ready : Bool
  pub status : HealthStatus
  pub reason : Option HealthReason
  pub age_ms : Option ℕ

pub record WorkerHealthInput : Type 0 where
  pub started_at : Number
  pub now : Number
  pub last_cycle_at : Option Number
  pub last_cycle_status : Option Text
  pub startup_grace_ms : Number
  pub stale_after_ms : Number

pub data HealthError : Type 0 where
  invalid_started_at invalid_last_cycle_at invalid_now invalid_grace invalid_stale_after :
      HealthError
  invalid_time_value : HealthError

unfoldable pub timestamp_ms : Number → HealthError → Result HealthError ℤ
timestamp_ms (finite n) e = Result.ok n
timestamp_ms not_finite e = throws e

abbrev pub optional_timestamp_ms : Option Number → Option ℤ
optional_timestamp_ms none = none
optional_timestamp_ms (some (finite n)) = some n
optional_timestamp_ms (some not_finite) = none

-- A duration, if it is finite and not negative, and positive where that is asked.
natural : Number → Option ℕ
natural (finite (pos n)) = some n
natural _ = none

unfoldable pub validate_durations : Number → Number → Result HealthError (ℕ × ℕ)
unfolding natural
validate_durations grace stale_after = elim (natural grace) [
  | none ↦ throws invalid_grace
  | some g ↦ elim (natural stale_after) [
    | none ↦ throws invalid_stale_after
    | some s ↦ if s == 0 then throws invalid_stale_after else Result.ok (g, s)
  ]
]

abbrev unready : HealthStatus → HealthReason → WorkerHealthEvaluation
unready status reason = record {
  ready = false;
  status = status;
  reason = some reason;
  age_ms = none;
}

abbrev pub normalized_status : Text → Text
normalized_status status = upper (trim status)

unfoldable pub last_status_evaluation : Text → ℕ → ℕ → WorkerHealthEvaluation
unfolding trim_start trim_end upper
last_status_evaluation status age stale_after =
    let name = normalized_status status in
    if text_eq name (codes "DEGRADED")
    then unready degraded last_cycle_degraded
    else if text_eq name (codes "DOWN")
    then unready down last_cycle_down
    else if text_eq name (codes "ERROR")
    then unready error last_cycle_error
    else if not (text_eq name (codes "OK")) && not (text_eq name (codes "HEALTHY"))
    then unready starting last_cycle_status_unknown
    else if leb stale_after age
    then record { ready = false; status = stale; reason = some last_cycle_stale; age_ms = some age }
    else record { ready = true; status = ok; reason = none; age_ms = some age }

-- `Math.max(0, now - at)`
abbrev pub age_of : ℤ → ℤ → ℕ
age_of now at = pos_part (now -ℤ at)

unfoldable pub before_first_cycle : ℕ → ℕ → WorkerHealthEvaluation
before_first_cycle age grace =
    if ltb age grace
    then record { ready = true; status = starting; reason = some startup_grace; age_ms = none }
    else unready starting no_cycle_after_grace

unfoldable pub evaluate_cycle : Option ℤ → Option Text → ℤ → ℤ → ℕ × ℕ → WorkerHealthEvaluation
unfolding last_status_evaluation before_first_cycle ◌-ℤ◌
evaluate_cycle none status started now durations =
    before_first_cycle (age_of now started) durations.0
evaluate_cycle (some at) none started now durations = unready starting last_cycle_status_missing
evaluate_cycle (some at) (some status) started now durations =
    last_status_evaluation status (age_of now at) durations.1

unfoldable pub evaluate_worker_health :
    WorkerHealthInput → Result HealthError WorkerHealthEvaluation
unfolding validate_durations timestamp_ms evaluate_cycle
evaluate_worker_health input =
    validate_durations input.startup_grace_ms input.stale_after_ms >>= λ durations.
    timestamp_ms input.started_at invalid_started_at >>= λ started.
    timestamp_ms input.now invalid_now >>= λ now. Result.ok (
      evaluate_cycle (optional_timestamp_ms input.last_cycle_at) input.last_cycle_status started now
        durations)

-- The variables of `createWorkerHealthState`; the identity of the worker is left out.
pub record WorkerHealthState : Type 0 where
  pub started_at : ℤ
  pub startup_grace_ms : Number
  pub stale_after_ms : Number
  pub last_cycle_at : Option ℤ
  pub last_cycle_status : Option Text
  pub cycle_count : ℕ

abbrev pub number_or : Option Number → ℕ → Number
number_or none n = finite (pos n)
number_or (some x) n = x

unfoldable pub create_worker_health_state :
    Number → Option Number → Option Number → Result HealthError WorkerHealthState
unfolding timestamp_ms validate_durations
create_worker_health_state started grace stale_after =
    timestamp_ms started invalid_started_at >>= λ at.
    validate_durations (number_or grace 30000) (number_or stale_after 300000) >>= λ durations.
    Result.ok (record {
      started_at = at;
      startup_grace_ms = number_or grace 30000;
      stale_after_ms = number_or stale_after 300000;
      last_cycle_at = none;
      last_cycle_status = none;
      cycle_count = 0;
    })

unfoldable pub record_cycle :
    Text → Number → WorkerHealthState → Result HealthError WorkerHealthState
unfolding timestamp_ms
record_cycle status at s = timestamp_ms at invalid_last_cycle_at >>= λ t. Result.ok (record s {
  last_cycle_at = some t;
  last_cycle_status = some status;
  cycle_count = s.cycle_count + 1;
})

abbrev finite_option : Option ℤ → Option Number
finite_option none = none
finite_option (some t) = some (finite t)

-- What a Date can hold, in milliseconds.
abbrev pub max_date : ℕ
max_date = 8640000000000000

abbrev pub is_date : ℤ → Bool
is_date t = leb (pos_part t + neg_part t) max_date

-- `new Date(t).toISOString()`, for the time that the string stands for; it throws for an invalid Date.
unfoldable pub to_iso_string : ℤ → Result HealthError ℤ
to_iso_string t = if is_date t then Result.ok t else throws invalid_time_value

unfoldable pub optional_iso_string : Option ℤ → Result HealthError (Option ℤ)
unfolding to_iso_string
optional_iso_string none = Result.ok none
optional_iso_string (some t) = to_iso_string t >>= λ iso. Result.ok (some iso)

-- The names of the service and the worker are left out, and the process.
pub record WorkerHealthSnapshot : Type 0 where
  pub evaluation : WorkerHealthEvaluation
  pub started_at : ℤ
  pub last_cycle_at : Option ℤ
  pub last_cycle_status : Option Text
  pub run_count : ℕ

abbrev pub count_or : Option ℤ → ℕ → ℕ
count_or none n = n
count_or (some k) n = pos_part k

-- A run count is a whole number, or not given.
unfoldable pub snapshot :
    WorkerHealthState → Option ℤ → Number → Result HealthError WorkerHealthSnapshot
unfolding evaluate_worker_health to_iso_string optional_iso_string
snapshot s run_count now =
    evaluate_worker_health (record {
      started_at = finite s.started_at;
      now = now;
      last_cycle_at = finite_option s.last_cycle_at;
      last_cycle_status = s.last_cycle_status;
      startup_grace_ms = s.startup_grace_ms;
      stale_after_ms = s.stale_after_ms;
    })
    >>= λ evaluation. to_iso_string s.started_at >>= λ started.
        optional_iso_string s.last_cycle_at >>= λ last. Result.ok (record {
          evaluation = evaluation;
          started_at = started;
          last_cycle_at = last;
          last_cycle_status = s.last_cycle_status;
          run_count = count_or run_count s.cycle_count;
        })

unfoldable pub known_path : Text → Bool
known_path path =
    text_eq path (codes "/livez")
    || text_eq path (codes "/readyz")
    || text_eq path (codes "/healthz")

-- The status code of an answer; `url` is as the request has it.
abbrev pub path_of : Option Text → Text
path_of none = codes "/"
path_of (some url) = before b'?' url

unfoldable pub health_answer :
    Text → Option Text → Result HealthError WorkerHealthSnapshot → Result HealthError ℕ
unfolding known_path before
health_answer method url state =
    let path = path_of url in
    if not (text_eq method (codes "GET")) || not (known_path path)
    then Result.ok 404
    else state >>= λ snapshot.
        Result.ok (if text_eq path (codes "/livez") || snapshot.evaluation.ready then 200 else 503)
