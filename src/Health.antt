-- ===== src/Health.antt =====
-- src/health.rs: the policy, the probe client's interface, and the loop that waits for a container.
-- Durations and clock readings are nanoseconds. An `error_message` is one constructor for each text.
pub mod Mock
pub mod Outcome
pub mod Judgement
pub mod Scripted
use hostinger.Prelude.{
  ℕ, zero, suc, ◌+◌, ◌-◌, ◌/◌, ◌%◌, ◌^◌, String, Bool, true, false, not, ◌&&◌, Option, none, some,
  List, [], ◌∷◌, ◌++◌, str_eq, str_append, to_string, ltb, ◌==◌, if◌then◌else◌, contains, lookup,
  trim_end_matches, starts_with_char, to_lowercase,
}
use Prim.Native.Nat.{max}
use mathlib.Core.List.{get_last?}
use hostinger.Exec.{Result, ok, err, Exec, pure, call, catch, now_utc, sleep, ◌>>=◌, ◌>>◌}

pub record HealthPolicy : Type 0 where
  pub path : String
  pub port : ℕ  -- u16
  pub interval : ℕ
  pub timeout : ℕ
  pub attempts : ℕ  -- u32
  pub expected_status : ℕ  -- u16
  pub grace_period : ℕ
  pub expected_body_contains : Option String
  pub expected_headers : List (String × String)

abbrev pub default_policy : HealthPolicy
default_policy = record {
  path = "/health";
  port = 8080;
  interval = 100_000_000;
  timeout = 2_000_000_000;
  attempts = 5;
  expected_status = 200;
  grace_period = 0;
  expected_body_contains = none;
  expected_headers = [];
}

pub data Message : Type 0 where
  unexpected_status : ℕ → ℕ → Message
  missing_substring : String → Message
  header_mismatch : String → String → String → Message
  missing_header : String → Message
  probe_failed : String → Message
  all_attempts_failed check_failed : Message

-- The texts, by their `format!` strings.
unfoldable pub text_of : Message → String
text_of (unexpected_status expected got) =
    str_append "expected HTTP status "
      (str_append (to_string expected) (str_append ", got " (to_string got)))
text_of (missing_substring required_text) =
    str_append "response body does not contain expected substring '" (str_append required_text "'")
text_of (header_mismatch key expected actual) = str_append "header '" (
    str_append key (
      str_append "' expected '"
        (str_append expected (str_append "', got '" (str_append actual "'")))))
text_of (missing_header key) = str_append "missing expected header '" (str_append key "'")
text_of (probe_failed e) = e
text_of all_attempts_failed = "health check failed all attempts"
text_of check_failed = "health check failed"

pub record HealthAttemptRecord : Type 0 where
  pub attempt : ℕ
  pub status_code : Option ℕ
  pub is_healthy : Bool
  pub error_message : Option Message
  pub latency_ms : ℕ
  pub timestamp : ℕ

pub record HealthCheckResult : Type 0 where
  pub is_healthy : Bool
  pub attempts : List HealthAttemptRecord
  pub final_error : Option Message

pub record ProbeResponse : Type 0 where
  pub status : ℕ
  pub headers : List (String × String)
  pub body : String

-- `trait HealthProbeClient`, over the state `X` that its calls may change.
pub record HealthProbeClient (X : Type 0) : Type 0 where
  pub probe : String → ℕ → X → Result String ProbeResponse × X

-- The loop over `expected_headers`; a HashMap is the list of its entries in iteration order. The
-- names of headers are ASCII, so `to_lowercase` lowers their ASCII letters.
check_headers : List (String × String) → ProbeResponse → Option Message
check_headers [] resp = none
check_headers ((header_key, expected_val) ∷ rest) resp =
    elim (lookup (to_lowercase header_key) resp.headers) [
      | none ↦ some (missing_header header_key)
      | some actual_val ↦
          if str_eq actual_val expected_val
          then check_headers rest resp
          else some (header_mismatch header_key expected_val actual_val)
    ]

check_body : Option String → ProbeResponse → Option Message
check_body none resp = none
check_body (some required_text) resp =
    if not (contains resp.body required_text) then some (missing_substring required_text) else none

or_else : Option Message → Option Message → Option Message
or_else (some m) other = some m
or_else none other = other

-- What is wrong with a response: `error_msg`, which is set exactly if `is_healthy` is cleared.
pub judge : HealthPolicy → ProbeResponse → Option Message
unfolding or_else
judge policy resp =
    if not (resp.status == policy.expected_status)
    then some (unexpected_status policy.expected_status resp.status)
    else or_else (check_body policy.expected_body_contains resp)
        (check_headers policy.expected_headers resp)

abbrev is_none : Option Message → Bool
is_none none = true
is_none (some m) = false

-- The verdict of one answer, as the three fields that the two arms of the `match` fill.
unfoldable pub verdict :
    HealthPolicy → Result String ProbeResponse → Option ℕ × Bool × Option Message
verdict policy (ok resp) = (some resp.status, is_none (judge policy resp), judge policy resp)
verdict policy (err e) = (none, false, some (probe_failed e))

-- `trim_end_matches('/')` on the base, and a `/` before a path that has none
unfoldable pub probe_url : String → String → String
probe_url base_url path =
    str_append (trim_end_matches b'/' base_url)
      (if starts_with_char b'/' path then path else str_append "/" path)

-- `attempts.last().and_then(|a| a.error_message.clone())`, with the text for none
pub last_error : List HealthAttemptRecord → Message
last_error attempts = elim (get_last? attempts) [
  | none ↦ all_attempts_failed
  | some a ↦ elim a.error_message [ none ↦ all_attempts_failed | some m ↦ m ]
]

-- The sleep between two attempts; none follows the last.
unfoldable pub pause : {X E : Type 0} → HealthPolicy → ℕ → Exec X E (Unit {0})
pause policy zero = pure tt
pause policy (suc left) = if ltb 0 policy.interval then sleep policy.interval else pure tt

module _ {X E : Type 0} (client : HealthProbeClient X) (url : String) (policy : HealthPolicy) where
  -- One round of the loop, up to the record that it pushes.
  unfoldable pub probe_once : ℕ → Exec X E HealthAttemptRecord
  probe_once attempt_num = do
    start ← now_utc
    timestamp ← now_utc
    probe_res ← catch {E = String} (call (client.probe url policy.timeout))
    finish ← now_utc
    pure (record {
      attempt = attempt_num;
      status_code = (verdict policy probe_res).0;
      is_healthy = (verdict policy probe_res).1;
      error_message = (verdict policy probe_res).2;
      latency_ms = (finish - start) / 1_000_000 % 2 ^ 64;
      timestamp = timestamp;
    })

  -- The rounds `attempt_num..=max_attempts`, of which `left` are to come.
  unfoldable pub poll : ℕ → ℕ → List HealthAttemptRecord → Exec X E HealthCheckResult
  poll zero attempt_num attempts =
      pure (record {
        is_healthy = false;
        attempts = attempts;
        final_error = some (last_error attempts);
      })
  poll (suc left) attempt_num attempts = do
    a ← probe_once attempt_num
    if a.is_healthy
        then pure (record { is_healthy = true; attempts = attempts ++ a ∷ []; final_error = none })
        else (do pause policy left; poll left (suc attempt_num) (attempts ++ a ∷ []))

module _ {X E : Type 0} (client : HealthProbeClient X) where
  unfoldable pub wait_until_healthy : String → HealthPolicy → Exec X E HealthCheckResult
  wait_until_healthy base_url policy = do
    if ltb 0 policy.grace_period then sleep policy.grace_period else pure tt
    poll client (probe_url base_url policy.path) policy (max policy.attempts 1) 1 []
