-- ===== src/Batch/Config.antt =====
-- pkg/batch/config.go, and the configuration record of pkg/batch/interfaces.go. Sizes, attempts and
-- durations are Go's signed integers.
use vehicle_telematics.Base.{
  ◌*◌, String, ◌≡◌, ◌↔◌, Bool, true, Option, none, some, arith, if◌then◌else◌, str_eq,
}
use vehicle_telematics.Base.Int.{ℤ, pos, ltb_ℤ, leb_ℤ, ◌≤ℤ◌}
use vehicle_telematics.Base.Time.{second, minute}

pub record BatchConfig : Type 0 where
  pub max_batch_size : ℤ
  pub batch_interval : ℤ
  pub max_wait_time : ℤ
  pub retry_attempts : ℤ
  pub retry_backoff : ℤ

unfoldable pub default_batch_config : BatchConfig
default_batch_config = record {
  max_batch_size = pos 50;
  batch_interval = pos (30 * second);
  max_wait_time = pos (5 * minute);
  retry_attempts = pos 3;
  retry_backoff = pos second;
}

-- `strconv.Atoi` and `time.ParseDuration`, on the texts that they accept.
pub record Parsers : Type 0 where
  pub atoi : String → Option ℤ
  pub parse_duration : String → Option ℤ

-- `if val := os.Getenv(name); val != ""`, then the parsed value if `accept` lets it pass.
abbrev pub setting : (String → Option ℤ) → (ℤ → Bool) → String → ℤ → ℤ
setting parse accept val default =
    if str_eq val ""
    then default
    else elim (parse val) [ none ↦ default | some v ↦ if accept v then v else default ]

unfoldable pub load_batch_config_from_env : Parsers → (String → String) → BatchConfig
unfolding default_batch_config
load_batch_config_from_env p getenv =
    let config = default_batch_config in
    record {
      max_batch_size =
          setting p.atoi (λ n. ltb_ℤ (pos 0) n) (getenv "BATCH_MAX_SIZE") config.max_batch_size;
      batch_interval =
          setting p.parse_duration (λ _. true) (getenv "BATCH_INTERVAL") config.batch_interval;
      max_wait_time =
          setting p.parse_duration (λ _. true) (getenv "BATCH_MAX_WAIT_TIME") config.max_wait_time;
      retry_attempts =
          setting p.atoi (λ n. leb_ℤ (pos 0) n) (getenv "BATCH_RETRY_ATTEMPTS")
            config.retry_attempts;
      retry_backoff =
          setting p.parse_duration (λ _. true) (getenv "BATCH_RETRY_BACKOFF") config.retry_backoff;
    }

pub data ConfigError : Type 0 where
  invalid_batch_size invalid_batch_interval invalid_max_wait_time invalid_retry_attempts
        invalid_retry_backoff :
      ConfigError

unfoldable pub validate_config : BatchConfig → Option ConfigError
validate_config config =
    if leb_ℤ config.max_batch_size (pos 0)
    then some invalid_batch_size
    else if leb_ℤ config.batch_interval (pos 0)
    then some invalid_batch_interval
    else if leb_ℤ config.max_wait_time (pos 0)
    then some invalid_max_wait_time
    else if ltb_ℤ config.retry_attempts (pos 0)
    then some invalid_retry_attempts
    else if ltb_ℤ config.retry_backoff (pos 0)
    then some invalid_retry_backoff
    else none

-- A configuration that the processor can run with.
pub record IsUsable (config : BatchConfig) : Type 0 where
  pub sized : pos 1 ≤ℤ config.max_batch_size
  pub ticks : pos 1 ≤ℤ config.batch_interval
  pub waits : pos 1 ≤ℤ config.max_wait_time
  pub retries : pos 0 ≤ℤ config.retry_attempts
  pub backs_off : pos 0 ≤ℤ config.retry_backoff

validate_config_sound : (config : BatchConfig) → validate_config config ≡ none → IsUsable config
unfolding validate_config
validate_config_sound config e = ground arith

validate_config_complete : (config : BatchConfig) → IsUsable config → validate_config config ≡ none
unfolding validate_config
validate_config_complete config u = ground arith

-- `ValidateConfig` accepts exactly the configurations with a positive batch size and positive
-- intervals, and attempts and backoff that are not negative.
pub validate_config_lem : (config : BatchConfig) → (validate_config config ≡ none) ↔ IsUsable config
validate_config_lem config = (validate_config_sound config, validate_config_complete config)

-- Whatever the environment holds, the loaded batch size is positive and the attempts are not
-- negative; the durations are taken as they are parsed, so the result may still be refused.
pub load-sized :
    (p : Parsers) (getenv : String → String)
    → let config = load_batch_config_from_env p getenv in
      (pos 1 ≤ℤ config.max_batch_size) × (pos 0 ≤ℤ config.retry_attempts)
unfolding load_batch_config_from_env
load-sized p getenv = ground arith
