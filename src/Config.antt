-- ===== src/Config.antt =====
-- internal/config/config.go: the checks of a configuration that was read from the environment.
-- Durations count nanoseconds and may be negative; what the names of time zones are is a parameter.
pub mod Checks
use Prim.Native.String
use uban_z.Prelude.{
  ℤ, is_nonpositive, String, Bool, true, false, not, ◌&&◌, ◌||◌, Option, none, some, ◌==◌,
  trim_space, Result, ok, err, if◌then◌else◌,
}

pub record Config : Type 0 where
  pub database_url : String
  pub log_level : String
  pub shutdown_timeout : ℤ
  pub events_enabled : Bool
  pub rabbitmq_url : String
  pub jwt_secret : String
  pub parser_base_url : String
  pub parser_timeout : ℤ
  pub parser_weeks_ahead : ℤ
  pub parser_default_building : String
  pub parser_default_capacity : ℤ
  pub parser_timezone : String

abbrev pub is_log_level : String → Bool
is_log_level level = level == "debug" || (level == "info" || (level == "warn" || level == "error"))

-- `load_location` gives the error of a name that is no time zone.
unfoldable pub validate :
    (load_location : String → Option String) → Config → Result String (Unit {0})
validate load_location c =
    if c.database_url == ""
    then err "DATABASE_URL is required"
    else if not (is_log_level c.log_level)
    then err "unknown LOG_LEVEL"
    else if is_nonpositive c.shutdown_timeout
    then err "SHUTDOWN_TIMEOUT must be positive"
    else if c.events_enabled && c.rabbitmq_url == ""
    then err "EVENTS_ENABLED=true requires RABBITMQ_URL"
    else if c.jwt_secret == ""
    then err "JWT_SECRET is required"
    else if c.parser_base_url == ""
    then err "PARSER_BASE_URL is required"
    else if is_nonpositive c.parser_timeout
    then err "PARSER_TIMEOUT must be positive"
    else if is_nonpositive c.parser_weeks_ahead
    then err "PARSER_WEEKS_AHEAD must be positive"
    else if is_nonpositive c.parser_default_capacity
    then err "PARSER_DEFAULT_CAPACITY must be positive"
    else if trim_space c.parser_default_building == ""
    then err "PARSER_DEFAULT_BUILDING is required"
    else elim (load_location c.parser_timezone) [
      | none ↦ ok tt
      | some e ↦ err (String.◌++◌ "load PARSER_TIMEZONE: " e)
    ]
