-- ===== src/Logging.antt =====
-- pkg/logging/logger.go and pkg/logging/component.go: the process-wide logger; zerolog is taken as
-- a record of how a logger is built. Middleware has the gRPC interceptor.
pub mod Middleware
use csi_driver_ipfs.Base.{ℕ, ◌≡◌, refl, ◌≢◌, Bool, true, List, [], ◌∷◌, ◌++◌, if◌then◌else◌, arith}
use csi_driver_ipfs.Text.{Text, lit, text_eq, text_eq_iff}

pub data Level : Type 0 where
  trace debug info warn error : Level

abbrev pub log_encoding_json : Text
log_encoding_json = lit "json"

-- The value of the constant that names a level.
abbrev pub level_name : Level → Text
level_name trace = lit "trace"
level_name debug = lit "debug"
level_name info = lit "info"
level_name warn = lit "warn"
level_name error = lit "error"

unfoldable pub parse_level : Text → Level
parse_level s =
    if text_eq s (level_name trace)
    then trace
    else if text_eq s (level_name debug)
    then debug
    else if text_eq s (level_name info)
    then info
    else if text_eq s (level_name warn)
    then warn
    else if text_eq s (level_name error)
    then error
    else info

-- os.Stdout itself, or a zerolog.ConsoleWriter over it with time.RFC3339.
pub data Writer : Type 0 where
  stdout console : Writer

pub data Hook : Type 0 where
  pid_hook gid_hook : Hook

-- A field that a hook adds to an event.
pub data Field : Type 0 where
  pid gid : ℕ → Field
  component : Text → Field

pub record Logger : Type 0 where
  pub writer : Writer
  pub hooks : List Hook
  pub context : List Field
  pub timestamp : Bool
  pub caller : Bool

-- The global level and log.Logger.
pub record Global : Type 0 where
  pub level : Level
  pub logger : Logger

-- Run of the two hooks; `getpid` is os.Getpid and `goid` routine.Goid.
unfoldable pub run_hook : ℕ → ℕ → Hook → List Field → List Field
run_hook getpid goid pid_hook event = event ++ pid getpid ∷ []
run_hook getpid goid gid_hook event = event ++ gid goid ∷ []

unfoldable pub setup_logger : Text → Text → Global
setup_logger level encoding = record {
  level = parse_level level;
  logger = record {
    writer = if text_eq encoding log_encoding_json then stdout else console;
    hooks = pid_hook ∷ gid_hook ∷ [];
    context = [];
    timestamp = true;
    caller = true;
  };
}

unfoldable pub new_component_logger : Text → Global → Logger
new_component_logger name global = record global.logger {
  context = global.logger.context ++ component name ∷ [];
}

-- A level's name gives the level.
pub parse_level-level_name : (l : Level) → parse_level (level_name l) ≡ l
unfolding parse_level text_eq
parse_level-level_name trace = refl
parse_level-level_name debug = refl
parse_level-level_name info = refl
parse_level-level_name warn = refl
parse_level-level_name error = refl

-- A text that names no level gives info.
pub parse_level_other : (s : Text) → ((l : Level) → s ≢ level_name l) → parse_level s ≡ info
unfolding parse_level
parse_level_other s other = ground (
  arith,
  other trace,
  other debug,
  other warn,
  other error,
  text_eq_iff s (level_name trace),
  text_eq_iff s (level_name debug),
  text_eq_iff s (level_name warn),
  text_eq_iff s (level_name error),
)
