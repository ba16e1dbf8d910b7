-- ===== src/Log.antt =====
-- modules/log/mlog.c: the log level from the environment, and one line of the log.
pub mod Line
pub mod Names
mod Tests
use ibv_bench.Base.{
  ℕ, zero, suc, ◌+◌, ◌≤◌, ◌<◌, ◌≡◌, refl, Bool, true, false, Option, none, some, List, [], ◌∷◌,
  arith, ltb, leb, ◌==◌, ◌||◌, if◌then◌else◌,
}
use Prim.Native.String.{String}
use ibv_bench.Base.Text.{Text, codes, text_eq, text_eq_iff}

-- `enum MLOG_log_level_t`
pub data LogLevel : Type 0 where
  log_none log_warn log_trace log_info log_debug log_max : LogLevel

abbrev pub level_number : LogLevel → ℕ
level_number log_none = 0
level_number log_warn = 1
level_number log_trace = 2
level_number log_info = 3
level_number log_debug = 4
level_number log_max = 5

-- `strcmp(p, lower) == 0 || strcmp(p, upper) == 0`
is_either : Text → String → String → Bool
is_either p lower upper = text_eq p (codes lower) || text_eq p (codes upper)

-- The ladder of MLOG_Init on the value of MLOG_LOG_LEVEL; none for the last `else`.
pub named_level : Text → Option LogLevel
unfolding is_either
named_level p =
    if is_either p "none" "NONE"
    then some log_none
    else if is_either p "warn" "WARN"
    then some log_warn
    else if is_either p "trace" "TRACE"
    then some log_trace
    else if is_either p "info" "INFO"
    then some log_info
    else if is_either p "debug" "DEBUG"
    then some log_debug
    else if is_either p "max" "MAX"
    then some log_max
    else none

-- The level set, and whether the warning about an unknown name is logged.
level_or_warning : Option LogLevel → LogLevel → LogLevel × Bool
level_or_warning (some l) old = (l, false)
level_or_warning none old = (old, true)

-- MLOG_Init: the new MLOG_LOG_LEVEL, which it returns, and whether it warns.
unfoldable pub mlog_init : Option Text → LogLevel → LogLevel × Bool
unfolding named_level level_or_warning
mlog_init none old = (old, false)
mlog_init (some p) old = level_or_warning (named_level p) old
