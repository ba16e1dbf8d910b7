-- ===== src/Log/Names.antt =====
-- modules/log/mlog.c: the names that MLOG_Init reads, beside those of `log_levels` that are printed.
use ibv_bench.Base.{◌≤◌, ◌≡◌, refl, false, some, arith}
use ibv_bench.Base.Text.{text_eq}
use ibv_bench.Log.{
  LogLevel, log_none, log_warn, log_trace, log_info, log_debug, log_max, level_number, mlog_init,
}
use ibv_bench.Log.Line.{log_levels}

-- The name that is printed for a level from WARN to DEBUG sets that level when it is the value of
-- the environment variable, without a warning.
pub mlog_init-log_levels :
    (level old : LogLevel)
    → 1 ≤ level_number level
    → level_number level ≤ 4
    → mlog_init (some (log_levels level)) old ≡ (level, false)
unfolding mlog_init log_levels text_eq
mlog_init-log_levels log_none old low high = absurd (omega arith)
mlog_init-log_levels log_warn old low high = refl
mlog_init-log_levels log_trace old low high = refl
mlog_init-log_levels log_info old low high = refl
mlog_init-log_levels log_debug old low high = refl
mlog_init-log_levels log_max old low high = absurd (omega arith)
