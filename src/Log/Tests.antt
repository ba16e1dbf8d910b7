-- ===== src/Log/Tests.antt =====
-- A line of the log at fixed values.
use ibv_bench.Base.{◌≡◌, ◌≢◌, ◌++◌, ◌-◌, arith, false, if◌then◌else◌, leb, length, take, some}
use ibv_bench.Base.Text.{codes}
use ibv_bench.Log.{log_none, log_warn, log_info, level_number, mlog_init, log_debug}
use ibv_bench.Log.Line.{
  Place, line_head, silent, printed, overrun, buf_size, mlog_log, mlog_log-prints, log_levels,
}
use ibv_bench.Log.Names.{mlog_init-log_levels}

abbrev here : Place
here = record { pid = 42; file = codes "a.c"; func = codes "main"; line = 7 }

warn_is_some : log_warn ≢ log_none
warn_is_some h = cc

mlog_log-prints_example : mlog_log log_info log_warn here (codes "hello") ≡ (
    let line = line_head here log_warn ++ codes "hello" in
    if leb (level_number log_warn) (level_number log_info)
    then if leb (length (line_head here log_warn)) buf_size
      then printed (take (buf_size - 1) line)
      else overrun
    else silent)
mlog_log-prints_example = mlog_log-prints log_info log_warn here (codes "hello") warn_is_some

mlog_init-log_levels_example : mlog_init (some (log_levels log_debug)) log_warn ≡ (log_debug, false)
mlog_init-log_levels_example = mlog_init-log_levels log_debug log_warn (omega arith) (omega arith)
