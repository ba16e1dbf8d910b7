-- ===== src/Rc/Tests/Finish.antt =====
-- The end of the server's `main` with device memory, where the second page of the buffer is wrong.
use ibv_bench.Base.{true, ◌==◌, if◌then◌else◌}
use ibv_bench.Validate.{Memory}
use ibv_bench.Rc.Setup.{CloseAnswers, Built}
use ibv_bench.Rc.Finish.{Ends}

abbrev wrong_at_4 : Memory
wrong_at_4 j = if j == 4 then 1 else 0

abbrev ends : Ends
ends = record {
  time_ok = true;
  server = true;
  validate_buf = true;
  use_dm = true;
  copy_ok = true;
  num_cq_events = 3;
  memory = wrong_at_4;
}

abbrev built : Built
built = record {
  channel = true;
  has_dm = true;
  access_flags = 33;
  send_flags = 2;
  timestamp_mask = 0;
}

abbrev close_works : CloseAnswers
close_works = record {
  destroy_qp_ok = true;
  destroy_cq_ok = true;
  dereg_mr_ok = true;
  free_dm_ok = true;
  dealloc_pd_ok = true;
  destroy_channel_ok = true;
  close_device_ok = true;
}
