-- ===== src/Rc/Timestamp.antt =====
-- rdma-core/rc_pingpong.c: `struct ts_params` and the part of `parse_single_wc` that keeps it.
use native.Mathlib.Nat.{mod-eq_of_lt}
use ibv_bench.Base.{
  ℕ, ◌+◌, ◌-◌, ◌%◌, ◌^◌, ◌≤◌, ◌<◌, ◌≡◌, Bool, true, false, arith, ltb, leb, if◌then◌else◌,
}

pub record TsParams : Type 0 where
  pub comp_recv_max_time_delta : ℕ
  pub comp_recv_min_time_delta : ℕ
  pub comp_recv_total_time_delta : ℕ
  pub comp_recv_prev_time : ℕ
  pub last_comp_with_ts : Bool
  pub comp_with_time_iters : ℕ

-- What `main` sets with `use_ts`.
abbrev pub ts_init : TsParams
ts_init = record {
  comp_recv_max_time_delta = 0;
  comp_recv_min_time_delta = 0xffffffff;
  comp_recv_total_time_delta = 0;
  comp_recv_prev_time = 0;
  last_comp_with_ts = false;
  comp_with_time_iters = 0;
}

-- The time between two stamps of a clock that wraps around at `mask + 1`, in `uint64_t`.
pub clock_delta : ℕ → ℕ → ℕ → ℕ
clock_delta mask prev now =
    if leb prev now then now - prev else (mask + 2 ^ 64 - prev + now + 1) % 2 ^ 64

-- The macros `max` and `min` of rdma-core/config.h.
pub macro_max : ℕ → ℕ → ℕ
macro_max a b = if ltb b a then a else b

pub macro_min : ℕ → ℕ → ℕ
macro_min a b = if ltb a b then a else b

add_delta : ℕ → TsParams → TsParams
unfolding macro_max macro_min
add_delta delta ts = record ts {
  comp_recv_max_time_delta = macro_max ts.comp_recv_max_time_delta delta;
  comp_recv_min_time_delta = macro_min ts.comp_recv_min_time_delta delta;
  comp_recv_total_time_delta = (ts.comp_recv_total_time_delta + delta) % 2 ^ 64;
  comp_with_time_iters = (ts.comp_with_time_iters + 1) % 2 ^ 32;
}

stamp_now : ℕ → TsParams → TsParams
stamp_now now ts = record ts { comp_recv_prev_time = now; last_comp_with_ts = true }

-- The block under `++(*rcnt)`.
unfoldable pub record_stamp : Bool → ℕ → ℕ → TsParams → TsParams
unfolding add_delta stamp_now
record_stamp use_ts mask now ts =
    if use_ts
    then stamp_now now (
        if ts.last_comp_with_ts
        then add_delta (clock_delta mask ts.comp_recv_prev_time now) ts
        else ts)
    else record ts { last_comp_with_ts = false }

-- Without a wrap-around of the unsigned arithmetic.
clock_delta-eq :
    (mask prev now : ℕ)
    → mask < 2 ^ 64
    → prev ≤ mask
    → clock_delta mask prev now ≡ (if leb prev now then now - prev else mask - prev + now + 1)
unfolding clock_delta
clock_delta-eq mask prev now hm hp = ground arith

mod_period : (m k : ℕ) → k < m → (k % m ≡ k) × ((m + k) % m ≡ k)
mod_period m k h = (mod-eq_of_lt h, grind arith)

-- For two stamps of a clock with `mask + 1` values, where `mask` has 64 bits, the difference is
-- the time that has passed modulo the clock's period, also after a wrap-around, and it is at most
-- `mask`.
pub clock_delta_lem :
    (mask prev now : ℕ)
    → mask < 2 ^ 64
    → prev ≤ mask
    → now ≤ mask
    → ((prev + clock_delta mask prev now) % (mask + 1) ≡ now) × (clock_delta mask prev now ≤ mask)
clock_delta_lem mask prev now hm hp hn =
    ground (arith, clock_delta-eq mask prev now hm hp, mod_period (mask + 1) now)
