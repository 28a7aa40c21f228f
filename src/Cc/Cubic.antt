-- ===== src/Cc/Cubic.antt =====
-- CUBIC, cc/cubic.c: its model, and what the event handlers share. Windows are in segments with 16
-- binary places, times in seconds with ten. The struct stands in two parts: `shared`, the fields that
-- HyStart++ reads or writes, and the rest. No pointer is null; flags are Booleans; the four functions
-- for the lesser and the greater of two numbers are `min` and `max` of the library. A 32-bit number
-- that is shifted left by 16 as a 64-bit one keeps its bits, so that shift is a product.
pub mod Curve
pub mod Acks
pub mod Cuts
pub mod Control
pub mod Root
pub mod Shape
pub mod Published
pub mod Clock
pub mod Serves
pub mod Served
pub mod Growth
use Prim.Native.Nat.{min, max}
use tcp_shift.Prelude.{
  ℕ, ◌+◌, ◌-◌, ◌*◌, ◌/◌, Bool, true, false, ◌||◌, ltb, ◌==◌, if◌then◌else◌, u32, u64_max,
}
use tcp_shift.Cc.{Transport, InitialWindows, Policy, Outcome}
use tcp_shift.Cc.Hystart.{Model}

-- `struct tcp_shift_cubic_model`
pub record Cubic : Type 0 where
  pub shared : Model
  pub w_max_q16 : ℕ  -- uint64_t, as the next eight
  pub w_est_q16 : ℕ
  pub cwnd_prior_q16 : ℕ
  pub cwnd_epoch_q16 : ℕ
  pub k_q10 : ℕ
  pub epoch_start_ns : ℕ
  pub last_ack_time_ns : ℕ
  pub app_limited_since_ns : ℕ
  pub last_target_q16 : ℕ
  pub min_cwnd_bytes : ℕ  -- uint32_t, as the next five
  pub ack_events : ℕ
  pub loss_events : ℕ
  pub ecn_events : ℕ
  pub timeout_events : ℕ
  pub app_limited_acks : ℕ
  pub has_w_max : Bool
  pub epoch_active : Bool
  pub app_limited_paused : Bool
  pub after_timeout : Bool
  pub fast_convergence : Bool
  pub pacing_active : Bool

abbrev pub set_cwnd : Cubic → ℕ → Cubic
set_cwnd m cwnd = record m { shared = record m.shared { cwnd_q16 = cwnd } }

abbrev pub set_ssthresh : Cubic → ℕ → Cubic
set_ssthresh m ssthresh = record m { shared = record m.shared { ssthresh_q16 = ssthresh } }

unfoldable pub add_sat : ℕ → ℕ → ℕ
add_sat left right = if ltb (u64_max - left) right then u64_max else left + right

unfoldable pub mul_sat : ℕ → ℕ → ℕ
mul_sat left right =
    if left == 0 || right == 0
    then 0
    else if ltb (u64_max / right) left
    then u64_max
    else left * right

unfoldable pub mul2_cap : ℕ → ℕ → ℕ
mul2_cap value limit = if ltb (limit / 2) value then limit else value * 2

unfoldable pub q16_from_bytes : ℕ → ℕ → ℕ
q16_from_bytes bytes mss_bytes = if mss_bytes == 0 then 0 else bytes * 65536 / mss_bytes

unfoldable pub bytes_from_q16 : ℕ → ℕ → ℕ → ℕ
bytes_from_q16 value_q16 mss_bytes limit_bytes =
    if mss_bytes == 0 || value_q16 == 0
    then 0
    else if ltb (u64_max / mss_bytes) value_q16
    then limit_bytes
    else min (value_q16 * mss_bytes / 65536) limit_bytes

unfoldable pub rescale_q16 : ℕ → ℕ → ℕ → ℕ
rescale_q16 value_q16 old_mss new_mss =
    if value_q16 == 0 || old_mss == new_mss
    then value_q16
    else if new_mss == 0 || ltb (u64_max / old_mss) value_q16
    then u64_max
    else value_q16 * old_mss / new_mss

-- `sync_mss` past its guards: all windows measured in the new segments.
unfoldable pub sync_mss : Cubic → ℕ → Cubic
sync_mss m mss =
    let rescaled = λ (value : ℕ). rescale_q16 value m.shared.mss_bytes mss in
    if m.shared.mss_bytes == mss then m else record m {
      shared = record m.shared {
        cwnd_q16 = rescaled m.shared.cwnd_q16;
        ssthresh_q16 = rescaled m.shared.ssthresh_q16;
        mss_bytes = mss;
      };
      w_max_q16 = rescaled m.w_max_q16;
      w_est_q16 = rescaled m.w_est_q16;
      cwnd_prior_q16 = rescaled m.cwnd_prior_q16;
      cwnd_epoch_q16 = rescaled m.cwnd_epoch_q16;
      last_target_q16 = rescaled m.last_target_q16;
    }

unfoldable pub effective_min : Cubic → Transport → ℕ
effective_min m t = min (max m.min_cwnd_bytes t.mss_bytes) t.cwnd_limit_bytes

unfoldable pub limit_q16 : Transport → ℕ
limit_q16 t = q16_from_bytes t.cwnd_limit_bytes t.mss_bytes

unfoldable pub normalize : Cubic → Transport → Cubic
normalize m t = record m {
  shared = record m.shared {
    cwnd_q16 =
        min (max m.shared.cwnd_q16 (q16_from_bytes (effective_min m t) t.mss_bytes)) (limit_q16 t);
    ssthresh_q16 = min m.shared.ssthresh_q16 (limit_q16 t);
  };
}

-- The byte windows of a normalised model.
unfoldable pub cwnd_of : Cubic → Transport → ℕ
cwnd_of m t = bytes_from_q16 m.shared.cwnd_q16 t.mss_bytes t.cwnd_limit_bytes

unfoldable pub ssthresh_of : Cubic → Transport → ℕ
ssthresh_of m t = bytes_from_q16 m.shared.ssthresh_q16 t.mss_bytes t.cwnd_limit_bytes

-- `publish` past `normalize`: a window below the minimum is raised, and so is a threshold of 0.
unfoldable pub raise_cwnd : Cubic → Transport → Cubic
raise_cwnd m t =
    if ltb (cwnd_of m t) (effective_min m t)
    then set_cwnd m (q16_from_bytes (effective_min m t) t.mss_bytes)
    else m

unfoldable pub raise_ssthresh : Cubic → Transport → Cubic
raise_ssthresh m t =
    if ssthresh_of m t == 0
    then set_ssthresh m (q16_from_bytes (effective_min m t) t.mss_bytes)
    else m

-- The outcome of an event that is accepted: the windows published, no rate, and 0.
unfoldable pub publish : Cubic → Transport → Outcome Cubic
publish m t =
    let n = normalize m t in
    let minimum = effective_min n t in
    (
      raise_ssthresh (raise_cwnd n t) t,
      record {
        cwnd_bytes = max (cwnd_of n t) minimum;
        ssthresh_bytes = if ssthresh_of n t == 0 then minimum else ssthresh_of n t;
        pacing_rate_bytes_per_sec = 0;
      },
      true,
    )

unfoldable pub finish_hystartpp : Cubic → Cubic
finish_hystartpp m =
    if m.shared.exit_pending
    then record m {
      shared = record m.shared {
        ssthresh_q16 = m.shared.cwnd_q16;
        enabled = false;
        css = false;
        ack_css = false;
        exit_pending = false;
        initial_complete = true;
        exit_events = u32 (m.shared.exit_events + 1);
      };
      cwnd_prior_q16 = m.shared.cwnd_q16;
      w_max_q16 = m.shared.cwnd_q16;
      has_w_max = true;
      k_q10 = 0;
      epoch_active = false;
      after_timeout = false;
    }
    else m

-- The guards that every event handler begins with, but for those of `ack` and `loss`.
unfoldable pub refused : Cubic → Transport → Bool
refused m t = t.mss_bytes == 0 || (ltb t.cwnd_limit_bytes t.mss_bytes || m.shared.mss_bytes == 0)

unfoldable pub set_fast_convergence : Cubic → Bool → Cubic
set_fast_convergence m enabled = record m { fast_convergence = enabled }
