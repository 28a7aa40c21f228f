-- ===== src/Cc/Cubic/Acks.antt =====
-- What CUBIC does on an ACK, cc/cubic.c.
use Prim.Native.Nat.{min, max}
use tcp_shift.Prelude.{
  ℕ, ◌+◌, ◌-◌, ◌*◌, ◌/◌, Bool, true, false, not, ◌&&◌, ◌||◌, ltb, leb, ◌==◌, ◌/=◌, if◌then◌else◌,
  u32, u64, u64_max,
}
use tcp_shift.Cc.{Transport, Ack, Policy, Outcome}
use tcp_shift.Cc.Cubic.{
  Cubic, set_cwnd, add_sat, q16_from_bytes, sync_mss, limit_q16, normalize, cwnd_of, publish,
  finish_hystartpp, refused,
}
use tcp_shift.Cc.Cubic.Curve.{time_q10, nonzero_time_q10, window_q16, start_epoch}

unfoldable pub ratio_q16 : ℕ → ℕ → ℕ
ratio_q16 numerator denominator = if denominator == 0 then 0 else numerator * 65536 / denominator

unfoldable pub update_w_est : Cubic → ℕ → ℕ → ℕ → Cubic
update_w_est m acked_bytes cwnd_bytes limit =
    let ratio = ratio_q16 acked_bytes cwnd_bytes in
    let increment = if ltb m.w_est_q16 m.cwnd_prior_q16 then u64 (ratio * 9) / 17 else ratio in
    record m { w_est_q16 = min (add_sat m.w_est_q16 increment) limit }

-- The difference of two times as the C type gives it.
unfoldable pub elapsed : ℕ → ℕ → ℕ
elapsed now_ns start_ns = u64 (now_ns + (u64_max + 1 - start_ns))

-- An ACK limited by the application in congestion avoidance: the epoch's clock is stopped.
unfoldable pub pause : Cubic → ℕ → Cubic
pause m now_ns = record m {
  app_limited_since_ns =
      if m.app_limited_paused
      then m.app_limited_since_ns
      else if m.ack_events /= 0
      then m.last_ack_time_ns
      else now_ns;
  app_limited_paused = true;
  last_ack_time_ns = now_ns;
  ack_events = u32 (m.ack_events + 1);
}

-- Another ACK: the time the clock stood still is added to the epoch's start.
unfoldable pub resume : Cubic → ℕ → Cubic
resume m now_ns =
    let counted = record m { last_ack_time_ns = now_ns; ack_events = u32 (m.ack_events + 1) } in
    if m.app_limited_paused
    then record counted {
      epoch_start_ns =
          if m.epoch_active && leb m.app_limited_since_ns now_ns
          then add_sat m.epoch_start_ns (now_ns - m.app_limited_since_ns)
          else m.epoch_start_ns;
      app_limited_paused = false;
      app_limited_since_ns = 0;
    }
    else counted

unfoldable pub slow_start : Cubic → Transport → ℕ → Cubic
slow_start m t acked_bytes =
    let cwnd = cwnd_of m t in
    let increase = if m.shared.ack_css then acked_bytes / 4 else acked_bytes in
    let grown =
      if ltb (t.cwnd_limit_bytes - cwnd) increase then t.cwnd_limit_bytes else cwnd + increase in
    set_cwnd m (q16_from_bytes grown t.mss_bytes)

-- The window that the curve asks for one RTT ahead, within what one RTT may add.
unfoldable pub target : Cubic → Transport → ℕ → ℕ → ℕ
target m t elapsed_q10 srtt_ns =
    let ahead = window_q16 m (add_sat elapsed_q10 (nonzero_time_q10 srtt_ns)) in
    let cwnd = m.shared.cwnd_q16 in
    min (max ahead cwnd) (min (add_sat cwnd (cwnd / 2)) (limit_q16 t))

unfoldable pub approach : Cubic → ℕ → Cubic
approach m target_q16 =
    let difference = target_q16 - m.shared.cwnd_q16 in
    let cwnd =
      if difference /= 0 && m.shared.cwnd_q16 /= 0
      then add_sat m.shared.cwnd_q16 (u64 (difference * 65536) / m.shared.cwnd_q16)
      else m.shared.cwnd_q16 in
    record (set_cwnd m cwnd) { last_target_q16 = target_q16 }

-- The part of `avoidance` on the estimate of Reno's window, and that on the curve.
unfoldable pub follow : Cubic → Transport → ℕ → ℕ → Cubic
follow m t elapsed_q10 srtt_ns =
    if ltb (window_q16 m elapsed_q10) m.w_est_q16
    then record (set_cwnd m (max m.shared.cwnd_q16 m.w_est_q16)) { last_target_q16 = m.w_est_q16 }
    else approach m (target m t elapsed_q10 srtt_ns)

unfoldable pub with_epoch : Cubic → ℕ → Cubic
with_epoch m now_ns = if m.epoch_active then m else start_epoch m now_ns

unfoldable pub avoidance : Cubic → Transport → ℕ → ℕ → ℕ → Cubic
avoidance m t acked_bytes now_ns srtt_ns =
    let e = with_epoch m now_ns in
    let w = update_w_est e acked_bytes (cwnd_of e t) (limit_q16 t) in
    follow w t (time_q10 (elapsed now_ns w.epoch_start_ns)) srtt_ns

-- The part of `on_ack` past the application limit.
unfoldable pub grow : Cubic → Transport → ℕ → ℕ → ℕ → Cubic
grow m t acked_bytes now_ns srtt_ns =
    if ltb m.shared.cwnd_q16 m.shared.ssthresh_q16
    then finish_hystartpp (slow_start m t acked_bytes)
    else avoidance m t acked_bytes now_ns srtt_ns

unfoldable pub count_limited : Cubic → Bool → Cubic
count_limited m limited =
    if limited then record m { app_limited_acks = u32 (m.app_limited_acks + 1) } else m

unfoldable pub avoiding : Cubic → Bool
avoiding m = leb m.shared.ssthresh_q16 m.shared.cwnd_q16

-- The model after an ACK that is accepted, before it is published.
unfoldable pub acknowledge : Cubic → Transport → Ack → ℕ → ℕ → Cubic
acknowledge m t ack now_ns srtt_ns =
    let c = count_limited m ack.rate.app_limited in
    if ack.rate.app_limited && avoiding m
    then finish_hystartpp (pause c now_ns)
    else grow (resume c now_ns) t ack.acked_bytes now_ns srtt_ns

unfoldable pub on_ack : Cubic → Transport → Ack → ℕ → ℕ → Policy → Outcome Cubic
on_ack m t ack now_ns srtt_ns policy =
    if ack.acked_bytes == 0 || refused m t
    then (m, policy, false)
    else let synced = sync_mss m t.mss_bytes in
      let n = normalize synced t in
      if synced.ack_events /= 0 && ltb now_ns synced.last_ack_time_ns
      then (synced, policy, false)
      else if not ack.rate.app_limited && (avoiding n && srtt_ns == 0)
      then (n, policy, false)
      else publish (acknowledge n t ack now_ns srtt_ns) t
