-- ===== src/Cc/Bbr/Policy.antt =====
-- The policies of BBR in startup and drain, cc/bbr.c and cc/bbr_drain.c.
use Prim.Native.Nat.{min, max}
use tcp_shift.Prelude.{
  ℕ, ◌+◌, ◌*◌, ◌/◌, Bool, not, ◌&&◌, ◌||◌, Option, none, some, ltb, leb, ◌==◌, ◌/=◌, if◌then◌else◌,
}
use tcp_shift.Cc.{Transport, RateSample, Ack, Policy}
use tcp_shift.Cc.Bbr.{
  Bbr, drain, probe_bw, is_startup, is_drain, bdp_bytes, startup_pacing_rate, drain_pacing_rate,
  minimum_cwnd, startup_cwnd_target,
}

abbrev pub known_min_rtt : Bbr → ℕ
known_min_rtt m = if m.has_min_rtt then m.min_rtt_ns else 0

-- The minimum of `startup_policy`, which divides where the others multiply.
unfoldable pub divided_minimum : Transport → ℕ
divided_minimum t =
    if ltb (t.cwnd_limit_bytes / 4) t.mss_bytes then t.cwnd_limit_bytes else t.mss_bytes * 4

-- The window of startup for bytes acknowledged.
unfoldable pub startup_cwnd : Bbr → Transport → Ack → ℕ → ℕ → ℕ → ℕ
startup_cwnd m t ack initial current target =
    let grown = min (current + ack.acked_bytes) t.cwnd_limit_bytes in
    if ack.acked_bytes == 0
    then current
    else if m.full_bw_reached
    then min grown target
    else if ltb current target || ltb ack.rate.delivered_total_bytes initial
    then grown
    else current

unfoldable pub startup_refused : Bbr → Transport → ℕ → ℕ → Bool
startup_refused m t initial current =
    not (is_startup m.mode)
    || (t.mss_bytes == 0
        || (t.cwnd_limit_bytes == 0
            || (ltb t.cwnd_limit_bytes t.mss_bytes
                || (initial == 0
                    || (ltb t.cwnd_limit_bytes initial
                        || (current == 0 || ltb t.cwnd_limit_bytes current))))))

unfoldable pub startup_policy : Bbr → Transport → Ack → ℕ → ℕ → ℕ → Option Policy
startup_policy m t ack initial current current_rate =
    let target =
      startup_cwnd_target m.max_bw (known_min_rtt m) t.mss_bytes t.cwnd_limit_bytes initial in
    if startup_refused m t initial current
    then none
    else if target == 0
    then none
    else some (record {
      cwnd_bytes =
          min (max (startup_cwnd m t ack initial current target) (divided_minimum t))
            t.cwnd_limit_bytes;
      ssthresh_bytes = t.cwnd_limit_bytes;
      pacing_rate_bytes_per_sec = max (startup_pacing_rate m.max_bw) current_rate;
    })

-- Startup left for drain, once the pipe is full.
unfoldable pub enter_drain : Bbr → Bbr
enter_drain m = if is_startup m.mode && m.full_bw_reached then record m { mode = drain } else m

-- Whether the bytes in flight can be compared yet.
unfoldable pub drain_blocked : Bbr → RateSample → Bool
drain_blocked m s =
    not (is_drain m.mode)
    || (not s.valid || (m.max_bw == 0 || (not m.has_min_rtt || m.min_rtt_ns == 0)))

unfoldable pub check_drain : Bbr → RateSample → Bbr
check_drain m s =
    let d = enter_drain m in
    let target = bdp_bytes d.max_bw d.min_rtt_ns in
    if drain_blocked d s
    then d
    else if target == 0
    then d
    else if leb s.prior_inflight_bytes target
    then record d { mode = probe_bw }
    else d

unfoldable pub drain_cwnd : Transport → Ack → ℕ → ℕ → ℕ
drain_cwnd t ack current target =
    if ack.acked_bytes == 0
    then current
    else min (min (current + ack.acked_bytes) t.cwnd_limit_bytes) target

unfoldable pub drain_ssthresh : Bbr → Transport → ℕ → ℕ
drain_ssthresh m t minimum =
    let target =
      if m.has_min_rtt && m.min_rtt_ns /= 0 then bdp_bytes m.max_bw m.min_rtt_ns else minimum in
    min (max target minimum) t.cwnd_limit_bytes

unfoldable pub drain_refused : Bbr → Transport → ℕ → Bool
drain_refused m t current =
    not (is_drain m.mode)
    || (not m.full_bw_reached
        || (m.max_bw == 0
            || (t.mss_bytes == 0
                || (t.cwnd_limit_bytes == 0
                    || (ltb t.cwnd_limit_bytes t.mss_bytes
                        || (current == 0 || ltb t.cwnd_limit_bytes current))))))

unfoldable pub drain_policy : Bbr → Transport → Ack → ℕ → Option Policy
drain_policy m t ack current =
    let minimum = minimum_cwnd t.mss_bytes t.cwnd_limit_bytes in
    let target =
      startup_cwnd_target m.max_bw (known_min_rtt m) t.mss_bytes t.cwnd_limit_bytes minimum in
    if drain_refused m t current
    then none
    else if target == 0
    then none
    else some (record {
      cwnd_bytes = min (max (drain_cwnd t ack current target) minimum) t.cwnd_limit_bytes;
      ssthresh_bytes = drain_ssthresh m t minimum;
      pacing_rate_bytes_per_sec = drain_pacing_rate m.max_bw;
    })
