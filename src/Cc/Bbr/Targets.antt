-- ===== src/Cc/Bbr/Targets.antt =====
-- What the policies of BBR publish, cc/bbr.c and cc/bbr_drain.c.
use Prim.Native.Nat.{min}
use tcp_shift.Prelude.{ℕ, ◌*◌, ◌≤◌, ◌<◌, ◌≡◌, refl, false, Option, some, ◌==◌, arith, if_elim}
use tcp_shift.Cc.{Transport, Ack, Policy}
use tcp_shift.Cc.Bbr.{Bbr, drain_pacing_rate, minimum_cwnd, startup_cwnd_target}
use tcp_shift.Cc.Bbr.Policy.{
  known_min_rtt, divided_minimum, startup_refused, startup_policy, drain_ssthresh, drain_refused,
  drain_policy,
}

-- A policy given, with a window of at least four segments, or the limit if that is less, and within the
-- limit, a threshold in the same bounds and a rate of at least `rate`.
pub data Given (t : Transport) (rate : ℕ) : Option Policy → Type 0 where
  given :
      (p : Policy)
      → min (t.mss_bytes * 4) t.cwnd_limit_bytes ≤ p.cwnd_bytes
      → p.cwnd_bytes ≤ t.cwnd_limit_bytes
      → min (t.mss_bytes * 4) t.cwnd_limit_bytes ≤ p.ssthresh_bytes
      → p.ssthresh_bytes ≤ t.cwnd_limit_bytes
      → rate ≤ p.pacing_rate_bytes_per_sec
      → Given t rate (some p)

target-pos :
    (m : Bbr) (t : Transport) (initial : ℕ)
    → 0 < t.mss_bytes
    → 0 < t.cwnd_limit_bytes
    → 0 < startup_cwnd_target m.max_bw (known_min_rtt m) t.mss_bytes t.cwnd_limit_bytes initial
unfolding startup_cwnd_target minimum_cwnd
target-pos m t initial some_mss some_limit = ground arith

divided_minimum-eq : (t : Transport) → divided_minimum t ≡ min (t.mss_bytes * 4) t.cwnd_limit_bytes
unfolding divided_minimum
divided_minimum-eq t = ground arith

-- For any model in startup and any window within the limit, the policy of startup is given: its window
-- is at least four segments, or the limit if that is less, and within the limit, its threshold too, and
-- its rate is no less than the present one.
pub startup_policy-Given :
    (m : Bbr) (t : Transport) (ack : Ack) (initial current rate : ℕ)
    → startup_refused m t initial current ≡ false
    → Given t rate (startup_policy m t ack initial current rate)
unfolding startup_policy
startup_policy-Given m t ack initial current rate ok =
    let (some_mss, some_limit) : (0 < t.mss_bytes) × (0 < t.cwnd_limit_bytes) =
      unfold startup_refused in (ground arith, ground arith) in
    let pos = target-pos m t initial some_mss some_limit in
    let target =
      startup_cwnd_target m.max_bw (known_min_rtt m) t.mss_bytes t.cwnd_limit_bytes initial in
    let least = divided_minimum-eq t in
    if_elim (Given t rate) (startup_refused m t initial current) (λ bad. ground arith)
      (λ _.
        if_elim (Given t rate) (target == 0) (λ bad. ground arith)
          (λ _. given _ (ground arith) (ground arith) (ground arith) (ground arith) (ground arith)))

-- For any model in drain whose pipe is full and whose bandwidth is known, and any window within the
-- limit, the policy of drain is given with the same bounds, at no less than the rate of drain.
pub drain_policy-Given :
    (m : Bbr) (t : Transport) (ack : Ack) (current : ℕ)
    → drain_refused m t current ≡ false
    → Given t (drain_pacing_rate m.max_bw) (drain_policy m t ack current)
unfolding drain_policy drain_ssthresh
drain_policy-Given m t ack current ok =
    let (some_mss, some_limit) : (0 < t.mss_bytes) × (0 < t.cwnd_limit_bytes) =
      unfold drain_refused in (ground arith, ground arith) in
    let minimum = minimum_cwnd t.mss_bytes t.cwnd_limit_bytes in
    let pos = target-pos m t minimum some_mss some_limit in
    let target =
      startup_cwnd_target m.max_bw (known_min_rtt m) t.mss_bytes t.cwnd_limit_bytes minimum in
    let least : minimum ≡ min (t.mss_bytes * 4) t.cwnd_limit_bytes = unfold minimum_cwnd in refl in
    let P = Given t (drain_pacing_rate m.max_bw) in
    if_elim P (drain_refused m t current) (λ bad. ground arith)
      (λ _.
        if_elim P (target == 0) (λ bad. ground arith)
          (λ _. given _ (ground arith) (ground arith) (ground arith) (ground arith) (ground arith)))
