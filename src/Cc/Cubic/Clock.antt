-- ===== src/Cc/Cubic/Clock.antt =====
-- The clock of a CUBIC epoch: on a clock that does not go back, the epoch never starts after the last
-- ACK, however often the application pauses it, so that no difference of times wraps.
use mathlib.Core.Path.{subst}
use tcp_shift.Prelude.{
  sym, ℕ, ◌-◌, ◌≤◌, ◌<◌, ◌≡◌, Bool, true, false, ◌&&◌, ltb, arith, if_elim, IsU64,
}
use tcp_shift.Cc.{Transport, Ack}
use tcp_shift.Cc.Cubic.{
  Cubic, add_sat, sync_mss, normalize, raise_cwnd, raise_ssthresh, publish, finish_hystartpp,
}
use tcp_shift.Cc.Cubic.Curve.{window_q16, open_epoch, start_epoch}
use tcp_shift.Cc.Cubic.Acks.{
  update_w_est, elapsed, pause, resume, slow_start, target, approach, follow, with_epoch, avoidance,
  grow, count_limited, avoiding, acknowledge,
}
use tcp_shift.Cc.Cubic.Cuts.{cut, collapse}

-- The epoch starts no later than the last ACK and, while it is paused, than the pause.
pub record InTime (m : Cubic) : Type 0 where
  pub some_mss : 0 < m.shared.mss_bytes
  pub narrow : IsU64 m.last_ack_time_ns
  pub started : m.epoch_active ≡ true → m.epoch_start_ns ≤ m.last_ack_time_ns
  pub stopped : m.app_limited_paused ≡ true → m.app_limited_since_ns ≤ m.last_ack_time_ns
  pub within :
      m.epoch_active ≡ true
      → m.app_limited_paused ≡ true
      → m.epoch_start_ns ≤ m.app_limited_since_ns

-- For a clock in time no difference wraps.
pub elapsed_exact : (now start : ℕ) → IsU64 now → start ≤ now → elapsed now start ≡ now - start
unfolding elapsed
elapsed_exact now start narrow le = omega arith

module _ (m : Cubic) (p : InTime m) where
  pub sync-InTime : (mss : ℕ) → 0 < mss → InTime (sync_mss m mss)
  unfolding sync_mss
  sync-InTime mss pos = ground (arith)

  pub normalize-InTime : (t : Transport) → InTime (normalize m t)
  unfolding normalize
  normalize-InTime t = ground arith

  count_limited-InTime : (b : Bool) → InTime (count_limited m b)
  unfolding count_limited
  count_limited-InTime b = ground arith

  pause-InTime : (now : ℕ) → m.last_ack_time_ns ≤ now → IsU64 now → InTime (pause m now)
  unfolding pause
  pause-InTime now le narrow = ground arith

  resume-InTime : (now : ℕ) → m.last_ack_time_ns ≤ now → IsU64 now → InTime (resume m now)
  unfolding resume add_sat
  resume-InTime now le narrow = ground arith

  finish-InTime : InTime (finish_hystartpp m)
  unfolding finish_hystartpp
  finish-InTime = ground arith

  slow_start-InTime : (t : Transport) (n : ℕ) → InTime (slow_start m t n)
  unfolding slow_start
  slow_start-InTime t n = ground arith

  approach-InTime : (q : ℕ) → InTime (approach m q)
  unfolding approach
  approach-InTime q = ground arith

  raise_cwnd-InTime : (t : Transport) → InTime (raise_cwnd m t)
  unfolding raise_cwnd
  raise_cwnd-InTime t = ground arith

  raise_ssthresh-InTime : (t : Transport) → InTime (raise_ssthresh m t)
  unfolding raise_ssthresh
  raise_ssthresh-InTime t = ground arith

  update_w_est-InTime : (a c l : ℕ) → InTime (update_w_est m a c l)
  unfolding update_w_est
  update_w_est-InTime a c l = ground arith

  with_epoch-InTime :
      (now : ℕ)
      → m.last_ack_time_ns ≡ now
      → m.app_limited_paused ≡ false
      → InTime (with_epoch m now)
  unfolding with_epoch start_epoch open_epoch
  with_epoch-InTime now e u = ground arith

  pub cut-InTime : (t : Transport) (n : ℕ) → InTime (cut m t n)
  unfolding cut
  cut-InTime t n = ground arith

  pub collapse-InTime : (t : Transport) → InTime (collapse m t)
  unfolding collapse
  collapse-InTime t = ground arith

follow-InTime : (m : Cubic) → InTime m → (t : Transport) (e s : ℕ) → InTime (follow m t e s)
unfolding follow
follow-InTime m p t e s =
    if_elim InTime (ltb (window_q16 m e) m.w_est_q16)
      (λ _. record {
        some_mss = p.some_mss;
        narrow = p.narrow;
        started = p.started;
        stopped = p.stopped;
        within = p.within;
      })
      (λ _. approach-InTime m p (target m t e s))

avoidance-InTime :
    (m : Cubic)
    → InTime m
    → (t : Transport) (n now srtt : ℕ) → m.last_ack_time_ns ≡ now
    → m.app_limited_paused ≡ false
    → InTime (avoidance m t n now srtt)
unfolding avoidance
avoidance-InTime m p t n now srtt e running =
    follow-InTime _ (update_w_est-InTime _ (with_epoch-InTime m p now e running) n _ _) t _ srtt

grow-InTime :
    (m : Cubic)
    → InTime m
    → (t : Transport) (n now srtt : ℕ) → m.last_ack_time_ns ≡ now
    → m.app_limited_paused ≡ false
    → InTime (grow m t n now srtt)
unfolding grow
grow-InTime m p t n now srtt e running =
    if_elim InTime (ltb m.shared.cwnd_q16 m.shared.ssthresh_q16)
      (λ _. finish-InTime _ (slow_start-InTime m p t n))
      (λ _. avoidance-InTime m p t n now srtt e running)

resume-now :
    (m : Cubic) (now : ℕ)
    → ((resume m now).last_ack_time_ns ≡ now) × ((resume m now).app_limited_paused ≡ false)
unfolding resume
resume-now m now = ground arith

count_limited-last :
    (m : Cubic) (b : Bool) → (count_limited m b).last_ack_time_ns ≡ m.last_ack_time_ns
unfolding count_limited
count_limited-last m b = ground arith

pub acknowledge-InTime :
    (m : Cubic)
    → InTime m
    → (t : Transport) (ack : Ack) (now srtt : ℕ) → m.last_ack_time_ns ≤ now
    → IsU64 now
    → InTime (acknowledge m t ack now srtt)
unfolding acknowledge
acknowledge-InTime m p t ack now srtt le narrow =
    let c = count_limited m ack.rate.app_limited in
    let pc = count_limited-InTime m p ack.rate.app_limited in
    let le' : c.last_ack_time_ns ≤ now =
      subst (λ x. x ≤ now) (sym (count_limited-last m ack.rate.app_limited)) le in
    let (last, running) = resume-now c now in
    if_elim InTime (ack.rate.app_limited && avoiding m)
      (λ _. finish-InTime _ (pause-InTime c pc now le' narrow))
      (λ _.
        grow-InTime (resume c now) (resume-InTime c pc now le' narrow) t ack.acked_bytes now srtt
          last running)

pub publish-InTime : (m : Cubic) → InTime m → (t : Transport) → InTime (publish m t).0
unfolding publish
publish-InTime m p t = raise_ssthresh-InTime _ (raise_cwnd-InTime _ (normalize-InTime m p t) t) t
