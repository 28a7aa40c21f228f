-- ===== src/Tests/Controllers.antt =====
-- The congestion-control boundary, Reno, the lookup and the pacing fallback on small inputs.
use tcp_shift.Prelude.{
  ℕ, ◌+◌, ◌*◌, ◌/◌, ◌≤◌, ◌≡◌, ◌⊎◌, refl, true, false, none, some, List, [], ◌∷◌, arith,
  if◌then◌else◌, ltb, ◌==◌, codes,
}
use tcp_shift.Cc
use tcp_shift.Cc.{Transport, InitialWindows, Policy, no_policy, empty}
use tcp_shift.Cc.Handle.{Call, loss, timeout, serve_all, IsUsable, IsBound, init-serve_all}
use tcp_shift.Cc.Reno.{Reno, reno_ops, least, raise, grow, effective_min, mul2_cap}
use tcp_shift.Cc.Reno
use tcp_shift.Cc.Reno.Bounds.{IsPath, InBounds}
use tcp_shift.Cc.Reno.Trace.{lost, begun, moved, Publishes, handle, Reached-InBounds}
use tcp_shift.Cc.Reno.Growth.{acks, total, InAvoidance, acks-paid}
use tcp_shift.Cc.Registry.Names.{IsText, ended, byte}
use tcp_shift.Prelude.{false, true, none}
use tcp_shift.Cc.BbrRecovery
use tcp_shift.Cc.BbrRecovery.{Recovery, Flight}
use tcp_shift.Cc.Pacing.{quantum_bytes, window_bytes, window_rate, apply_window_fallback}
use tcp_shift.Cc.Pacing.Quantum.{Segments, quantum_bytes-Segments}
use tcp_shift.Cc.Pacing.Rate.{at_least_one, exact_base, window_rate-exact}

abbrev path : Transport
path = record {
  mss_bytes = 1000;
  inflight_bytes = 4000;
  send_window_bytes = 60000;
  cwnd_limit_bytes = 50000;
}

abbrev windows : InitialWindows
windows = record {
  initial_cwnd_bytes = 10000;
  initial_ssthresh_bytes = 30000;
  min_cwnd_bytes = 2000;
}

abbrev blank : Reno
blank = record { cwnd_bytes = 0; ssthresh_bytes = 0; ca_acked_bytes = 0; min_cwnd_bytes = 0 }

path-IsPath : IsPath 1000 50000 path
path-IsPath = record {
  mss_eq = refl;
  limit_eq = refl;
  some_mss = omega arith;
  mss_fits = omega arith;
  narrow = omega arith;
}

abbrev accepted : Cc.Outcome Reno
accepted = Reno.init blank path windows no_policy

abbrev after_loss : Cc.Outcome Reno
after_loss = handle accepted.0 (lost path 1000) accepted.1

Reached-InBounds_example :
    InBounds 1000 50000 2000 after_loss.0 × Publishes after_loss.0 after_loss.1
Reached-InBounds_example = Reached-InBounds 1000 50000 windows after_loss.0 after_loss.1 (
    moved accepted.0 accepted.1
      (begun blank path no_policy path-IsPath (unfold Reno.init Reno.mul2_cap in refl))
      (lost path 1000) path-IsPath)

abbrev slow : Reno
slow = record {
  cwnd_bytes = 10000;
  ssthresh_bytes = 30000;
  ca_acked_bytes = 0;
  min_cwnd_bytes = 2000;
}

slow-InBounds : InBounds 1000 50000 2000 slow
slow-InBounds = record {
  min_eq = refl;
  cwnd_ge_mss = omega arith;
  cwnd_ge_min = omega arith;
  cwnd_le = omega arith;
  ssthresh_ge = omega arith;
  ssthresh_le = omega arith;
}

abbrev fast : Reno
fast = record {
  cwnd_bytes = 10000;
  ssthresh_bytes = 5000;
  ca_acked_bytes = 9000;
  min_cwnd_bytes = 2000;
}

fast-InAvoidance : InAvoidance fast path
fast-InAvoidance = record {
  past = omega arith;
  some_mss = omega arith;
  over_min = omega arith;
  within = omega arith;
  narrow = omega arith;
}

acks-paid_example :
    (acks fast path (1500 ∷ 700 ∷ [])).cwnd_bytes * fast.cwnd_bytes
    ≤ fast.cwnd_bytes * fast.cwnd_bytes
      + path.mss_bytes * (fast.ca_acked_bytes + total (1500 ∷ 700 ∷ []))
acks-paid_example = acks-paid fast path (1500 ∷ 700 ∷ []) fast-InAvoidance

abbrev set_up : Cc.Reply Reno
set_up = Cc.init (some (reno_ops 16)) (some blank) 16 path windows no_policy

abbrev later : List Call
later = loss path 1000 ∷ timeout path ∷ loss path 0 ∷ []

init-serve_all_example :
    ((set_up.2 ≡ false) × (serve_all set_up.0 later no_policy ≡ (empty, no_policy)))
    ⊎ ((set_up.2 ≡ true)
        × IsUsable (reno_ops 16) 16 path
        × IsBound (reno_ops 16) (serve_all set_up.0 later no_policy).0)
init-serve_all_example =
    init-serve_all (reno_ops 16) blank 16 path windows no_policy later no_policy

cubic-IsText : IsText (codes "cubic")
cubic-IsText = byte _ _ (omega arith) (
    byte _ _ (omega arith)
      (byte _ _ (omega arith) (byte _ _ (omega arith) (byte _ _ (omega arith) ended))))

quantum_bytes-Segments_example :
    (k : ℕ) × (quantum_bytes 5000000 1000 ≡ k * 1000) × Segments (5000000 / 1024) 1000 k
quantum_bytes-Segments_example =
    quantum_bytes-Segments 5000000 1000 (omega arith) (omega arith) (omega arith)

abbrev published : Policy
published = record { cwnd_bytes = 10000; ssthresh_bytes = 30000; pacing_rate_bytes_per_sec = 0 }

window_rate-exact_example : window_rate path published 40000000 ≡ (
    if window_bytes path published == 0
    then 0
    else at_least_one (
        exact_base (window_bytes path published) 40000000
        * (if ltb published.cwnd_bytes (published.ssthresh_bytes / 2) then 200 else 120)
        / 100))
window_rate-exact_example =
    window_rate-exact path published 40000000 (unfold window_bytes in omega arith)

abbrev cap : ℕ
cap = 200000

abbrev paced : Policy
paced = apply_window_fallback path 40000000 cap published

abbrev flight : Flight
flight = record {
  current_cwnd_bytes = 20000;
  inflight_bytes = 12000;
  acked_bytes = 1000;
  lost_bytes = 1000;
  mss_bytes = 1000;
  cwnd_limit_bytes = 50000;
}

abbrev entered : Recovery
entered = record { prior_cwnd_bytes = 20000; in_recovery = true; packet_conservation = true }
