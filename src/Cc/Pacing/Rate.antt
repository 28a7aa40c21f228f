-- ===== src/Cc/Pacing/Rate.antt =====
-- The fallback rate: exact percentages without overflow, and a rate that a controller owns.
use native.Mathlib.Nat.{div-le_self}
use tcp_shift.Prelude.{
  ℕ, ◌*◌, ◌/◌, ◌≤◌, ◌<◌, ◌≡◌, ◌≢◌, ◌⊎◌, inl, inr, refl, arith, IsU32, ltb, ◌==◌, if◌then◌else◌,
}
use tcp_shift.Cc.{Transport, Policy}
use tcp_shift.Cc.Pacing.{
  scale_percent, window_bytes, base_rate, percent, window_rate, apply_window_fallback,
}

abbrev pub at_least_one : ℕ → ℕ
at_least_one n = if n == 0 then 1 else n

scale_percent-200 :
    (v : ℕ) → 0 < v → v ≤ 4294967295000000000 → scale_percent v 200 ≡ at_least_one (v * 200 / 100)
unfolding scale_percent
scale_percent-200 v h le = ground arith

scale_percent-120 :
    (v : ℕ) → 0 < v → v ≤ 4294967295000000000 → scale_percent v 120 ≡ at_least_one (v * 120 / 100)
unfolding scale_percent
scale_percent-120 v h le = ground arith

-- The rate before the percentage fits the bound of the lemmas above.
base_rate-bounds :
    (w rtt : ℕ) → IsU32 w → 0 < w → (0 < base_rate w rtt) × (base_rate w rtt ≤ 4294967295000000000)
unfolding base_rate
base_rate-bounds w rtt le h = ground (arith, div-le_self (w * 1000000000) rtt)

zero-cases : (n : ℕ) → (n ≡ 0) ⊎ (0 < n)
zero-cases n = ground arith

abbrev pub exact_base : ℕ → ℕ → ℕ
exact_base w rtt = if rtt == 0 then w * 8000000 else at_least_one (w * 1000000000 / rtt)

base_rate-eq : (w rtt : ℕ) → IsU32 w → base_rate w rtt ≡ exact_base w rtt
unfolding base_rate
base_rate-eq w rtt le = ground arith

-- Without overflow, for 32-bit windows and any RTT: the rate is 0 exactly for an empty window, and
-- else it is the window per RTT in bytes a second (the window times 8,000,000 before an RTT sample),
-- at least 1, of which it is 200 percent below half of `ssthresh` and 120 percent from there, again
-- rounded down and at least 1.
pub window_rate-exact :
    (t : Transport) (policy : Policy) (rtt : ℕ)
    → IsU32 (window_bytes t policy)
    → window_rate t policy rtt ≡ (
        if window_bytes t policy == 0
        then 0
        else at_least_one (
            exact_base (window_bytes t policy) rtt
            * (if ltb policy.cwnd_bytes (policy.ssthresh_bytes / 2) then 200 else 120)
            / 100))
unfolding window_rate percent
window_rate-exact t policy rtt le =
    let exact = base_rate-eq (window_bytes t policy) rtt le in
    elim (zero-cases (window_bytes t policy)) [
      | inl none_left ↦ rw none_left refl
      | inr some_left ↦
          let bounds = base_rate-bounds (window_bytes t policy) rtt le some_left in
          ground (
            arith,
            exact,
            bounds,
            scale_percent-200 _ bounds.0 bounds.1,
            scale_percent-120 _ bounds.0 bounds.1,
          )
    ]

-- A rate that the controller owns is left as it is, whatever the cap; on a rate of 0 the fallback
-- is the window's rate, or a cap below it; the windows are never touched.
pub apply_window_fallback-ownership :
    (t : Transport) (rtt cap : ℕ) (policy : Policy)
    → (apply_window_fallback t rtt cap policy).cwnd_bytes ≡ policy.cwnd_bytes
      × ((apply_window_fallback t rtt cap policy).ssthresh_bytes ≡ policy.ssthresh_bytes)
      × (((policy.pacing_rate_bytes_per_sec ≢ 0)
            × (apply_window_fallback t rtt cap policy ≡ policy))
          ⊎ ((policy.pacing_rate_bytes_per_sec ≡ 0)
              × ((apply_window_fallback t rtt cap policy).pacing_rate_bytes_per_sec
                  ≤ window_rate t policy rtt)
              × ((cap ≡ 0)
                  ⊎ ((apply_window_fallback t rtt cap policy).pacing_rate_bytes_per_sec ≤ cap))
              × (((apply_window_fallback t rtt cap policy).pacing_rate_bytes_per_sec
                    ≡ window_rate t policy rtt)
                  ⊎ ((apply_window_fallback t rtt cap policy).pacing_rate_bytes_per_sec ≡ cap))))
unfolding apply_window_fallback
apply_window_fallback-ownership t rtt cap policy = ground arith
