-- ===== src/Cc/Reno/Bounds.antt =====
-- How far the Reno window can go: over any events, and in one of them.
use tcp_shift.Prelude.{ℕ, ◌*◌, ◌≤◌, ◌<◌, ◌≡◌, true, ltb, arith, IsU32, if_elim}
use tcp_shift.Cc.{Transport, InitialWindows, Policy}
use tcp_shift.Cc.Reno.{Reno, least, init, raise, slow_start, avoidance, grow, shrink, collapse}

-- The path of a connection: a segment size and the largest window, both 32 bits wide.
pub record IsPath (mss limit : ℕ) (t : Transport) : Type 0 where
  pub mss_eq : t.mss_bytes ≡ mss
  pub limit_eq : t.cwnd_limit_bytes ≡ limit
  pub some_mss : 0 < mss
  pub mss_fits : mss ≤ limit
  pub narrow : IsU32 limit

-- The window is at least a segment and the configured minimum, and within the limit; `ssthresh` is
-- at least two segments, or the limit if that is less, and within the limit.
pub record InBounds (mss limit min_cwnd : ℕ) (s : Reno) : Type 0 where
  pub min_eq : s.min_cwnd_bytes ≡ min_cwnd
  pub cwnd_ge_mss : mss ≤ s.cwnd_bytes
  pub cwnd_ge_min : least min_cwnd limit ≤ s.cwnd_bytes
  pub cwnd_le : s.cwnd_bytes ≤ limit
  pub ssthresh_ge : least (mss * 2) limit ≤ s.ssthresh_bytes
  pub ssthresh_le : s.ssthresh_bytes ≤ limit

pub init-InBounds :
    (mss limit : ℕ) (s : Reno) (t : Transport) (w : InitialWindows) (policy : Policy)
    → IsPath mss limit t
    → (init s t w policy).2 ≡ true
    → InBounds mss limit w.min_cwnd_bytes (init s t w policy).0
unfolding init
init-InBounds mss limit s t w policy p ok = ground arith

module _ (mss limit m : ℕ) (s : Reno) (t : Transport) (p : IsPath mss limit t)
    (b : InBounds mss limit m s) where
  raise-InBounds : InBounds mss limit m (raise s t)
  unfolding raise
  raise-InBounds = ground arith

  slow_start-InBounds : (acked : ℕ) → InBounds mss limit m (slow_start s t acked)
  unfolding slow_start
  slow_start-InBounds acked = ground arith

  avoidance-InBounds : (acked : ℕ) → InBounds mss limit m (avoidance s t acked)
  unfolding avoidance
  avoidance-InBounds acked = ground arith

  pub shrink-InBounds : InBounds mss limit m (shrink s t)
  unfolding shrink
  shrink-InBounds = ground arith

  pub collapse-InBounds : InBounds mss limit m (collapse s t)
  unfolding collapse
  collapse-InBounds = ground arith

module _ (mss limit m : ℕ) (s : Reno) (t : Transport) (p : IsPath mss limit t)
    (b : InBounds mss limit m s) where
  pub grow-InBounds : (acked : ℕ) → InBounds mss limit m (grow s t acked)
  unfolding grow
  grow-InBounds acked =
      if_elim (InBounds mss limit m) (ltb (raise s t).cwnd_bytes (raise s t).ssthresh_bytes)
        (λ _.
          slow_start-InBounds mss limit m (raise s t) t p (raise-InBounds mss limit m s t p b)
            acked)
        (λ _.
          avoidance-InBounds mss limit m (raise s t) t p (raise-InBounds mss limit m s t p b) acked)
