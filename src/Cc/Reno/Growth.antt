-- ===== src/Cc/Reno/Growth.antt =====
-- How fast the Reno window grows, and how far one loss or timeout cuts it.
use tcp_shift.Prelude.{ℕ, ◌+◌, ◌*◌, ◌≤◌, ◌<◌, ◌≡◌, ◌⊎◌, inl, inr, List, [], ◌∷◌, arith, IsU32}
use native.Mathlib.Nat.{mul-le-mul_left, mul-le-mul_right, le_trans}
use tcp_shift.Cc.{Transport}
use tcp_shift.Cc.Reno.{Reno, least, raise, slow_start, avoidance, grow}
use tcp_shift.Cc.Reno.Bounds.{IsPath, InBounds}

-- Below `ssthresh`, an ACK adds to the raised window what it acknowledges, at most two segments,
-- and no more than the limit: no addition and no doubling saturates on the way.
pub slow_start-window :
    (mss limit m : ℕ) (s : Reno) (t : Transport) (acked : ℕ)
    → IsPath mss limit t
    → InBounds mss limit m s
    → (raise s t).cwnd_bytes < (raise s t).ssthresh_bytes
    → (grow s t acked).cwnd_bytes ≡ least ((raise s t).cwnd_bytes + least acked (mss * 2)) limit
unfolding grow slow_start
slow_start-window mss limit m s t acked p b low = ground arith

-- The state after ACKs of the given numbers of bytes.
unfoldable pub acks : Reno → Transport → List ℕ → Reno
acks s t [] = s
acks s t (n ∷ ns) = acks (grow s t n) t ns

abbrev pub total : List ℕ → ℕ
total [] = 0
total (n ∷ ns) = n + total ns

-- A window past slow start, which no ACK raises first.
pub record InAvoidance (s : Reno) (t : Transport) : Type 0 where
  pub past : s.ssthresh_bytes ≤ s.cwnd_bytes
  pub some_mss : t.mss_bytes ≤ s.cwnd_bytes
  pub over_min : least s.min_cwnd_bytes t.cwnd_limit_bytes ≤ s.cwnd_bytes
  pub within : s.cwnd_bytes ≤ t.cwnd_limit_bytes
  pub narrow : IsU32 t.cwnd_limit_bytes

raise_still : (s : Reno) (t : Transport) → InAvoidance s t → raise s t ≡ s
unfolding raise
raise_still s t a = ground arith

grow-avoidance : (s : Reno) (t : Transport) (n : ℕ) → InAvoidance s t → grow s t n ≡ avoidance s t n
unfolding grow
grow-avoidance s t n a = let still = raise_still s t a in ground arith

avoidance-InAvoidance :
    (s : Reno) (t : Transport) (n : ℕ) → InAvoidance s t → InAvoidance (avoidance s t n) t
unfolding avoidance
avoidance-InAvoidance s t n a = ground arith

-- An ACK adds at most a segment, and for one it takes a window's worth off the count.
avoidance-step :
    (s : Reno) (t : Transport) (n : ℕ)
    → InAvoidance s t
    → ((avoidance s t n).cwnd_bytes ≤ s.cwnd_bytes + t.mss_bytes
        × ((avoidance s t n).ca_acked_bytes + s.cwnd_bytes ≤ s.ca_acked_bytes + n))
      ⊎ ((avoidance s t n).cwnd_bytes ≡ s.cwnd_bytes
          × ((avoidance s t n).ca_acked_bytes ≤ s.ca_acked_bytes + n))
unfolding avoidance
avoidance-step s t n a = ground arith

added :
    (w' w m a' a n c : ℕ)
    → w' ≤ w + m
    → a' + w ≤ a + n
    → c ≤ w
    → w' * c + m * a' ≤ w * c + m * (a + n)
added w' w m a' a n c up spent le =
    let grown = mul-le-mul_right c up in
    let room : a' + c ≤ a + n = omega arith in let paid = mul-le-mul_left m room in grind arith

kept : (w' w m a' a n c : ℕ) → w' ≡ w → a' ≤ a + n → w' * c + m * a' ≤ w * c + m * (a + n)
kept w' w m a' a n c same counted = let paid = mul-le-mul_left m counted in grind arith

-- One step keeps the account of segments added against bytes acknowledged.
avoidance-account :
    (s : Reno) (t : Transport) (n c : ℕ)
    → InAvoidance s t
    → c ≤ s.cwnd_bytes
    → (avoidance s t n).cwnd_bytes * c + t.mss_bytes * (avoidance s t n).ca_acked_bytes
      ≤ s.cwnd_bytes * c + t.mss_bytes * (s.ca_acked_bytes + n)
avoidance-account s t n c a le = elim (avoidance-step s t n a) [
  | inl (up, spent) ↦
      added (avoidance s t n).cwnd_bytes s.cwnd_bytes t.mss_bytes _ s.ca_acked_bytes n c up spent le
  | inr (same, counted) ↦
      kept (avoidance s t n).cwnd_bytes s.cwnd_bytes t.mss_bytes _ s.ca_acked_bytes n c same counted
]

avoidance-grows :
    (s : Reno) (t : Transport) (n : ℕ)
    → InAvoidance s t
    → s.cwnd_bytes ≤ (avoidance s t n).cwnd_bytes
unfolding avoidance
avoidance-grows s t n a = ground arith

acks-account :
    (s : Reno) (t : Transport) (c : ℕ) (ns : List ℕ)
    → InAvoidance s t
    → c ≤ s.cwnd_bytes
    → (acks s t ns).cwnd_bytes * c + t.mss_bytes * (acks s t ns).ca_acked_bytes
      ≤ s.cwnd_bytes * c + t.mss_bytes * (s.ca_acked_bytes + total ns)
unfolding acks
acks-account s t c [] a le = ground arith
acks-account s t c (n ∷ ns) a le =
    rw (acks, grow-avoidance s t n a)
      (let rest =
          acks-account (avoidance s t n) t c ns (avoidance-InAvoidance s t n a)
            (le_trans le (avoidance-grows s t n a)) in
        let first = avoidance-account s t n c a le in grind arith)

-- In avoidance, over ACKs of any sizes, each segment added to the window has been paid for by a
-- window's worth of bytes acknowledged: growth times the first window is at most the segment size
-- times the bytes counted and acknowledged.
pub acks-paid :
    (s : Reno) (t : Transport) (ns : List ℕ)
    → InAvoidance s t
    → (acks s t ns).cwnd_bytes * s.cwnd_bytes
      ≤ s.cwnd_bytes * s.cwnd_bytes + t.mss_bytes * (s.ca_acked_bytes + total ns)
acks-paid s t ns a = let account = acks-account s t s.cwnd_bytes ns a (ground arith) in ground arith
