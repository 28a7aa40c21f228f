-- ===== src/Cc/BbrRecovery/Windows.antt =====
-- The windows of a recovery, from its entry over any ACKs to its exit.
use Prim.Native.Nat.{min, max}
use tcp_shift.Prelude.{
  ℕ, ◌+◌, ◌≤◌, ◌<◌, ◌≡◌, ◌⊎◌, Bool, true, false, ◌&&◌, Option, none, some, List, [], ◌∷◌, ◌==◌,
  arith,
}
use tcp_shift.Cc.BbrRecovery.{
  Recovery, Flight, valid_window, floor_sub, sat_add_limit, conservation_cwnd, ack_cwnd, on_ack,
}

conservation_cwnd_lem :
    (f : Flight)
    → 0 < f.mss_bytes
    → f.mss_bytes ≤ f.cwnd_limit_bytes
    → conservation_cwnd f
      ≡ max f.mss_bytes (min (f.inflight_bytes + f.acked_bytes) f.cwnd_limit_bytes)
unfolding conservation_cwnd sat_add_limit
conservation_cwnd_lem f pos fits = ground arith

ack_cwnd_lem :
    (f : Flight) (owned : Bool)
    → valid_window f.current_cwnd_bytes f.mss_bytes f.cwnd_limit_bytes ≡ true
    → (f.mss_bytes ≤ ack_cwnd f owned)
      × (ack_cwnd f owned ≤ f.cwnd_limit_bytes)
      × (f.current_cwnd_bytes ≤ ack_cwnd f owned + f.lost_bytes)
      × ((owned ≡ false)
          ⊎ (min (f.inflight_bytes + f.acked_bytes) f.cwnd_limit_bytes ≤ ack_cwnd f owned))
unfolding ack_cwnd valid_window floor_sub
ack_cwnd_lem f owned valid = ground (arith, conservation_cwnd_lem f)

-- The window that an accepted ACK leaves is at least a segment and within the limit, and not below
-- the old one less the loss; while conservation owns it, it holds at least what is in flight and
-- acknowledged, up to the limit; conservation owns it exactly as long as it did and no round starts.
pub on_ack_window :
    (s : Recovery) (f : Flight) (round_start : ℕ) {t : Recovery} {cwnd : ℕ} {owned : Bool}
    → on_ack s f round_start ≡ some (t, cwnd, owned)
    → (f.mss_bytes ≤ cwnd)
      × (cwnd ≤ f.cwnd_limit_bytes)
      × (f.current_cwnd_bytes ≤ cwnd + f.lost_bytes)
      × ((owned ≡ false) ⊎ (min (f.inflight_bytes + f.acked_bytes) f.cwnd_limit_bytes ≤ cwnd))
      × (owned ≡ (s.packet_conservation && round_start == 0))
      × (t.packet_conservation ≡ owned)
unfolding on_ack
on_ack_window s f round_start e =
    ground (arith, ack_cwnd_lem f (s.packet_conservation && round_start == 0))

-- The state after an ACK, which a refused one leaves as it was.
abbrev pub acked_state : Recovery → Option (Recovery × ℕ × Bool) → Recovery
acked_state s none = s
acked_state s (some (t, _, _)) = t

unfoldable pub after_acks : Recovery → List (Flight × ℕ) → Recovery
after_acks s [] = s
after_acks s ((f, round_start) ∷ as') = after_acks (acked_state s (on_ack s f round_start)) as'

abbrev left : Recovery → Recovery
left s = record s { in_recovery = false; packet_conservation = false }
