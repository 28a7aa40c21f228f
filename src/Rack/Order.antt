-- ===== src/Rack/Order.antt =====
-- The order in which segments were sent, and the most recently sent segment that was delivered.
use tcp_shift.Prelude.{
  ℕ, ◌+◌, ◌-◌, ◌≤◌, ◌<◌, ◌≡◌, refl, ◌⊎◌, true, false, ◌&&◌, ◌||◌, ltb, ◌==◌, ◌/=◌, IsU32, arith,
  if_elim,
}
use tcp_shift.Rack.{
  State, Segment, seq_after, seq_distance, sent_after, Delivery, rejected, ambiguous, counted,
  note_delivered, advance_rack,
}

-- Of two different 32-bit sequence numbers that are not half the space apart, exactly one is after
-- the other; half the space apart neither is.
pub seq_after_trichotomy :
    (a b : ℕ)
    → IsU32 a
    → IsU32 b
    → ((seq_after a b ≡ true) × (seq_after b a ≡ false))
      ⊎ ((seq_after b a ≡ true) × (seq_after a b ≡ false))
      ⊎ ((seq_after a b ≡ false)
          × (seq_after b a ≡ false)
          × ((a ≡ b) ⊎ (seq_distance a b ≡ 2147483648)))
unfolding seq_after
seq_after_trichotomy a b ha hb = ground arith

-- No segment is sent after one that was sent after it, for 32-bit end sequence numbers.
pub sent_after_asymm :
    (xa ea xb eb : ℕ)
    → IsU32 ea
    → IsU32 eb
    → sent_after xa ea xb eb ≡ true
    → sent_after xb eb xa ea ≡ false
unfolding sent_after seq_after
sent_after_asymm xa ea xb eb ha hb h = ground arith

-- What `advance_rack` leaves: the old RACK.segment or this one, whichever was sent later, and all else
-- as it was.
data Advanced (s : State) (seg : Segment) (t : State) : Type 0 where
  moved :
      sent_after seg.xmit_ts_ns seg.end_seq s.rack_xmit_ts_ns s.rack_end_seq ≡ true
      → t ≡ record s { rack_xmit_ts_ns = seg.xmit_ts_ns; rack_end_seq = seg.end_seq }
      → Advanced s seg t
  kept :
      sent_after seg.xmit_ts_ns seg.end_seq s.rack_xmit_ts_ns s.rack_end_seq ≡ false
      → t ≡ s
      → Advanced s seg t

advance_rack_lem : (s : State) (seg : Segment) → Advanced s seg (advance_rack s seg)
unfolding advance_rack
advance_rack_lem s seg =
    if_elim (Advanced s seg)
      (sent_after seg.xmit_ts_ns seg.end_seq s.rack_xmit_ts_ns s.rack_end_seq)
      (λ later. moved later refl) (λ not_later. kept not_later refl)

-- The state after a counted segment, but for RACK.segment.
abbrev pub timed : State → Segment → ℕ → State
timed s seg ack_time = record s {
  rack_rtt_ns = ack_time - seg.xmit_ts_ns;
  rack_ack_ts_ns = ack_time;
}

-- What `note_delivered` answers and leaves.
pub data Delivered (s : State) (seg : Segment) (ack_time : ℕ) (t : State) : Delivery → Type 0 where
  turned_down :
      (seg.xmit_ts_ns ≡ 0) ⊎ (ack_time < seg.xmit_ts_ns)
      → t ≡ s
      → Delivered s seg ack_time t rejected
  unclear :
      seg.retransmitted ≡ true
      → seg.xmit_ts_ns ≤ ack_time
      → ack_time < seg.xmit_ts_ns + s.min_rtt_ns
      → t ≡ s
      → Delivered s seg ack_time t ambiguous
  advanced :
      0 < seg.xmit_ts_ns
      → seg.xmit_ts_ns ≤ ack_time
      → (seg.retransmitted ≡ false) ⊎ (seg.xmit_ts_ns + s.min_rtt_ns ≤ ack_time)
      → sent_after s.rack_xmit_ts_ns s.rack_end_seq seg.xmit_ts_ns seg.end_seq ≡ false
      → t ≡ record (timed s seg ack_time) {
        rack_xmit_ts_ns = seg.xmit_ts_ns;
        rack_end_seq = seg.end_seq;
      }
      → Delivered s seg ack_time t counted
  behind :
      0 < seg.xmit_ts_ns
      → seg.xmit_ts_ns ≤ ack_time
      → (seg.retransmitted ≡ false) ⊎ (seg.xmit_ts_ns + s.min_rtt_ns ≤ ack_time)
      → sent_after seg.xmit_ts_ns seg.end_seq s.rack_xmit_ts_ns s.rack_end_seq ≡ false
      → t ≡ timed s seg ack_time
      → Delivered s seg ack_time t counted

-- What a delivered segment does to the RACK state, for 32-bit sequence numbers. A segment that was
-- never sent, or is acknowledged before it was sent, is rejected; a retransmission whose round trip is
-- below the minimum on record is ambiguous; both change nothing. Any other is counted: the time of
-- the ACK is noted, the round trip becomes the time since its transmission, and RACK.segment becomes this segment, and then the old
-- one was not sent after it, or it stays the old one, and then this one was not sent after that. All
-- other fields stay as they were.
pub note_delivered_lem :
    (s : State) (seg : Segment) (ack_time : ℕ)
    → IsU32 seg.end_seq
    → IsU32 s.rack_end_seq
    → let (t, answer) = note_delivered s seg ack_time in Delivered s seg ack_time t answer
unfolding note_delivered
note_delivered_lem s seg ack_time he hr =
    let P = λ (r : State × Delivery). Delivered s seg ack_time r.0 r.1 in
    let rtt = ack_time - seg.xmit_ts_ns in
    if_elim P (seg.xmit_ts_ns == 0 || ltb ack_time seg.xmit_ts_ns)
      (λ bad. turned_down (ground arith) refl)
      (λ good.
        if_elim P (seg.retransmitted && (s.min_rtt_ns /= 0 && ltb rtt s.min_rtt_ns))
          (λ dubious. unclear (ground arith) (ground arith) (ground arith) refl)
          (λ clear. elim (advance_rack_lem (timed s seg ack_time) seg) [
            | moved later e ↦
                advanced (ground arith) (ground arith) (ground arith)
                  (sent_after_asymm seg.xmit_ts_ns seg.end_seq s.rack_xmit_ts_ns s.rack_end_seq he
                    hr later)
                  e
            | kept not_later e ↦ behind (ground arith) (ground arith) (ground arith) not_later e
          ]))
