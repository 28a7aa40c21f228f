-- ===== src/Rack.antt =====
-- RACK-TLP, lwip/rack_tlp.h and lwip/rack_tlp.c: time-based loss detection and tail loss probes of
-- RFC 8985. Pointers are never null but for the state of `calc_pto_ns`, which the source lets be
-- null; flags hold 0 or 1 and are Booleans.
pub mod Order
pub mod Window
pub mod Loss
pub mod Probe
use tcp_shift.Prelude.{
  ℕ, zero, suc, ◌+◌, ◌-◌, ◌*◌, ◌/◌, ◌%◌, Bool, true, false, not, ◌&&◌, ◌||◌, Option, none, some,
  ltb, leb, ◌==◌, ◌/=◌, if◌then◌else◌, u32, u64, u32_max, u64_max,
}

-- `struct tcp_shift_rack_tlp_state`
pub record State : Type 0 where
  pub rack_xmit_ts_ns : ℕ  -- uint64_t
  pub rack_ack_ts_ns : ℕ  -- uint64_t
  pub rack_rtt_ns : ℕ  -- uint64_t
  pub min_rtt_ns : ℕ  -- uint64_t
  pub srtt_ns : ℕ  -- uint64_t
  pub reo_wnd_ns : ℕ  -- uint64_t
  pub rack_end_seq : ℕ  -- uint32_t
  pub fack : ℕ  -- uint32_t
  pub dsack_round_end_seq : ℕ  -- uint32_t
  pub tlp_start_seq : ℕ  -- uint32_t
  pub tlp_end_seq : ℕ  -- uint32_t
  pub segs_sacked : ℕ  -- uint32_t
  pub reo_wnd_mult : ℕ  -- uint32_t
  pub reo_wnd_persist : ℕ  -- uint32_t
  pub reordering_seen : Bool
  pub dsack_round_active : Bool
  pub tlp_is_retrans : Bool
  pub rtt_sample_since_probe : Bool

-- `struct tcp_shift_rack_segment`
pub record Segment : Type 0 where
  pub xmit_ts_ns : ℕ  -- uint64_t
  pub seq_start : ℕ  -- uint32_t
  pub end_seq : ℕ  -- uint32_t
  pub retransmitted : Bool
  pub lost : Bool

abbrev pub reo_wnd_divisor : ℕ
reo_wnd_divisor = 4

abbrev pub reo_wnd_persist_recoveries : ℕ
reo_wnd_persist_recoveries = 16

abbrev pub default_pto_ns : ℕ
default_pto_ns = 1000000000

unfoldable pub add_sat : ℕ → ℕ → ℕ
add_sat left right = if ltb (u64_max - left) right then u64_max else left + right

unfoldable pub mul_sat : ℕ → ℕ → ℕ
mul_sat left right =
    if left == 0 || right == 0
    then 0
    else if ltb (u64_max / right) left
    then u64_max
    else left * right

-- `left - right` in 32 bits; read as an `int32_t` it is positive from 1 to 2 ^ 31 - 1.
abbrev pub seq_distance : ℕ → ℕ → ℕ
seq_distance left right = u32 (left + 4294967296 - right)

unfoldable pub seq_after : ℕ → ℕ → Bool
seq_after left right = let d = seq_distance left right in d /= 0 && ltb d 2147483648

unfoldable pub seq_after_eq : ℕ → ℕ → Bool
seq_after_eq left right = ltb (seq_distance left right) 2147483648

unfoldable pub init : State
init = record {
  rack_xmit_ts_ns = 0;
  rack_ack_ts_ns = 0;
  rack_rtt_ns = 0;
  min_rtt_ns = 0;
  srtt_ns = 0;
  reo_wnd_ns = 0;
  rack_end_seq = 0;
  fack = 0;
  dsack_round_end_seq = 0;
  tlp_start_seq = 0;
  tlp_end_seq = 0;
  segs_sacked = 0;
  reo_wnd_mult = 1;
  reo_wnd_persist = 0;
  reordering_seen = false;
  dsack_round_active = false;
  tlp_is_retrans = false;
  rtt_sample_since_probe = false;
}

unfoldable pub sent_after : ℕ → ℕ → ℕ → ℕ → Bool
sent_after xmit_a end_a xmit_b end_b =
    if ltb xmit_b xmit_a then true else if ltb xmit_a xmit_b then false else seq_after end_a end_b

unfoldable pub set_rtt_estimates : State → ℕ → ℕ → State
set_rtt_estimates s min_rtt srtt = record s { min_rtt_ns = min_rtt; srtt_ns = srtt }

unfoldable pub note_sacked_segments : State → ℕ → State
note_sacked_segments s segs = record s { segs_sacked = segs }

-- The results -1, 0 and 1 of `note_delivered`.
pub data Delivery : Type 0 where
  rejected ambiguous counted : Delivery

-- RACK.segment becomes the segment, if that was sent later.
unfoldable pub advance_rack : State → Segment → State
advance_rack s seg =
    if sent_after seg.xmit_ts_ns seg.end_seq s.rack_xmit_ts_ns s.rack_end_seq
    then record s { rack_xmit_ts_ns = seg.xmit_ts_ns; rack_end_seq = seg.end_seq }
    else s

unfoldable pub note_delivered : State → Segment → ℕ → State × Delivery
note_delivered s seg ack_time =
    if seg.xmit_ts_ns == 0 || ltb ack_time seg.xmit_ts_ns
    then (s, rejected)
    else let rtt = ack_time - seg.xmit_ts_ns in
      if seg.retransmitted && (s.min_rtt_ns /= 0 && ltb rtt s.min_rtt_ns)
      then (s, ambiguous)
      else (advance_rack (record s { rack_rtt_ns = rtt; rack_ack_ts_ns = ack_time }) seg, counted)

unfoldable pub detect_reordering : State → Segment → State
detect_reordering s seg =
    if s.fack == 0 || seq_after seg.end_seq s.fack
    then record s { fack = seg.end_seq }
    else if seg.end_seq /= s.fack && not seg.retransmitted
    then record s { reordering_seen = true }
    else s

unfoldable pub note_dsack : State → ℕ → State
note_dsack s snd_nxt = if s.dsack_round_active then s else record s {
  dsack_round_active = true;
  dsack_round_end_seq = snd_nxt;
  reo_wnd_mult = if s.reo_wnd_mult /= u32_max then s.reo_wnd_mult + 1 else s.reo_wnd_mult;
  reo_wnd_persist = reo_wnd_persist_recoveries;
}

-- The end of a DSACK round that the cumulative ACK has passed.
unfoldable pub end_dsack_round : State → ℕ → State
end_dsack_round s snd_una =
    if s.dsack_round_active && seq_after_eq snd_una s.dsack_round_end_seq
    then record s { dsack_round_active = false; dsack_round_end_seq = 0 }
    else s

unfoldable pub note_recovery_exit : State → ℕ → State
note_recovery_exit s snd_una =
    let t = end_dsack_round s snd_una in
    if t.reo_wnd_persist /= 0
    then record t {
      reo_wnd_persist = t.reo_wnd_persist - 1;
      reo_wnd_mult = if t.reo_wnd_persist - 1 == 0 then 1 else t.reo_wnd_mult;
    }
    else t

-- The state with the new window, and the window.
unfoldable pub reo_wnd : State → Bool → State × ℕ
reo_wnd s in_recovery =
    if s.min_rtt_ns == 0
    then (s, 0)
    else if not s.reordering_seen && (in_recovery || leb 3 s.segs_sacked)
    then (record s { reo_wnd_ns = 0 }, 0)
    else let quarter = s.min_rtt_ns / reo_wnd_divisor in
      let base = if quarter == 0 then 1 else quarter in
      let scaled = mul_sat base s.reo_wnd_mult in
      let bounded = if s.srtt_ns /= 0 && ltb s.srtt_ns scaled then s.srtt_ns else scaled in
      (record s { reo_wnd_ns = bounded }, bounded)

-- A segment that RACK cannot judge: never sent, nothing delivered yet, or judged already.
unfoldable pub unjudged : State → Segment → Bool
unjudged s seg = seg.xmit_ts_ns == 0 || (s.rack_xmit_ts_ns == 0 || (s.rack_rtt_ns == 0 || seg.lost))

-- The state, whether the segment is lost, and `*remaining_ns`.
unfoldable pub loss_remaining : State → Segment → ℕ → Bool → State × Bool × ℕ
loss_remaining s seg now in_recovery =
    if unjudged s seg
    then (s, false, 0)
    else if not (sent_after s.rack_xmit_ts_ns s.rack_end_seq seg.xmit_ts_ns seg.end_seq)
    then (s, false, 0)
    else let (t, wnd) = reo_wnd s in_recovery in
      let deadline = add_sat (add_sat seg.xmit_ts_ns s.rack_rtt_ns) wnd in
      if leb deadline now then (t, true, 0) else (t, false, deadline - now)

unfoldable pub lost_on_rto : State → Segment → ℕ → ℕ → Bool → State × Bool
lost_on_rto s seg snd_una now in_recovery =
    if seg.seq_start == snd_una
    then (s, true)
    else let (t, lost, _) = loss_remaining s seg now in_recovery in (t, lost)

-- The timeout before the limit by the RTO; `none` is a null state.
abbrev pub pto_base : Option State → ℕ → ℕ → ℕ
pto_base none flight max_ack_delay = default_pto_ns
pto_base (some s) flight max_ack_delay =
    let pto = mul_sat s.srtt_ns 2 in
    if s.srtt_ns /= 0
    then (if flight == 1 then add_sat pto max_ack_delay else pto)
    else default_pto_ns

unfoldable pub calc_pto_ns : Option State → ℕ → ℕ → ℕ → ℕ → ℕ
calc_pto_ns state now rto_expiration flight max_ack_delay =
    let pto = pto_base state flight max_ack_delay in
    if ltb now rto_expiration && ltb rto_expiration (add_sat now pto)
    then rto_expiration - now
    else pto

unfoldable pub probe_allowed : State → Bool
probe_allowed s = s.tlp_end_seq == 0 && s.rtt_sample_since_probe

unfoldable pub note_probe_sent : State → ℕ → ℕ → Bool → State
note_probe_sent s start_seq end_seq is_retransmission = record s {
  tlp_start_seq = start_seq;
  tlp_end_seq = end_seq;
  tlp_is_retrans = is_retransmission;
  rtt_sample_since_probe = false;
}

unfoldable pub note_rtt_sample : State → State
note_rtt_sample s = record s { rtt_sample_since_probe = true }

-- `enum tcp_shift_tlp_ack_result`
pub data TlpAck : Type 0 where
  nothing cleared loss_repaired : TlpAck

unfoldable pub tlp_reset : State → State
tlp_reset s = record s { tlp_start_seq = 0; tlp_end_seq = 0; tlp_is_retrans = false }

unfoldable pub process_ack : State → ℕ → Bool → Bool → State × TlpAck
unfolding tlp_reset
process_ack s ack_seq dsack_matches_probe dupack_without_sack =
    if s.tlp_end_seq == 0 || not (seq_after_eq ack_seq s.tlp_end_seq)
    then (s, nothing)
    else if not s.tlp_is_retrans || (dsack_matches_probe || dupack_without_sack)
    then (tlp_reset s, cleared)
    else if seq_after ack_seq s.tlp_end_seq
    then (tlp_reset s, loss_repaired)
    else (s, nothing)
