-- ===== src/Cc/Hystart.antt =====
-- HyStart++ of CUBIC, cc/cubic_hystart.c: when slow start gives way to its conservative phase, CSS,
-- and when that ends. `Model` has the fields of `struct tcp_shift_cubic_model` that these functions
-- read or write. Pointers are not null; a return of -1 is `none`; flags are Booleans.
pub mod Phases
pub mod Changes
use tcp_shift.Prelude.{
  ℕ, ◌+◌, ◌-◌, ◌/◌, Bool, true, false, not, ◌&&◌, ◌||◌, Option, none, some, ltb, leb, ◌==◌, ◌/=◌,
  if◌then◌else◌, u32, u32_max, u64_max,
}
use tcp_shift.Cc.{Transport, Ack}

pub record Model : Type 0 where
  pub cwnd_q16 : ℕ  -- uint64_t
  pub ssthresh_q16 : ℕ  -- uint64_t
  pub last_round_min_rtt_ns : ℕ  -- uint64_t
  pub current_round_min_rtt_ns : ℕ  -- uint64_t
  pub css_baseline_min_rtt_ns : ℕ  -- uint64_t
  pub next_round_delivered : ℕ  -- uint64_t
  pub mss_bytes : ℕ  -- uint32_t
  pub sample_count : ℕ  -- uint32_t
  pub css_rounds : ℕ  -- uint32_t
  pub exit_events : ℕ  -- uint32_t
  pub css_enter_events : ℕ  -- uint32_t
  pub css_revert_events : ℕ  -- uint32_t
  pub enabled : Bool
  pub css : Bool
  pub ack_css : Bool
  pub exit_pending : Bool
  pub initial_complete : Bool

unfoldable pub delay_threshold : ℕ → ℕ
delay_threshold last_round_min_rtt_ns =
    let threshold = last_round_min_rtt_ns / 8 in
    let raised = if ltb threshold 4000000 then 4000000 else threshold in
    if ltb 16000000 raised then 16000000 else raised

unfoldable pub hystart_add_sat : ℕ → ℕ → ℕ
hystart_add_sat left right = if ltb (u64_max - left) right then u64_max else left + right

unfoldable pub is_slow_start : Model → Bool
is_slow_start m = ltb m.cwnd_q16 m.ssthresh_q16

unfoldable pub hystart_reset : Model → Model
hystart_reset m = record m {
  last_round_min_rtt_ns = u64_max;
  current_round_min_rtt_ns = u64_max;
  css_baseline_min_rtt_ns = u64_max;
  next_round_delivered = 0;
  sample_count = 0;
  css_rounds = 0;
  exit_events = 0;
  css_enter_events = 0;
  css_revert_events = 0;
  enabled = true;
  css = false;
  ack_css = false;
  exit_pending = false;
  initial_complete = false;
}

unfoldable pub hystart_disable : Model → Model
hystart_disable m = record m {
  enabled = false;
  css = false;
  ack_css = false;
  exit_pending = false;
  initial_complete = true;
}

unfoldable pub start_round : Model → Transport → Ack → Model
start_round m t ack = record m {
  last_round_min_rtt_ns = m.current_round_min_rtt_ns;
  current_round_min_rtt_ns = u64_max;
  sample_count = 0;
  next_round_delivered = hystart_add_sat ack.rate.delivered_total_bytes t.inflight_bytes;
}

unfoldable pub new_round : Model → Ack → Bool
new_round m ack =
    m.next_round_delivered == 0
    || (ack.rate.delivered_total_bytes /= 0
        && leb m.next_round_delivered ack.rate.delivered_total_bytes)

-- The RTT of an ACK noted.
unfoldable pub note_rtt : Model → Ack → Model
note_rtt m ack = record m {
  current_round_min_rtt_ns =
      if ltb ack.rate.rtt_ns m.current_round_min_rtt_ns
      then ack.rate.rtt_ns
      else m.current_round_min_rtt_ns;
  sample_count = if m.sample_count /= u32_max then m.sample_count + 1 else m.sample_count;
}

unfoldable pub test_css : Model → Model × Bool
test_css m =
    if leb 8 m.sample_count && ltb m.current_round_min_rtt_ns m.css_baseline_min_rtt_ns
    then (
      record m {
        css = false;
        css_baseline_min_rtt_ns = u64_max;
        css_rounds = 0;
        css_revert_events = u32 (m.css_revert_events + 1);
      },
      true,
    )
    else (m, false)

unfoldable pub test_delay : Model → Model × Bool
test_delay m =
    if ltb m.sample_count 8
      || (m.last_round_min_rtt_ns == u64_max || m.current_round_min_rtt_ns == u64_max)
    then (m, false)
    else if leb (hystart_add_sat m.last_round_min_rtt_ns (delay_threshold m.last_round_min_rtt_ns))
        m.current_round_min_rtt_ns
    then (
      record m {
        css_baseline_min_rtt_ns = m.current_round_min_rtt_ns;
        css = true;
        css_rounds = 0;
        css_enter_events = u32 (m.css_enter_events + 1);
      },
      true,
    )
    else (m, false)

-- The part of `on_ack` after the rounds.
unfoldable pub sample : Model → Ack → Model × Bool
sample m ack =
    if not ack.rate.rtt_valid || ack.rate.rtt_ns == 0
    then (m, false)
    else let n = note_rtt m ack in if n.css then test_css n else test_delay n

-- A round of CSS counted, if one ends here.
unfoldable pub count_round : Model → Model
count_round m =
    if m.css && m.next_round_delivered /= 0
    then record m { css_rounds = u32 (m.css_rounds + 1) }
    else m

-- Whether the round just counted is the fifth.
unfoldable pub last_round : Model → Bool
last_round m = m.css && (m.next_round_delivered /= 0 && leb 5 (u32 (m.css_rounds + 1)))

-- The part of `on_ack` after its guards.
unfoldable pub advance : Model → Transport → Ack → Model × Bool
advance m t ack =
    if new_round m ack
    then (if last_round m
        then (record (count_round m) { exit_pending = true }, true)
        else sample (start_round (count_round m) t ack) ack)
    else sample m ack

-- The results 0 and 1 as Booleans.
unfoldable pub hystart_on_ack : Model → Transport → Ack → ℕ → Option (Model × Bool)
hystart_on_ack m t ack now_ns =
    if now_ns == 0 || t.mss_bytes == 0
    then none
    else let noted = record m { ack_css = m.css } in
      if not m.enabled || (m.initial_complete || not (is_slow_start m))
      then some (noted, false)
      else if m.mss_bytes /= t.mss_bytes
      then some (noted, false)
      else some (advance noted t ack)
