-- ===== src/Cc/Bbr/Filter.antt =====
-- What an ACK does to the model of BBR, cc/bbr.c.
use Prim.Native.Nat.{max}
use tcp_shift.Prelude.{
  ℕ, zero, suc, ◌+◌, ◌-◌, ◌/◌, ◌%◌, true, false, not, ◌&&◌, ◌||◌, Option, none, some, ltb, leb,
  ◌==◌, ◌/=◌, if◌then◌else◌, u32, u64, u32_max, u64_max,
}
use tcp_shift.Cc.{RateSample}
use tcp_shift.Cc.Bbr.{Bbr, startup, is_startup, elapsed_gt}

-- The greatest of the first slots.
unfoldable pub greatest : (ℕ → ℕ) → ℕ → ℕ
greatest filter zero = 0
greatest filter (suc n) = max (greatest filter n) (filter n)

unfoldable pub recompute_max_bw : Bbr → Bbr
recompute_max_bw m = record m { max_bw = greatest m.max_bw_filter 10 }

unfoldable pub update_round : Bbr → RateSample → Bbr
update_round m s =
    let closed = record m { round_start = false } in
    if s.delivered_total_bytes == 0 || ltb s.delivered_total_bytes s.prior_delivered_bytes
    then closed
    else if leb m.next_round_delivered s.prior_delivered_bytes
    then record m {
      next_round_delivered = s.delivered_total_bytes;
      round_count = u32 (m.round_count + 1);
      round_start = true;
    }
    else closed

-- One slot set.
abbrev pub set_slot : (ℕ → ℕ) → ℕ → ℕ → ℕ → ℕ
set_slot filter slot value i = if i == slot then value else filter i

-- The slots of the next `steps` rounds cleared.
unfoldable pub clear_slots : (ℕ → ℕ) → ℕ → ℕ → ℕ → ℕ
clear_slots filter round zero = filter
clear_slots filter round (suc steps) =
    set_slot (clear_slots filter round steps) (u32 (round + suc steps) % 10) 0

abbrev pub no_slots : ℕ → ℕ
no_slots i = 0

unfoldable pub aged_slots : Bbr → ℕ → ℕ → ℕ
aged_slots m delta =
    if leb 10 delta then no_slots else clear_slots m.max_bw_filter m.bw_filter_round delta

unfoldable pub age_bw_filter : Bbr → ℕ → Bbr
age_bw_filter m round =
    let delta = u32 (round + (u32_max + 1 - m.bw_filter_round)) in
    if not m.has_bw_filter_round
    then record m { bw_filter_round = round; has_bw_filter_round = true }
    else if delta == 0
    then m
    else recompute_max_bw (record m { max_bw_filter = aged_slots m delta; bw_filter_round = round })

-- A sample taken into the slot of its round.
unfoldable pub admit_bw : Bbr → ℕ → Bbr
admit_bw m rate =
    let slot = m.round_count % 10 in
    recompute_max_bw (record m {
      max_bw_filter =
          if ltb (m.max_bw_filter slot) rate
          then set_slot m.max_bw_filter slot rate
          else m.max_bw_filter;
      accepted_bw_samples = u64 (m.accepted_bw_samples + 1);
    })

unfoldable pub update_max_bw : Bbr → RateSample → Bbr
update_max_bw m s =
    let rate = s.delivery_rate_bytes_per_sec in
    let counted = record m { valid_rate_samples = u64 (m.valid_rate_samples + 1) } in
    if not s.valid || rate == 0
    then m
    else if s.app_limited && ltb rate m.max_bw
    then record counted {
      ignored_app_limited_bw_samples = u64 (m.ignored_app_limited_bw_samples + 1);
    }
    else admit_bw (age_bw_filter counted counted.round_count) rate

unfoldable pub full_bw_threshold : ℕ → ℕ
full_bw_threshold full_bw =
    let quarter = if full_bw % 4 /= 0 then full_bw / 4 + 1 else full_bw / 4 in
    if ltb (u64_max - full_bw) quarter then u64_max else full_bw + quarter

-- A round that shows no growth counted.
unfoldable pub count_plateau : Bbr → Bbr
count_plateau m =
    let count = u32 (m.full_bw_count + 1) in
    if leb 3 count
    then record m { full_bw_count = count; full_bw_now = true; full_bw_reached = true }
    else record m { full_bw_count = count; full_bw_now = false }

unfoldable pub check_startup_full_bw : Bbr → RateSample → Bbr
check_startup_full_bw m s =
    if not (is_startup m.mode)
      || (m.full_bw_reached
          || (not m.round_start
              || (not s.valid || (s.delivery_rate_bytes_per_sec == 0 || s.app_limited))))
    then record m { full_bw_now = false }
    else if m.full_bw == 0 || leb (full_bw_threshold m.full_bw) m.max_bw
    then record m { full_bw = m.max_bw; full_bw_count = 0; full_bw_now = false }
    else count_plateau m

-- The minimum of the last five seconds, for a sample.
unfoldable pub update_probe_min : Bbr → ℕ → ℕ → Bbr
update_probe_min m rtt_ns now_ns =
    let expired = m.has_probe_rtt_min && elapsed_gt now_ns m.probe_rtt_min_stamp_ns 5000000000 in
    let noted = record m { probe_rtt_expired = expired } in
    if not m.has_probe_rtt_min || (ltb rtt_ns m.probe_rtt_min_delay_ns || expired)
    then record noted {
      probe_rtt_min_delay_ns = rtt_ns;
      probe_rtt_min_stamp_ns = now_ns;
      has_probe_rtt_min = true;
    }
    else noted

-- The minimum of the last ten seconds, from the other.
unfoldable pub update_long_min : Bbr → ℕ → Bbr
update_long_min m now_ns =
    let expired = m.has_min_rtt && elapsed_gt now_ns m.min_rtt_stamp_ns 10000000000 in
    let noted = record m { min_rtt_expired = expired } in
    if not m.has_min_rtt || (ltb m.probe_rtt_min_delay_ns m.min_rtt_ns || expired)
    then record noted {
      min_rtt_ns = m.probe_rtt_min_delay_ns;
      min_rtt_stamp_ns = m.probe_rtt_min_stamp_ns;
      has_min_rtt = true;
    }
    else noted

unfoldable pub update_min_rtt : Bbr → RateSample → ℕ → Bbr
update_min_rtt m s now_ns =
    if not s.rtt_valid || s.rtt_ns == 0
    then record m { probe_rtt_expired = false; min_rtt_expired = false }
    else update_long_min
        (update_probe_min (record m { valid_rtt_samples = u64 (m.valid_rtt_samples + 1) }) s.rtt_ns
          now_ns)
        now_ns

unfoldable pub bbr_init : Bbr
bbr_init = record {
  max_bw = 0;
  max_bw_filter = no_slots;
  min_rtt_ns = 0;
  min_rtt_stamp_ns = 0;
  probe_rtt_min_delay_ns = 0;
  probe_rtt_min_stamp_ns = 0;
  last_update_ns = 0;
  valid_rate_samples = 0;
  accepted_bw_samples = 0;
  ignored_app_limited_bw_samples = 0;
  valid_rtt_samples = 0;
  next_round_delivered = 0;
  full_bw = 0;
  bw_filter_round = 0;
  round_count = 0;
  full_bw_count = 0;
  mode = startup;
  has_min_rtt = false;
  has_probe_rtt_min = false;
  has_update_time = false;
  has_bw_filter_round = false;
  probe_rtt_expired = false;
  min_rtt_expired = false;
  round_start = false;
  full_bw_now = false;
  full_bw_reached = false;
}

-- The part of `on_ack` past its guards.
unfoldable pub observe : Bbr → RateSample → ℕ → Bbr
observe m s now_ns =
    let timed = record m { last_update_ns = now_ns; has_update_time = true } in
    update_min_rtt (check_startup_full_bw (update_max_bw (update_round timed s) s) s) s now_ns

unfoldable pub bbr_on_ack : Bbr → RateSample → ℕ → Option Bbr
bbr_on_ack m s now_ns =
    if m.has_update_time && ltb now_ns m.last_update_ns then none else some (observe m s now_ns)
