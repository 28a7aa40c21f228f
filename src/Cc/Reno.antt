-- ===== src/Cc/Reno.antt =====
-- Byte-counting Reno, cc/reno.h and cc/reno.c. The callbacks give the state, the policy and whether
-- they return 0.
pub mod Bounds
pub mod Trace
pub mod Growth
use tcp_shift.Prelude.{
  ℕ, ◌+◌, ◌-◌, ◌*◌, ◌/◌, Bool, true, false, ◌||◌, some, ltb, leb, if◌then◌else◌, u32_max, codes,
}
use tcp_shift.Cc.{Transport, InitialWindows, Ack, Policy, Outcome, Ops}

-- `struct tcp_shift_reno_state`
pub record Reno : Type 0 where
  pub cwnd_bytes : ℕ  -- uint32_t
  pub ssthresh_bytes : ℕ  -- uint32_t
  pub ca_acked_bytes : ℕ  -- uint32_t
  pub min_cwnd_bytes : ℕ  -- uint32_t

unfoldable pub add_sat : ℕ → ℕ → ℕ
add_sat value increment = if ltb (u32_max - value) increment then u32_max else value + increment

abbrev pub least : ℕ → ℕ → ℕ
least left right = if ltb left right then left else right

abbrev pub most : ℕ → ℕ → ℕ
most left right = if ltb right left then left else right

unfoldable pub add_cap : ℕ → ℕ → ℕ → ℕ
unfolding add_sat
add_cap value increment limit = least (add_sat value increment) limit

unfoldable pub mul2_cap : ℕ → ℕ → ℕ
mul2_cap value limit = if ltb (limit / 2) value then limit else value * 2

unfoldable pub effective_min : Reno → Transport → ℕ
effective_min s t = least (most s.min_cwnd_bytes t.mss_bytes) t.cwnd_limit_bytes

unfoldable pub publish : Reno → Policy → Policy
publish s policy = record {
  cwnd_bytes = s.cwnd_bytes;
  ssthresh_bytes = s.ssthresh_bytes;
  pacing_rate_bytes_per_sec = 0;
}

unfoldable pub reduce_ssthresh : Reno → Transport → Reno
unfolding mul2_cap
reduce_ssthresh s t =
    let floor = mul2_cap t.mss_bytes t.cwnd_limit_bytes in
    let effective_window =
      if ltb t.send_window_bytes s.cwnd_bytes then t.send_window_bytes else s.cwnd_bytes in
    let reduced = effective_window / 2 in
    record s { ssthresh_bytes = least (most reduced floor) t.cwnd_limit_bytes }

unfoldable pub init : Reno → Transport → InitialWindows → Policy → Outcome Reno
unfolding mul2_cap publish
init s t w policy =
    let floor = mul2_cap t.mss_bytes t.cwnd_limit_bytes in
    if ltb w.initial_cwnd_bytes t.mss_bytes
      || (ltb w.min_cwnd_bytes t.mss_bytes
          || (ltb w.initial_cwnd_bytes w.min_cwnd_bytes
              || (ltb w.initial_ssthresh_bytes floor
                  || (ltb t.cwnd_limit_bytes w.initial_cwnd_bytes
                      || (ltb t.cwnd_limit_bytes w.initial_ssthresh_bytes
                          || ltb t.cwnd_limit_bytes w.min_cwnd_bytes)))))
    then (s, policy, false)
    else let s' : Reno = record {
      cwnd_bytes = w.initial_cwnd_bytes;
      ssthresh_bytes = w.initial_ssthresh_bytes;
      ca_acked_bytes = 0;
      min_cwnd_bytes = w.min_cwnd_bytes;
    } in
      (s', publish s' policy, true)

-- The window raised to the effective minimum.
unfoldable pub raise : Reno → Transport → Reno
unfolding effective_min
raise s t =
    if ltb s.cwnd_bytes (effective_min s t) then record s { cwnd_bytes = effective_min s t } else s

unfoldable pub slow_start : Reno → Transport → ℕ → Reno
unfolding mul2_cap add_cap
slow_start s t acked =
    let limit = mul2_cap t.mss_bytes t.cwnd_limit_bytes in
    let increase = if ltb limit acked then limit else acked in
    record s { cwnd_bytes = add_cap s.cwnd_bytes increase t.cwnd_limit_bytes }

unfoldable pub avoidance : Reno → Transport → ℕ → Reno
unfolding add_sat add_cap
avoidance s t acked =
    let counted = add_sat s.ca_acked_bytes acked in
    if leb s.cwnd_bytes counted
    then record s {
      ca_acked_bytes = counted - s.cwnd_bytes;
      cwnd_bytes = add_cap s.cwnd_bytes t.mss_bytes t.cwnd_limit_bytes;
    }
    else record s { ca_acked_bytes = counted }

-- The state after an ACK.
unfoldable pub grow : Reno → Transport → ℕ → Reno
grow s t acked =
    let r = raise s t in
    if ltb r.cwnd_bytes r.ssthresh_bytes then slow_start r t acked else avoidance r t acked

unfoldable pub on_ack : Reno → Transport → Ack → Policy → Outcome Reno
on_ack s t ack policy = let s' = grow s t ack.acked_bytes in (s', publish s' policy, true)

-- The state after a loss.
unfoldable pub shrink : Reno → Transport → Reno
unfolding reduce_ssthresh effective_min
shrink s t =
    let r = reduce_ssthresh s t in
    record r {
      cwnd_bytes = least (most r.ssthresh_bytes (effective_min r t)) t.cwnd_limit_bytes;
      ca_acked_bytes = 0;
    }

unfoldable pub on_loss : Reno → Transport → ℕ → Policy → Outcome Reno
on_loss s t lost_bytes policy = let s' = shrink s t in (s', publish s' policy, true)

unfoldable pub on_ecn : Reno → Transport → Policy → Outcome Reno
on_ecn s t policy = on_loss s t 1 policy

-- The state after a retransmission timeout.
unfoldable pub collapse : Reno → Transport → Reno
unfolding reduce_ssthresh effective_min
collapse s t =
    let r = reduce_ssthresh s t in record r { cwnd_bytes = effective_min r t; ca_acked_bytes = 0 }

unfoldable pub on_timeout : Reno → Transport → Policy → Outcome Reno
on_timeout s t policy = let s' = collapse s t in (s', publish s' policy, true)

abbrev pub fixed_rate : ℕ
fixed_rate = 65536

-- The rate is published over a result of 0, and nothing over another.
unfoldable pub fixed_pacing_publish : Outcome Reno → Outcome Reno
fixed_pacing_publish (s, policy, ok) =
    if ok
    then (s, record policy { pacing_rate_bytes_per_sec = fixed_rate }, true)
    else (s, policy, ok)

-- The name is the text "reno"; `size` is `sizeof(struct tcp_shift_reno_state)`.
unfoldable pub reno_ops : ℕ → Ops Reno
reno_ops size = record {
  name = some (codes "reno");
  state_size = size;
  init = some init;
  on_ack = some on_ack;
  on_loss = some on_loss;
  on_ecn = some on_ecn;
  on_timeout = some on_timeout;
}

unfoldable pub fixed_pacing_ops : ℕ → Ops Reno
fixed_pacing_ops size = record {
  name = some (codes "fixed-pacing-reno");
  state_size = size;
  init = some (λ s t w policy. fixed_pacing_publish (init s t w policy));
  on_ack = some (λ s t ack policy. fixed_pacing_publish (on_ack s t ack policy));
  on_loss = some (λ s t lost policy. fixed_pacing_publish (on_loss s t lost policy));
  on_ecn = some (λ s t policy. fixed_pacing_publish (on_ecn s t policy));
  on_timeout = some (λ s t policy. fixed_pacing_publish (on_timeout s t policy));
}
