-- ===== src/Prr.antt =====
-- Proportional rate reduction, lwip/prr.h and lwip/prr.c: how many bytes an ACK in fast recovery
-- lets the sender send. Pointers are never null; a return of -1 is `none`; `active` and `safe_ack`
-- hold 0 or 1 and are Booleans.
pub mod Quotient
pub mod Credit
pub mod Episode
use tcp_shift.Prelude.{
  ℕ, ◌+◌, ◌-◌, ◌*◌, ◌/◌, ◌%◌, Bool, true, false, not, ◌&&◌, ◌||◌, Option, none, some, ltb, ◌==◌,
  ◌/=◌, if◌then◌else◌, u64, u32_max, u64_max,
}

-- `struct tcp_shift_prr`
pub record Prr : Type 0 where
  pub prr_delivered : ℕ  -- uint64_t
  pub prr_out : ℕ  -- uint64_t
  pub recover_fs : ℕ  -- uint32_t
  pub ssthresh : ℕ  -- uint32_t
  pub active : Bool

-- `struct tcp_shift_prr_ack`
pub record Ack : Type 0 where
  pub delivered_data : ℕ  -- uint32_t
  pub inflight : ℕ  -- uint32_t
  pub smss : ℕ  -- uint32_t
  pub safe_ack : Bool

-- `struct tcp_shift_prr_result`
pub record Grant : Type 0 where
  pub sndcnt : ℕ  -- uint32_t
  pub cwnd : ℕ  -- uint32_t

unfoldable pub add_sat_u64 : ℕ → ℕ → ℕ
add_sat_u64 a b = if ltb (u64_max - a) b then u64_max else a + b

unfoldable pub add_sat_u32 : ℕ → ℕ → ℕ
add_sat_u32 a b = if ltb (u32_max - a) b then u32_max else a + b

-- The product is formed in two parts, so that it needs no 128-bit integer.
unfoldable pub div_round_up_product : ℕ → ℕ → ℕ → ℕ
div_round_up_product value multiplier divisor =
    if divisor == 0
    then u64_max
    else let quotient = value / divisor in
      let remainder = value % divisor in
      if ltb (u64_max / multiplier) quotient
      then u64_max
      else let scaled_quotient = u64 (quotient * multiplier) in
        let product = u64 (remainder * multiplier) in
        let scaled_remainder =
          u64 (product / divisor + (if product % divisor /= 0 then 1 else 0)) in
        add_sat_u64 scaled_quotient scaled_remainder

unfoldable pub reset : Prr → Prr
reset prr = record { prr_delivered = 0; prr_out = 0; recover_fs = 0; ssthresh = 0; active = false }

unfoldable pub init : ℕ → ℕ → Option Prr
init recover_fs ssthresh =
    if recover_fs == 0 || ssthresh == 0
    then none
    else some (record {
      prr_delivered = 0;
      prr_out = 0;
      recover_fs = recover_fs;
      ssthresh = ssthresh;
      active = true;
    })

-- The credit above `ssthresh`, with `prr_delivered` already advanced.
unfoldable pub proportional : Prr → ℕ
proportional prr =
    let allowed = div_round_up_product prr.prr_delivered prr.ssthresh prr.recover_fs in
    if ltb prr.prr_out allowed then allowed - prr.prr_out else 0

-- The credit at or below `ssthresh`.
unfoldable pub rebuild : Prr → Ack → ℕ
rebuild prr ack =
    let owed = if ltb prr.prr_out prr.prr_delivered then prr.prr_delivered - prr.prr_out else 0 in
    let conservative = if ltb ack.delivered_data owed then owed else ack.delivered_data in
    let sndcnt = if ack.safe_ack then add_sat_u64 conservative ack.smss else conservative in
    let room = if ltb ack.inflight prr.ssthresh then prr.ssthresh - ack.inflight else 0 in
    if ltb room sndcnt then room else sndcnt

unfoldable pub credit : Prr → Ack → ℕ
credit prr ack =
    let sndcnt = if ltb prr.ssthresh ack.inflight then proportional prr else rebuild prr ack in
    if prr.prr_out == 0 && sndcnt == 0 then ack.smss else sndcnt

unfoldable pub deliver : Prr → Ack → Prr
deliver prr ack = record prr { prr_delivered = add_sat_u64 prr.prr_delivered ack.delivered_data }

unfoldable pub on_ack : Prr → Ack → Option (Prr × Grant)
on_ack prr ack =
    if not prr.active || (prr.recover_fs == 0 || (prr.ssthresh == 0 || ack.smss == 0))
    then none
    else if ack.delivered_data == 0
    then some (prr, record { sndcnt = 0; cwnd = ack.inflight })
    else let prr' = deliver prr ack in
      let sndcnt = credit prr' ack in
      let bounded = if ltb u32_max sndcnt then u32_max else sndcnt in
      some (prr', record { sndcnt = bounded; cwnd = add_sat_u32 ack.inflight bounded })

unfoldable pub on_send : Prr → ℕ → Option Prr
on_send prr sent_bytes =
    if not prr.active || sent_bytes == 0
    then none
    else some (record prr { prr_out = add_sat_u64 prr.prr_out sent_bytes })

-- The reset state and the window that recovery leaves.
unfoldable pub complete : Prr → Option (Prr × ℕ)
unfolding reset
complete prr = if not prr.active || prr.ssthresh == 0 then none else some (reset prr, prr.ssthresh)
