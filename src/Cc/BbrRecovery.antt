-- ===== src/Cc/BbrRecovery.antt =====
-- The loss recovery of BBR, cc/bbr_recovery.h and cc/bbr_recovery.c. Pointers are not null; a return
-- of -1 is `none`; flags hold 0 or 1 and are Booleans, but for `round_start`, an `unsigned`.
pub mod Windows
use tcp_shift.Prelude.{
  ℕ, ◌+◌, ◌-◌, Bool, true, false, not, ◌&&◌, ◌||◌, Option, none, some, ltb, leb, ◌==◌, ◌/=◌,
  if◌then◌else◌,
}

-- `struct tcp_shift_bbr_recovery_state`
pub record Recovery : Type 0 where
  pub prior_cwnd_bytes : ℕ  -- uint32_t
  pub in_recovery : Bool
  pub packet_conservation : Bool

-- The arguments of one call: the window, what is in flight, and what an ACK tells.
pub record Flight : Type 0 where
  pub current_cwnd_bytes : ℕ
  pub inflight_bytes : ℕ
  pub acked_bytes : ℕ
  pub lost_bytes : ℕ
  pub mss_bytes : ℕ
  pub cwnd_limit_bytes : ℕ

unfoldable pub valid_window : ℕ → ℕ → ℕ → Bool
valid_window cwnd mss limit = mss /= 0 && (leb mss limit && (leb mss cwnd && leb cwnd limit))

unfoldable pub floor_sub : ℕ → ℕ → ℕ → ℕ
floor_sub value subtract floor =
    if leb value subtract || ltb (value - subtract) floor then floor else value - subtract

unfoldable pub sat_add_limit : ℕ → ℕ → ℕ → ℕ
sat_add_limit a b limit = if leb limit a || ltb (limit - a) b then limit else a + b

unfoldable pub recovery_init : Recovery
recovery_init = record { prior_cwnd_bytes = 0; in_recovery = false; packet_conservation = false }

-- The window of packet conservation, at least a segment.
unfoldable pub conservation_cwnd : Flight → ℕ
conservation_cwnd f =
    let sum = sat_add_limit f.inflight_bytes f.acked_bytes f.cwnd_limit_bytes in
    if ltb sum f.mss_bytes then f.mss_bytes else sum

-- The state and the window. The deduction of the loss has no effect here, so it has no counterpart.
unfoldable pub enter : Recovery → Flight → Option (Recovery × ℕ)
enter s f =
    if s.in_recovery || not (valid_window f.current_cwnd_bytes f.mss_bytes f.cwnd_limit_bytes)
    then none
    else some (
      record {
        prior_cwnd_bytes = f.current_cwnd_bytes;
        in_recovery = true;
        packet_conservation = true;
      },
      conservation_cwnd f,
    )

-- The window after an ACK, from whether conservation owns it.
unfoldable pub ack_cwnd : Flight → Bool → ℕ
ack_cwnd f owned =
    let cwnd = floor_sub f.current_cwnd_bytes f.lost_bytes f.mss_bytes in
    let raised = if owned && ltb cwnd (conservation_cwnd f) then conservation_cwnd f else cwnd in
    if ltb f.cwnd_limit_bytes raised then f.cwnd_limit_bytes else raised

-- The state, the window, and whether conservation owns it.
unfoldable pub on_ack : Recovery → Flight → ℕ → Option (Recovery × ℕ × Bool)
on_ack s f round_start =
    if not s.in_recovery || not (valid_window f.current_cwnd_bytes f.mss_bytes f.cwnd_limit_bytes)
    then none
    else let owned = s.packet_conservation && round_start == 0 in
      some (record s { packet_conservation = owned }, ack_cwnd f owned, owned)

unfoldable pub exit : Recovery → ℕ → ℕ → Option (Recovery × ℕ)
exit s current limit =
    if not s.in_recovery
      || (current == 0 || (limit == 0 || (ltb limit current || s.prior_cwnd_bytes == 0)))
    then none
    else let restored = if ltb s.prior_cwnd_bytes current then current else s.prior_cwnd_bytes in
      some (
        record s { in_recovery = false; packet_conservation = false },
        if ltb limit restored then limit else restored,
      )
