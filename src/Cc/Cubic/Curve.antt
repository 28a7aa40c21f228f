-- ===== src/Cc/Cubic/Curve.antt =====
-- The time of an epoch and the cubic curve over it, cc/cubic.c.
use tcp_shift.Prelude.{
  ℕ, zero, suc, ◌+◌, ◌-◌, ◌*◌, ◌/◌, ◌%◌, Bool, true, false, not, ◌&&◌, ◌||◌, ltb, leb, ◌==◌, ◌/=◌,
  if◌then◌else◌, u64, u32_max, u64_max,
}
use tcp_shift.Cc.Cubic.{Cubic, add_sat, mul_sat}

abbrev pub cubic_scale : ℕ
cubic_scale = 40960

abbrev pub second_ns : ℕ
second_ns = 1000000000

unfoldable pub time_q10 : ℕ → ℕ
time_q10 time_ns =
    if ltb (u64_max / 1024) (time_ns / second_ns)
    then u64_max
    else u64 (time_ns / second_ns * 1024 + time_ns % second_ns * 1024 / second_ns)

unfoldable pub nonzero_time_q10 : ℕ → ℕ
nonzero_time_q10 time_ns =
    let value = time_q10 time_ns in if time_ns /= 0 && value == 0 then 1 else value

unfoldable pub cube_leq : ℕ → ℕ → Bool
cube_leq value limit =
    if value == 0
    then true
    else if ltb (limit / value) value
    then false
    else leb value (limit / u64 (value * value))

-- The loop of `cuberoot_floor`, on fuel; `Root` shows that 32 rounds end it.
unfoldable pub root_between : ℕ → ℕ → ℕ → ℕ → ℕ
root_between zero value low high = low
root_between (suc fuel) value low high =
    let middle = low + (high - low + 1) / 2 in
    let fits = cube_leq middle value in
    let rest =
      root_between fuel value (if fits then middle else low) (if fits then high else middle - 1) in
    if ltb low high then rest else low

unfoldable pub cuberoot_floor : ℕ → ℕ
cuberoot_floor value = root_between 32 value 0 u32_max

unfoldable pub cube_sat : ℕ → ℕ
cube_sat value =
    if value == 0
    then 0
    else if ltb (u64_max / value) value
    then u64_max
    else if ltb (u64_max / (value * value)) value
    then u64_max
    else value * value * value

unfoldable pub window_q16 : Cubic → ℕ → ℕ
window_q16 m time_q10 =
    let term = λ (distance : ℕ). cube_sat distance / cubic_scale in
    if leb m.k_q10 time_q10
    then add_sat m.w_max_q16 (term (time_q10 - m.k_q10))
    else if leb m.w_max_q16 (term (m.k_q10 - time_q10))
    then 0
    else m.w_max_q16 - term (m.k_q10 - time_q10)

-- What `start_epoch` sets before it chooses the curve.
unfoldable pub open_epoch : Cubic → ℕ → Cubic
open_epoch m now_ns = record m {
  epoch_start_ns = now_ns;
  cwnd_epoch_q16 = m.shared.cwnd_q16;
  w_est_q16 = m.shared.cwnd_q16;
  last_target_q16 = m.shared.cwnd_q16;
  epoch_active = true;
  cwnd_prior_q16 = if m.cwnd_prior_q16 == 0 then m.shared.cwnd_q16 else m.cwnd_prior_q16;
}

unfoldable pub start_epoch : Cubic → ℕ → Cubic
start_epoch m now_ns =
    let e = open_epoch m now_ns in
    if e.after_timeout || not e.has_w_max
    then record e {
      w_max_q16 = e.shared.cwnd_q16;
      has_w_max = true;
      k_q10 = 0;
      after_timeout = false;
    }
    else if leb e.w_max_q16 e.shared.cwnd_q16
    then record e { k_q10 = 0 }
    else record e { k_q10 = cuberoot_floor (mul_sat (e.w_max_q16 - e.shared.cwnd_q16) cubic_scale) }
