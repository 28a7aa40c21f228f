-- ===== src/Cc/Bbr/Reach.antt =====
-- The model of BBR over a connection: its filters and its first modes, through any ACKs.
use mathlib.Core.Path.{subst}
use tcp_shift.Prelude.{
  not_stopped, some-inj, ℕ, ◌+◌, ◌≤◌, ◌<◌, ◌≡◌, ◌∙◌, refl, true, false, not, ◌&&◌, ◌||◌, some, ltb,
  leb, ◌==◌, arith, if_elim, u64,
}
use tcp_shift.Cc.{RateSample}
use tcp_shift.Cc.Bbr.{
  Bbr, Mode, startup, drain, probe_bw, probe_rtt, is_startup, is_drain, bdp_bytes,
}
use tcp_shift.Cc.Bbr.Filter.{
  greatest, recompute_max_bw, update_round, age_bw_filter, admit_bw, update_max_bw, count_plateau,
  check_startup_full_bw, update_probe_min, update_long_min, update_min_rtt, bbr_init, observe,
  bbr_on_ack,
}
use tcp_shift.Cc.Bbr.Policy.{enter_drain, drain_blocked, check_drain}

-- The filters in order: the bandwidth is the greatest slot; the pipe is full after the third round
-- without growth and not before, and startup is not left before that; the long minimum of the round
-- trip is positive and at most the short one, and no stamp is later than the last update.
pub record InModel (m : Bbr) : Type 0 where
  pub max_bw_eq : m.max_bw ≡ greatest m.max_bw_filter 10
  pub full_after : m.full_bw_reached ≡ true → m.full_bw_count ≡ 3
  pub full_before : m.full_bw_reached ≡ false → m.full_bw_count < 3
  pub left_full : is_startup m.mode ≡ false → m.full_bw_reached ≡ true
  pub both_minima : m.has_min_rtt ≡ m.has_probe_rtt_min
  pub min_pos : m.has_min_rtt ≡ true → 0 < m.min_rtt_ns
  pub min_le : m.has_min_rtt ≡ true → m.min_rtt_ns ≤ m.probe_rtt_min_delay_ns
  pub stamp_le : m.min_rtt_stamp_ns ≤ m.last_update_ns
  pub untimed : m.has_update_time ≡ false → m.last_update_ns ≡ 0
  pub probe_stamp_le : m.probe_rtt_min_stamp_ns ≤ m.last_update_ns

bbr_init-InModel : InModel bbr_init
unfolding bbr_init greatest is_startup
bbr_init-InModel = ground arith

module _ (m : Bbr) (b : InModel m) where
  timed-InModel :
      (now : ℕ)
      → m.last_update_ns ≤ now
      → InModel (record m { last_update_ns = now; has_update_time = true })
  timed-InModel now le = ground arith

  update_round-InModel : (s : RateSample) → InModel (update_round m s)
  unfolding update_round
  update_round-InModel s = ground arith

  age_bw_filter-InModel : (round : ℕ) → InModel (age_bw_filter m round)
  unfolding age_bw_filter recompute_max_bw
  age_bw_filter-InModel round = ground arith

  admit_bw-InModel : (rate : ℕ) → InModel (admit_bw m rate)
  unfolding admit_bw recompute_max_bw
  admit_bw-InModel rate = ground arith

  count_rate-InModel : (n : ℕ) → InModel (record m { valid_rate_samples = n })
  count_rate-InModel n = ground arith

  count_ignored-InModel : (n : ℕ) → InModel (record m { ignored_app_limited_bw_samples = n })
  count_ignored-InModel n = ground arith

  check_startup_full_bw-InModel : (s : RateSample) → InModel (check_startup_full_bw m s)
  unfolding check_startup_full_bw count_plateau
  check_startup_full_bw-InModel s = ground arith

  enter_drain-InModel : InModel (enter_drain m)
  unfolding enter_drain is_startup
  enter_drain-InModel = ground arith

  update_min_rtt-InModel :
      (s : RateSample) (now : ℕ) → m.last_update_ns ≡ now → InModel (update_min_rtt m s now)
  unfolding update_min_rtt update_long_min update_probe_min
  update_min_rtt-InModel s now e = ground arith

update_max_bw-InModel : (m : Bbr) → InModel m → (s : RateSample) → InModel (update_max_bw m s)
unfolding update_max_bw
update_max_bw-InModel m b s =
    let c = count_rate-InModel m b (u64 (m.valid_rate_samples + 1)) in
    if_elim InModel (not s.valid || s.delivery_rate_bytes_per_sec == 0) (λ _. b)
      (λ _.
        if_elim InModel (s.app_limited && ltb s.delivery_rate_bytes_per_sec m.max_bw)
          (λ _. count_ignored-InModel _ c _)
          (λ _. admit_bw-InModel _ (age_bw_filter-InModel _ c m.round_count) _))

-- The time of the last update is not touched after it is set.
observed_last :
    (m : Bbr) (s : RateSample)
    → (check_startup_full_bw (update_max_bw (update_round m s) s) s).last_update_ns
      ≡ m.last_update_ns
observed_last m s =
    let a : (update_round m s).last_update_ns ≡ m.last_update_ns =
      unfold update_round in ground arith in
    let r = update_round m s in
    let c : (update_max_bw r s).last_update_ns ≡ r.last_update_ns =
      unfold update_max_bw admit_bw age_bw_filter recompute_max_bw in ground arith in
    let x = update_max_bw r s in
    let d : (check_startup_full_bw x s).last_update_ns ≡ x.last_update_ns =
      unfold check_startup_full_bw count_plateau in ground arith in
    d ∙ c ∙ a

observe-InModel :
    (m : Bbr) (s : RateSample) (now : ℕ)
    → m.last_update_ns ≤ now
    → InModel m
    → InModel (observe m s now)
unfolding observe
observe-InModel m s now le b =
    let timed : Bbr = record m { last_update_ns = now; has_update_time = true } in
    let r = update_round-InModel timed (timed-InModel m b now le) s in
    update_min_rtt-InModel _ (check_startup_full_bw-InModel _ (update_max_bw-InModel _ r s) s) s now
      (observed_last timed s)

drain_started : (x : Mode) → is_drain x ≡ true → is_startup x ≡ false
unfolding is_drain is_startup
drain_started startup e = ground arith
drain_started drain e = refl
drain_started probe_bw e = refl
drain_started probe_rtt e = refl

mode_full : (m : Bbr) → InModel m → is_drain m.mode ≡ true → m.full_bw_reached ≡ true
mode_full m b e = b.left_full (drain_started m.mode e)

-- The pipe is full once drain is left.
probed-InModel :
    (d : Bbr) (s : RateSample)
    → drain_blocked d s ≡ false
    → InModel d
    → InModel (record d { mode = probe_bw })
unfolding drain_blocked
probed-InModel d s clear e =
    let full = mode_full d e (ground arith) in
    record {
      max_bw_eq = e.max_bw_eq;
      full_after = e.full_after;
      full_before = e.full_before;
      left_full = λ _. full;
      both_minima = e.both_minima;
      min_pos = e.min_pos;
      min_le = e.min_le;
      stamp_le = e.stamp_le;
      untimed = e.untimed;
      probe_stamp_le = e.probe_stamp_le;
    }

check_drain-InModel : (m : Bbr) → InModel m → (s : RateSample) → InModel (check_drain m s)
unfolding check_drain
check_drain-InModel m b s =
    let d = enter_drain m in
    let e = enter_drain-InModel m b in
    if_elim InModel (drain_blocked d s) (λ _. e)
      (λ clear.
        if_elim InModel (bdp_bytes d.max_bw d.min_rtt_ns == 0) (λ _. e)
          (λ _.
            if_elim InModel (leb s.prior_inflight_bytes (bdp_bytes d.max_bw d.min_rtt_ns))
              (λ _. probed-InModel d s clear e) (λ _. e)))

bbr_on_ack-InModel :
    (m n : Bbr) (s : RateSample) (now : ℕ) → InModel m → bbr_on_ack m s now ≡ some n → InModel n
unfolding bbr_on_ack
bbr_on_ack-InModel m n s now b e =
    let (clock, f) = not_stopped (m.has_update_time && ltb now m.last_update_ns) _ n e in
    let untimed = b.untimed in
    subst InModel (some-inj _ n f) (observe-InModel m s now (ground arith) b)

-- What a connection's model can come to.
pub data Reached : Bbr → Type 0 where
  fresh : Reached bbr_init
  told :
      (m n : Bbr) (s : RateSample) (now : ℕ) → Reached m → bbr_on_ack m s now ≡ some n → Reached n
  checked : (m : Bbr) (s : RateSample) → Reached m → Reached (check_drain m s)

-- Through any samples at any times, those that come out of order refused, and checks for the drain
-- anywhere between them: the filters of bandwidth and round trip, the count of rounds without growth
-- and the mode agree with each other as `InModel` says.
pub Reached-InModel : (m : Bbr) → Reached m → InModel m
Reached-InModel _ fresh = bbr_init-InModel
Reached-InModel _ (told m n s now r e) = bbr_on_ack-InModel m n s now (Reached-InModel m r) e
Reached-InModel _ (checked m s r) = check_drain-InModel m (Reached-InModel m r) s
