-- ===== src/Rack/Window.antt =====
-- The reordering window: its bounds, and how long a widened one lasts.
use tcp_shift.Prelude.{
  ℕ, ◌+◌, ◌-◌, ◌/◌, ◌≤◌, ◌<◌, ◌≡◌, refl, ◌⊎◌, Bool, true, false, List, [], ◌∷◌, ltb, leb, ◌==◌,
  if◌then◌else◌, u32_max, u64_max, IsU64, arith, length,
}
use tcp_shift.Rack.{State, mul_sat, reo_wnd, note_dsack, end_dsack_round, note_recovery_exit}

mul_sat-ge : (a b : ℕ) → 0 < b → a ≤ u64_max → a ≤ mul_sat a b
unfolding mul_sat
mul_sat-ge a b hb ha = grind arith

-- With a multiple above 0 and a 64-bit minimum round trip, the window is nothing while no minimum round trip is known, or without reordering in recovery or
-- after three SACKed segments; else it is at least a nanosecond and the quarter of the minimum round
-- trip, as long as the smoothed round trip is not below these, and never above a known smoothed
-- round trip. It is stored, and nothing else changes.
pub reo_wnd_bounds :
    (s : State) (in_recovery : Bool)
    → 0 < s.reo_wnd_mult
    → IsU64 s.min_rtt_ns
    → let (t, wnd) = reo_wnd s in_recovery in
      ((wnd ≡ 0)
        × ((s.min_rtt_ns ≡ 0)
            ⊎ ((s.reordering_seen ≡ false) × ((in_recovery ≡ true) ⊎ (3 ≤ s.segs_sacked)))))
      ⊎ ((0 < wnd)
          × (0 < s.min_rtt_ns)
          × ((s.min_rtt_ns / 4 ≤ wnd) ⊎ (wnd ≡ s.srtt_ns))
          × ((s.srtt_ns ≡ 0) ⊎ (wnd ≤ s.srtt_ns))
          × (t ≡ record s { reo_wnd_ns = wnd }))
unfolding reo_wnd
reo_wnd_bounds s in_recovery hm hr =
    ground (arith, mul_sat-ge (s.min_rtt_ns / 4) s.reo_wnd_mult hm, mul_sat-ge 1 s.reo_wnd_mult hm)

unfoldable pub recovery_exits : State → List ℕ → State
recovery_exits s [] = s
recovery_exits s (snd_una ∷ more) = recovery_exits (note_recovery_exit s snd_una) more

exit_lem :
    (s : State) (snd_una : ℕ)
    → let t = note_recovery_exit s snd_una in
      (t.reo_wnd_persist ≡ s.reo_wnd_persist - 1)
      × (t.reo_wnd_mult ≡ (if s.reo_wnd_persist == 1 then 1 else s.reo_wnd_mult))
unfolding note_recovery_exit end_dsack_round
exit_lem s snd_una = ground arith

exits_over :
    (s : State) (unas : List ℕ)
    → s.reo_wnd_persist ≡ 0
    → (recovery_exits s unas).reo_wnd_mult ≡ s.reo_wnd_mult
unfolding recovery_exits
exits_over s [] z = refl
exits_over s (una ∷ unas) z =
    ground (arith, exit_lem s una, exits_over (note_recovery_exit s una) unas)

exits_lem :
    (s : State) (unas : List ℕ)
    → 0 < s.reo_wnd_persist
    → (recovery_exits s unas).reo_wnd_mult
      ≡ (if leb s.reo_wnd_persist (length unas) then 1 else s.reo_wnd_mult)
unfolding recovery_exits
exits_lem s [] pos = ground arith
exits_lem s (una ∷ unas) pos = ground (
  arith,
  exit_lem s una,
  exits_lem (note_recovery_exit s una) unas,
  exits_over (note_recovery_exit s una) unas,
)

-- The first DSACK of a round widens the reordering window by one multiple, unless it is at its
-- largest; with no further DSACK the wider window lasts for the next fifteen exits from recovery,
-- and is gone from the sixteenth on.
pub note_dsack-recovery_exits :
    (s : State) (snd_nxt : ℕ) (unas : List ℕ)
    → s.dsack_round_active ≡ false
    → s.reo_wnd_mult < u32_max
    → (recovery_exits (note_dsack s snd_nxt) unas).reo_wnd_mult
      ≡ (if ltb (length unas) 16 then s.reo_wnd_mult + 1 else 1)
unfolding note_dsack
note_dsack-recovery_exits s snd_nxt unas idle room =
    ground (arith, exits_lem (note_dsack s snd_nxt) unas)
