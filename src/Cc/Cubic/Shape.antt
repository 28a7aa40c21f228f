-- ===== src/Cc/Cubic/Shape.antt =====
-- The shape of the cubic curve of cc/cubic.c over an epoch.
use Prim.Native.Nat.{min}
use native.Mathlib.Nat.{le-div_iff_mul-le}
use mathlib.Core.Path.{subst}
use tcp_shift.Prelude.{
  ℕ, ◌+◌, ◌-◌, ◌*◌, ◌/◌, ◌≤◌, ◌<◌, ◌≡◌, refl, ◌⊎◌, zero, suc, true, false, leb, arith, if_elim,
  IsU64, ◌||◌, not, u64_max,
}
use tcp_shift.Cc.Cubic.{Cubic, add_sat, mul_sat}
use tcp_shift.Cc.Cubic.Curve.{cube_sat, window_q16, open_epoch, start_epoch, cuberoot_floor}
use tcp_shift.Cc.Cubic.Root.{cube, IsRoot, cuberoot_floor-IsRoot, cube_sat_lem, cube_le}

-- How far the curve is from the plateau, at a distance from its middle.
term-monotone : (a b : ℕ) → a ≤ b → cube_sat a / 40960 ≤ cube_sat b / 40960
term-monotone a b le =
    let ea = cube_sat_lem a in let eb = cube_sat_lem b in let cubes = cube_le a b le in ground arith

-- For a plateau within 64 bits the curve never falls: a later time gives at least the window of an
-- earlier one, before and after the middle of the curve and where the arithmetic saturates.
pub window_q16-rises :
    (m : Cubic) (t u : ℕ) → IsU64 m.w_max_q16 → t ≤ u → window_q16 m t ≤ window_q16 m u
unfolding window_q16 add_sat
window_q16-rises m t u wide le =
    let after = term-monotone (t - m.k_q10) (u - m.k_q10) (omega arith) in
    let before = term-monotone (m.k_q10 - u) (m.k_q10 - t) (omega arith) in ground arith

mul_sat_exact : (a b : ℕ) → 0 < b → a * b ≤ u64_max → mul_sat a b ≡ a * b
unfolding mul_sat
mul_sat_exact a b pos fits = let le = (le-div_iff_mul-le pos).1 fits in ground arith

-- The tick chosen for the middle of a curve that must rise by `difference` is the last whose cube is
-- at most the scaled rise.
middle-IsRoot :
    (difference : ℕ)
    → difference * 40960 ≤ u64_max
    → IsRoot (difference * 40960) (cuberoot_floor (mul_sat difference 40960))
middle-IsRoot difference fits =
    let exact = mul_sat_exact difference 40960 (omega arith) fits in
    rw exact (cuberoot_floor-IsRoot (difference * 40960) fits)

-- The root of a positive number is positive.
rise_late : (value r : ℕ) → 0 < value → IsRoot value r → 0 < r
rise_late value zero pos root = let above = root.above in omega (arith, above)
rise_late value (suc r) pos root = omega arith

-- The plateau of an epoch that follows the model `m`: the window after a timeout or where no plateau
-- is on record, and else the one on record.
pub data Plateau (m : Cubic) (cwnd w_max : ℕ) : Type 0 where
  forgotten : (m.after_timeout ≡ true) ⊎ (m.has_w_max ≡ false) → w_max ≡ cwnd → Plateau m cwnd w_max
  recorded :
      m.after_timeout ≡ false → m.has_w_max ≡ true → w_max ≡ m.w_max_q16 → Plateau m cwnd w_max

-- A curve from a window `cwnd`. It has the value of the plateau at its middle, which is the last tick
-- whose cube is at most the scaled rise from the window to the plateau, and 0 where there is no rise.
-- It starts at the window, or at the plateau where that is less, or above: by less than what a middle
-- one tick later would take off, plus one unit for the rounding.
pub record Curves (n : Cubic) (cwnd : ℕ) : Type 0 where
  pub top : window_q16 n n.k_q10 ≡ n.w_max_q16
  pub middle : IsRoot ((n.w_max_q16 - cwnd) * 40960) n.k_q10
  pub start_ge : min n.w_max_q16 cwnd ≤ window_q16 n 0
  pub start_lt :
      window_q16 n 0 * 40960
      < (min n.w_max_q16 cwnd + 1) * 40960 + (cube (n.k_q10 + 1) - cube n.k_q10)

top-eq : (n : Cubic) → IsU64 n.w_max_q16 → window_q16 n n.k_q10 ≡ n.w_max_q16
unfolding window_q16 add_sat cube_sat
top-eq n wide = ground arith

start-eq :
    (n : Cubic)
    → 0 < n.k_q10
    → cube n.k_q10 ≤ u64_max
    → cube n.k_q10 / 40960 ≤ n.w_max_q16
    → window_q16 n 0 ≡ n.w_max_q16 - cube n.k_q10 / 40960
unfolding window_q16
start-eq n late narrow below = let exact = cube_sat_lem n.k_q10 in ground arith

module _ (n : Cubic) (cwnd : ℕ) (fits : n.w_max_q16 * 40960 ≤ u64_max) where
  -- A curve with its middle at 0 starts at the plateau.
  flat-Curves : n.k_q10 ≡ 0 → n.w_max_q16 ≤ cwnd → Curves n cwnd
  flat-Curves e low =
      let top = top-eq n (omega (arith, fits)) in
      let start : window_q16 n 0 ≡ n.w_max_q16 = subst (λ k. window_q16 n k ≡ n.w_max_q16) e top in
      record {
        top = top;
        middle = rw e (omega (arith, low));
        start_ge = omega (arith, start);
        start_lt = omega (arith, start, low);
      }

  -- A curve with its middle at the root of the rise.
  rising-Curves : cwnd < n.w_max_q16 → IsRoot ((n.w_max_q16 - cwnd) * 40960) n.k_q10 → Curves n cwnd
  rising-Curves high root =
      let below = root.below in
      let above = root.above in
      let more = cube_le n.k_q10 (n.k_q10 + 1) (omega arith) in
      let late : 0 < n.k_q10 =
        rise_late ((n.w_max_q16 - cwnd) * 40960) n.k_q10 (omega arith) root in
      let start = start-eq n late (omega (arith, below, fits)) (omega (arith, below, fits)) in
      record {
        top = top-eq n (omega (arith, fits));
        middle = root;
        start_ge = omega (arith, start, below);
        start_lt = omega (arith, start, below, above, more);
      }

-- An epoch from now on, of which `m` is the model before.
pub record Starts (m n : Cubic) (now_ns : ℕ) : Type 0 where
  pub start_eq : n.epoch_start_ns ≡ now_ns
  pub active : n.epoch_active ≡ true
  pub recovered : n.after_timeout ≡ false
  pub cwnd_eq : n.shared.cwnd_q16 ≡ m.shared.cwnd_q16
  pub plateau : Plateau m m.shared.cwnd_q16 n.w_max_q16
  pub curve : Curves n m.shared.cwnd_q16

-- For a window and a plateau on record within 64 bits after scaling, an epoch is open from now on,
-- with the window as it was. Its plateau is the window after a timeout or where no plateau is on
-- record, and else the one on record. The curve has the value of the plateau at its middle, the
-- last tick whose cube is at most the scaled rise from the window to the plateau, or 0 if there is
-- none. It starts no lower than the window, or than the plateau where that is less, and above it by
-- less than what a middle one tick later would take off, plus one unit for the rounding.
pub start_epoch-Starts :
    (m : Cubic) (now_ns : ℕ)
    → m.shared.cwnd_q16 * 40960 ≤ u64_max
    → m.w_max_q16 * 40960 ≤ u64_max
    → Starts m (start_epoch m now_ns) now_ns
unfolding start_epoch open_epoch
start_epoch-Starts m now_ns fits wide =
    let cwnd = m.shared.cwnd_q16 in
    let e = open_epoch m now_ns in
    let P = λ (n : Cubic). Starts m n now_ns in
    if_elim P (e.after_timeout || not e.has_w_max)
      (λ lost. record {
        start_eq = refl;
        active = refl;
        recovered = refl;
        cwnd_eq = refl;
        plateau = forgotten (ground arith) refl;
        curve = flat-Curves _ cwnd fits refl (omega arith);
      })
      (λ held.
        if_elim P (leb e.w_max_q16 e.shared.cwnd_q16)
          (λ low. record {
            start_eq = refl;
            active = refl;
            recovered = ground arith;
            cwnd_eq = refl;
            plateau = recorded (ground arith) (ground arith) refl;
            curve = flat-Curves _ cwnd wide refl (ground arith);
          })
          (λ high. record {
            start_eq = refl;
            active = refl;
            recovered = ground arith;
            cwnd_eq = refl;
            plateau = recorded (ground arith) (ground arith) refl;
            curve =
                rising-Curves _ cwnd wide (ground arith)
                  (middle-IsRoot (m.w_max_q16 - cwnd) (omega arith));
          }))
