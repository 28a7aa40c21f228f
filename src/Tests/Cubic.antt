-- ===== src/Tests/Cubic.antt =====
-- CUBIC on small inputs.
use tcp_shift.Prelude.{ℕ, ◌+◌, ◌≤◌, ◌≡◌, refl, true, arith}
use tcp_shift.Cc.{InitialWindows, Policy, no_policy}
use tcp_shift.Cc.Reno.Trace.{expired, marked}
use tcp_shift.Cc.Cubic.{Cubic, mul2_cap, q16_from_bytes, limit_q16, cwnd_of, publish, set_cwnd}
use tcp_shift.Cc.Cubic.Curve.{cube_leq, root_between, cuberoot_floor, window_q16, start_epoch}
use tcp_shift.Cc.Cubic.Acks.{ratio_q16, with_epoch, avoidance}
use tcp_shift.Cc.Cubic.Cuts.{initial, init, init_refused}
use tcp_shift.Cc.Cubic.Control.{controller_init}
use tcp_shift.Cc.Cubic.Root.{IsRoot, cuberoot_floor-IsRoot}
use tcp_shift.Cc.Cubic.Shape.{window_q16-rises, Starts, start_epoch-Starts}
use tcp_shift.Cc.Cubic.Growth.{Steps, avoidance-Steps}
use tcp_shift.Cc.Cubic.Published.{Published, handle}
use tcp_shift.Cc.Cubic.Serves.{timeout_of, mark_of}
use tcp_shift.Cc.Cubic.Served.{begun, moved, Exact, Reached-serves}
use tcp_shift.Tests.Hystart.{path}

abbrev windows : InitialWindows
windows = record {
  initial_cwnd_bytes = 10000;
  initial_ssthresh_bytes = 50000;
  min_cwnd_bytes = 2000;
}

abbrev young : Cubic
young = initial path windows

-- A model that fell from 60 segments to 42.
abbrev fallen : Cubic
fallen = record (set_cwnd young 2752512) { w_max_q16 = 3932160; has_w_max = true; k_q10 = 3642 }

abbrev thousand : ℕ
thousand = 1000

abbrev ten : ℕ
ten = 10

root_of_thousand : cuberoot_floor thousand ≡ ten
root_of_thousand = unfold cuberoot_floor root_between cube_leq in refl

cuberoot_floor-IsRoot_example : IsRoot 1729 (cuberoot_floor 1729)
cuberoot_floor-IsRoot_example = cuberoot_floor-IsRoot 1729 (omega arith)

window_q16-rises_example : window_q16 fallen 100 ≤ window_q16 fallen 5000
window_q16-rises_example = window_q16-rises fallen 100 5000 (omega arith) (omega arith)

start_epoch-Starts_example : Starts fallen (start_epoch fallen 7) 7
start_epoch-Starts_example = start_epoch-Starts fallen 7 (omega arith) (omega arith)

avoidance-Steps_example :
    Steps fallen.shared.cwnd_q16 path (avoidance fallen path 1000 5 40000000)
    × ((avoidance fallen path 1000 5 40000000).w_est_q16
        ≤ (with_epoch fallen 5).w_est_q16 + ratio_q16 1000 (cwnd_of (with_epoch fallen 5) path))
avoidance-Steps_example =
    avoidance-Steps fallen path 1000 5 40000000 (omega arith)
      (unfold limit_q16 q16_from_bytes in omega arith)

accepted : (controller_init young path windows no_policy).2 ≡ true
accepted = unfold controller_init init init_refused mul2_cap publish in refl

-- The state and the policy after the initialisation and a mark.
abbrev begun_state : Cubic
begun_state = (controller_init young path windows no_policy).0

abbrev begun_policy : Policy
begun_policy = (controller_init young path windows no_policy).1

abbrev marked_state : Cubic
marked_state = (handle begun_state (marked path) begun_policy).0

abbrev marked_policy : Policy
marked_policy = (handle begun_state (marked path) begun_policy).1

Reached-serves_example :
    ((handle marked_state (expired path) marked_policy).2 ≡ true)
    × Published path (handle marked_state (expired path) marked_policy)
    × Exact (handle marked_state (expired path) marked_policy).0
Reached-serves_example =
    Reached-serves marked_state marked_policy
      (moved begun_state begun_policy (begun young path windows no_policy accepted) (marked path)
        (mark_of path (omega arith) (omega arith)))
      (expired path) (timeout_of path (omega arith) (omega arith))
