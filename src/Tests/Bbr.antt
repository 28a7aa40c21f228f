-- ===== src/Tests/Bbr.antt =====
-- BBR and the smoothed round-trip time on small inputs.
use Prim.Native.Nat.{min}
use tcp_shift.Prelude.{ℕ, ◌*◌, ◌≤◌, ◌≡◌, refl, [], ◌∷◌, arith, u64_max}
use tcp_shift.Cc.Bbr.{billion, bdp_bytes, sat_add, sat_mul, bdp_whole, bdp_cross, is_startup}
use tcp_shift.Cc.Bbr.Filter.{bbr_init, bbr_on_ack, observe}
use tcp_shift.Cc.Bbr.Policy.{startup_refused, startup_policy}
use tcp_shift.Cc.Bbr.Product.{ceil, bdp_bytes-exact}
use tcp_shift.Cc.Bbr.Reach.{InModel, fresh, told, Reached-InModel}
use tcp_shift.Cc.Bbr.Targets.{Given, startup_policy-Given}
use tcp_shift.Cc.Observation.{srtt_init, after_samples, no_samples, sample, after_samples-within}
use tcp_shift.Tests.Hystart.{path, ack_of}

abbrev product : ℕ
product = 5000001

product_run : bdp_bytes 100000001 50000000 ≡ product
product_run = unfold bdp_bytes bdp_whole bdp_cross sat_add sat_mul in refl

bdp_bytes-exact_example :
    bdp_bytes 100000001 50000000 ≡ min (ceil (100000001 * 50000000) billion) u64_max
bdp_bytes-exact_example = bdp_bytes-exact 100000001 50000000

Reached-InModel_example : InModel (observe bbr_init (ack_of 40000000).rate 7)
Reached-InModel_example = Reached-InModel (observe bbr_init (ack_of 40000000).rate 7) (
    told bbr_init (observe bbr_init (ack_of 40000000).rate 7) (ack_of 40000000).rate 7 fresh
      (unfold bbr_on_ack bbr_init in refl))

startup_policy-Given_example :
    Given path 9000 (startup_policy bbr_init path (ack_of 40000000) 10000 10000 9000)
startup_policy-Given_example =
    startup_policy-Given bbr_init path (ack_of 40000000) 10000 10000 9000
      (unfold startup_refused bbr_init is_startup in refl)

after_samples-within_example :
    (30 ≤ (after_samples srtt_init (40 ∷ 30 ∷ [])).smoothed_rtt_ns)
    × ((after_samples srtt_init (40 ∷ 30 ∷ [])).smoothed_rtt_ns ≤ 40)
after_samples-within_example = after_samples-within 30 40 40 (30 ∷ []) (omega arith) (
    sample 40 (30 ∷ []) (omega arith) (omega arith)
      (sample 30 [] (omega arith) (omega arith) no_samples))
