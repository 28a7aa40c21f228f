-- ===== src/Cc.antt =====
-- The congestion-control boundary of cc/cc.h and cc/cc.c: what the transport tells a controller,
-- what a controller answers, and the checks between them. The pointers to the operations, to the
-- state and to each callback can be null, `none` here; no other pointer is null.
pub mod Handle
pub mod Reno
pub mod Registry
pub mod Pacing
pub mod BbrRecovery
pub mod Hystart
pub mod Cubic
pub mod Bbr
pub mod Observation
use Prim.Native.String.{String}
use tcp_shift.Prelude.{
  ℕ, ◌+◌, ◌-◌, Bool, true, false, not, ◌&&◌, ◌||◌, Option, none, some, ltb, leb, ◌==◌, ◌/=◌,
  if◌then◌else◌, List,
}

-- `struct tcp_shift_cc_transport`
pub record Transport : Type 0 where
  pub mss_bytes : ℕ
  pub inflight_bytes : ℕ
  pub send_window_bytes : ℕ
  pub cwnd_limit_bytes : ℕ

-- `struct tcp_shift_cc_init`
pub record InitialWindows : Type 0 where
  pub initial_cwnd_bytes : ℕ
  pub initial_ssthresh_bytes : ℕ
  pub min_cwnd_bytes : ℕ

-- `struct tcp_shift_cc_rate_sample`; the flags are Booleans of their own.
pub record RateSample : Type 0 where
  pub delivery_rate_bytes_per_sec : ℕ
  pub interval_ns : ℕ
  pub send_interval_ns : ℕ
  pub ack_interval_ns : ℕ
  pub rtt_ns : ℕ
  pub prior_delivered_bytes : ℕ
  pub delivered_total_bytes : ℕ
  pub delivered_bytes : ℕ
  pub prior_inflight_bytes : ℕ
  pub valid : Bool
  pub app_limited : Bool
  pub retransmitted : Bool
  pub rtt_valid : Bool

-- `struct tcp_shift_cc_ack`
pub record Ack : Type 0 where
  pub acked_bytes : ℕ
  pub ack_time_ns : ℕ
  pub smoothed_rtt_ns : ℕ
  pub rate : RateSample

-- `struct tcp_shift_cc_policy`
pub record Policy : Type 0 where
  pub cwnd_bytes : ℕ
  pub ssthresh_bytes : ℕ
  pub pacing_rate_bytes_per_sec : ℕ

-- What a callback leaves in the state and in the policy, and whether it returns 0.
abbrev pub Outcome : Type 0 → Type 0
Outcome S = S × Policy × Bool

-- `struct tcp_shift_cc_ops` over states of type `S`. A loss is told by its bytes.
pub record Ops (S : Type 0) : Type 0 where
  pub name : Option (List ℕ)
  pub state_size : ℕ
  pub init : Option (S → Transport → InitialWindows → Policy → Outcome S)
  pub on_ack : Option (S → Transport → Ack → Policy → Outcome S)
  pub on_loss : Option (S → Transport → ℕ → Policy → Outcome S)
  pub on_ecn : Option (S → Transport → Policy → Outcome S)
  pub on_timeout : Option (S → Transport → Policy → Outcome S)

-- `struct tcp_shift_cc`, with the state that it points to.
pub record Controller (S : Type 0) : Type 0 where
  pub ops : Option (Ops S)
  pub state : Option S

unfoldable pub valid_transport : Transport → Bool
valid_transport t = t.mss_bytes /= 0 && leb t.mss_bytes t.cwnd_limit_bytes

abbrev pub missing {ℓ} : {A : Type ℓ} → Option A → Bool
missing none = true
missing (some _) = false

-- The state, the policy and the status of a call that the checks turn down.
abbrev pub Reply : Type 0 → Type 0
Reply S = Controller S × Policy × Bool

abbrev pub no_policy : Policy
no_policy = record { cwnd_bytes = 0; ssthresh_bytes = 0; pacing_rate_bytes_per_sec = 0 }

module _ {S : Type 0} where
  abbrev pub empty : Controller S
  empty = record { ops = none; state = none }

  -- The handle is committed only if the controller accepts.
  abbrev pub commit : Ops S → Outcome S → Reply S
  commit ops (s, policy, true) = (record { ops = some ops; state = some s }, policy, true)
  commit ops (s, policy, false) = (empty, policy, false)

  abbrev pub call_init :
      Option (S → Transport → InitialWindows → Policy → Outcome S)
      → Ops S
      → S
      → Transport
      → InitialWindows
      → Policy
      → Reply S
  call_init none ops s t windows policy = (empty, policy, false)
  call_init (some f) ops s t windows policy = commit ops (f s t windows no_policy)

  -- The checks of `tcp_shift_cc_init` on operations and a state that are there.
  unfoldable pub init_with : Ops S → S → ℕ → Transport → InitialWindows → Policy → Reply S
  init_with ops s state_size t windows policy =
      if not (valid_transport t)
        || (missing ops.name
            || (ops.state_size == 0
                || (ltb state_size ops.state_size
                    || (missing ops.init
                        || (missing ops.on_ack
                            || (missing ops.on_loss || missing ops.on_timeout))))))
      then (empty, policy, false)
      else call_init ops.init ops s t windows policy

  unfoldable pub init :
      Option (Ops S) → Option S → ℕ → Transport → InitialWindows → Policy → Reply S
  init (some ops) (some s) size t windows policy = init_with ops s size t windows policy
  init _ _ size t windows policy = (empty, policy, false)

  -- The handle after a callback.
  abbrev pub resume : Ops S → Outcome S → Reply S
  resume ops (s, policy, ok) = (record { ops = some ops; state = some s }, policy, ok)

  abbrev pub call_ack :
      Option (S → Transport → Ack → Policy → Outcome S)
      → Ops S
      → S
      → Transport
      → Ack
      → Policy
      → Reply S
  call_ack none ops s t ack policy = (record { ops = some ops; state = some s }, policy, false)
  call_ack (some f) ops s t ack policy = resume ops (f s t ack policy)

  abbrev pub call_loss :
      Option (S → Transport → ℕ → Policy → Outcome S) → Ops S → S → Transport → ℕ → Policy → Reply S
  call_loss none ops s t lost policy = (record { ops = some ops; state = some s }, policy, false)
  call_loss (some f) ops s t lost policy = resume ops (f s t lost policy)

  abbrev pub call :
      Option (S → Transport → Policy → Outcome S) → Ops S → S → Transport → Policy → Reply S
  call none ops s t policy = (record { ops = some ops; state = some s }, policy, false)
  call (some f) ops s t policy = resume ops (f s t policy)

  abbrev pub with_controller :
      (Ops S → S → Policy → Reply S) → Option (Ops S) → Option S → Policy → Reply S
  with_controller f (some ops) (some s) policy = f ops s policy
  with_controller f ops s policy = (record { ops = ops; state = s }, policy, false)

  unfoldable pub on_ack : Controller S → Transport → Ack → Policy → Reply S
  on_ack cc t ack policy =
      if not (valid_transport t) || ack.acked_bytes == 0
      then (cc, policy, false)
      else with_controller (λ ops s policy. call_ack ops.on_ack ops s t ack policy) cc.ops cc.state
          policy

  unfoldable pub on_loss : Controller S → Transport → ℕ → Policy → Reply S
  on_loss cc t lost_bytes policy =
      if not (valid_transport t) || lost_bytes == 0
      then (cc, policy, false)
      else with_controller (λ ops s policy. call_loss ops.on_loss ops s t lost_bytes policy) cc.ops
          cc.state policy

  unfoldable pub on_ecn : Controller S → Transport → Policy → Reply S
  on_ecn cc t policy =
      if not (valid_transport t)
      then (cc, policy, false)
      else with_controller (λ ops s policy. call ops.on_ecn ops s t policy) cc.ops cc.state policy

  unfoldable pub on_timeout : Controller S → Transport → Policy → Reply S
  on_timeout cc t policy =
      if not (valid_transport t)
      then (cc, policy, false)
      else with_controller (λ ops s policy. call ops.on_timeout ops s t policy) cc.ops cc.state
          policy
