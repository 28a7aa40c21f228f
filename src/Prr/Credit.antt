-- ===== src/Prr/Credit.antt =====
-- What the credit of an ACK amounts to above `ssthresh`, and at or below it.
use Prim.Native.Nat.{min, max}
use tcp_shift.Prelude.{
  ℕ, ◌+◌, ◌-◌, ◌*◌, ◌≤◌, ◌<◌, ◌≡◌, ◌∙◌, refl, ap, ◌⊎◌, inl, inr, ltb, ◌==◌, arith, IsU32, IsU64,
  u32_max, u64_max, if◌then◌else◌, if_elim, some,
}
use native.Mathlib.Decide.{dec_lt}
use tcp_shift.Prr.{
  Prr, Ack, Grant, div_round_up_product, add_sat_u64, add_sat_u32, deliver, proportional, rebuild,
  credit, on_ack,
}
use tcp_shift.Prr.Quotient.{IsCeil, div_round_up_product-IsCeil}

abbrev pub cut : ℕ → ℕ
cut n = if ltb u32_max n then u32_max else n

-- What a successful `on_ack` says of its arguments and its answer.
mul_mono : (a b c : ℕ) → a ≤ b → a * c ≤ b * c
mul_mono a b c h = grind arith

pub on_ack_inv :
    (prr : Prr) (ack : Ack) {prr' : Prr} {g : Grant}
    → on_ack prr ack ≡ some (prr', g)
    → (0 < prr.ssthresh)
      × (0 < prr.recover_fs)
      × (0 < ack.smss)
      × (((ack.delivered_data ≡ 0) × (prr' ≡ prr) × (g.sndcnt ≡ 0) × (g.cwnd ≡ ack.inflight))
          ⊎ ((0 < ack.delivered_data)
              × (prr' ≡ deliver prr ack)
              × (g.sndcnt ≡ cut (credit prr' ack))
              × (g.cwnd ≡ add_sat_u32 ack.inflight g.sndcnt)))
unfolding on_ack
on_ack_inv prr ack h = ground arith

pub deliver-keeps :
    (prr : Prr) (ack : Ack)
    → let p = deliver prr ack in
      (p.prr_out ≡ prr.prr_out)
      × (p.ssthresh ≡ prr.ssthresh)
      × (p.recover_fs ≡ prr.recover_fs)
      × (p.active ≡ prr.active)
unfolding deliver
deliver-keeps prr ack = (refl, refl, refl, refl)

-- What may be sent at or below `ssthresh`, without the limit by it: the delivered bytes not yet made
-- up for, or this ACK's if they are more, and one segment more on an ACK that shows progress.
abbrev pub owed : Prr → Ack → ℕ
owed prr ack =
    max ack.delivered_data (prr.prr_delivered - prr.prr_out)
    + (if ack.safe_ack then ack.smss else 0)

-- The grant of an ACK at or below `ssthresh`, of which `prr` is the state after it.
pub data Rebuilt (prr : Prr) (ack : Ack) (g : Grant) : Type 0 where
  no_data : ack.delivered_data ≡ 0 → g.sndcnt ≡ 0 → g.cwnd ≡ ack.inflight → Rebuilt prr ack g
  towards :
      0 < ack.delivered_data
      → ack.inflight < prr.ssthresh
      → g.sndcnt ≡ min (owed prr ack) (prr.ssthresh - ack.inflight)
      → g.cwnd ≡ ack.inflight + g.sndcnt
      → Rebuilt prr ack g
  full :
      0 < ack.delivered_data
      → ack.inflight ≡ prr.ssthresh
      → 0 < prr.prr_out
      → g.sndcnt ≡ 0
      → g.cwnd ≡ ack.inflight
      → Rebuilt prr ack g
  first :
      0 < ack.delivered_data
      → ack.inflight ≡ prr.ssthresh
      → prr.prr_out ≡ 0
      → g.sndcnt ≡ ack.smss
      → g.cwnd ≡ min (ack.inflight + ack.smss) u32_max
      → Rebuilt prr ack g

-- The credit is exact where `ssthresh` is of 32 bits, since saturation is far above it.
rebuild_exact :
    (prr : Prr) (ack : Ack)
    → IsU32 prr.ssthresh
    → ack.inflight ≤ prr.ssthresh
    → rebuild prr ack ≡ min (owed prr ack) (prr.ssthresh - ack.inflight)
unfolding rebuild add_sat_u64
rebuild_exact prr ack hs below = ground arith

credit_towards :
    (prr : Prr) (ack : Ack)
    → 0 < ack.delivered_data
    → ack.inflight < prr.ssthresh
    → IsU32 prr.ssthresh
    → credit prr ack ≡ min (owed prr ack) (prr.ssthresh - ack.inflight)
unfolding credit
credit_towards prr ack some_data below hs = ground (arith, rebuild_exact prr ack hs (omega arith))

credit_full :
    (prr : Prr) (ack : Ack)
    → ack.inflight ≡ prr.ssthresh
    → IsU32 prr.ssthresh
    → credit prr ack ≡ (if prr.prr_out == 0 then ack.smss else 0)
unfolding credit
credit_full prr ack e hs = ground (arith, rebuild_exact prr ack hs (omega arith))

granted-Rebuilt :
    (prr : Prr) (ack : Ack) (g : Grant)
    → 0 < ack.delivered_data
    → g.sndcnt ≡ cut (credit prr ack)
    → g.cwnd ≡ add_sat_u32 ack.inflight g.sndcnt
    → IsU32 prr.ssthresh
    → IsU32 ack.smss
    → (ack.inflight < prr.ssthresh) ⊎ (ack.inflight ≡ prr.ssthresh)
    → Rebuilt prr ack g
unfolding add_sat_u32
granted-Rebuilt prr ack g some_data sent window hs hm (inl below) =
    let c = credit_towards prr ack some_data below hs in
    towards some_data below (ground arith) (ground arith)
granted-Rebuilt prr ack g some_data sent window hs hm (inr at) =
    let c = credit_full prr ack at hs in
    elim (dec_lt 0 prr.prr_out) [
      | yes out ↦ full some_data at out (ground arith) (ground arith)
      | no none_out ↦ first some_data at (omega arith) (ground arith) (ground arith)
    ]

deliver_lem :
    (prr : Prr) (ack : Ack)
    → IsU64 prr.prr_delivered
    → deliver prr ack
      ≡ record prr { prr_delivered = min (prr.prr_delivered + ack.delivered_data) u64_max }
unfolding deliver add_sat_u64
deliver_lem prr ack h = ground arith

deliver_none :
    (prr : Prr) (ack : Ack)
    → IsU64 prr.prr_delivered
    → ack.delivered_data ≡ 0
    → prr ≡ record prr { prr_delivered = min (prr.prr_delivered + ack.delivered_data) u64_max }
deliver_none prr ack h e = ground arith

-- At or below a 32-bit `ssthresh`, with segments of a 32-bit size and a 64-bit count of delivered
-- bytes, an accepted ACK adds its bytes to that count, within 64 bits, and changes nothing else of the
-- state. One that delivers
-- nothing grants nothing. Below `ssthresh` any other grants the bytes owed, but no more than lead up
-- to `ssthresh`. At `ssthresh` nothing is granted once something has been sent, and exactly one
-- segment before. The window is the flight with the grant, within 32 bits, so that it passes
-- `ssthresh` only by that first segment. The bytes owed are the delivered ones not yet made up for,
-- or this ACK's if they are more, and one segment more on an ACK that shows progress.
pub on_ack_rebuild :
    (prr : Prr) (ack : Ack) {prr' : Prr} {g : Grant}
    → on_ack prr ack ≡ some (prr', g)
    → IsU64 prr.prr_delivered
    → IsU32 prr'.ssthresh
    → IsU32 ack.smss
    → ack.inflight ≤ prr'.ssthresh
    → (prr' ≡ record prr { prr_delivered = min (prr.prr_delivered + ack.delivered_data) u64_max })
      × Rebuilt prr' ack g
on_ack_rebuild prr ack {prr'} {g} h hd hs hm below =
    let (_, _, _, cases) = on_ack_inv prr ack h in
    elim cases [
      | inl (none_delivered, same, nothing, window) ↦
          (same ∙ deliver_none prr ack hd none_delivered, no_data none_delivered nothing window)
      | inr (some_data, next, sent, window) ↦ (
        next ∙ deliver_lem prr ack hd,
        granted-Rebuilt prr' ack g some_data sent window hs hm (omega arith),
      )
    ]

proportional_lem :
    (prr : Prr)
    → IsU64 prr.prr_delivered
    → IsU32 prr.ssthresh
    → IsU32 prr.recover_fs
    → 0 < prr.ssthresh
    → 0 < prr.recover_fs
    → prr.prr_delivered * prr.ssthresh ≤ u64_max * prr.recover_fs
    → (IsCeil (prr.prr_delivered * prr.ssthresh) prr.recover_fs (prr.prr_out + proportional prr))
      ⊎ ((proportional prr ≡ 0) × (prr.prr_delivered * prr.ssthresh ≤ prr.prr_out * prr.recover_fs))
unfolding proportional
proportional_lem prr hd hs hr ps pr fits =
    let share = prr.prr_delivered * prr.ssthresh in
    let out = prr.prr_out in
    let allowed = div_round_up_product prr.prr_delivered prr.ssthresh prr.recover_fs in
    let P = λ (c : ℕ).
      IsCeil share prr.recover_fs (out + c) ⊎ ((c ≡ 0) × (share ≤ out * prr.recover_fs)) in
    elim (div_round_up_product-IsCeil prr.prr_delivered prr.ssthresh prr.recover_fs hd hs hr ps
      pr) [
        | inl exact ↦
            if_elim P (ltb out allowed)
              (λ behind. let e : out + (allowed - out) ≡ allowed = ground arith in inl (rw e exact))
              (λ ahead.
                inr
                  (refl, omega (arith, exact, mul_mono allowed out prr.recover_fs (ground arith))))
        | inr (_, past) ↦ absurd (omega arith)
      ]

credit_above :
    (prr : Prr) (ack : Ack)
    → prr.ssthresh < ack.inflight
    → 0 < prr.prr_out + proportional prr
    → credit prr ack ≡ proportional prr
unfolding credit
credit_above prr ack above some_credit = ground arith

pos_mul : (a b : ℕ) → 0 < a → 0 < b → 0 < a * b
pos_mul a b ha hb = grind arith

-- The bytes sent and the credit are not both nothing once something is delivered.
some_credit_lem :
    (prr : Prr)
    → 0 < prr.prr_delivered
    → IsU64 prr.prr_delivered
    → IsU32 prr.ssthresh
    → IsU32 prr.recover_fs
    → 0 < prr.ssthresh
    → 0 < prr.recover_fs
    → prr.prr_delivered * prr.ssthresh ≤ u64_max * prr.recover_fs
    → 0 < prr.prr_out + proportional prr
some_credit_lem prr pd hd hs hr ps pr fits = elim (dec_lt 0 (prr.prr_out + proportional prr)) [
  | yes p ↦ p
  | no none_at_all ↦
      let share = pos_mul prr.prr_delivered prr.ssthresh pd ps in
      let z = λ (t : ℕ) (e : t ≡ 0). ap (λ k. k * prr.recover_fs) e in
      elim (proportional_lem prr hd hs hr ps pr fits) [
        | inl exact ↦
            absurd (omega (arith, exact, share, z (prr.prr_out + proportional prr) (omega arith)))
        | inr (_, ahead) ↦ absurd (omega (arith, ahead, share, z prr.prr_out (omega arith)))
      ]
]

-- What is granted, out of `sent` bytes before and a share of the delivered ones.
abbrev pub IsShare : ℕ → ℕ → ℕ → ℕ → Type 0
IsShare share divisor sent granted =
    IsCeil share divisor (sent + granted)
    ⊎ (((granted ≡ 0) × (share ≤ sent * divisor))
        ⊎ ((granted ≡ u32_max) × ((sent + u32_max) * divisor < share)))

cut-IsShare :
    (share divisor sent granted : ℕ)
    → 0 < divisor
    → IsCeil share divisor (sent + granted) ⊎ ((granted ≡ 0) × (share ≤ sent * divisor))
    → IsShare share divisor sent (cut granted)
cut-IsShare share divisor sent granted pd c =
    if_elim (IsShare share divisor sent) (ltb u32_max granted)
      (λ large. elim c [
        | inl exact ↦ inr (
            inr (
              refl,
              omega (
                arith,
                exact,
                mul_mono (sent + u32_max + 1) (sent + granted) divisor (ground arith),
              ),
            ))
        | inr (z, _) ↦ absurd (ground arith)
      ])
      (λ _. elim c [ inl exact ↦ inl exact | inr ahead ↦ inr (inl ahead) ])

-- Above `ssthresh`, on an ACK that delivers data and with a share that 64 bits can hold, the bytes
-- sent and granted are exactly the share `ssthresh / recover_fs` of the delivered bytes, rounded
-- up; or nothing is granted, and at least the share has been sent; or the grant is the largest of
-- 32 bits, and falls short of the share. The state is the one after the ACK.
pub on_ack_proportional :
    (prr : Prr) (ack : Ack) {prr' : Prr} {g : Grant}
    → on_ack prr ack ≡ some (prr', g)
    → IsU64 prr'.prr_delivered
    → IsU32 prr'.ssthresh
    → IsU32 prr'.recover_fs
    → 0 < prr'.prr_delivered
    → 0 < ack.delivered_data
    → prr'.ssthresh < ack.inflight
    → prr'.prr_delivered * prr'.ssthresh ≤ u64_max * prr'.recover_fs
    → IsShare (prr'.prr_delivered * prr'.ssthresh) prr'.recover_fs prr'.prr_out g.sndcnt
on_ack_proportional prr ack {prr'} {g} h hd hs hr pp pd above fits =
    let inv = on_ack_inv prr ack h in
    let keeps = deliver-keeps prr ack in
    let same : (prr'.ssthresh ≡ prr.ssthresh) × (prr'.recover_fs ≡ prr.recover_fs) =
      ground (arith, inv, keeps) in
    let ps : 0 < prr'.ssthresh = omega (arith, inv, same) in
    let pr : 0 < prr'.recover_fs = omega (arith, inv, same) in
    let c = proportional_lem prr' hd hs hr ps pr fits in
    let granted : g.sndcnt ≡ cut (proportional prr') =
      ground
        (arith, inv, credit_above prr' ack above (some_credit_lem prr' pp hd hs hr ps pr fits)) in
    rw granted (
      cut-IsShare (prr'.prr_delivered * prr'.ssthresh) prr'.recover_fs prr'.prr_out
        (proportional prr') pr c)
