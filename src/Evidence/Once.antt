-- ===== src/Evidence/Once.antt =====
-- Each transmission is told lost at most once, and undone at most once.
use tcp_shift.Prelude.{
  ℕ, ◌≤◌, ◌<◌, ◌≡◌, ◌⊎◌, inl, inr, refl, ◌≢◌, ◌||◌, ◌==◌, ltb, leb, List, [], ◌∷◌, arith, if_elim,
}
use mathlib.Core.Path.{subst}
use tcp_shift.Rack
use tcp_shift.Evidence.{
  Attempt, Tx, Loss, Verdict, Undo, attempt_init, note_tx, note_delivery, qualify_loss,
  undo_spurious, evidence, lost, refused, none_yet, invalid, unmatched, fresh,
}

-- The calls on one slot, each `qualify` with the RACK state that it finds.
pub data Call : Type 0 where
  tx : Tx → Call
  delivery : ℕ → Call
  qualify : Rack.State → ℕ → ℕ → Call
  undo : ℕ → Call

-- What the slot has told: a loss, or that a loss was undone.
pub data Report : Type 0 where
  loss : Loss → Report
  undone : ℕ → Report

-- The reports of a verdict and of an undo, before the later ones.
abbrev pub told : Verdict → List Report → List Report
told (lost l) rs = loss l ∷ rs
told refused rs = rs
told none_yet rs = rs

abbrev pub told_undo : ℕ → Undo → List Report → List Report
told_undo g fresh rs = undone g ∷ rs
told_undo g invalid rs = rs
told_undo g unmatched rs = rs

unfoldable pub reports : Attempt → List Call → List Report
reports a [] = []
reports a (tx t ∷ cs) = reports (note_tx a t).0 cs
reports a (delivery n ∷ cs) = reports (note_delivery a n).0 cs
reports a (qualify rack now r ∷ cs) =
    let (a', _, verdict) = qualify_loss a rack now r in told verdict (reports a' cs)
reports a (undo g ∷ cs) = let (a', result) = undo_spurious a g in told_undo g result (reports a' cs)

-- The calls of a program whose payload counts are 16 bits wide.
pub data AllNarrow : List Call → Type 0 where
  none_left : AllNarrow []
  narrow_tx :
      (t : Tx) (cs : List Call) → t.payload_bytes ≤ 65535 → AllNarrow cs → AllNarrow (tx t ∷ cs)
  narrow_delivery : (n : ℕ) (cs : List Call) → AllNarrow cs → AllNarrow (delivery n ∷ cs)
  narrow_qualify :
      (rack : Rack.State) (now r : ℕ) (cs : List Call)
      → AllNarrow cs
      → AllNarrow (qualify rack now r ∷ cs)
  narrow_undo : (g : ℕ) (cs : List Call) → AllNarrow cs → AllNarrow (undo g ∷ cs)

-- Losses and undos in order: from the last generation told lost and the last one undone, each loss
-- is of a later generation, with bytes lost that were in flight, and each undo is of the last
-- generation told lost, later than the one undone before.
pub data InOrder : (qualified revoked : ℕ) → List Report → Type 0 where
  silent : (q r : ℕ) → InOrder q r []
  later_loss :
      (q r : ℕ) (l : Loss) (rs : List Report)
      → q < l.generation
      → 0 < l.newly_lost_bytes
      → l.newly_lost_bytes ≤ l.tx_inflight_bytes
      → 0 < l.tx_ns
      → InOrder l.generation r rs
      → InOrder q r (loss l ∷ rs)
  later_undo : (q r : ℕ) (rs : List Report) → r < q → InOrder q q rs → InOrder q r (undone q ∷ rs)

-- What every call keeps of a slot.
pub record IsValid (a : Attempt) : Type 0 where
  pub qualified_le : a.qualified_generation ≤ a.generation
  pub revoked_le : a.revoked_generation ≤ a.qualified_generation
  pub narrow : a.payload_bytes ≤ 65535
  pub in_flight : a.payload_bytes ≤ a.prior_inflight_bytes
  pub delivered_le : a.delivered_bytes ≤ a.payload_bytes
  pub timed : a.generation ≡ 0 ⊎ (0 < a.tx_ns)

init-IsValid : IsValid attempt_init
unfolding attempt_init
init-IsValid = ground arith

Continues : Attempt → Attempt → Type 0
Continues a b =
    IsValid b
    × (b.qualified_generation ≡ a.qualified_generation)
    × (b.revoked_generation ≡ a.revoked_generation)

note_tx-Continues :
    (a : Attempt) (t : Tx) → t.payload_bytes ≤ 65535 → IsValid a → Continues a (note_tx a t).0
unfolding note_tx Continues
note_tx-Continues a t n v = ground arith

note_delivery-Continues : (a : Attempt) (n : ℕ) → IsValid a → Continues a (note_delivery a n).0
unfolding note_delivery Continues
note_delivery-Continues a n v = ground arith

abbrev marked : Attempt → Attempt
marked a = record a { qualified_generation = a.generation }

abbrev Quiet : Verdict → Type 0
Quiet v = v ≡ refused ⊎ v ≡ none_yet

-- The two ways out of `qualify_loss`.
Outcome : Attempt → Attempt × Rack.State × Verdict → Type 0
Outcome a r =
    (r.0 ≡ a × Quiet r.2)
    ⊎ (r.0 ≡ marked a
        × (r.2 ≡ lost (evidence a))
        × (a.generation ≢ 0)
        × (a.qualified_generation ≢ a.generation)
        × (a.delivered_bytes < a.payload_bytes))

qualify_loss-outcome :
    (a : Attempt) (rack : Rack.State) (now r : ℕ) → Outcome a (qualify_loss a rack now r)
unfolding qualify_loss Outcome
qualify_loss-outcome a rack now r =
    if_elim (Outcome a) (now == 0 || (a.generation == 0 || (ltb now a.tx_ns || ltb 1 r)))
      (λ _. inl (refl, inl refl))
      (λ real.
        if_elim (Outcome a)
          (a.qualified_generation == a.generation || leb a.payload_bytes a.delivered_bytes)
          (λ _. inl (refl, inr refl))
          (λ waiting.
            if_elim (Outcome a) _ (λ _. inr (refl, refl, ground arith, ground arith, ground arith))
              (λ _. inl (refl, inr refl))))

marked-IsValid : (a : Attempt) → IsValid a → IsValid (marked a)
marked-IsValid a v = record {
  qualified_le = omega arith;
  revoked_le = ground (arith, v.qualified_le, v.revoked_le);
  narrow = v.narrow;
  in_flight = v.in_flight;
  delivered_le = v.delivered_le;
  timed = v.timed;
}

-- The two ways out of `undo_spurious`.
undo_spurious-outcome :
    (a : Attempt) (g : ℕ)
    → (((undo_spurious a g).0 ≡ a)
        × ((undo_spurious a g).1 ≡ invalid ⊎ (undo_spurious a g).1 ≡ unmatched))
      ⊎ (((undo_spurious a g).0 ≡ record a { revoked_generation = g })
          × ((undo_spurious a g).1 ≡ fresh)
          × (g ≡ a.qualified_generation)
          × (g ≢ a.revoked_generation))
unfolding undo_spurious
undo_spurious-outcome a g = ground arith

told-Quiet : (v : Verdict) (rs : List Report) → Quiet v → told v rs ≡ rs
told-Quiet v rs (inl e) = rw e refl
told-Quiet v rs (inr e) = rw e refl

qualify-IsValid :
    (a : Attempt) (rack : Rack.State) (now r : ℕ)
    → IsValid a
    → IsValid (qualify_loss a rack now r).0
unfolding Outcome
qualify-IsValid a rack now r v = elim (qualify_loss-outcome a rack now r) [
  | inl (same, _) ↦ rw same v
  | inr (m, _, _, _, _) ↦ rw m (marked-IsValid a v)
]

qualify-InOrder :
    (a b : Attempt) (v : Verdict) (rs : List Report)
    → IsValid a
    → (b ≡ a × Quiet v)
      ⊎ (b ≡ marked a
          × (v ≡ lost (evidence a))
          × (a.generation ≢ 0)
          × (a.qualified_generation ≢ a.generation)
          × (a.delivered_bytes < a.payload_bytes))
    → InOrder b.qualified_generation b.revoked_generation rs
    → InOrder a.qualified_generation a.revoked_generation (told v rs)
qualify-InOrder a b v rs valid (inl (same, q)) o = rw (told-Quiet v rs q, ← same) o
qualify-InOrder a b v rs valid (inr (m, e, real, first, some_left)) o = rw e (
    later_loss _ _ (evidence a) rs (ground (arith, valid.qualified_le))
      (ground (arith, valid.narrow)) (ground (arith, valid.in_flight)) (ground (arith, valid.timed))
      (subst (λ (x : Attempt). InOrder x.qualified_generation x.revoked_generation rs) m o))

undo_spurious-IsValid : (a : Attempt) (g : ℕ) → IsValid a → IsValid (undo_spurious a g).0
unfolding undo_spurious
undo_spurious-IsValid a g v = ground arith

told_undo_lem :
    (g : ℕ) (u : Undo) (rs : List Report) → u ≡ invalid ⊎ u ≡ unmatched → told_undo g u rs ≡ rs
told_undo_lem g u rs (inl e) = rw e refl
told_undo_lem g u rs (inr e) = rw e refl

undo-InOrder :
    (a b : Attempt) (g : ℕ) (u : Undo) (rs : List Report)
    → IsValid a
    → ((b ≡ a) × (u ≡ invalid ⊎ u ≡ unmatched))
      ⊎ ((b ≡ record a { revoked_generation = g })
          × (u ≡ fresh)
          × (g ≡ a.qualified_generation)
          × (g ≢ a.revoked_generation))
    → InOrder b.qualified_generation b.revoked_generation rs
    → InOrder a.qualified_generation a.revoked_generation (told_undo g u rs)
undo-InOrder a b g u rs v (inl (same, q)) o = rw (told_undo_lem g u rs q, ← same) o
undo-InOrder a b g u rs v (inr (r, e, last, first)) o =
    let later : InOrder a.qualified_generation g rs =
      subst (λ (x : Attempt). InOrder x.qualified_generation x.revoked_generation rs) r o in
    rw (e, last)
      (later_undo _ _ rs (ground (arith, v.revoked_le))
        (subst (λ (x : ℕ). InOrder a.qualified_generation x rs) last later))

same-InOrder :
    {q q' r r' : ℕ} {rs : List Report} → q ≡ q' → r ≡ r' → InOrder q r rs → InOrder q' r' rs
same-InOrder eq er o = rw (← eq, ← er) o

reports_from :
    (a : Attempt) (cs : List Call)
    → IsValid a
    → AllNarrow cs
    → InOrder a.qualified_generation a.revoked_generation (reports a cs)
unfolding reports Continues Outcome
reports_from a [] v n = silent _ _
reports_from a (tx t ∷ cs) v (narrow_tx _ _ small n) =
    let (valid, q, r) = note_tx-Continues a t small v in
    same-InOrder q r (reports_from (note_tx a t).0 cs valid n)
reports_from a (delivery k ∷ cs) v (narrow_delivery _ _ n) =
    let (valid, q, r) = note_delivery-Continues a k v in
    same-InOrder q r (reports_from (note_delivery a k).0 cs valid n)
reports_from a (qualify rack now r ∷ cs) v (narrow_qualify _ _ _ _ n) =
    qualify-InOrder a (qualify_loss a rack now r).0 (qualify_loss a rack now r).2 _ v
      (qualify_loss-outcome a rack now r)
      (reports_from (qualify_loss a rack now r).0 cs (qualify-IsValid a rack now r v) n)
reports_from a (undo g ∷ cs) v (narrow_undo _ _ n) =
    undo-InOrder a (undo_spurious a g).0 g (undo_spurious a g).1 _ v (undo_spurious-outcome a g)
      (reports_from (undo_spurious a g).0 cs (undo_spurious-IsValid a g v) n)

-- Over any calls on a slot after its initialisation, with any RACK state at each and payloads of 16
-- bits, the losses told are of later and later generations, so each transmission is told lost at
-- most once; each tells at least a byte, no more than were in flight, at a real time; and each undo
-- is of the last generation told lost, and of a later one than the undo before it.
pub reports-InOrder : (cs : List Call) → AllNarrow cs → InOrder 0 0 (reports attempt_init cs)
unfolding attempt_init
reports-InOrder cs n = reports_from attempt_init cs init-IsValid n
