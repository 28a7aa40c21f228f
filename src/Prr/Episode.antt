-- ===== src/Prr/Episode.antt =====
-- A whole recovery: from `init` over any ACKs and transmissions to `complete`.
use Prim.Native.Nat.{min}
use native.Mathlib.Nat.{add-zero, add_assoc}
use mathlib.Core.Path.{subst}
use tcp_shift.Prelude.{
  ℕ, ◌+◌, ◌<◌, ◌≡◌, refl, arith, u64_max, true, Option, none, some, List, [], ◌∷◌,
}
use tcp_shift.Prr.{Prr, Ack, Grant, add_sat_u64, init, reset, deliver, on_ack, on_send, complete}
use tcp_shift.Prr.Credit.{on_ack_inv}

-- A step of a recovery: an ACK, or a transmission.
pub data Step : Type 0 where
  acked : Ack → Step
  sent : ℕ → Step

abbrev pub acked_state : Option (Prr × Grant) → Option Prr
acked_state none = none
acked_state (some (prr, _)) = some prr

unfoldable pub step : Prr → Step → Option Prr
step prr (acked ack) = acked_state (on_ack prr ack)
step prr (sent bytes) = on_send prr bytes

abbrev pub then_run : (Prr → Option Prr) → Option Prr → Option Prr
then_run k none = none
then_run k (some prr) = k prr

unfoldable pub run : Prr → List Step → Option Prr
run prr [] = some prr
run prr (s ∷ ss) = then_run (λ p. run p ss) (step prr s)

abbrev pub delivered_by : Step → ℕ
delivered_by (acked ack) = ack.delivered_data
delivered_by (sent _) = 0

abbrev pub sent_by : Step → ℕ
sent_by (acked _) = 0
sent_by (sent bytes) = bytes

abbrev pub delivered : List Step → ℕ
delivered [] = 0
delivered (s ∷ ss) = delivered_by s + delivered ss

abbrev pub transmitted : List Step → ℕ
transmitted [] = 0
transmitted (s ∷ ss) = sent_by s + transmitted ss

-- What a recovery keeps, and what it has counted so far.
record InRecovery (recover_fs ssthresh got out : ℕ) (prr : Prr) : Type 0 where
  on : prr.active ≡ true
  flight : prr.recover_fs ≡ recover_fs
  target : prr.ssthresh ≡ ssthresh
  got_eq : prr.prr_delivered ≡ min got u64_max
  out_eq : prr.prr_out ≡ min out u64_max

add_sat-min : (a b : ℕ) → add_sat_u64 (min a u64_max) b ≡ min (a + b) u64_max
unfolding add_sat_u64
add_sat-min a b = ground arith

acked-InRecovery :
    (fs ss got out : ℕ) (prr : Prr) (ack : Ack) {p : Prr} {g : Grant}
    → InRecovery fs ss got out prr
    → on_ack prr ack ≡ some (p, g)
    → InRecovery fs ss (got + ack.delivered_data) out p
unfolding deliver
acked-InRecovery fs ss got out prr ack v h = ground (
  arith,
  on_ack_inv prr ack h,
  add_sat-min got ack.delivered_data,
  v.on,
  v.flight,
  v.target,
  v.got_eq,
  v.out_eq,
)

sent-InRecovery :
    (fs ss got out bytes : ℕ) (prr : Prr) {p : Prr}
    → InRecovery fs ss got out prr
    → on_send prr bytes ≡ some p
    → InRecovery fs ss got (out + bytes) p
unfolding on_send
sent-InRecovery fs ss got out bytes prr v h =
    ground (arith, add_sat-min out bytes, v.on, v.flight, v.target, v.got_eq, v.out_eq)

acked_state-some :
    (o : Option (Prr × Grant)) {p : Prr} → acked_state o ≡ some p → (g : Grant) × (o ≡ some (p, g))
acked_state-some none h = cc
acked_state-some (some (q, g)) h = (g, cc)

step-InRecovery :
    (fs ss got out : ℕ) (prr : Prr) (s : Step) {p : Prr}
    → InRecovery fs ss got out prr
    → step prr s ≡ some p
    → InRecovery fs ss (got + delivered_by s) (out + sent_by s) p
unfolding step
step-InRecovery fs ss got out prr (acked ack) {p} v h =
    rw add-zero (acked-InRecovery fs ss got out prr ack v (acked_state-some (on_ack prr ack) h).1)
step-InRecovery fs ss got out prr (sent bytes) v h =
    rw add-zero (sent-InRecovery fs ss got out bytes prr v h)

then_run-some :
    (k : Prr → Option Prr) (o : Option Prr) {p : Prr}
    → then_run k o ≡ some p
    → (q : Prr) × (o ≡ some q) × (k q ≡ some p)
then_run-some k none h = cc
then_run-some k (some q) h = (q, refl, h)

run-InRecovery :
    (fs ss got out : ℕ) (prr : Prr) (steps : List Step) {p : Prr}
    → InRecovery fs ss got out prr
    → run prr steps ≡ some p
    → InRecovery fs ss (got + delivered steps) (out + transmitted steps) p
unfolding run
run-InRecovery fs ss got out prr [] v h =
    rw (add-zero, add-zero) (subst (InRecovery fs ss got out) (ground arith) v)
run-InRecovery fs ss got out prr (s ∷ steps) v h =
    let (q, first, rest) = then_run-some (λ p. run p steps) (step prr s) h in
    rw (← add_assoc, ← add_assoc)
      (run-InRecovery fs ss (got + delivered_by s) (out + sent_by s) q steps
        (step-InRecovery fs ss got out prr s v first) rest)

-- After any run of ACKs and transmissions, the counters hold the bytes delivered and sent, cut to
-- 64 bits, and `complete` gives the window that recovery was entered with and a state in which no
-- ACK, no transmission and no second `complete` is accepted.
pub complete-run :
    (fs ss : ℕ) (steps : List Step) (ack : Ack) (bytes : ℕ) {prr p : Prr}
    → init fs ss ≡ some prr
    → run prr steps ≡ some p
    → (p.prr_delivered ≡ min (delivered steps) u64_max)
      × (p.prr_out ≡ min (transmitted steps) u64_max)
      × (complete p ≡ some (reset p, ss))
      × (on_ack (reset p) ack ≡ none)
      × (on_send (reset p) bytes ≡ none)
      × (complete (reset p) ≡ none)
unfolding complete reset on_ack on_send
complete-run fs ss steps ack bytes {prr} {p} i r =
    let v = run-InRecovery fs ss 0 0 prr steps (start i) r in
    (
      omega (arith, v.got_eq),
      omega (arith, v.out_eq),
      ground (arith, v.on, v.target, positive i),
      refl,
      refl,
      refl,
    )
  where
    positive : init fs ss ≡ some prr → 0 < ss
    positive e = unfold init in ground arith

    start : init fs ss ≡ some prr → InRecovery fs ss 0 0 prr
    start e = unfold init in ground arith
