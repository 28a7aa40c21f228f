-- ===== src/Pacer/Sched/Cancel.antt =====
-- Which events the scheduler holds after `cancel`, on every branch.
use mathlib.Core.Path.{subst, ap₂}
use tcp_shift.Prelude.{
  ℕ, zero, suc, ◌≤◌, ◌≡◌, ◌⊎◌, inl, inr, refl, sym, ap, ◌∙◌, Bool, true, false, ◌&&◌, some, ◌==◌,
  arith, if_elim,
}
use tcp_shift.Pacer.Heap.{Event, Cells}
use tcp_shift.Pacer.Heap.Counting.{count, count-heapify}
use tcp_shift.Pacer.Heap.Down.{heapify-IsHeap}
use tcp_shift.Pacer.Sched.{Pacer, sync_timer, compact, cancel, is_of, is_closed}
use tcp_shift.Pacer.Sched.Valid.{
  IsValid, IsArmed, no_deadline, sync_timer-keeps, sync_timer-IsArmed, sync_timer-IsValid,
  compact-le,
}
use tcp_shift.Pacer.Sched.{rebuild}
use tcp_shift.Pacer.Sched.Compact.{
  held, stays, count-split, cancelled_heap, cancelled_count, compact_unchanged,
}

held-rebuild :
    (p : Pacer) (flow generation : ℕ) (test : Event → Bool)
    → let (h, len, removed) = compact flow generation p.heap_len 0 0 0 p.heap in
      held test (rebuild p h len removed) ≡ held (stays flow generation test) p
unfolding rebuild
held-rebuild p flow generation test =
    let (h, len, _) = compact flow generation p.heap_len 0 0 0 p.heap in
    count-heapify test h len ∙ cancelled_heap p flow generation test

pub rebuild-IsValid :
    (p : Pacer) (flow generation : ℕ)
    → IsValid p
    → let (h, len, removed) = compact flow generation p.heap_len 0 0 0 p.heap in
      IsValid (rebuild p h len removed)
unfolding rebuild
rebuild-IsValid p flow generation v =
    let (h, len, _) = compact flow generation p.heap_len 0 0 0 p.heap in
    let shorter = compact-le flow generation p.heap_len 0 0 0 p.heap in
    record {
      in_array = omega (arith, v.in_array, shorter);
      bounded = v.bounded;
      fits = v.fits;
      ordered = heapify-IsHeap h len;
      dated = omega (
        arith,
        count-heapify no_deadline h len,
        cancelled_heap p flow generation no_deadline,
        count-split flow generation no_deadline p.heap p.heap_len,
        v.dated,
      );
      counted = refl;
      peaked = omega (arith, v.peaked, shorter);
      sized = v.sized;
    }

-- With nothing to cancel, every test counts the same events with and without the flow generation.
none_cancelled :
    (p : Pacer) (flow generation : ℕ) (test : Event → Bool)
    → held (is_of flow generation) p ≡ 0
    → held test p ≡ held (stays flow generation test) p
none_cancelled p flow generation test z =
    omega (arith, count-split flow generation test p.heap p.heap_len, fewer p.heap p.heap_len)
  where
    fewer :
        (h : Cells) (n : ℕ)
        → count (λ e. test e && is_of flow generation e) h n ≤ count (is_of flow generation) h n
    fewer h zero = omega arith
    fewer h (suc n) = ground (arith, fewer h n)

-- What `cancel` answers and leaves, for a scheduler `p` before and `q` after.
pub record Cancelled (flow generation : ℕ) (p q : Pacer) (done : Bool) (n : ℕ) : Type 0 where
  pub rest : (test : Event → Bool) → held test q ≡ held (stays flow generation test) p
  pub answer : (done ≡ false) ⊎ ((n ≡ held (is_of flow generation) p) × IsArmed q)
  pub valid : IsValid q

-- On an open valid scheduler whose timer is set for its first event, cancelling a flow generation
-- takes out all of its events and no other, also when the timer cannot be set afterwards; the
-- scheduler stays valid; on success the number of cancelled events is told and the timer is set for
-- the first event left.
pub cancel_lem :
    (p : Pacer) (flow generation : ℕ) (armed : Bool) {fd : ℕ}
    → IsValid p
    → IsArmed p
    → p.timer_fd ≡ some fd
    → let (q, done, n) = cancel p flow generation armed in Cancelled flow generation p q done n
unfolding cancel
cancel_lem p flow generation armed v a e =
    let (h, len, removed) = compact flow generation p.heap_len 0 0 0 p.heap in
    let q = rebuild p h len removed in
    let keeps = sync_timer-keeps q armed in
    let P = λ (r : Pacer × Bool × ℕ). Cancelled flow generation p r.0 r.1 r.2 in
    let synced_rest = λ (test : Event → Bool).
      ap₂ (count test) keeps.0 keeps.1 ∙ held-rebuild p flow generation test in
    let w = sync_timer-IsValid q armed (rebuild-IsValid p flow generation v) in
    if_elim P (is_closed p.timer_fd) (λ closed. cc (ap is_closed e))
      (λ _.
        if_elim P (removed == 0)
          (λ z.
            let nothing : held (is_of flow generation) p ≡ 0 =
              ground (arith, cancelled_count p flow generation) in
            let same : h ≡ p.heap =
              compact_unchanged flow generation p.heap_len 0 p.heap (ground arith) in
            subst (λ g. Cancelled flow generation p (record p { heap = g }) true 0) (sym same)
              record {
                rest = λ test. none_cancelled p flow generation test nothing;
                answer = inr (sym nothing, a);
                valid = v;
              })
          (λ _.
            if_elim P (sync_timer q armed).1
              (λ set. record {
                rest = synced_rest;
                answer = inr (cancelled_count p flow generation, sync_timer-IsArmed q armed set);
                valid = w;
              })
              (λ _. record { rest = synced_rest; answer = inl refl; valid = w })))
