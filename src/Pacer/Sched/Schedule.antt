-- ===== src/Pacer/Sched/Schedule.antt =====
-- Which events the scheduler holds after `schedule`, on every branch: with the event on success,
-- and without it on failure, also when the timer fails and the event is taken back.
use mathlib.Core.Path.{ap₂}
use tcp_shift.Prelude.{
  ℕ, zero, suc, ◌+◌, ◌-◌, ◌<◌, ◌≡◌, refl, ap, ◌∙◌, Bool, true, false, ◌||◌, Option, none, some,
  ◌==◌, arith, if_elim,
}
use tcp_shift.Pacer.Heap.{Event, Cells, update, same_event}
use tcp_shift.Pacer.Heap.Counting.{count, one, count-heapify}
use tcp_shift.Pacer.Heap.Edits.{count-insert, count-taken}
use tcp_shift.Pacer.Sched.{
  Pacer, sync_timer, insert, find_event, remove_at, remove_found, reserve, rollback, place,
  schedule, is_closed,
}
use tcp_shift.Pacer.Sched.Compact.{held, count_range, count_range-all}
use tcp_shift.Pacer.Sched.Valid.{
  IsValid, IsArmed, sync_timer-keeps, sync_timer-IsArmed, reserve-keeps, find_event-lt,
  schedule-IsValid,
}

same_event-eq : (a b : Event) → same_event a b ≡ true → a ≡ b
unfolding same_event
same_event-eq a b h = ground arith

same_event_self : (a : Event) → same_event a a ≡ true
unfolding same_event
same_event_self a = ground arith

held-insert :
    (p : Pacer) (e : Event) (test : Event → Bool)
    → held test (insert p e) ≡ held test p + one (test e)
unfolding insert
held-insert p e test = count-insert test p.heap p.heap_len e

find_event-none :
    (h : Cells) (e : Event) (i rest : ℕ)
    → find_event h e i rest ≡ none
    → count_range (λ x. same_event x e) h i rest ≡ 0
unfolding find_event
find_event-none h e i zero f = refl
find_event-none h e i (suc rest) f = ground (arith, find_event-none h e (i + 1) rest)

held-remove_at :
    (p : Pacer) (i : ℕ) (test : Event → Bool)
    → i < p.heap_len
    → held test (remove_at p i) + one (test (p.heap i)) ≡ held test p
unfolding remove_at
held-remove_at p i test l = omega (
  arith,
  count-heapify test (update p.heap i (p.heap (p.heap_len - 1))) (p.heap_len - 1),
  count-taken test p.heap i p.heap_len l,
)

-- The rollback finds an event that is held, and takes out one copy of it.
held-remove_found :
    (p : Pacer) (e : Event) (test : Event → Bool) (found : Option ℕ)
    → find_event p.heap e 0 p.heap_len ≡ found
    → 0 < held (λ x. same_event x e) p
    → held test (remove_found p found) + one (test e) ≡ held test p
held-remove_found p e test none f there = absurd (
    omega (
      arith,
      find_event-none p.heap e 0 p.heap_len f,
      count_range-all (λ x. same_event x e) p.heap 0 p.heap_len p.heap_len (omega arith),
    ))
held-remove_found p e test (some i) f there =
    let (l, same) = find_event-lt p.heap e 0 p.heap_len f in
    omega (
      arith,
      held-remove_at p i test (omega (arith, l)),
      ap (λ x. one (test x)) (same_event-eq (p.heap i) e same),
    )

held-rollback :
    (p : Pacer) (e : Event) (test : Event → Bool)
    → 0 < held (λ x. same_event x e) p
    → held test (rollback p e) + one (test e) ≡ held test p
unfolding rollback
held-rollback p e test = held-remove_found p e test (find_event p.heap e 0 p.heap_len) refl

-- What `schedule` leaves, for a scheduler `p` before and `q` after.
pub data Scheduled (e : Event) (p q : Pacer) : Bool → Type 0 where
  added :
      ((test : Event → Bool) → held test q ≡ held test p + one (test e))
      → IsArmed q
      → Scheduled e p q true
  kept : ((test : Event → Bool) → held test q ≡ held test p) → Scheduled e p q false

place_lem :
    (p : Pacer) (e : Event) (armed : Bool) → let (q, done) = place p e armed in Scheduled e p q done
unfolding place
place_lem p e armed =
    let q = insert p e in
    let r = (sync_timer q armed).0 in
    let keeps = sync_timer-keeps q armed in
    let same = λ (test : Event → Bool). ap₂ (count test) keeps.0 keeps.1 ∙ held-insert p e test in
    if_elim (λ (t : Pacer × Bool). Scheduled e p t.0 t.1) (sync_timer q armed).1
      (λ set. added same (sync_timer-IsArmed q armed set))
      (λ _. kept (λ test. omega (
        arith,
        same test,
        held-rollback r e test
            (omega (arith, same (λ x. same_event x e), ap one (same_event_self e))),
      )))

moved-Scheduled :
    (e : Event) (p r q : Pacer) {done : Bool}
    → ((test : Event → Bool) → held test r ≡ held test p)
    → Scheduled e r q done
    → Scheduled e p q done
moved-Scheduled e p r q moved (added more armed) =
    added (λ test. omega (arith, moved test, more test)) armed
moved-Scheduled e p r q moved (kept same) = kept (λ test. omega (arith, moved test, same test))

-- On a valid scheduler, scheduling adds the event and nothing else, and sets the timer for the first event, or it fails
-- and leaves the events as they were, whatever the system answers; the scheduler stays valid.
pub schedule_lem :
    (p : Pacer) (e : Event) (grown armed : Bool)
    → IsValid p
    → let (q, done) = schedule p e grown armed in Scheduled e p q done × IsValid q
unfolding schedule
schedule_lem p e grown armed v = (held_after, unfold schedule in schedule-IsValid p e grown armed v)
  where
    r : Pacer
    r = (reserve p grown).0

    held_after : Scheduled e p (schedule p e grown armed).0 (schedule p e grown armed).1
    held_after =
        let k = reserve-keeps p grown in
        let P = λ (t : Pacer × Bool). Scheduled e p t.0 t.1 in
        let moved = λ (test : Event → Bool). ap₂ (count test) k.0 k.1 in
        if_elim P (is_closed p.timer_fd || e.deadline_ns == 0) (λ _. kept (λ test. refl))
          (λ _.
            if_elim P (reserve p grown).1
              (λ fits. moved-Scheduled e p r (place r e armed).0 moved (place_lem r e armed))
              (λ _. kept moved))
