-- ===== src/Pacer/Sched/Reach.antt =====
-- All that can become of a scheduler, from `init` on.
use mathlib.Core.Path.{subst}
use tcp_shift.Prelude.{sym, ℕ, ◌≡◌, ◌||◌, refl, Bool, Option, none, some, ◌==◌, ltb, arith, if_elim}
use tcp_shift.Pacer.Heap.{Event}
use tcp_shift.Pacer.Heap.Order.{IsHeap}
use tcp_shift.Pacer.Sched.{
  Pacer, Due, TimerRead, init, close, schedule, cancel, compact, rebuild, pop_due, consume_timer,
  sync_timer, is_closed, no_cells, most_events, would_block, failed, short, expirations,
}
use tcp_shift.Pacer.Sched.Compact.{compact_unchanged}
use tcp_shift.Pacer.Sched.Valid.{IsValid, sync_timer-IsValid, schedule-IsValid}
use tcp_shift.Pacer.Sched.Cancel.{rebuild-IsValid}
use tcp_shift.Pacer.Sched.Release.{taken, taken-IsValid}

pub data Call : Type 0 where
  schedules : Event → (grown armed : Bool) → Call
  cancels : (flow generation : ℕ) (armed : Bool) → Call
  pops : (now_ns : ℕ) (armed : Bool) → Call
  consumes : TimerRead → Call
  closes : Call

unfoldable pub serve : Pacer → Call → Pacer
serve p (schedules e grown armed) = (schedule p e grown armed).0
serve p (cancels flow generation armed) = (cancel p flow generation armed).0
serve p (pops now_ns armed) = (pop_due p now_ns armed).0
serve p (consumes answer) = (consume_timer p answer).0
serve p closes = close p

pub data Reached : Pacer → Type 0 where
  opened : (max_events : ℕ) (fd : Option ℕ) (p : Pacer) → init max_events fd ≡ some p → Reached p
  served : (p : Pacer) → Reached p → (c : Call) → Reached (serve p c)

empty-IsHeap : IsHeap no_cells 0
empty-IsHeap j p l _ = absurd (omega arith)

abbrev IsOpened : Option Pacer → Type 0
IsOpened none = Unit
IsOpened (some p) = IsValid p

init-IsOpened : (m : ℕ) (fd : Option ℕ) → IsOpened (init m fd)
unfolding init
init-IsOpened m none = tt
init-IsOpened m (some fd) =
    if_elim IsOpened (m == 0 || ltb most_events m) (λ _. tt)
      (λ ok. record {
        in_array = omega arith;
        bounded = omega arith;
        fits = ground arith;
        ordered = empty-IsHeap;
        dated = refl;
        counted = refl;
        peaked = omega arith;
        sized = refl;
      })

init-IsValid : (m : ℕ) (fd : Option ℕ) (p : Pacer) → init m fd ≡ some p → IsValid p
init-IsValid m fd p e = subst IsOpened e (init-IsOpened m fd)

close-IsValid : (p : Pacer) → IsValid (close p)
unfolding close
close-IsValid p = record {
  in_array = omega arith;
  bounded = omega arith;
  fits = omega arith;
  ordered = empty-IsHeap;
  dated = refl;
  counted = refl;
  peaked = omega arith;
  sized = refl;
}

cancel-IsValid :
    (p : Pacer) (flow generation : ℕ) (armed : Bool)
    → IsValid p
    → IsValid (cancel p flow generation armed).0
unfolding cancel
cancel-IsValid p flow generation armed v =
    let (h, len, removed) = compact flow generation p.heap_len 0 0 0 p.heap in
    let q = rebuild p h len removed in
    let w = sync_timer-IsValid q armed (rebuild-IsValid p flow generation v) in
    let P = λ (r : Pacer × Bool × ℕ). IsValid r.0 in
    if_elim P (is_closed p.timer_fd) (λ _. v)
      (λ _.
        if_elim P (removed == 0)
          (λ z.
            let same : h ≡ p.heap =
              compact_unchanged flow generation p.heap_len 0 p.heap (ground arith) in
            subst (λ g. IsValid (record p { heap = g })) (sym same) v)
          (λ _. if_elim P (sync_timer q armed).1 (λ _. w) (λ _. w)))

pop_due-IsValid :
    (p : Pacer) (now_ns : ℕ) (armed : Bool) → IsValid p → IsValid (pop_due p now_ns armed).0
unfolding pop_due taken
pop_due-IsValid p now_ns armed v =
    if_elim (λ (r : Pacer × Due). IsValid r.0) (is_closed p.timer_fd) (λ _. v)
      (λ _.
        if_elim (λ (r : Pacer × Due). IsValid r.0)
          (p.heap_len == 0 || ltb now_ns (p.heap 0).deadline_ns) (λ _. v)
          (λ due.
            let w =
              sync_timer-IsValid (taken p now_ns) armed (taken-IsValid p now_ns (ground arith) v) in
            if_elim (λ (r : Pacer × Due). IsValid r.0) (sync_timer (taken p now_ns) armed).1
              (λ _. w) (λ _. w)))

consume_timer-IsValid :
    (p : Pacer) (answer : TimerRead) → IsValid p → IsValid (consume_timer p answer).0
unfolding consume_timer
consume_timer-IsValid p would_block v =
    if_elim (λ (r : Pacer × Option (Bool × ℕ)). IsValid r.0) (is_closed p.timer_fd) (λ _. v)
      (λ _. v)
consume_timer-IsValid p failed v =
    if_elim (λ (r : Pacer × Option (Bool × ℕ)). IsValid r.0) (is_closed p.timer_fd) (λ _. v)
      (λ _. v)
consume_timer-IsValid p short v =
    if_elim (λ (r : Pacer × Option (Bool × ℕ)). IsValid r.0) (is_closed p.timer_fd) (λ _. v)
      (λ _. v)
consume_timer-IsValid p (expirations n) v =
    if_elim (λ (r : Pacer × Option (Bool × ℕ)). IsValid r.0) (is_closed p.timer_fd) (λ _. v)
      (λ _. v)

serve-IsValid : (p : Pacer) (c : Call) → IsValid p → IsValid (serve p c)
unfolding serve
serve-IsValid p (schedules e grown armed) v = schedule-IsValid p e grown armed v
serve-IsValid p (cancels flow generation armed) v = cancel-IsValid p flow generation armed v
serve-IsValid p (pops now_ns armed) v = pop_due-IsValid p now_ns armed v
serve-IsValid p (consumes answer) v = consume_timer-IsValid p answer v
serve-IsValid p closes v = close-IsValid p

-- Whatever calls follow a successful `init`, in any order, with any arguments, and whatever the
-- system answers to each, failures included: the events lie in the array and within the configured
-- maximum, in heap order and each with a deadline, and the statistics agree with them.
pub Reached-IsValid : (p : Pacer) → Reached p → IsValid p
Reached-IsValid _ (opened m fd p e) = init-IsValid m fd p e
Reached-IsValid _ (served p before c) = serve-IsValid p c (Reached-IsValid p before)
