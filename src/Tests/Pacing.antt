-- ===== src/Tests/Pacing.antt =====
-- The pacer of runtime/pacer.c on small inputs.
use tcp_shift.Prelude.{
  ℕ, zero, suc, ◌+◌, ◌*◌, ◌≤◌, ◌<◌, ◌≡◌, refl, true, false, some, List, [], ◌∷◌, arith,
}
use tcp_shift.Pacer.Flow.{
  FlowPacer, init, set_rate_quantum, segment_eligible, spacing_ns, eligible, nsec_per_sec, tx_base,
  add_sat, advance, quotient_up, deadline,
}
use tcp_shift.Pacer.Flow.Runs.{attempts, end_time, note_tx_lem}
use tcp_shift.Pacer.Flow.Spacing.{spacing_ns-least}
use tcp_shift.Pacer.Flow.Conformance.{attempts_within_rate}
use tcp_shift.Pacer.Flow.Deadline.{deferred_until_eligible, note_tx_catch_up}
use tcp_shift.Pacer.Heap.{Event, Cells, event_less}
use tcp_shift.Pacer.Heap.Order.{IsHeap}
use tcp_shift.Pacer.Sched.{Pacer, no_stats, schedule, cancel, pop_due}
use tcp_shift.Pacer.Sched
use tcp_shift.Pacer.Sched.{no_cells}
use tcp_shift.Pacer.Sched.Reach.{serve, opened, served, schedules, pops, Reached-IsValid}
use tcp_shift.Pacer.Sched.Valid.{IsValid}
use tcp_shift.Pacer.Sched.Schedule.{Scheduled, schedule_lem}
use tcp_shift.Pacer.Sched.Cancel.{Cancelled, cancel_lem}
use tcp_shift.Pacer.Sched.Release.{Answers, pop_due_lem}

-- A flow of 1,000,000 bytes a second with a quantum of 3,000 bytes.
abbrev offers : List (ℕ × ℕ)
offers = (1, 1500) ∷ (2, 1500) ∷ (3, 1500) ∷ (3000001, 1500) ∷ []

attempts_within_rate_example :
    (attempts (set_rate_quantum (init 0) 1000000 3000, 0) offers).1 * nsec_per_sec + 1 * 1000000
    ≤ end_time 1 offers * 1000000 + 3000 * nsec_per_sec
attempts_within_rate_example =
    attempts_within_rate 1000000 3000 3000 1 0 offers (omega arith) (omega arith) (omega arith)
      (ground arith)

spacing_ns-least_example :
    (1500 * nsec_per_sec ≤ spacing_ns 1500 7 * 7)
    × (spacing_ns 1500 7 * 7 < 1500 * nsec_per_sec + 7)
spacing_ns-least_example = spacing_ns-least 1500 7 (omega arith) (omega arith) (omega arith)

abbrev waiting : FlowPacer
waiting = record {
  rate_bytes_per_sec = 1000;
  next_send_ns = 500;
  max_catch_up_bytes = 3000;
  quantum_bytes = 0;
  quantum_remaining_bytes = 0;
  tx_events = 1;
  tx_bytes = 1500;
  catch_up_clamps = 0;
  quantum_grants = 1;
}

deferred_until_eligible_example :
    (100 < 500) × ((segment_eligible (segment_eligible waiting 100 1500).1 500 1500).0 ≡ eligible)
deferred_until_eligible_example =
    deferred_until_eligible waiting 100 1500 500 (unfold segment_eligible deadline in refl)

note_tx_catch_up_example :
    5000000000 + spacing_ns 1500 1000
    ≤ (advance waiting 5000000000 1500).next_send_ns + spacing_ns 3000 1000
note_tx_catch_up_example =
    note_tx_catch_up waiting 5000000000 1500 {g = advance waiting 5000000000 1500} (omega arith)
      (note_tx_lem waiting 5000000000 1500 (omega arith) (omega arith) (omega arith) (omega arith))
      (unfold advance tx_base spacing_ns quotient_up add_sat in omega arith) (omega arith)

abbrev early_event : Event
early_event = record { deadline_ns = 100; flow_id = 1; generation = 1; bytes = 1500 }

abbrev late_event : Event
late_event = record { deadline_ns = 900; flow_id = 2; generation = 1; bytes = 1500 }

abbrev two_cells : Cells
two_cells zero = early_event
two_cells (suc _) = late_event

two_cells-IsHeap : IsHeap two_cells 2
unfolding event_less
two_cells-IsHeap zero p l _ = absurd (omega arith)
two_cells-IsHeap (suc zero) p l _ = refl
two_cells-IsHeap (suc (suc j)) p l _ = absurd (omega arith)

-- Two events, the timer set for the first.
abbrev two_events : Pacer
two_events = record {
  timer_fd = some 5;
  heap = two_cells;
  heap_len = 2;
  heap_cap = 8;
  heap_max = 64;
  armed_deadline_ns = 100;
  stats = record no_stats { heap_current = 2; heap_peak = 2; heap_capacity = 8 };
}

two_events-IsValid : IsValid two_events
two_events-IsValid = record {
  in_array = omega arith;
  bounded = omega arith;
  fits = omega arith;
  ordered = two_cells-IsHeap;
  dated = refl;
  counted = refl;
  peaked = omega arith;
  sized = refl;
}

schedule_lem_example :
    Scheduled early_event two_events
      (schedule two_events early_event true true).0
      (schedule two_events early_event true true).1
    × IsValid (schedule two_events early_event true true).0
schedule_lem_example = schedule_lem two_events early_event true true two_events-IsValid

cancel_lem_example :
    Cancelled 1 1 two_events
      (cancel two_events 1 1 true).0
      (cancel two_events 1 1 true).1
      (cancel two_events 1 1 true).2
cancel_lem_example = cancel_lem two_events 1 1 true {fd = 5} two_events-IsValid refl refl

pop_due_lem_example :
    Answers 500 two_events (pop_due two_events 500 true).0 (pop_due two_events 500 true).1
pop_due_lem_example = pop_due_lem two_events 500 true {fd = 5} two_events-IsValid refl

abbrev opened_pacer : Pacer
opened_pacer = record {
  timer_fd = some 5;
  heap = no_cells;
  heap_len = 0;
  heap_cap = 0;
  heap_max = 64;
  armed_deadline_ns = 0;
  stats = record no_stats { timerfd_creates = 1 };
}

Reached-IsValid_example :
    IsValid (serve (serve opened_pacer (schedules early_event true true)) (pops 500 false))
Reached-IsValid_example =
    Reached-IsValid (serve (serve opened_pacer (schedules early_event true true)) (pops 500 false))
      (served (serve opened_pacer (schedules early_event true true))
        (served opened_pacer (opened 64 (some 5) opened_pacer (unfold Sched.init in refl))
          (schedules early_event true true))
        (pops 500 false))
