-- ===== src/Pacer/Sched/Valid.antt =====
-- The representation invariant of the scheduler: the heap fits its array, is in heap order, holds
-- no event without a deadline, and the statistics agree with it.
use tcp_shift.Prelude.{
  ℕ, zero, suc, ◌+◌, ◌-◌, ◌≤◌, ◌<◌, ◌≡◌, refl, Bool, true, false, ◌||◌, Option, none, some, ◌==◌,
  ◌/=◌, if◌then◌else◌, arith, if_elim,
}
use tcp_shift.Pacer.Heap.{Event, Cells, update, same_event}
use tcp_shift.Pacer.Heap.Order.{IsHeap}
use tcp_shift.Pacer.Heap.Counting.{count, count-heapify}
use tcp_shift.Pacer.Heap.Down.{heapify-IsHeap}
use tcp_shift.Pacer.Heap.Edits.{IsHeap-insert, count-insert, count-taken}
use tcp_shift.Pacer.Sched.{
  Pacer, most_events, reserve, next_capacity, sync_timer, insert, find_event, remove_at, rollback,
  remove_found, place, schedule, compact, is_closed,
}

abbrev pub no_deadline : Event → Bool
no_deadline e = e.deadline_ns == 0

pub record ValidParts (h : Cells) (len cap most current peak capacity : ℕ) : Type 0 where
  pub in_array : len ≤ cap
  pub bounded : cap ≤ most
  pub fits : most ≤ most_events
  pub ordered : IsHeap h len
  pub dated : count no_deadline h len ≡ 0
  pub counted : current ≡ len
  pub peaked : len ≤ peak
  pub sized : capacity ≡ cap

abbrev pub IsValid : Pacer → Type 0
IsValid p =
    ValidParts p.heap p.heap_len p.heap_cap p.heap_max p.stats.heap_current p.stats.heap_peak
      p.stats.heap_capacity

-- The timer is set for the root, and is off when there is none.
abbrev pub IsArmed : Pacer → Type 0
IsArmed p = p.armed_deadline_ns ≡ (if p.heap_len == 0 then 0 else (p.heap 0).deadline_ns)

-- Setting the timer touches the heap and its bookkeeping nowhere.
pub sync_timer-keeps :
    (p : Pacer) (armed : Bool)
    → let q = (sync_timer p armed).0 in
      (q.heap ≡ p.heap)
      × (q.heap_len ≡ p.heap_len)
      × (q.heap_cap ≡ p.heap_cap)
      × (q.heap_max ≡ p.heap_max)
      × (q.stats.heap_current ≡ p.stats.heap_current)
      × (q.stats.heap_peak ≡ p.stats.heap_peak)
      × (q.stats.heap_capacity ≡ p.stats.heap_capacity)
unfolding sync_timer
sync_timer-keeps p armed = ground arith

pub sync_timer-IsArmed :
    (p : Pacer) (armed : Bool) → (sync_timer p armed).1 ≡ true → IsArmed (sync_timer p armed).0
unfolding sync_timer
sync_timer-IsArmed p armed h = ground arith

pub sync_timer-IsValid : (p : Pacer) (armed : Bool) → IsValid p → IsValid (sync_timer p armed).0
unfolding sync_timer
sync_timer-IsValid p armed v =
    let k = sync_timer-keeps p armed in rw (k.0, k.1, k.2, k.3, k.4, k.5, k.6) v

-- Growing keeps the cells in use, and a success leaves room for one more.
pub reserve-keeps :
    (p : Pacer) (grown : Bool)
    → let (q, fits) = reserve p grown in
      (q.heap ≡ p.heap)
      × (q.heap_len ≡ p.heap_len)
      × (q.heap_max ≡ p.heap_max)
      × (q.stats.heap_current ≡ p.stats.heap_current)
      × (q.stats.heap_peak ≡ p.stats.heap_peak)
      × (fits ≡ false → q ≡ p)
unfolding reserve
reserve-keeps p grown = ground arith

pub reserve_room :
    (p : Pacer) (grown : Bool)
    → IsValid p
    → let (q, fits) = reserve p grown in
      (p.heap_len ≤ q.heap_cap)
      × (q.heap_cap ≤ p.heap_max)
      × (q.stats.heap_capacity ≡ q.heap_cap)
      × (fits ≡ true → p.heap_len < q.heap_cap)
unfolding reserve next_capacity
reserve_room p grown v = ground (arith, v.in_array, v.bounded, v.fits, v.sized)

pub reserve-IsValid : (p : Pacer) (grown : Bool) → IsValid p → IsValid (reserve p grown).0
reserve-IsValid p grown v =
    let k = reserve-keeps p grown in
    let (r0, r1, r2, _) = reserve_room p grown v in
    rw (k.0, k.1, k.2, k.3, k.4)
      record {
        in_array = r0;
        bounded = r1;
        fits = v.fits;
        ordered = v.ordered;
        dated = v.dated;
        counted = v.counted;
        peaked = v.peaked;
        sized = r2;
      }

-- An event with a deadline enters where there is room.
pub insert-IsValid :
    (p : Pacer) (e : Event)
    → IsValid p
    → p.heap_len < p.heap_cap
    → 0 < e.deadline_ns
    → IsValid (insert p e)
unfolding insert
insert-IsValid p e v room dated = record {
  in_array = omega arith;
  bounded = v.bounded;
  fits = v.fits;
  ordered = IsHeap-insert p.heap p.heap_len e v.ordered;
  dated = ground (arith, count-insert no_deadline p.heap p.heap_len e, v.dated);
  counted = refl;
  peaked = ground arith;
  sized = v.sized;
}

remove_at-IsValid : (p : Pacer) (i : ℕ) → IsValid p → i < p.heap_len → IsValid (remove_at p i)
unfolding remove_at
remove_at-IsValid p i v l =
    let len = p.heap_len - 1 in
    let taken = update p.heap i (p.heap len) in
    record {
      in_array = omega (arith, v.in_array);
      bounded = v.bounded;
      fits = v.fits;
      ordered = heapify-IsHeap taken len;
      dated = omega (
        arith,
        count-heapify no_deadline taken len,
        count-taken no_deadline p.heap i p.heap_len l,
        v.dated,
      );
      counted = refl;
      peaked = omega (arith, v.peaked);
      sized = v.sized;
    }

pub find_event-lt :
    (h : Cells) (e : Event) (i rest : ℕ) {k : ℕ}
    → find_event h e i rest ≡ some k
    → (k < i + rest) × (same_event (h k) e ≡ true)
unfolding find_event
find_event-lt h e i zero f = cc
find_event-lt h e i (suc rest) {k} f =
    ground (arith, λ (g : find_event h e (i + 1) rest ≡ some k). find_event-lt h e (i + 1) rest g)

remove_found-IsValid :
    (p : Pacer) (e : Event) (found : Option ℕ)
    → find_event p.heap e 0 p.heap_len ≡ found
    → IsValid p
    → IsValid (remove_found p found)
remove_found-IsValid p e none f v = v
remove_found-IsValid p e (some i) f v =
    remove_at-IsValid p i v (omega (arith, (find_event-lt p.heap e 0 p.heap_len f).0))

pub rollback-IsValid : (p : Pacer) (e : Event) → IsValid p → IsValid (rollback p e)
unfolding rollback
rollback-IsValid p e v = remove_found-IsValid p e (find_event p.heap e 0 p.heap_len) refl v

place-IsValid :
    (p : Pacer) (e : Event) (armed : Bool)
    → IsValid p
    → p.heap_len < p.heap_cap
    → 0 < e.deadline_ns
    → IsValid (place p e armed).0
unfolding place
place-IsValid p e armed v room dated =
    let q = sync_timer-IsValid (insert p e) armed (insert-IsValid p e v room dated) in
    if_elim (λ (r : Pacer × Bool). IsValid r.0) (sync_timer (insert p e) armed).1 (λ _. q)
      (λ _. rollback-IsValid (sync_timer (insert p e) armed).0 e q)

-- Scheduling keeps the scheduler valid, whatever it is given and whatever the system answers.
pub schedule-IsValid :
    (p : Pacer) (e : Event) (grown armed : Bool) → IsValid p → IsValid (schedule p e grown armed).0
unfolding schedule
schedule-IsValid p e grown armed v =
    let k = reserve-keeps p grown in
    let room = (reserve_room p grown v).3 in
    let q = (reserve p grown).0 in
    let w = reserve-IsValid p grown v in
    if_elim (λ (r : Pacer × Bool). IsValid r.0) (is_closed p.timer_fd || e.deadline_ns == 0)
      (λ _. v)
      (λ given.
        if_elim (λ (r : Pacer × Bool). IsValid r.0) (reserve p grown).1
          (λ fits. place-IsValid q e armed w (omega (arith, room fits, k.1)) (dated given))
          (λ _. w))
  where
    dated : (is_closed p.timer_fd || e.deadline_ns == 0) ≡ false → 0 < e.deadline_ns
    dated given = ground arith

-- The loop of `cancel` keeps at most the cells that it has read.
pub compact-le :
    (flow generation rest read write removed : ℕ) (h : Cells)
    → let (_, len, gone) = compact flow generation rest read write removed h in
      len + gone ≡ write + removed + rest
unfolding compact
compact-le flow generation zero read write removed h = omega arith
compact-le flow generation (suc rest) read write removed h = ground (
  arith,
  compact-le flow generation rest (read + 1) write (removed + 1) h,
  compact-le flow generation rest (read + 1) (write + 1) removed
      (if write /= read then update h write (h read) else h),
)
