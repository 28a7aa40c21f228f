-- ===== src/Pacer/Sched.antt =====
-- The process-wide scheduler of runtime/pacer.c: `struct tcp_shift_pacer` and its functions. What
-- the operating system answers enters as an argument: whether `realloc` and `timerfd_settime`
-- succeed, and what `timerfd_create` and `read` return. Pointers are never null, so the guards on
-- NULL have no counterpart. `heap_len` stays below `heap_cap`, so its steps do not wrap; the
-- counters of the statistics do.
pub mod Valid
pub mod Compact
pub mod Cancel
pub mod Schedule
pub mod Release
pub mod Reach
use tcp_shift.Prelude.{
  ℕ, zero, suc, ◌+◌, ◌-◌, ◌*◌, ◌/◌, Bool, true, false, not, ◌&&◌, ◌||◌, Option, none, some, ltb,
  leb, ◌==◌, ◌/=◌, if◌then◌else◌, u64, u64_max,
}
use tcp_shift.Pacer.Heap.{Event, Cells, update, same_event, sift_up, sift_down, heapify}

-- `struct tcp_shift_pacer_stats`
pub record Stats : Type 0 where
  pub timerfd_creates : ℕ
  pub timer_arms : ℕ
  pub timer_rearms : ℕ
  pub timer_disarms : ℕ
  pub timer_expirations : ℕ
  pub scheduled_events : ℕ
  pub released_events : ℕ
  pub cancelled_events : ℕ
  pub released_bytes : ℕ
  pub last_requested_deadline_ns : ℕ
  pub last_actual_release_ns : ℕ
  pub last_lateness_ns : ℕ
  pub max_lateness_ns : ℕ
  pub heap_current : ℕ
  pub heap_peak : ℕ
  pub heap_capacity : ℕ

-- A `timer_fd` of -1 is `none`.
pub record Pacer : Type 0 where
  pub timer_fd : Option ℕ
  pub heap : Cells
  pub heap_len : ℕ
  pub heap_cap : ℕ
  pub heap_max : ℕ
  pub armed_deadline_ns : ℕ
  pub stats : Stats

abbrev pub is_closed : Option ℕ → Bool
is_closed none = true
is_closed (some _) = false

abbrev pub no_stats : Stats
no_stats = record {
  timerfd_creates = 0;
  timer_arms = 0;
  timer_rearms = 0;
  timer_disarms = 0;
  timer_expirations = 0;
  scheduled_events = 0;
  released_events = 0;
  cancelled_events = 0;
  released_bytes = 0;
  last_requested_deadline_ns = 0;
  last_actual_release_ns = 0;
  last_lateness_ns = 0;
  max_lateness_ns = 0;
  heap_current = 0;
  heap_peak = 0;
  heap_capacity = 0;
}

abbrev pub initial_capacity : ℕ
initial_capacity = 8

-- SIZE_MAX / sizeof(struct tcp_shift_pacer_event)
abbrev pub most_events : ℕ
most_events = u64_max / 24

-- A null array has no cells that are in use; this one stands for it.
abbrev pub no_cells : Cells
no_cells i = record { deadline_ns = 0; flow_id = 0; generation = 0; bytes = 0 }

-- `fd` is what `timerfd_create` returns, `none` for -1.
unfoldable pub init : ℕ → Option ℕ → Option Pacer
init max_events none = none
init max_events (some fd) =
    if max_events == 0 || ltb most_events max_events
    then none
    else some (record {
      timer_fd = some fd;
      heap = no_cells;
      heap_len = 0;
      heap_cap = 0;
      heap_max = max_events;
      armed_deadline_ns = 0;
      stats = record no_stats { timerfd_creates = 1 };
    })

unfoldable pub close : Pacer → Pacer
close p = record {
  timer_fd = none;
  heap = no_cells;
  heap_len = 0;
  heap_cap = 0;
  heap_max = 0;
  armed_deadline_ns = 0;
  stats = no_stats;
}

unfoldable pub next_capacity : Pacer → ℕ
next_capacity p =
    let next = if p.heap_cap == 0 then initial_capacity else u64 (p.heap_cap * 2) in
    if ltb next p.heap_cap || ltb p.heap_max next then p.heap_max else next

-- `grown`: whether `realloc` succeeds.
unfoldable pub reserve : Pacer → Bool → Pacer × Bool
reserve p grown =
    if ltb p.heap_len p.heap_cap
    then (p, true)
    else if leb p.heap_max p.heap_len || ltb most_events (next_capacity p) || not grown
    then (p, false)
    else (
      record p {
        heap_cap = next_capacity p;
        stats = record (p.stats) { heap_capacity = next_capacity p };
      },
      true,
    )

-- `armed`: whether `timerfd_settime` succeeds.
unfoldable pub sync_timer : Pacer → Bool → Pacer × Bool
sync_timer p armed =
    if p.heap_len == 0
    then (if p.armed_deadline_ns == 0
        then (p, true)
        else if armed
        then (
          record p {
            armed_deadline_ns = 0;
            stats = record (p.stats) { timer_disarms = u64 (p.stats.timer_disarms + 1) };
          },
          true,
        )
        else (p, false))
    else if (p.heap 0).deadline_ns == p.armed_deadline_ns
    then (p, true)
    else if armed
    then (
      record p {
        armed_deadline_ns = (p.heap 0).deadline_ns;
        stats =
            if p.armed_deadline_ns == 0
            then record (p.stats) { timer_arms = u64 (p.stats.timer_arms + 1) }
            else record (p.stats) { timer_rearms = u64 (p.stats.timer_rearms + 1) };
      },
      true,
    )
    else (p, false)

-- The first of `rest` cells from `i` on that holds the event.
unfoldable pub find_event : Cells → Event → ℕ → ℕ → Option ℕ
find_event h e i zero = none
find_event h e i (suc rest) =
    let later = find_event h e (i + 1) rest in if same_event (h i) e then some i else later

unfoldable pub remove_at : Pacer → ℕ → Pacer
remove_at p i =
    let len = p.heap_len - 1 in
    record p {
      heap = heapify (update p.heap i (p.heap len)) len;
      heap_len = len;
      stats = record (p.stats) {
        heap_current = len;
        scheduled_events = u64 (p.stats.scheduled_events + u64_max);
      };
    }

abbrev pub remove_found : Pacer → Option ℕ → Pacer
remove_found p none = p
remove_found p (some i) = remove_at p i

-- The loop of `schedule` that takes an event back when the timer cannot be set.
unfoldable pub rollback : Pacer → Event → Pacer
rollback p e = remove_found p (find_event p.heap e 0 p.heap_len)

-- The event in its place, before the timer is set.
unfoldable pub insert : Pacer → Event → Pacer
insert p e =
    let i = p.heap_len in
    let len = i + 1 in
    record p {
      heap = sift_up i (update p.heap i e) i;
      heap_len = len;
      stats = record (p.stats) {
        scheduled_events = u64 (p.stats.scheduled_events + 1);
        heap_current = len;
        heap_peak = if ltb p.stats.heap_peak len then len else p.stats.heap_peak;
      };
    }

unfoldable pub place : Pacer → Event → Bool → Pacer × Bool
place p e armed =
    let (q, set) = sync_timer (insert p e) armed in if set then (q, true) else (rollback q e, false)

unfoldable pub schedule : Pacer → Event → Bool → Bool → Pacer × Bool
schedule p e grown armed =
    if is_closed p.timer_fd || e.deadline_ns == 0
    then (p, false)
    else let (q, fits) = reserve p grown in if fits then place q e armed else (q, false)

unfoldable pub is_of : ℕ → ℕ → Event → Bool
is_of flow_id generation e = e.flow_id == flow_id && e.generation == generation

-- The loop of `cancel` over `rest` cells from `read` on: the cells, `write_index` and `removed`.
unfoldable pub compact : ℕ → ℕ → ℕ → ℕ → ℕ → ℕ → Cells → Cells × ℕ × ℕ
compact flow generation zero read write removed h = (h, write, removed)
compact flow generation (suc rest) read write removed h = elim (is_of flow generation (h read)) [
  | true ↦ compact flow generation rest (read + 1) write (removed + 1) h
  | false ↦
      compact flow generation rest (read + 1) (write + 1) removed
        (if write /= read then update h write (h read) else h)
]

-- The heap is rebuilt from the cells that the loop kept.
unfoldable pub rebuild : Pacer → Cells → ℕ → ℕ → Pacer
rebuild p h len removed = record p {
  heap = heapify h len;
  heap_len = len;
  stats = record (p.stats) {
    cancelled_events = u64 (p.stats.cancelled_events + removed);
    heap_current = len;
  };
}

-- The state, whether 0 is returned, and `*cancelled`.
unfoldable pub cancel : Pacer → ℕ → ℕ → Bool → Pacer × Bool × ℕ
cancel p flow generation armed =
    if is_closed p.timer_fd
    then (p, false, 0)
    else let (h, len, removed) = compact flow generation p.heap_len 0 0 0 p.heap in
      if removed == 0
      then (record p { heap = h }, true, 0)
      else let (q, set) = sync_timer (rebuild p h len removed) armed in
        if set then (q, true, removed) else (q, false, 0)

-- What `peek` and `pop_due` answer: -1 with no event, 0, 1 with an event, and -1 with an event
-- that has left the heap while the timer could not be set.
pub data Due : Type 0 where
  refused : Due
  idle : Due
  released : Event → Due
  unarmed : Event → Due

unfoldable pub peek : Pacer → Due
peek p =
    if is_closed p.timer_fd then refused else if p.heap_len == 0 then idle else released (p.heap 0)

-- The heap without its root.
unfoldable pub without_root : Pacer → Pacer
without_root p =
    let len = p.heap_len - 1 in
    record p {
      heap = if len /= 0 then sift_down len (update p.heap 0 (p.heap len)) len 0 else p.heap;
      heap_len = len;
    }

unfoldable pub note_release : Stats → Event → ℕ → ℕ → Stats
note_release s e now_ns len =
    let lateness = if ltb e.deadline_ns now_ns then now_ns - e.deadline_ns else 0 in
    record s {
      released_events = u64 (s.released_events + 1);
      released_bytes = u64 (s.released_bytes + e.bytes);
      last_requested_deadline_ns = e.deadline_ns;
      last_actual_release_ns = now_ns;
      last_lateness_ns = lateness;
      max_lateness_ns = if ltb s.max_lateness_ns lateness then lateness else s.max_lateness_ns;
      heap_current = len;
    }

unfoldable pub pop_due : Pacer → ℕ → Bool → Pacer × Due
pop_due p now_ns armed =
    if is_closed p.timer_fd
    then (p, refused)
    else if p.heap_len == 0 || ltb now_ns (p.heap 0).deadline_ns
    then (p, idle)
    else let e = p.heap 0 in
      let q = without_root p in
      let (r, set) =
        sync_timer (record q { stats = note_release p.stats e now_ns q.heap_len }) armed in
      if set then (r, released e) else (r, unarmed e)

-- What `read` on the timer gives: an error that means "later", another error, fewer bytes than a
-- counter has, or the counter.
pub data TimerRead : Type 0 where
  would_block failed short : TimerRead
  expirations : ℕ → TimerRead

-- The state with the result, `none` for -1, `some 0` and `some 1` for 0 and 1 with the counter.
unfoldable pub consume_timer : Pacer → TimerRead → Pacer × Option (Bool × ℕ)
consume_timer p answer = if is_closed p.timer_fd then (p, none) else elim answer [
  | would_block ↦ (p, some (false, 0))
  | failed ↦ (p, none)
  | short ↦ (p, none)
  | expirations n ↦ (
    record p {
      stats = record (p.stats) { timer_expirations = u64 (p.stats.timer_expirations + n) };
    },
    some (true, n),
  )
]
