-- ===== src/Pacer/Heap.antt =====
-- The binary heap of pacing events in runtime/pacer.c. The array is a function from indices to
-- events, of which the first `heap_len` cells are in use.
pub mod Order
pub mod Counting
pub mod Up
pub mod Down
pub mod Edits
use tcp_shift.Prelude.{
  ℕ, zero, suc, ◌+◌, ◌-◌, ◌*◌, ◌/◌, Bool, true, false, ◌&&◌, Option, none, some, ltb, ◌==◌, ◌/=◌,
  if◌then◌else◌,
}

-- `struct tcp_shift_pacer_event`
pub record Event : Type 0 where
  pub deadline_ns : ℕ  -- uint64_t
  pub flow_id : ℕ  -- uint64_t
  pub generation : ℕ  -- uint32_t
  pub bytes : ℕ  -- uint32_t

unfoldable pub event_less : Event → Event → Bool
event_less a b =
    if a.deadline_ns /= b.deadline_ns
    then ltb a.deadline_ns b.deadline_ns
    else if a.flow_id /= b.flow_id
    then ltb a.flow_id b.flow_id
    else if a.generation /= b.generation
    then ltb a.generation b.generation
    else ltb a.bytes b.bytes

-- The fields are compared one by one, as in the rollback of `schedule`.
unfoldable pub same_event : Event → Event → Bool
same_event a b =
    a.deadline_ns == b.deadline_ns
    && (a.flow_id == b.flow_id && (a.generation == b.generation && a.bytes == b.bytes))

abbrev pub Cells : Type 0
Cells = ℕ → Event

unfoldable pub update : Cells → ℕ → Event → Cells
update h i e k = if k == i then e else h k

-- `tcp_shift_pacer_swap` of two cells: the first is kept aside.
unfoldable pub swap : Cells → ℕ → ℕ → Cells
swap h i j = update (update h i (h j)) j (h i)

abbrev pub parent : ℕ → ℕ
parent i = (i - 1) / 2

-- The index falls in each round, so `i` rounds are enough from index `i`.
unfoldable pub sift_up : ℕ → Cells → ℕ → Cells
sift_up zero h i = h
sift_up (suc fuel) h i = elim (i == 0) [
  | true ↦ h
  | false ↦ elim (event_less (h i) (h (parent i))) [
    | true ↦ sift_up fuel (swap h i (parent i)) (parent i)
    | false ↦ h
  ]
]

-- One of the two tests of `sift_down`: the child `c` replaces the choice `a`.
unfoldable pub lesser : Cells → ℕ → ℕ → ℕ → ℕ
lesser h len a c = if ltb c len && event_less (h c) (h a) then c else a

-- The least of a cell and its children.
unfoldable pub smallest : Cells → ℕ → ℕ → ℕ
smallest h len i =
    let left = i * 2 + 1 in let right = left + 1 in lesser h len (lesser h len i left) right

-- The index rises in each round and stays below `len`, so `len` rounds are enough.
unfoldable pub sift_down : ℕ → Cells → ℕ → ℕ → Cells
sift_down zero h len i = h
sift_down (suc fuel) h len i = elim (smallest h len i == i) [
  | true ↦ h
  | false ↦ sift_down fuel (swap h i (smallest h len i)) len (smallest h len i)
]

-- The loop of `heapify`, from index `i` down to 0.
unfoldable pub heapify_below : ℕ → Cells → ℕ → Cells
heapify_below zero h len = h
heapify_below (suc i) h len = heapify_below i (sift_down len h len i) len

unfoldable pub heapify : Cells → ℕ → Cells
heapify h len = if ltb len 2 then h else heapify_below (len / 2) h len
