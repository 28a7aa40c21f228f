-- ===== src/Pacer/Heap/Order.antt =====
-- The order of events is a strict total order on their fields, and what the heap order says.
use tcp_shift.Prelude.{ℕ, zero, suc, ◌≤◌, ◌<◌, ◌≡◌, refl, true, false, arith, ◌==◌, if◌then◌else◌}
use tcp_shift.Pacer.Heap.{Event, event_less, same_event, Cells, parent, update, swap}

-- `a` may stand before `b`.
infix 50 ◌⊑◌
abbrev pub ◌⊑◌ : Event → Event → Type 0
a ⊑ b = event_less b a ≡ false

pub ⊑_refl : (a : Event) → a ⊑ a
unfolding event_less
⊑_refl a = ground arith

pub ⊑_trans : (a b c : Event) → a ⊑ b → b ⊑ c → a ⊑ c
unfolding event_less
⊑_trans a b c h k = ground arith

pub ⊑_of_less : (a b : Event) → event_less a b ≡ true → a ⊑ b
unfolding event_less
⊑_of_less a b h = ground arith

pub ⊑_antisymm : (a b : Event) → a ⊑ b → b ⊑ a → same_event a b ≡ true
unfolding event_less same_event
⊑_antisymm a b h k = ground arith

pub ⊑_deadline : (a b : Event) → a ⊑ b → a.deadline_ns ≤ b.deadline_ns
unfolding event_less
⊑_deadline a b h = ground arith

-- Among the first `len` cells, no child stands below a cell that it is less than; only children of
-- the cells from `k` on are looked at.
abbrev pub HeapFrom : ℕ → Cells → ℕ → Type 0
HeapFrom k h len = (j : ℕ) → 0 < j → j < len → k ≤ parent j → h (parent j) ⊑ h j

abbrev pub IsHeap : Cells → ℕ → Type 0
IsHeap h len = HeapFrom 0 h len

-- The root of a heap is before every other event.
root_least_below : (n : ℕ) (h : Cells) (len j : ℕ) → j < n → j < len → IsHeap h len → h 0 ⊑ h j
root_least_below zero h len j b l heap = absurd (omega arith)
root_least_below (suc n) h len zero b l heap = ⊑_refl (h 0)
root_least_below (suc n) h len (suc j) b l heap =
    let p = parent (suc j) in
    ⊑_trans (h 0) (h p) (h (suc j)) (root_least_below n h len p (omega arith) (omega arith) heap)
      (heap (suc j) (omega arith) l (omega arith))

pub root-least : (h : Cells) (len j : ℕ) → j < len → IsHeap h len → h 0 ⊑ h j
root-least h len j l heap = root_least_below (suc j) h len j (omega arith) l heap

pub swap_lem :
    (h : Cells) (i j k : ℕ) → swap h i j k ≡ (if k == j then h i else if k == i then h j else h k)
unfolding swap update
swap_lem h i j k = refl
