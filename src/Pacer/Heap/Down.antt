-- ===== src/Pacer/Heap/Down.antt =====
-- Sifting down restores the heap order when one cell may be greater than its children, and
-- `heapify` builds a heap out of any cells.
use mathlib.Core.Path.{subst}
use native.Mathlib.Decide.{dec_lt}
use tcp_shift.Prelude.{
  ℕ, zero, suc, ◌+◌, ◌*◌, ◌/◌, ◌≤◌, ◌<◌, ◌≡◌, sym, ◌⊎◌, inl, inr, arith, Bool-cases, ltb, ◌≢◌,
}
use tcp_shift.Pacer.Heap.{Cells, parent, swap, lesser, smallest, sift_down, heapify_below, heapify}
use tcp_shift.Pacer.Heap.Order.{◌⊑◌, ⊑_refl, ⊑_trans, ⊑_of_less, HeapFrom, IsHeap, swap_lem}

lesser_lem :
    (h : Cells) (len a c : ℕ)
    → let s = lesser h len a c in
      (h s ⊑ h a) × (c < len → h s ⊑ h c) × ((s ≡ a) ⊎ ((s ≡ c) × (c < len)))
unfolding lesser
lesser_lem h len a c = ground (arith, ⊑_refl (h a), ⊑_refl (h c), ⊑_of_less (h c) (h a))

-- The chosen child is no greater than the cell and its children; if it is not the cell itself, it
-- is a child.
smallest_lem :
    (h : Cells) (len i : ℕ)
    → let s = smallest h len i in (h s ⊑ h i) × ((s ≡ i) ⊎ ((parent s ≡ i) × (i < s) × (s < len)))
unfolding smallest
smallest_lem h len i =
    let left = i * 2 + 1 in
    let first = lesser h len i left in
    let s = lesser h len first (left + 1) in
    let (a0, _, a2) = lesser_lem h len i left in
    let (b0, _, b2) = lesser_lem h len first (left + 1) in
    (⊑_trans (h s) (h first) (h i) b0 a0, omega arith)

smallest_least :
    (h : Cells) (len i j : ℕ) → 0 < j → j < len → parent j ≡ i → h (smallest h len i) ⊑ h j
unfolding smallest
smallest_least h len i j p l e =
    let left = i * 2 + 1 in
    let first = lesser h len i left in
    let s = lesser h len first (left + 1) in
    let (_, a1, _) = lesser_lem h len i left in
    let (b0, b1, _) = lesser_lem h len first (left + 1) in
    elim (dec_lt left j) [
      | yes right ↦
          let e' : left + 1 ≡ j = omega arith in subst (λ k. h s ⊑ h k) e' (b1 (omega arith))
      | no not_right ↦
          let e' : left ≡ j = omega arith in
          subst (λ k. h s ⊑ h k) e' (⊑_trans (h s) (h first) (h left) b0 (a1 (omega arith)))
    ]

-- A heap from `k` on but for the children of cell `i`, which are in order with its parent.
pub record HeapOver (k : ℕ) (h : Cells) (n i : ℕ) : Type 0 where
  pub others : (j : ℕ) → 0 < j → j < n → k ≤ parent j → parent j ≢ i → h (parent j) ⊑ h j
  pub around : (j : ℕ) → 0 < j → j < n → parent j ≡ i → 0 < i → k ≤ parent i → h (parent i) ⊑ h j

swap-HeapOver :
    (k : ℕ) (h : Cells) (n i s : ℕ)
    → k ≤ i
    → parent s ≡ i
    → i < s
    → s < n
    → h s ⊑ h i
    → ((j : ℕ) → 0 < j → j < n → parent j ≡ i → h s ⊑ h j)
    → HeapOver k h n i
    → HeapOver k (swap h i s) n s
swap-HeapOver k h n i s ki ps is sn below least b = record {
  others = λ j jp jl kj ne. ground (
    arith,
    swap_lem h i s (parent j),
    swap_lem h i s j,
    least j jp jl,
    b.others j jp jl kj,
    b.around s,
  );
  around = λ j jp jl e sp kp.
      ground (arith, swap_lem h i s (parent s), swap_lem h i s j, b.others j jp jl);
}

sift_down_stays :
    (fuel : ℕ) (h : Cells) (n i : ℕ) → smallest h n i ≡ i → sift_down (suc fuel) h n i ≡ h
unfolding sift_down
sift_down_stays fuel h n i e = ground arith

sift_down_moves :
    (fuel : ℕ) (h : Cells) (n i : ℕ)
    → i < smallest h n i
    → sift_down (suc fuel) h n i ≡ sift_down fuel (swap h i (smallest h n i)) n (smallest h n i)
unfolding sift_down
sift_down_moves fuel h n i e = ground arith

HeapOver-HeapFrom :
    (k : ℕ) (h : Cells) (n i : ℕ)
    → ((j : ℕ) → 0 < j → j < n → parent j ≡ i → h i ⊑ h j)
    → HeapOver k h n i
    → HeapFrom k h n
HeapOver-HeapFrom k h n i least b = λ j jp jl kj. ground (arith, least j, b.others j jp jl)

-- With fuel for the cells below `i`, the heap order from `k` on is restored.
pub sift_down-HeapFrom :
    (fuel k : ℕ) (h : Cells) (n i : ℕ)
    → n ≤ fuel + i
    → k ≤ i
    → HeapOver k h n i
    → HeapFrom k (sift_down fuel h n i) n
sift_down-HeapFrom zero k h n i f ki b =
    unfold sift_down in λ j jp jl kj. b.others j jp jl kj (λ e. omega arith)
sift_down-HeapFrom (suc fuel) k h n i f ki b =
    let s = smallest h n i in
    let (below, which) = smallest_lem h n i in
    let least = smallest_least h n i in
    elim which [
      | inl e ↦
          subst (λ g. HeapFrom k g n) (sym (sift_down_stays fuel h n i e))
            (HeapOver-HeapFrom k h n i
              (subst (λ m. (j : ℕ) → 0 < j → j < n → parent j ≡ i → h m ⊑ h j) e least) b)
      | inr (ps, is, sn) ↦
          subst (λ g. HeapFrom k g n) (sym (sift_down_moves fuel h n i is))
            (sift_down-HeapFrom fuel k (swap h i s) n s (omega arith) (omega arith)
              (swap-HeapOver k h n i s ki ps is sn below least b))
    ]

heapify_below-IsHeap :
    (i : ℕ) (h : Cells) (n : ℕ) → i ≤ n → HeapFrom i h n → IsHeap (heapify_below i h n) n
unfolding heapify_below
heapify_below-IsHeap zero h n l b = b
heapify_below-IsHeap (suc i) h n l b = heapify_below-IsHeap i (sift_down n h n i) n (omega arith) (
    sift_down-HeapFrom n i h n i (omega arith) (omega arith) record {
      others = λ j jp jl kj ne. b j jp jl (omega arith);
      around = λ j jp jl e ip kp. absurd (omega arith);
    })

-- `heapify` makes a heap of any cells.
pub heapify-IsHeap : (h : Cells) (n : ℕ) → IsHeap (heapify h n) n
unfolding heapify
heapify-IsHeap h n = elim (Bool-cases (ltb n 2)) [
  | inl small ↦ rw small (λ j jp jl _. absurd (ground arith))
  | inr large ↦
      rw large (heapify_below-IsHeap (n / 2) h n (omega arith) (λ j jp jl kj. absurd (omega arith)))
]
