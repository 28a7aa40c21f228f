-- ===== src/Pacer/Heap/Up.antt =====
-- Sifting up restores the heap order when one cell may be less than its parent.
use mathlib.Core.Path.{subst}
use native.Mathlib.Decide.{dec_lt}
use tcp_shift.Prelude.{
  ℕ, zero, suc, ◌≤◌, ◌<◌, ◌≡◌, sym, ◌⊎◌, inl, inr, true, false, arith, Bool-cases,
}
use tcp_shift.Pacer.Heap.{event_less, Cells, parent, swap, sift_up}
use tcp_shift.Pacer.Heap.Order.{◌⊑◌, ⊑_trans, ⊑_of_less, IsHeap, swap_lem}

-- A heap but for cell `i`, whose children are in order with its parent.
pub record HeapBut (h : Cells) (n i : ℕ) : Type 0 where
  pub others : (j : ℕ) → 0 < j → j < n → (j ≡ i → ⊥) → h (parent j) ⊑ h j
  pub around : (j : ℕ) → 0 < j → j < n → parent j ≡ i → 0 < i → h (parent i) ⊑ h j

swap-HeapBut :
    (h : Cells) (n i : ℕ)
    → 0 < i
    → i < n
    → event_less (h i) (h (parent i)) ≡ true
    → HeapBut h n i
    → HeapBut (swap h i (parent i)) n (parent i)
swap-HeapBut h n i pos l less b =
    let p = parent i in
    record {
      others = λ j jp jl ne. ground (
        arith,
        swap_lem h i p (parent j),
        swap_lem h i p j,
        ⊑_of_less (h i) (h p) less,
        b.others j jp jl,
        b.around j jp jl,
        ⊑_trans (h i) (h p) (h j),
      );
      around = λ j jp jl e pp. ground (
        arith,
        swap_lem h i p (parent p),
        swap_lem h i p j,
        b.others p pp,
        b.others j jp jl,
        ⊑_trans (h (parent p)) (h p) (h j),
      );
    }

-- One round: the cell stays, or moves to its parent.
sift_up_stays :
    (fuel : ℕ) (h : Cells) (i : ℕ) → (i ≡ 0) ⊎ (h (parent i) ⊑ h i) → sift_up (suc fuel) h i ≡ h
unfolding sift_up
sift_up_stays fuel h i c = ground arith

sift_up_moves :
    (fuel : ℕ) (h : Cells) (i : ℕ)
    → 0 < i
    → event_less (h i) (h (parent i)) ≡ true
    → sift_up (suc fuel) h i ≡ sift_up fuel (swap h i (parent i)) (parent i)
unfolding sift_up
sift_up_moves fuel h i pos less = ground arith

-- The round that stops leaves a heap.
HeapBut-IsHeap : (h : Cells) (n i : ℕ) → (i ≡ 0) ⊎ (h (parent i) ⊑ h i) → HeapBut h n i → IsHeap h n
HeapBut-IsHeap h n i c b = λ j jp jl _. ground (arith, b.others j jp jl)

pub sift_up-IsHeap :
    (fuel : ℕ) (h : Cells) (n i : ℕ)
    → i < n
    → i ≤ fuel
    → HeapBut h n i
    → IsHeap (sift_up fuel h i) n
sift_up-IsHeap zero h n i l f b = unfold sift_up in λ j jp jl _. b.others j jp jl (λ e. omega arith)
sift_up-IsHeap (suc fuel) h n i l f b =
    go (sift_up-IsHeap fuel (swap h i (parent i)) n (parent i)) (dec_lt 0 i)
      (Bool-cases (event_less (h i) (h (parent i))))
  where
    stop : (i ≡ 0) ⊎ (h (parent i) ⊑ h i) → IsHeap (sift_up (suc fuel) h i) n
    stop c = subst (λ g. IsHeap g n) (sym (sift_up_stays fuel h i c)) (HeapBut-IsHeap h n i c b)

    go :
        (parent i < n
          → parent i ≤ fuel
          → HeapBut (swap h i (parent i)) n (parent i)
          → IsHeap (sift_up fuel (swap h i (parent i)) (parent i)) n)
        → Dec (0 < i)
        → (event_less (h i) (h (parent i)) ≡ true) ⊎ (event_less (h i) (h (parent i)) ≡ false)
        → IsHeap (sift_up (suc fuel) h i) n
    go rest (no root) _ = stop (inl (omega arith))
    go rest (yes pos) (inr fine) = stop (inr fine)
    go rest (yes pos) (inl less) =
        subst (λ g. IsHeap g n) (sym (sift_up_moves fuel h i pos less))
          (rest (omega arith) (omega arith) (swap-HeapBut h n i pos l less b))
