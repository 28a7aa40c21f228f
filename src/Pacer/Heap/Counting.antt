-- ===== src/Pacer/Heap/Counting.antt =====
-- The events in use as a multiset: how many of them pass a test. Swapping cells keeps the count of
-- every test.
use tcp_shift.Prelude.{
  ℕ, zero, suc, ◌+◌, ◌/◌, ◌≤◌, ◌<◌, ◌≡◌, refl, inl, inr, Bool, true, false, arith, Bool-cases, ◌==◌,
  ◌∙◌,
}
use tcp_shift.Pacer.Heap.{
  Event, Cells, parent, update, swap, sift_up, lesser, smallest, sift_down, heapify_below, heapify,
}

abbrev pub one : Bool → ℕ
one true = 1
one false = 0

abbrev pub count : (Event → Bool) → Cells → ℕ → ℕ
count p h zero = 0
count p h (suc n) = count p h n + one (p (h n))

-- The chosen child lies in the heap.
pub smallest-lt : (h : Cells) (len i : ℕ) → i < len → smallest h len i < len
unfolding smallest lesser
smallest-lt h len i l = ground arith

module _ (p : Event → Bool) where
  pub count-update_out :
      (h : Cells) (i n : ℕ) (e : Event) → n ≤ i → count p (update h i e) n ≡ count p h n
  unfolding update
  count-update_out h i zero e l = refl
  count-update_out h i (suc n) e l = ground (arith, count-update_out h i n e)

  pub count-update :
      (h : Cells) (i n : ℕ) (e : Event)
      → i < n
      → count p (update h i e) n + one (p (h i)) ≡ count p h n + one (p e)
  count-update h i zero e l = absurd (omega arith)
  count-update h i (suc n) e l = elim (Bool-cases (n == i)) [
    | inl last ↦ ground (arith, count-update_out h i n e, at last)
    | inr below ↦ ground (arith, count-update h i n e, beside below)
  ]
    where
      at : (n == i) ≡ true → update h i e n ≡ e
      at q = unfold update in ground arith

      beside : (n == i) ≡ false → update h i e n ≡ h n
      beside q = unfold update in ground arith

  pub count-swap : (h : Cells) (i j n : ℕ) → i < n → j < n → count p (swap h i j) n ≡ count p h n
  unfolding swap
  count-swap h i j n li lj =
      ground
        (arith, count-update (update h i (h j)) j n (h i) lj, count-update h i n (h j) li, kept)
    where
      kept : update h i (h j) j ≡ h j
      kept = unfold update in ground arith

  pub count-sift_up :
      (fuel : ℕ) (h : Cells) (i n : ℕ) → i < n → count p (sift_up fuel h i) n ≡ count p h n
  unfolding sift_up
  count-sift_up zero h i n l = refl
  count-sift_up (suc fuel) h i n l =
      ground
        (arith, count-sift_up fuel (swap h i (parent i)) (parent i) n, count-swap h i (parent i) n)

  pub count-sift_down :
      (fuel : ℕ) (h : Cells) (len i : ℕ)
      → i < len
      → count p (sift_down fuel h len i) len ≡ count p h len
  unfolding sift_down
  count-sift_down zero h len i l = refl
  count-sift_down (suc fuel) h len i l =
      let s = smallest h len i in
      ground (
        arith,
        count-sift_down fuel (swap h i s) len s,
        count-swap h i s len,
        smallest-lt h len i l,
      )

  count-heapify_below :
      (i : ℕ) (h : Cells) (len : ℕ) → i ≤ len → count p (heapify_below i h len) len ≡ count p h len
  unfolding heapify_below
  count-heapify_below zero h len l = refl
  count-heapify_below (suc i) h len l =
      count-heapify_below i (sift_down len h len i) len (omega arith)
      ∙ count-sift_down len h len i l

  pub count-heapify : (h : Cells) (len : ℕ) → count p (heapify h len) len ≡ count p h len
  unfolding heapify
  count-heapify h len = ground (arith, count-heapify_below (len / 2) h len)
