-- ===== src/Pacer/Heap/Edits.antt =====
-- What an insertion at the end and an overwriting by the last cell do to the heap order and to the
-- multiset of events.
use native.Mathlib.Numerals.{add-one}
use tcp_shift.Prelude.{
  ℕ, zero, suc, ◌+◌, ◌-◌, ◌≤◌, ◌<◌, ◌≡◌, refl, ap, ◌∙◌, inl, inr, Bool, arith, Bool-cases, ◌==◌,
  ◌≢◌,
}
use tcp_shift.Pacer.Heap.{Event, Cells, parent, update, sift_up, sift_down}
use tcp_shift.Pacer.Heap.Order.{IsHeap}
use tcp_shift.Pacer.Heap.Counting.{
  count, one, count-update, count-update_out, count-sift_up, count-sift_down,
}
use tcp_shift.Pacer.Heap.Up.{sift_up-IsHeap}
use tcp_shift.Pacer.Heap.Down.{sift_down-HeapFrom}

update_other : (h : Cells) (i k : ℕ) (e : Event) → k ≢ i → update h i e k ≡ h k
unfolding update
update_other h i k e ne = ground arith

update_self : (h : Cells) (i : ℕ) (e : Event) → update h i e i ≡ e
unfolding update
update_self h i e = ground arith

pub IsHeap-insert :
    (h : Cells) (n : ℕ) (e : Event) → IsHeap h n → IsHeap (sift_up n (update h n e) n) (n + 1)
IsHeap-insert h n e heap =
    sift_up-IsHeap n (update h n e) (n + 1) n (omega arith) (omega arith) record {
      others = λ j jp jl ne.
          ground (arith, update_other h n j e, update_other h n (parent j) e, heap j jp);
      around = λ j jp jl q np. absurd (omega arith);
    }

pub IsHeap-without_root :
    (h : Cells) (n m : ℕ) → m < n → IsHeap h n → IsHeap (sift_down m (update h 0 (h m)) m 0) m
IsHeap-without_root h n m l heap =
    sift_down-HeapFrom m 0 (update h 0 (h m)) m 0 (omega arith) (omega arith) record {
      others = λ j jp jl _ ne.
          ground (arith, update_other h 0 j (h m), update_other h 0 (parent j) (h m), heap j jp);
      around = λ j jp jl q ip _. absurd (omega arith);
    }

module _ (p : Event → Bool) where
  pub count-insert :
      (h : Cells) (n : ℕ) (e : Event)
      → count p (sift_up n (update h n e) n) (n + 1) ≡ count p h n + one (p e)
  count-insert h n e =
      count-sift_up p n (update h n e) n (n + 1) (omega arith)
      ∙ rw (add-one, update_self)
          (ap (λ k. k + one (p e)) (count-update_out p h n n e (omega arith)))

  -- A cell that the last one replaces is taken out, and nothing else.
  pub count-overwrite :
      (h : Cells) (i m : ℕ)
      → i ≤ m
      → count p (update h i (h m)) m + one (p (h i)) ≡ count p h (suc m)
  count-overwrite h i m l = elim (Bool-cases (i == m)) [
    | inl last ↦
        let e : i ≡ m = ground arith in
        omega (arith, count-update_out p h i m (h m) (omega arith), ap (λ k. one (p (h k))) e)
    | inr before ↦ count-update p h i m (h m) (ground arith)
  ]

  pub count-without_root :
      (h : Cells) (m : ℕ)
      → count p (sift_down m (update h 0 (h m)) m 0) m + one (p (h 0)) ≡ count p h (suc m)
  count-without_root h zero = refl
  count-without_root h (suc m) =
      ap (λ k. k + one (p (h 0)))
        (count-sift_down p (suc m) (update h 0 (h (suc m))) (suc m) 0 (omega arith))
      ∙ count-overwrite h 0 (suc m) (omega arith)

  -- The same for a length that is not written as a successor.
  pub count-taken :
      (h : Cells) (i n : ℕ)
      → i < n
      → count p (update h i (h (n - 1))) (n - 1) + one (p (h i)) ≡ count p h n
  count-taken h i zero l = absurd (omega arith)
  count-taken h i (suc m) l =
      let e : suc m - 1 ≡ m = omega arith in rw e (count-overwrite h i m (omega arith))

  pub count-root_taken :
      (h : Cells) (n : ℕ)
      → 0 < n
      → count p (sift_down (n - 1) (update h 0 (h (n - 1))) (n - 1) 0) (n - 1) + one (p (h 0))
        ≡ count p h n
  count-root_taken h zero l = absurd (omega arith)
  count-root_taken h (suc m) l =
      let e : suc m - 1 ≡ m = omega arith in rw e (count-without_root h m)
