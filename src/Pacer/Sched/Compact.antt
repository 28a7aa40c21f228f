-- ===== src/Pacer/Sched/Compact.antt =====
-- The loop of `cancel` moves the events that stay to the front, in order, and counts the others.
use native.Mathlib.Numerals.{add-one}
use tcp_shift.Prelude.{
  ℕ, zero, suc, ◌+◌, ◌≤◌, ◌<◌, ◌≡◌, refl, sym, ap, ◌∙◌, inl, inr, Bool, true, false, not, ◌&&◌,
  ◌/=◌, if◌then◌else◌, arith, Bool-cases, if_elim,
}
use tcp_shift.Pacer.Heap.{Event, Cells, update}
use tcp_shift.Pacer.Heap.Counting.{count, one, count-update_out}
use tcp_shift.Pacer.Sched.{Pacer, compact, is_of}
use tcp_shift.Pacer.Sched.Valid.{compact-le}

-- How many of the events that a scheduler holds pass a test.
abbrev pub held : (Event → Bool) → Pacer → ℕ
held p s = count p s.heap s.heap_len

abbrev pub count_range : (Event → Bool) → Cells → ℕ → ℕ → ℕ
count_range p h i zero = 0
count_range p h i (suc n) = one (p (h i)) + count_range p h (i + 1) n

abbrev pub stays : ℕ → ℕ → (Event → Bool) → Event → Bool
stays flow generation p e = p e && not (is_of flow generation e)

module _ (p : Event → Bool) where
  count-add_one : (h : Cells) (n : ℕ) → count p h (n + 1) ≡ count p h n + one (p (h n))
  count-add_one h n = rw add-one

  count_range-update :
      (h : Cells) (w : ℕ) (e : Event) (i n : ℕ)
      → w < i
      → count_range p (update h w e) i n ≡ count_range p h i n
  unfolding update
  count_range-update h w e i zero l = refl
  count_range-update h w e i (suc n) l = ground (arith, count_range-update h w e (i + 1) n)

  pub count_range-all :
      (h : Cells) (i n j : ℕ) → i + n ≡ j → count p h i + count_range p h i n ≡ count p h j
  count_range-all h i zero j e = let e' : i ≡ j = omega arith in omega (arith, ap (count p h) e')
  count_range-all h i (suc n) j e =
      omega (arith, count_range-all h (i + 1) n j (omega arith), count-add_one h i)

  count-moved :
      (h : Cells) (w r : ℕ)
      → w ≤ r
      → count p (if w /= r then update h w (h r) else h) (w + 1) ≡ count p h w + one (p (h r))
  count-moved h w r l = elim (Bool-cases (w /= r)) [
    | inl apart ↦ rw (apart, add-one) (ground (arith, count-update_out p h w w (h r), at))
    | inr same ↦
        let e : w ≡ r = ground arith in
        rw (same, add-one) (omega (arith, ap (λ k. one (p (h k))) e))
  ]
    where
      at : update h w (h r) w ≡ h r
      at = unfold update in ground arith

module _ (flow generation : ℕ) (p : Event → Bool) where
  compact_drops :
      (rest read write removed : ℕ) (h : Cells)
      → is_of flow generation (h read) ≡ true
      → compact flow generation (suc rest) read write removed h
        ≡ compact flow generation rest (read + 1) write (removed + 1) h
  unfolding compact
  compact_drops rest read write removed h e = rw (e, compact)

  compact_keeps :
      (rest read write removed : ℕ) (h : Cells)
      → is_of flow generation (h read) ≡ false
      → compact flow generation (suc rest) read write removed h
        ≡ compact flow generation rest
            (read + 1)
            (write + 1)
            removed
            (if write /= read then update h write (h read) else h)
  unfolding compact
  compact_keeps rest read write removed h e = rw (e, compact)

  count-compact :
      (rest read write removed : ℕ) (h : Cells)
      → write ≤ read
      → let (g, len, _) = compact flow generation rest read write removed h in
        count p g len ≡ count p h write + count_range (stays flow generation p) h read rest
  count-compact zero read write removed h l = unfold compact in omega arith
  count-compact (suc rest) read write removed h l =
      elim (Bool-cases (is_of flow generation (h read))) [
        | inl gone ↦
            rw (compact_drops rest read write removed h gone)
              (ground (arith, count-compact rest (read + 1) write (removed + 1) h))
        | inr kept ↦
            let g = if write /= read then update h write (h read) else h in
            rw (compact_keeps rest read write removed h kept) (
              ground (
                arith,
                count-compact rest (read + 1) (write + 1) removed g,
                count-moved p h write read l,
                unmoved,
              ))
      ]
    where
      q : Event → Bool
      q = stays flow generation p

      unmoved :
          count_range q (if write /= read then update h write (h read) else h) (read + 1) rest
          ≡ count_range q h (read + 1) rest
      unmoved =
          if_elim (λ g. count_range q g (read + 1) rest ≡ count_range q h (read + 1) rest)
            (write /= read)
            (λ _. count_range-update q h write (h read) (read + 1) rest (omega arith)) (λ _. refl)

  pub count-split :
      (h : Cells) (n : ℕ)
      → count (stays flow generation p) h n + count (λ e. p e && is_of flow generation e) h n
        ≡ count p h n
  count-split h zero = refl
  count-split h (suc n) = ground (arith, count-split h n)

pub count-any : (h : Cells) (n : ℕ) → count (λ _. true) h n ≡ n
count-any h zero = refl
count-any h (suc n) = omega (arith, count-any h n)

module _ (flow generation : ℕ) where
  -- The loop counts removals up, and leaves the cells alone as long as it makes none.
  removed-le :
      (rest read write removed : ℕ) (h : Cells)
      → removed ≤ (compact flow generation rest read write removed h).2
  unfolding compact
  removed-le zero read write removed h = omega arith
  removed-le (suc rest) read write removed h = ground (
    arith,
    removed-le rest (read + 1) write (removed + 1) h,
    removed-le rest (read + 1) (write + 1) removed
        (if write /= read then update h write (h read) else h),
  )

  pub compact_unchanged :
      (rest i : ℕ) (h : Cells)
      → (compact flow generation rest i i 0 h).2 ≡ 0
      → (compact flow generation rest i i 0 h).0 ≡ h
  compact_unchanged zero i h e = unfold compact in refl
  compact_unchanged (suc rest) i h e = elim (Bool-cases (is_of flow generation (h i))) [
    | inl gone ↦ absurd (
        omega (
          arith,
          removed-le rest (i + 1) i (0 + 1) h,
          ap (λ (t : Cells × ℕ × ℕ). t.2)
              (compact_drops flow generation (λ _. true) rest i i 0 h gone),
        ))
    | inr kept ↦
        let step = compact_keeps flow generation (λ _. true) rest i i 0 h kept in
        let same : (if i /= i then update h i (h i) else h) ≡ h = ground arith in
        let step' = step ∙ ap (compact flow generation rest (i + 1) (i + 1) 0) same in
        ap (λ (t : Cells × ℕ × ℕ). t.0) step'
        ∙ compact_unchanged rest (i + 1) h (ap (λ (t : Cells × ℕ × ℕ). t.2) (sym step') ∙ e)
  ]

-- The state of `cancel` after the loop, before the timer.
pub cancelled_heap :
    (p : Pacer) (flow generation : ℕ) (test : Event → Bool)
    → let (h, len, _) = compact flow generation p.heap_len 0 0 0 p.heap in
      count test h len ≡ held (stays flow generation test) p
cancelled_heap p flow generation test =
    count-compact flow generation test p.heap_len 0 0 0 p.heap (omega arith)
    ∙ count_range-all (stays flow generation test) p.heap 0 p.heap_len p.heap_len (omega arith)

-- The loop's count of removed events is the number of events of the flow generation.
pub cancelled_count :
    (p : Pacer) (flow generation : ℕ)
    → (compact flow generation p.heap_len 0 0 0 p.heap).2 ≡ held (is_of flow generation) p
cancelled_count p flow generation =
    let (h, len, _) = compact flow generation p.heap_len 0 0 0 p.heap in
    omega (
      arith,
      compact-le flow generation p.heap_len 0 0 0 p.heap,
      cancelled_heap p flow generation (λ _. true),
      count-any h len,
      count-any p.heap p.heap_len,
      count-split flow generation (λ _. true) p.heap p.heap_len,
    )
