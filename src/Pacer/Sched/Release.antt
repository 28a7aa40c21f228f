-- ===== src/Pacer/Sched/Release.antt =====
-- What `pop_due` releases: the first event, and only when it is due.
use mathlib.Core.Path.{ap₂}
use tcp_shift.Prelude.{
  ℕ, zero, suc, ◌+◌, ◌-◌, ◌≤◌, ◌<◌, ◌≡◌, refl, ap, ◌∙◌, Bool, true, false, ◌||◌, some, ◌==◌, ◌/=◌,
  ltb, leb, arith, if_elim,
}
use tcp_shift.Pacer.Heap.{Event, event_less, Cells}
use tcp_shift.Pacer.Heap.Order.{IsHeap, root-least, ⊑_deadline}
use tcp_shift.Pacer.Heap.Counting.{count, one}
use tcp_shift.Pacer.Heap.Edits.{IsHeap-without_root, count-root_taken}
use tcp_shift.Pacer.Sched.{
  Pacer, Due, refused, idle, released, unarmed, sync_timer, without_root, note_release, pop_due,
  is_closed,
}
use tcp_shift.Pacer.Sched.Compact.{held}
use tcp_shift.Pacer.Sched.Valid.{
  IsValid, IsArmed, no_deadline, sync_timer-keeps, sync_timer-IsArmed, sync_timer-IsValid,
}

count-none :
    (test : Event → Bool) (h : Cells) (n : ℕ)
    → ((j : ℕ) → j < n → test (h j) ≡ false)
    → count test h n ≡ 0
count-none test h zero all = refl
count-none test h (suc n) all =
    ground (arith, all n (omega arith), count-none test h n (λ j l. all j (omega arith)))

held-without_root :
    (p : Pacer) (test : Event → Bool)
    → 0 < p.heap_len
    → held test (without_root p) + one (test (p.heap 0)) ≡ held test p
unfolding without_root
held-without_root p test l =
    let len = p.heap_len - 1 in
    if_elim (λ h. count test h len + one (test (p.heap 0)) ≡ held test p) (len /= 0)
      (λ _. count-root_taken test p.heap p.heap_len l)
      (λ z. single p.heap p.heap_len l (ground arith))
  where
    single :
        (h : Cells) (n : ℕ)
        → 0 < n
        → n - 1 ≡ 0
        → count test h (n - 1) + one (test (h 0)) ≡ count test h n
    single h zero l z = absurd (omega arith)
    single h (suc zero) l z = refl
    single h (suc (suc n)) l z = absurd (omega arith)

without_root-IsHeap :
    (p : Pacer)
    → 0 < p.heap_len
    → IsHeap p.heap p.heap_len
    → IsHeap (without_root p).heap (without_root p).heap_len
unfolding without_root
without_root-IsHeap p l heap =
    let len = p.heap_len - 1 in
    if_elim (λ h. IsHeap h len) (len /= 0)
      (λ _. IsHeap-without_root p.heap p.heap_len len (omega arith) heap)
      (λ z j jp jl _. absurd (ground arith))

-- The state of `pop_due` before the timer is set.
unfoldable pub taken : Pacer → ℕ → Pacer
taken p now_ns =
    let q = without_root p in record q { stats = note_release p.stats (p.heap 0) now_ns q.heap_len }

pub taken-IsValid : (p : Pacer) (now_ns : ℕ) → 0 < p.heap_len → IsValid p → IsValid (taken p now_ns)
unfolding taken
taken-IsValid p now_ns l v =
    unfold note_release without_root in
    record {
      in_array = omega (arith, v.in_array);
      bounded = v.bounded;
      fits = v.fits;
      ordered = without_root-IsHeap p l v.ordered;
      dated = omega (arith, held-without_root p no_deadline l, v.dated);
      counted = refl;
      peaked = omega (arith, v.peaked);
      sized = v.sized;
    }

abbrev pub is_due : ℕ → Event → Bool
is_due now_ns e = leb e.deadline_ns now_ns

-- The event `e` has left `p`, which is now `q`: it was due, nothing held comes before it, and no
-- other event has gone.
pub record Popped (now_ns : ℕ) (e : Event) (p q : Pacer) : Type 0 where
  pub due : e.deadline_ns ≤ now_ns
  pub first : held (λ x. event_less x e) q ≡ 0
  pub gone : (test : Event → Bool) → held test q + one (test e) ≡ held test p
  pub valid : IsValid q

abbrev pub Answers : ℕ → Pacer → Pacer → Due → Type 0
Answers now_ns p q refused = ⊥
Answers now_ns p q idle = (q ≡ p) × (held (is_due now_ns) p ≡ 0)
Answers now_ns p q (released e) = Popped now_ns e p q × IsArmed q
Answers now_ns p q (unarmed e) = Popped now_ns e p q

nothing_due :
    (p : Pacer) (now_ns : ℕ)
    → IsValid p
    → (p.heap_len == 0 || ltb now_ns (p.heap 0).deadline_ns) ≡ true
    → held (is_due now_ns) p ≡ 0
nothing_due p now_ns v early = count-none (is_due now_ns) p.heap p.heap_len (λ j l.
    ground (arith, ⊑_deadline (p.heap 0) (p.heap j) (root-least p.heap p.heap_len j l v.ordered)))

held-taken :
    (p : Pacer) (now_ns : ℕ) (test : Event → Bool)
    → held test (taken p now_ns) ≡ held test (without_root p)
unfolding taken
held-taken p now_ns test = refl

root-Popped :
    (p : Pacer) (now_ns : ℕ) (armed : Bool)
    → IsValid p
    → (p.heap_len == 0 || ltb now_ns (p.heap 0).deadline_ns) ≡ false
    → Popped now_ns (p.heap 0) p (sync_timer (taken p now_ns) armed).0
root-Popped p now_ns armed v due =
    let l : 0 < p.heap_len = ground arith in
    let q = taken p now_ns in
    let k = sync_timer-keeps q armed in
    let same = λ (test : Event → Bool). ap₂ (count test) k.0 k.1 ∙ held-taken p now_ns test in
    let less = λ (x : Event). event_less x (p.heap 0) in
    let none_less : held less p ≡ 0 =
      count-none less p.heap p.heap_len (λ j jl. root-least p.heap p.heap_len j jl v.ordered) in
    record {
      due = ground arith;
      first = omega (arith, same less, held-without_root p less l, none_less);
      gone = λ test. omega (arith, same test, held-without_root p test l);
      valid = sync_timer-IsValid q armed (taken-IsValid p now_ns l v);
    }

-- On an open valid scheduler `pop_due` is idle exactly as long as no event held is due; otherwise it
-- takes out one event that is due and that no event held comes before, keeps all others, stays
-- valid, and on success has set the timer for the first event left.
pub pop_due_lem :
    (p : Pacer) (now_ns : ℕ) (armed : Bool) {fd : ℕ}
    → IsValid p
    → p.timer_fd ≡ some fd
    → let (q, due) = pop_due p now_ns armed in Answers now_ns p q due
unfolding pop_due taken
pop_due_lem p now_ns armed v e =
    let P = λ (r : Pacer × Due). Answers now_ns p r.0 r.1 in
    let q = taken p now_ns in
    if_elim P (is_closed p.timer_fd) (λ closed. cc (ap is_closed e))
      (λ _.
        if_elim P (p.heap_len == 0 || ltb now_ns (p.heap 0).deadline_ns)
          (λ early. (refl, nothing_due p now_ns v early))
          (λ due.
            if_elim P (sync_timer q armed).1
              (λ set. (root-Popped p now_ns armed v due, sync_timer-IsArmed q armed set))
              (λ _. root-Popped p now_ns armed v due)))
