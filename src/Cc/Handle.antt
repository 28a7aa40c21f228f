-- ===== src/Cc/Handle.antt =====
-- The life of a controller handle: what a call of init leaves, and what later calls can change.
use tcp_shift.Prelude.{
  ℕ, ◌≤◌, ◌<◌, ◌≡◌, ◌⊎◌, inl, inr, refl, true, false, Option, none, some, List, [], ◌∷◌, if_elim,
  arith,
}
use tcp_shift.Cc.{
  Transport, InitialWindows, Ack, Policy, Outcome, Ops, Controller, Reply, valid_transport, missing,
  no_policy, empty, commit, call_init, init_with, init, call_ack, call_loss, call, on_ack, on_loss,
  on_ecn, on_timeout,
}

pub data Call : Type 0 where
  ack : Transport → Ack → Call
  loss : Transport → ℕ → Call
  ecn : Transport → Call
  timeout : Transport → Call

module _ {S : Type 0} where
  unfoldable pub serve : Controller S → Call → Policy → Reply S
  serve cc (ack t a) policy = on_ack cc t a policy
  serve cc (loss t bytes) policy = on_loss cc t bytes policy
  serve cc (ecn t) policy = on_ecn cc t policy
  serve cc (timeout t) policy = on_timeout cc t policy

  -- The handle and the policy after calls in order, whatever each returns.
  unfoldable pub serve_all : Controller S → List Call → Policy → Controller S × Policy
  serve_all cc [] policy = (cc, policy)
  serve_all cc (c ∷ cs) policy =
      let (cc', policy', _) = serve cc c policy in serve_all cc' cs policy'

  -- A handle bound to operations that have every callback a call needs.
  pub record IsBound (ops : Ops S) (cc : Controller S) : Type 0 where
    pub state : S
    pub bound : cc ≡ record { ops = some ops; state = some state }

  -- What the checks of init make sure of.
  pub record IsUsable (ops : Ops S) (size : ℕ) (t : Transport) : Type 0 where
    pub named : missing ops.name ≡ false
    pub some_state : 0 < ops.state_size
    pub fits : ops.state_size ≤ size
    pub has_init : missing ops.init ≡ false
    pub has_ack : missing ops.on_ack ≡ false
    pub has_loss : missing ops.on_loss ≡ false
    pub has_timeout : missing ops.on_timeout ≡ false
    pub valid : valid_transport t ≡ true

  Rejected : Reply S → Type 0
  Rejected r = (r.2 ≡ false) × (r.0 ≡ empty)

  Accepted : Ops S → ℕ → Transport → Reply S → Type 0
  Accepted ops size t r = (r.2 ≡ true) × IsBound ops r.0 × IsUsable ops size t

  commit_lem :
      (ops : Ops S) (size : ℕ) (t : Transport) (o : Outcome S)
      → IsUsable ops size t
      → Rejected (commit ops o) ⊎ Accepted ops size t (commit ops o)
  unfolding Rejected Accepted
  commit_lem ops size t (s, policy, true) usable =
      inr (refl, record { state = s; bound = refl }, usable)
  commit_lem ops size t (s, policy, false) usable = inl (refl, refl)

  call_init_lem :
      (f : Option (S → Transport → InitialWindows → Policy → Outcome S)) (ops : Ops S) (s : S)
      (size : ℕ) (t : Transport) (w : InitialWindows) (policy : Policy)
      → IsUsable ops size t
      → Rejected (call_init f ops s t w policy) ⊎ Accepted ops size t (call_init f ops s t w policy)
  unfolding Rejected Accepted
  call_init_lem none ops s size t w policy usable = inl (refl, refl)
  call_init_lem (some f) ops s size t w policy usable =
      commit_lem ops size t (f s t w no_policy) usable

  init_with_lem :
      (ops : Ops S) (s : S) (size : ℕ) (t : Transport) (w : InitialWindows) (policy : Policy)
      → Rejected (init_with ops s size t w policy)
        ⊎ Accepted ops size t (init_with ops s size t w policy)
  unfolding init_with Rejected
  init_with_lem ops s size t w policy =
      if_elim (λ r. Rejected r ⊎ Accepted ops size t r) _ (λ _. inl (refl, refl))
        (λ ok. call_init_lem ops.init ops s size t w policy (ground arith))

  empty-serve : (c : Call) (policy : Policy) → serve empty c policy ≡ (empty, policy, false)
  unfolding serve on_ack on_loss on_ecn on_timeout
  empty-serve (ack t a) policy = if_elim (λ r. r ≡ (empty, policy, false)) _ (λ _. refl) (λ _. refl)
  empty-serve (loss t bytes) policy =
      if_elim (λ r. r ≡ (empty, policy, false)) _ (λ _. refl) (λ _. refl)
  empty-serve (ecn t) policy = if_elim (λ r. r ≡ (empty, policy, false)) _ (λ _. refl) (λ _. refl)
  empty-serve (timeout t) policy =
      if_elim (λ r. r ≡ (empty, policy, false)) _ (λ _. refl) (λ _. refl)

  empty-serve_all : (cs : List Call) (policy : Policy) → serve_all empty cs policy ≡ (empty, policy)
  unfolding serve_all
  empty-serve_all [] policy = refl
  empty-serve_all (c ∷ cs) policy = rw (empty-serve c policy) (empty-serve_all cs policy)

  ack-IsBound :
      (f : Option (S → Transport → Ack → Policy → Outcome S)) (ops : Ops S) (s : S) (t : Transport)
      (a : Ack) (policy : Policy)
      → IsBound ops (call_ack f ops s t a policy).0
  ack-IsBound none ops s t a policy = record { state = s; bound = refl }
  ack-IsBound (some f) ops s t a policy = record { state = (f s t a policy).0; bound = refl }

  loss-IsBound :
      (f : Option (S → Transport → ℕ → Policy → Outcome S)) (ops : Ops S) (s : S) (t : Transport)
      (n : ℕ) (policy : Policy)
      → IsBound ops (call_loss f ops s t n policy).0
  loss-IsBound none ops s t n policy = record { state = s; bound = refl }
  loss-IsBound (some f) ops s t n policy = record { state = (f s t n policy).0; bound = refl }

  call-IsBound :
      (f : Option (S → Transport → Policy → Outcome S)) (ops : Ops S) (s : S) (t : Transport)
      (policy : Policy)
      → IsBound ops (call f ops s t policy).0
  call-IsBound none ops s t policy = record { state = s; bound = refl }
  call-IsBound (some f) ops s t policy = record { state = (f s t policy).0; bound = refl }

  serve_live :
      (ops : Ops S) (s : S) (c : Call) (policy : Policy)
      → IsBound ops (serve (record { ops = some ops; state = some s }) c policy).0
  unfolding serve on_ack on_loss on_ecn on_timeout
  serve_live ops s (ack t a) policy =
      if_elim (λ (r : Reply S). IsBound ops r.0) _ (λ _. record { state = s; bound = refl })
        (λ _. ack-IsBound ops.on_ack ops s t a policy)
  serve_live ops s (loss t bytes) policy =
      if_elim (λ (r : Reply S). IsBound ops r.0) _ (λ _. record { state = s; bound = refl })
        (λ _. loss-IsBound ops.on_loss ops s t bytes policy)
  serve_live ops s (ecn t) policy =
      if_elim (λ (r : Reply S). IsBound ops r.0) _ (λ _. record { state = s; bound = refl })
        (λ _. call-IsBound ops.on_ecn ops s t policy)
  serve_live ops s (timeout t) policy =
      if_elim (λ (r : Reply S). IsBound ops r.0) _ (λ _. record { state = s; bound = refl })
        (λ _. call-IsBound ops.on_timeout ops s t policy)

  serve-IsBound :
      (ops : Ops S) (h : Controller S) (c : Call) (policy : Policy)
      → IsBound ops h
      → IsBound ops (serve h c policy).0
  serve-IsBound ops h c policy b = rw b.bound (serve_live ops b.state c policy)

  serve_all-IsBound :
      (ops : Ops S) (h : Controller S) (cs : List Call) (policy : Policy)
      → IsBound ops h
      → IsBound ops (serve_all h cs policy).0
  unfolding serve_all
  serve_all-IsBound ops h [] policy b = b
  serve_all-IsBound ops h (c ∷ cs) policy b =
      serve_all-IsBound ops (serve h c policy).0 cs (serve h c policy).1
        (serve-IsBound ops h c policy b)

  -- After init with operations and a state, either init has failed, and then the handle is empty
  -- and stays empty, and later calls of any kind leave the policy as it was; or init has succeeded,
  -- and then its checks held (a name, a state size that fits, a segment size within the limit, and
  -- each callback but the one for ECN), and after any later calls, failed ones included, the handle
  -- still has those operations and a state.
  pub init-serve_all :
      (ops : Ops S) (s : S) (size : ℕ) (t : Transport) (w : InitialWindows) (policy : Policy)
      (cs : List Call) (later : Policy)
      → ((init (some ops) (some s) size t w policy).2 ≡ false
          × (serve_all (init (some ops) (some s) size t w policy).0 cs later ≡ (empty, later)))
        ⊎ ((init (some ops) (some s) size t w policy).2 ≡ true
            × IsUsable ops size t
            × IsBound ops (serve_all (init (some ops) (some s) size t w policy).0 cs later).0)
  unfolding init Rejected Accepted
  init-serve_all ops s size t w policy cs later = elim (init_with_lem ops s size t w policy) [
    | inl (failed, gone) ↦ inl (failed, rw gone (empty-serve_all cs later))
    | inr (ok, b, usable) ↦ inr (ok, usable, serve_all-IsBound ops _ cs later b)
  ]
