-- ===== src/Memory/Reach.antt =====
-- All connections of a process over lwip/tcp_memory.c, through any sequence of calls.
use mathlib.Core.Path.{subst}
use tcp_shift.Prelude.{
  ap, sym, ◌∙◌, ℕ, ◌+◌, ◌≡◌, refl, Bool, false, Option, none, arith, List, [], ◌∷◌, ◌++◌,
}
use tcp_shift.Memory.{MemoryConfig, Flow, Pcb, no_flow}
use tcp_shift.Memory.Config.{no_memory_stats}
use tcp_shift.Memory.Account.{Sound, Fits}
use tcp_shift.Memory.Connection.{
  Connection, unread, Process, World, memory_write, sent_dispatch, memory_sent, set_sndbuf_expand,
  destroyed, app,
}
use tcp_shift.Memory.Books.{
  flow_of, is_ready, off-Fits, Kept, Carries, steady, adopted, Typed, unchanged,
}
use tcp_shift.Memory.Writes.{KeptAfter, write-Kept}
use tcp_shift.Memory.Calls.{dispatch-Kept, destroyed-Kept, sent-Kept, expand-Kept}

-- A call on one connection: a write with what lwIP answers, bytes acknowledged, a callback registered,
-- an expansion hinted, the connection freed, or a change of lwIP's own.
pub data Call : Type 0 where
  writes : World → ℕ → Bool → Call
  told : ℕ → Call
  wants : World → Option ℕ → Call
  hints : World → ℕ → ℕ → Call
  freed : Call
  moved : Pcb → Call

unfoldable pub step : Process → Connection → Call → Process × Connection
step p c (writes w len ok) = let (q, d, _) = memory_write p c w len ok in (q, d)
step p c (told len) = let (q, d, _) = sent_dispatch p c len in (q, d)
step p c (wants w sent) = memory_sent p c w sent
step p c (hints w num den) = let (d, _) = set_sndbuf_expand c w num den in (p, d)
step p c freed = destroyed p c
step p c (moved pcb) = (p, record c { pcb = pcb })

-- The configuration that a call may read has 64-bit marks.
abbrev pub Plain : Call → Type 0
Plain (writes w _ _) = Typed w.config
Plain (wants w _) = Typed w.config
Plain _ = Typed none

-- The static variables before anything is read.
abbrev pub start : Process
start = record {
  state = unread;
  manager = record {
    config = record {
      wmem = record { min_bytes = 0; initial_bytes = 0; max_bytes = 0 };
      mem = record { low_bytes = 0; pressure_bytes = 0; high_bytes = 0 };
      effective_memory_bytes = 0;
    };
    stats = no_memory_stats;
    pressure_active = false;
  };
}

-- What a process can come to, with its connections: from the start of the program, where nothing is
-- read yet, connections are opened, and calls are made on any of them.
pub data Reached : Process → List Connection → Type 0 where
  started : Reached start []
  opened :
      (p : Process) (cs : List Connection)
      → Reached p cs
      → (pcb : Pcb) → Reached p (record { pcb = pcb; sent = app none; ext = none } ∷ cs)
  called :
      (p : Process) (before : List Connection) (c : Connection) (after : List Connection)
      → Reached p (before ++ (c ∷ after))
      → (x : Call) → Plain x
      → Reached (step p c x).0 (before ++ ((step p c x).1 ∷ after))

abbrev pub queued : List Connection → ℕ
queued [] = 0
queued (c ∷ cs) = (flow_of c.ext).queued_bytes + queued cs

step-Kept :
    (others : ℕ) (p : Process) (c : Connection) (x : Call)
    → Plain x
    → Kept others p (flow_of c.ext)
    → KeptAfter others p (step p c x)
unfolding step
step-Kept others p c (writes w len ok) t k = write-Kept others p c w len ok t k
step-Kept others p c (told len) t k = dispatch-Kept others p c len k
step-Kept others p c (wants w sent) t k = sent-Kept others p c w sent t k
step-Kept others p c (hints w num den) t k = expand-Kept others p c w num den k
step-Kept others p c freed t k = destroyed-Kept others p c k
step-Kept others p c (moved pcb) t k = unchanged others p _ k

-- A flow in order by itself.
record Fair (p : Process) (f : Flow) : Type 0 where
  fits : Fits p.manager.config f
  idle : is_ready p.state ≡ false → f.attached ≡ false

data Every (p : Process) : List Connection → Type 0 where
  nobody : Every p []
  with_one :
      (c : Connection) (cs : List Connection)
      → Fair p (flow_of c.ext)
      → Every p cs
      → Every p (c ∷ cs)

Fair-carried : (p q : Process) (f : Flow) → Carries p q → Fair p f → Fair q f
Fair-carried p q f (steady e s) a = record {
  fits = subst (λ (c : MemoryConfig). Fits c f) (sym e) a.fits;
  idle = λ off. a.idle (ap is_ready (sym s) ∙ off);
}
Fair-carried p q f (adopted off) a = record {
  fits = off-Fits q.manager.config f (a.idle off) (a.fits.empty (a.idle off));
  idle = λ _. a.idle off;
}

Every-carried : (p q : Process) (cs : List Connection) → Carries p q → Every p cs → Every q cs
Every-carried p q _ k nobody = nobody
Every-carried p q _ k (with_one c cs a e) =
    with_one c cs (Fair-carried p q _ k a) (Every-carried p q cs k e)

Every-drop :
    (p : Process) (xs : List Connection) (c : Connection) (ys : List Connection)
    → Every p (xs ++ (c ∷ ys))
    → Fair p (flow_of c.ext) × Every p (xs ++ ys)
Every-drop p [] c ys (with_one _ _ a e) = (a, e)
Every-drop p (x ∷ xs) c ys (with_one _ _ a e) =
    let (b, rest) = Every-drop p xs c ys e in (b, with_one x (xs ++ ys) a rest)

Every-put :
    (p : Process) (xs : List Connection) (c : Connection) (ys : List Connection)
    → Fair p (flow_of c.ext)
    → Every p (xs ++ ys)
    → Every p (xs ++ (c ∷ ys))
Every-put p [] c ys a e = with_one c ys a e
Every-put p (x ∷ xs) c ys a (with_one _ _ b e) =
    with_one x (xs ++ (c ∷ ys)) b (Every-put p xs c ys a e)

queued-middle :
    (xs : List Connection) (c : Connection) (ys : List Connection)
    → queued (xs ++ (c ∷ ys)) ≡ (flow_of c.ext).queued_bytes + queued (xs ++ ys)
queued-middle [] c ys = refl
queued-middle (x ∷ xs) c ys = let e = queued-middle xs c ys in omega (arith, e)

-- The books of the process over all its connections.
record Settled (p : Process) (cs : List Connection) : Type 0 where
  sound : Sound p.manager
  every : Every p cs
  empty : is_ready p.state ≡ false → p.manager.stats.charged_bytes ≡ 0
  charged_eq : p.manager.stats.charged_bytes ≡ queued cs

step-Settled :
    (p : Process) (before : List Connection) (c : Connection) (after : List Connection) (x : Call)
    → Plain x
    → Settled p (before ++ (c ∷ after))
    → Settled (step p c x).0 (before ++ ((step p c x).1 ∷ after))
step-Settled p before c after x plain s =
    let others = queued (before ++ after) in
    let (mine, rest) = Every-drop p before c after s.every in
    let k : Kept others p (flow_of c.ext) = record {
      booked = record {
        config_eq = refl;
        sound = s.sound;
        fits = mine.fits;
        charged_eq = s.charged_eq ∙ queued-middle before c after;
      };
      idle = mine.idle;
      empty = s.empty;
    } in
    let a = step-Kept others p c x plain k in
    let (q, d) = step p c x in
    let b = a.kept.booked in
    record {
      sound = b.sound;
      every =
          Every-put q before d after (record { fits = b.fits; idle = a.kept.idle })
            (Every-carried p q (before ++ after) a.carries rest);
      empty = a.kept.empty;
      charged_eq = b.charged_eq ∙ sym (queued-middle before d after);
    }

Reached-Settled : (p : Process) (cs : List Connection) → Reached p cs → Settled p cs
Reached-Settled _ _ started = record {
  sound = record {
    ordered = record {
      initial_le = omega arith;
      low_le = omega arith;
      pressure_le = omega arith;
      narrow = omega arith;
    };
    within = omega arith;
    peak_ge = omega arith;
    peak_le = omega arith;
    calm = λ _. omega arith;
    pressed = λ _. omega arith;
  };
  every = nobody;
  empty = λ _. refl;
  charged_eq = refl;
}
Reached-Settled _ _ (opened p cs r pcb) =
    let s = Reached-Settled p cs r in
    record {
      sound = s.sound;
      every =
          with_one _ cs
            (record { fits = off-Fits p.manager.config no_flow refl refl; idle = λ _. refl })
            s.every;
      empty = s.empty;
      charged_eq = let e = s.charged_eq in omega (arith, e);
    }
Reached-Settled _ _ (called p before c after r x plain) =
    step-Settled p before c after x plain (Reached-Settled p (before ++ (c ∷ after)) r)

-- From the start of the program, however connections are opened and freed and writes, acknowledgements,
-- callbacks and hints on them interleave, whatever calloc, lwIP and the environment's 64-bit settings
-- answer: the bytes charged to the process are exactly those that the flows have queued, are at most the
-- high mark, as at their peak, are at least the low mark under pressure, and at most the pressure mark
-- without it.
pub Reached-Sound :
    (p : Process) (cs : List Connection)
    → Reached p cs
    → Sound p.manager × (p.manager.stats.charged_bytes ≡ queued cs)
Reached-Sound p cs r = let s = Reached-Settled p cs r in (s.sound, s.charged_eq)
