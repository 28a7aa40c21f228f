-- ===== src/Memory/Books.antt =====
-- The books of the process of lwip/tcp_memory.c and of one flow among others: what initialising the
-- process leaves of them.
use mathlib.Core.Path.{subst}
use tcp_shift.Prelude.{
  ap, sym, ◌∙◌, ℕ, ◌≡◌, ◌⊎◌, inl, inr, refl, Bool, true, false, ◌||◌, Option, none, some, ◌==◌, ltb,
  arith, if_elim, IsU64,
}
use tcp_shift.Memory.{MemoryConfig, Manager, Flow, no_flow}
use tcp_shift.Memory.Config.{manager_init}
use tcp_shift.Memory.Account.{Sound, Fits, Booked}
use tcp_shift.Memory.Connection.{
  Ext, ProcessState, unread, ready, invalid, Process, adopt, process_init, process_init_in,
}

abbrev pub flow_of : Option Ext → Flow
flow_of none = no_flow
flow_of (some e) = e.flow

abbrev pub is_ready : ProcessState → Bool
is_ready unread = false
is_ready ready = true
is_ready invalid = false

-- The books of the process and of one flow, among flows that have queued `others`: without a manager
-- that is ready, there is no flow, and nothing is queued.
pub record Kept (others : ℕ) (p : Process) (f : Flow) : Type 0 where
  pub booked : Booked p.manager.config others p.manager f
  pub idle : is_ready p.state ≡ false → f.attached ≡ false
  pub empty : is_ready p.state ≡ false → p.manager.stats.charged_bytes ≡ 0

-- What a call may change for the flows that it does not touch.
pub data Carries (p q : Process) : Type 0 where
  steady : q.manager.config ≡ p.manager.config → q.state ≡ p.state → Carries p q
  adopted : is_ready p.state ≡ false → Carries p q

-- A call's result in order.
pub record After (others : ℕ) (p q : Process) (f : Flow) : Type 0 where
  pub kept : Kept others q f
  pub carries : Carries p q

pub Carries-trans : (p q r : Process) → Carries p q → Carries q r → Carries p r
Carries-trans p q r (steady a b) (steady c d) = steady (c ∙ a) (d ∙ b)
Carries-trans p q r (steady a b) (adopted d) =
    adopted (subst (λ (s : ProcessState). is_ready s ≡ false) b d)
Carries-trans p q r (adopted a) _ = adopted a

pub After-trans :
    (others : ℕ) (p q r : Process) (f : Flow)
    → Carries p q
    → After others q r f
    → After others p r f
After-trans others p q r f c a = record { kept = a.kept; carries = Carries-trans p q r c a.carries }

-- A manager changed by an operation on the flow.
pub managed :
    (others : ℕ) (p : Process) (f : Flow) (m : Manager) (g : Flow)
    → is_ready p.state ≡ true
    → Booked p.manager.config others m g
    → After others p (record p { manager = m }) g
managed others p f m g on b = record {
  kept = record {
    booked = subst (λ (c : MemoryConfig). Booked c others m g) (sym b.config_eq) b;
    idle = λ off. ground arith;
    empty = λ off. ground arith;
  };
  carries = steady b.config_eq refl;
}

pub unchanged : (others : ℕ) (p : Process) (f : Flow) → Kept others p f → After others p p f
unchanged others p f k = record { kept = k; carries = steady refl refl }

-- A manager that is taken begins with nothing charged.
data Begins : Option Manager → Type 0 where
  nothing : Begins none
  begins : (m : Manager) → Sound m → m.stats.charged_bytes ≡ 0 → Begins (some m)

manager_init-Begins :
    (config : MemoryConfig) → IsU64 config.mem.high_bytes → Begins (manager_init config)
unfolding manager_init
manager_init-Begins config narrow =
    let w = config.wmem in
    let m = config.mem in
    if_elim Begins
      (w.min_bytes == 0
        || (ltb w.initial_bytes w.min_bytes
            || (ltb w.max_bytes w.initial_bytes
                || (ltb m.pressure_bytes m.low_bytes
                    || (ltb m.high_bytes m.pressure_bytes || m.high_bytes == 0)))))
      (λ _. nothing) (λ taken. begins _ (ground arith) refl)

-- A configuration whose high mark is a 64-bit number, if there is one.
pub data Typed : Option MemoryConfig → Type 0 where
  no_config : Typed none
  typed : (config : MemoryConfig) → IsU64 config.mem.high_bytes → Typed (some config)

-- The process initialised: the flow stays in order, and a result of 0 comes with a ready manager.
pub record Initialised (others : ℕ) (p : Process) (f : Flow) (r : Process × Bool) : Type 0 where
  pub after : After others p r.0 f
  pub answers : (r.1 ≡ false) ⊎ (is_ready r.0.state ≡ true)

idle_flow :
    (others : ℕ) (p : Process) (f : Flow)
    → is_ready p.state ≡ false
    → Kept others p f
    → (f.attached ≡ false) × (f.queued_bytes ≡ 0) × (others ≡ 0)
idle_flow others p f off k =
    let a = k.idle off in
    let charge = k.empty off in
    let queue = k.booked.fits.empty a in let sum = k.booked.charged_eq in (a, queue, ground arith)

pub off-Fits :
    (config : MemoryConfig) (f : Flow) → f.attached ≡ false → f.queued_bytes ≡ 0 → Fits config f
off-Fits config f a e = record {
  empty = λ _. e;
  capacity_ge = λ on. ground arith;
  capacity_le = λ on. ground arith;
}

adopt-Initialised :
    (others : ℕ) (p : Process) (f : Flow) (o : Option Manager)
    → is_ready p.state ≡ false
    → Kept others p f
    → Begins o
    → Initialised others p f (adopt p o)
adopt-Initialised others p f none off k _ = record {
  after = record {
    kept = record { booked = k.booked; idle = λ _. k.idle off; empty = λ _. k.empty off };
    carries = adopted off;
  };
  answers = inl refl;
}
adopt-Initialised others p f (some m) off k (begins _ sound zero_charge) =
    let (a, queue, alone) = idle_flow others p f off k in
    record {
      after = record {
        kept = record {
          booked = record {
            config_eq = refl;
            sound = sound;
            fits = off-Fits m.config f a queue;
            charged_eq = ground arith;
          };
          idle = λ x. a;
          empty = λ x. zero_charge;
        };
        carries = adopted off;
      };
      answers = inr refl;
    }

pub process_init-Initialised :
    (others : ℕ) (p : Process) (f : Flow) (config : Option MemoryConfig)
    → Typed config
    → Kept others p f
    → Initialised others p f (process_init p config)
unfolding process_init
process_init-Initialised others p f config t k = go p.state refl config t
  where
    go :
        (s : ProcessState)
        → p.state ≡ s
        → (o : Option MemoryConfig) → Typed o
        → Initialised others p f (process_init_in s p o)
    go unread e none _ = adopt-Initialised others p f none (ap is_ready e) k nothing
    go unread e (some c) (typed _ narrow) =
        adopt-Initialised others p f (manager_init c) (ap is_ready e) k
          (manager_init-Begins c narrow)
    go ready e o _ = record { after = unchanged others p f k; answers = inr (ap is_ready e) }
    go invalid e o _ = record { after = unchanged others p f k; answers = inl refl }
