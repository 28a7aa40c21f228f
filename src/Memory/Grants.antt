-- ===== src/Memory/Grants.antt =====
-- What the accounts of lwip/tcp_memory.c allow: writes that fit, growth, and flows that begin.
use mathlib.Core.Path.{subst}
use tcp_shift.Prelude.{
  ap, sym, ◌∙◌, ℕ, ◌+◌, ◌-◌, ◌≤◌, ◌≡◌, ◌⊎◌, inl, inr, refl, Bool, true, false, not, ◌||◌, Option,
  none, some, ltb, leb, ◌==◌, ◌/=◌, u64, u32_max, arith, if_elim,
}
use tcp_shift.Memory.{
  MemoryConfig, Manager, Flow, Pcb, flow_init, Grown, unfit, as_before, bigger, growth_target,
  flow_maybe_grow, flow_can_write,
}
use tcp_shift.Memory.Account.{Ordered, Booked}

module _ (config : MemoryConfig) (others : ℕ) (m : Manager) (f : Flow)
    (b : Booked config others m f) where
  -- Statistics other than the charge and its peak.
  recount-Booked :
      (m' : Manager)
      → m'.config ≡ m.config
      → m'.pressure_active ≡ m.pressure_active
      → m'.stats.charged_bytes ≡ m.stats.charged_bytes
      → m'.stats.peak_charged_bytes ≡ m.stats.peak_charged_bytes
      → Booked config others m' f
  recount-Booked m' e pressure charge peak =
      let s = b.sound in
      let at = λ (P : MemoryConfig → Type 0) (x : P m.config). subst P (sym e) x in
      record {
        config_eq = e ∙ b.config_eq;
        sound = record {
          ordered = at Ordered s.ordered;
          within = at (λ c. m'.stats.charged_bytes ≤ c.mem.high_bytes) (rw (charge) s.within);
          peak_ge = rw (charge, peak) s.peak_ge;
          peak_le = at (λ c. m'.stats.peak_charged_bytes ≤ c.mem.high_bytes) (rw (peak) s.peak_le);
          calm = λ idle.
              at (λ c. m'.stats.charged_bytes ≤ c.mem.pressure_bytes)
                (rw (charge) (s.calm (sym pressure ∙ idle)));
          pressed = λ busy.
              at (λ c. c.mem.low_bytes ≤ m'.stats.charged_bytes)
                (rw (charge) (s.pressed (sym pressure ∙ busy)));
        };
        fits = b.fits;
        charged_eq = charge ∙ b.charged_eq;
      }

  -- A write that may go on has room.
  pub can_write-Booked :
      (pcb : Pcb) (n : ℕ)
      → Booked config others (flow_can_write m f pcb n).0 f
        × (((flow_can_write m f pcb n).1 ≡ false)
            ⊎ ((flow_can_write m f pcb n).0.stats.charged_bytes + n
                ≤ (flow_can_write m f pcb n).0.config.mem.high_bytes))
  unfolding flow_can_write
  can_write-Booked pcb n =
      let s = b.sound in
      let within = s.within in
      let P = λ (r : Manager × Bool).
        Booked config others r.0 f
        × ((r.1 ≡ false) ⊎ (r.0.stats.charged_bytes + n ≤ r.0.config.mem.high_bytes)) in
      if_elim P (not f.attached) (λ _. (b, inl refl))
        (λ _.
          if_elim P (n == 0) (λ none_left. (b, inr (ground arith)))
            (λ _.
              if_elim P (ltb pcb.snd_buf n) (λ _. (b, inl refl))
                (λ _.
                  if_elim P
                    (ltb m.config.mem.high_bytes m.stats.charged_bytes
                      || ltb (m.config.mem.high_bytes - m.stats.charged_bytes) n)
                    (λ _. (recount-Booked _ refl refl refl refl, inl refl))
                    (λ room. (b, inr (ground arith))))))

-- What growing leaves of the books.
pub data GrownBooked (config : MemoryConfig) (others : ℕ) (f : Flow) : Grown → Type 0 where
  is_unfit : GrownBooked config others f unfit
  is_same : (m : Manager) → Booked config others m f → GrownBooked config others f (as_before m)
  is_bigger :
      (m : Manager) (g : Flow) (pcb : Pcb)
      → Booked config others m g
      → g.attached ≡ f.attached
      → GrownBooked config others f (bigger m g pcb)

target-bounds :
    (m : Manager) (pcb : Pcb) (num den : ℕ)
    → m.config.wmem.initial_bytes ≤ m.config.wmem.max_bytes
    → (m.config.wmem.initial_bytes ≤ growth_target m pcb num den)
      × (growth_target m pcb num den ≤ m.config.wmem.max_bytes)
unfolding growth_target
target-bounds m pcb num den le = ground arith

-- A flow whose capacity alone has changed, within the settings.
refit :
    (config : MemoryConfig) (others : ℕ) (m : Manager) (f : Flow) (capacity : ℕ)
    → Booked config others m f
    → m.config.wmem.initial_bytes ≤ capacity
    → capacity ≤ m.config.wmem.max_bytes
    → Booked config others m (record f { capacity_bytes = capacity })
refit config others m f capacity b ge le =
    let fits = b.fits in
    let e = b.config_eq in
    record {
      config_eq = e;
      sound = b.sound;
      fits = record {
        empty = fits.empty;
        capacity_ge = λ _. subst (λ (c : MemoryConfig). c.wmem.initial_bytes ≤ capacity) e ge;
        capacity_le = λ _. subst (λ (c : MemoryConfig). capacity ≤ c.wmem.max_bytes) e le;
      };
      charged_eq = b.charged_eq;
    }

pub maybe_grow-Booked :
    (config : MemoryConfig) (others : ℕ) (m : Manager) (f : Flow) (pcb : Pcb) (num den : ℕ)
    → Booked config others m f
    → GrownBooked config others f (flow_maybe_grow m f pcb num den)
unfolding flow_maybe_grow
maybe_grow-Booked config others m f pcb num den b =
    let target = growth_target m pcb num den in
    let s = b.sound in
    let (ge, le) = target-bounds m pcb num den s.ordered.initial_le in
    if_elim (GrownBooked config others f) (not f.attached || (num == 0 || den == 0)) (λ _. is_unfit)
      (λ _.
        if_elim (GrownBooked config others f) (leb target f.capacity_bytes) (λ _. is_same m b)
          (λ _.
            if_elim (GrownBooked config others f) m.pressure_active
              (λ _. is_same _ (recount-Booked config others m f b _ refl refl refl refl))
              (λ _.
                if_elim (GrownBooked config others f)
                  (ltb u32_max (pcb.snd_buf + (target - f.capacity_bytes))) (λ _. is_unfit)
                  (λ _.
                    is_bigger _ _ _
                      (refit config others _ f target
                        (recount-Booked config others m f b _ refl refl refl refl) ge le)
                      refl))))

-- A flow begun in the place of one without a manager.
pub data InitBooked (config : MemoryConfig) (others : ℕ)
    : Option (Manager × Flow × Pcb) → Type 0 where
  is_refused : InitBooked config others none
  is_begun :
      (m : Manager) (f : Flow) (pcb : Pcb)
      → Booked config others m f
      → f.attached ≡ true
      → InitBooked config others (some (m, f, pcb))

pub flow_init-Booked :
    (config : MemoryConfig) (others : ℕ) (m : Manager) (f : Flow) (pcb : Pcb)
    → f.attached ≡ false
    → Booked config others m f
    → InitBooked config others (flow_init m pcb)
unfolding flow_init
flow_init-Booked config others m f pcb off b =
    if_elim (InitBooked config others) (pcb.snd_queuelen /= 0 || (pcb.unsent || pcb.unacked))
      (λ _. is_refused)
      (λ _.
        let r =
          recount-Booked config others m f b
            (record m { stats = record m.stats { flow_inits = u64 (m.stats.flow_inits + 1) } }) refl
            refl refl refl in
        let e = r.config_eq in
        is_begun _ _ _
          (record {
            config_eq = e;
            sound = r.sound;
            fits = record {
              empty = λ _. refl;
              capacity_ge = λ _.
                  subst (λ (c : MemoryConfig). c.wmem.initial_bytes ≤ m.config.wmem.initial_bytes) e
                    (omega arith);
              capacity_le = λ _.
                  subst (λ (c : MemoryConfig). m.config.wmem.initial_bytes ≤ c.wmem.max_bytes) e
                    b.sound.ordered.initial_le;
            };
            charged_eq = r.charged_eq ∙ ap (λ x. x + others) (b.fits.empty off);
          })
          refl)
