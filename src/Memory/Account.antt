-- ===== src/Memory/Account.antt =====
-- The accounts of lwip/tcp_memory.c: what one operation on one flow leaves of the books.
use Prim.Native.Nat.{min}
use mathlib.Core.Path.{subst}
use tcp_shift.Prelude.{
  sym, ◌∙◌, ℕ, ◌+◌, ◌-◌, ◌≤◌, ◌≡◌, refl, true, false, not, ◌||◌, ◌==◌, arith, if_elim, IsU64,
}
use tcp_shift.Memory.{
  MemoryConfig, Manager, Flow, no_flow, update_pressure, flow_note_write, settled, flow_note_acked,
  flow_release,
}

-- Settings as `manager_init` takes them.
pub record Ordered (config : MemoryConfig) : Type 0 where
  pub initial_le : config.wmem.initial_bytes ≤ config.wmem.max_bytes
  pub low_le : config.mem.low_bytes ≤ config.mem.pressure_bytes
  pub pressure_le : config.mem.pressure_bytes ≤ config.mem.high_bytes
  pub narrow : IsU64 config.mem.high_bytes

-- Books in order: within the high mark, also at their peak, at most the pressure mark while there is no
-- pressure, and at least the low mark while there is.
pub record Sound (m : Manager) : Type 0 where
  pub ordered : Ordered m.config
  pub within : m.stats.charged_bytes ≤ m.config.mem.high_bytes
  pub peak_ge : m.stats.charged_bytes ≤ m.stats.peak_charged_bytes
  pub peak_le : m.stats.peak_charged_bytes ≤ m.config.mem.high_bytes
  pub calm : m.pressure_active ≡ false → m.stats.charged_bytes ≤ m.config.mem.pressure_bytes
  pub pressed : m.pressure_active ≡ true → m.config.mem.low_bytes ≤ m.stats.charged_bytes

-- A flow of a manager: nothing is queued without the manager, and the capacity is between the initial
-- and the greatest one.
pub record Fits (config : MemoryConfig) (f : Flow) : Type 0 where
  pub empty : f.attached ≡ false → f.queued_bytes ≡ 0
  pub capacity_ge : f.attached ≡ true → config.wmem.initial_bytes ≤ f.capacity_bytes
  pub capacity_le : f.attached ≡ true → f.capacity_bytes ≤ config.wmem.max_bytes

-- The books of a manager and of one flow among flows that have queued `others`.
pub record Booked (config : MemoryConfig) (others : ℕ) (m : Manager) (f : Flow) : Type 0 where
  pub config_eq : m.config ≡ config
  pub sound : Sound m
  pub fits : Fits config f
  pub charged_eq : m.stats.charged_bytes ≡ f.queued_bytes + others

-- The pressure brought up to date over books that are in order but for the pressure.
record Balanced (m : Manager) : Type 0 where
  ordered : Ordered m.config
  within : m.stats.charged_bytes ≤ m.config.mem.high_bytes
  peak_ge : m.stats.charged_bytes ≤ m.stats.peak_charged_bytes
  peak_le : m.stats.peak_charged_bytes ≤ m.config.mem.high_bytes

update_pressure-Sound : (m : Manager) → Balanced m → Sound (update_pressure m)
unfolding update_pressure
update_pressure-Sound m b = ground arith

update_pressure-keeps :
    (m : Manager)
    → ((update_pressure m).config ≡ m.config)
      × ((update_pressure m).stats.charged_bytes ≡ m.stats.charged_bytes)
unfolding update_pressure
update_pressure-keeps m = ground arith

marked-Booked :
    (config : MemoryConfig) (others : ℕ) (m : Manager) (f : Flow)
    → m.config ≡ config
    → Balanced m
    → Fits config f
    → m.stats.charged_bytes ≡ f.queued_bytes + others
    → Booked config others (update_pressure m) f
marked-Booked config others m f e b fits sum =
    let (same_config, same_charge) = update_pressure-keeps m in
    record {
      config_eq = same_config ∙ e;
      sound = update_pressure-Sound m b;
      fits = fits;
      charged_eq = same_charge ∙ sum;
    }

module _ (config : MemoryConfig) (others : ℕ) (m : Manager) (f : Flow)
    (b : Booked config others m f) where
  -- The counts but for the charge and its peak are free.
  settle-Booked :
      (amount : ℕ)
      → amount ≤ f.queued_bytes
      → (m' : Manager) (f' : Flow) → m'.config ≡ m.config
      → m'.stats.charged_bytes ≡ m.stats.charged_bytes - amount
      → m'.stats.peak_charged_bytes ≡ m.stats.peak_charged_bytes
      → f'.queued_bytes ≡ f.queued_bytes - amount
      → Fits config f'
      → Booked config others (update_pressure m') f'
  settle-Booked amount le m' f' e charge peak queue fits =
      let s = b.sound in
      let sum = b.charged_eq in
      marked-Booked config others m' f' (e ∙ b.config_eq)
        (record {
          ordered = subst Ordered (sym e) s.ordered;
          within =
              subst (λ (c : MemoryConfig). m'.stats.charged_bytes ≤ c.mem.high_bytes) (sym e)
                (ground arith);
          peak_ge = ground arith;
          peak_le =
              subst (λ (c : MemoryConfig). m'.stats.peak_charged_bytes ≤ c.mem.high_bytes) (sym e)
                (ground arith);
        })
        fits (ground arith)

  pub note_acked-Booked :
      (n : ℕ) → Booked config others (flow_note_acked m f n).0 (flow_note_acked m f n).1
  unfolding flow_note_acked
  note_acked-Booked n =
      let P = λ (r : Manager × Flow). Booked config others r.0 r.1 in
      let fits = b.fits in
      let sum = b.charged_eq in
      if_elim P (not f.attached || n == 0) (λ _. b)
        (λ _.
          settle-Booked (settled m f n) (unfold settled in ground arith) _
            (record f { queued_bytes = f.queued_bytes - settled m f n }) refl refl refl refl
            (record {
              empty = ground arith;
              capacity_ge = fits.capacity_ge;
              capacity_le = fits.capacity_le;
            }))

  pub release-Booked : Booked config others (flow_release m f).0 (flow_release m f).1
  unfolding flow_release
  release-Booked =
      let P = λ (r : Manager × Flow). Booked config others r.0 r.1 in
      let sum = b.charged_eq in
      if_elim P (not f.attached) (λ _. b)
        (λ _.
          settle-Booked (min f.queued_bytes m.stats.charged_bytes) (ground arith) _ no_flow refl
            refl refl (ground arith) (ground arith))

  pub note_write-Booked :
      (n : ℕ)
      → m.stats.charged_bytes + n ≤ m.config.mem.high_bytes
      → Booked config others (flow_note_write m f n).0 (flow_note_write m f n).1
  unfolding flow_note_write
  note_write-Booked n room =
      let P = λ (r : Manager × Flow). Booked config others r.0 r.1 in
      let s = b.sound in
      let o = s.ordered in
      let fits = b.fits in
      let sum = b.charged_eq in
      if_elim P (not f.attached || n == 0) (λ _. b)
        (λ on.
          marked-Booked config others _ _ b.config_eq
            (record {
              ordered = o;
              within = ground arith;
              peak_ge = ground arith;
              peak_le = ground arith;
            })
            (record {
              empty = ground arith;
              capacity_ge = fits.capacity_ge;
              capacity_le = fits.capacity_le;
            })
            (ground arith))
