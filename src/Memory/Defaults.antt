-- ===== src/Memory/Defaults.antt =====
-- The default settings of lwip/tcp_memory.c.
use tcp_shift.Prelude.{
  ℕ, ◌+◌, ◌-◌, ◌/◌, ◌≤◌, ◌<◌, ◌≡◌, refl, false, ◌||◌, Option, some, ltb, ◌==◌, arith, if_elim, u64,
  u64_max,
}
use tcp_shift.Memory.{MemoryConfig, Manager, u64_mul_sat}
use tcp_shift.Memory.Config.{no_memory_stats, pressure_of, settings, config_default, manager_init}
use tcp_shift.Memory.Account.{Ordered}

-- A configuration given and a manager that takes it, both in order; the pressure mark is at least a
-- sixteenth of the memory, the high mark half as much again and the low mark a quarter less.
pub data Usable (memory : ℕ) : Option MemoryConfig → Type 0 where
  usable :
      (config : MemoryConfig) (m : Manager)
      → manager_init config ≡ some m
      → m.config ≡ config
      → Ordered config
      → memory / 16 ≤ config.mem.pressure_bytes
      → config.mem.high_bytes ≡ config.mem.pressure_bytes + config.mem.pressure_bytes / 2
      → config.mem.low_bytes ≡ config.mem.pressure_bytes - config.mem.pressure_bytes / 4
      → Usable memory (some config)

abbrev fresh : MemoryConfig → Manager
fresh config = record { config = config; stats = no_memory_stats; pressure_active = false }

manager_init-takes :
    (config : MemoryConfig)
    → Ordered config
    → 0 < config.wmem.min_bytes
    → config.wmem.min_bytes ≤ config.wmem.initial_bytes
    → 0 < config.mem.high_bytes
    → manager_init config ≡ some (fresh config)
unfolding manager_init
manager_init-takes config o some_min min_le some_high =
    let w = config.wmem in
    let m = config.mem in
    if_elim (λ (r : Option Manager). r ≡ some (fresh config))
      (w.min_bytes == 0
        || (ltb w.initial_bytes w.min_bytes
            || (ltb w.max_bytes w.initial_bytes
                || (ltb m.pressure_bytes m.low_bytes
                    || (ltb m.high_bytes m.pressure_bytes || m.high_bytes == 0)))))
      (λ bad. ground arith) (λ _. refl)

pressure_of-bounds :
    (memory page_size : ℕ)
    → (memory / 16 ≤ pressure_of memory page_size) × (0 < pressure_of memory page_size)
unfolding pressure_of u64_mul_sat
pressure_of-bounds memory page_size = (ground arith, ground arith)

-- For any memory but none and any page size whose least pressure mark, half as much again, fits in 64
-- bits, the default settings are given and a manager takes them.
pub config_default-Usable :
    (memory page_size : ℕ)
    → 0 < memory
    → pressure_of memory page_size + pressure_of memory page_size / 2 ≤ u64_max
    → Usable memory (config_default memory page_size)
unfolding config_default
config_default-Usable memory page_size some_memory fits =
    let (at_least, some_pages) = pressure_of-bounds memory page_size in
    let pressure = pressure_of memory page_size in
    let exact : u64 (pressure + pressure / 2) ≡ pressure + pressure / 2 = omega arith in
    if_elim (Usable memory) (memory == 0) (λ none_left. ground arith)
      (λ _.
        let o : Ordered (settings memory pressure (u64 (pressure + pressure / 2))) = record {
          initial_le = ground arith;
          low_le = omega arith;
          pressure_le = omega arith;
          narrow = omega arith;
        } in
        usable _ _ (manager_init-takes _ o (omega arith) (omega arith) (omega arith)) refl o
          at_least exact refl)
