-- ===== src/Memory/Config.antt =====
-- The settings of lwip/tcp_memory.c: the defaults for a memory and a page size, and what a manager
-- takes.
use Prim.Native.Nat.{min, max}
use tcp_shift.Prelude.{
  ℕ, ◌+◌, ◌-◌, ◌*◌, ◌/◌, false, ◌&&◌, ◌||◌, Option, none, some, ltb, ◌==◌, ◌/=◌, if◌then◌else◌, u64,
  u32_max, u64_max,
}
use tcp_shift.Memory.{MemoryConfig, MemoryStats, Manager, u64_mul_sat}

-- The pages and the sizes of pages that sysconf tells, 0 for none, and the limits of two files, 0 for
-- none and the greatest number for no limit.
unfoldable pub physical_bytes : ℕ → ℕ → ℕ
physical_bytes pages page_size =
    if pages /= 0 && page_size /= 0
    then (if ltb (u64_max / page_size) pages then 0 else pages * page_size)
    else 0

unfoldable pub effective_bytes : ℕ → ℕ → ℕ → ℕ → ℕ
effective_bytes pages page_size memory_max legacy_max =
    let physical = physical_bytes pages page_size in
    let limit = if memory_max == 0 then legacy_max else memory_max in
    let limited = if physical == 0 then limit else min physical limit in
    let effective = if limit /= 0 && limit /= u64_max then limited else physical in
    if effective == 0 then 268435456 else effective

-- The bytes of pressure, at least 128 pages.
unfoldable pub pressure_of : ℕ → ℕ → ℕ
pressure_of effective_memory page_size =
    max (effective_memory / 16) (u64_mul_sat 128 (if page_size == 0 then 4096 else page_size))

-- The settings for a memory, a pressure mark and a high mark.
abbrev pub settings : ℕ → ℕ → ℕ → MemoryConfig
settings effective_memory pressure high = record {
  wmem = record {
    min_bytes = 4096;
    initial_bytes = 32768;
    max_bytes = max (min high u32_max) 32768;
  };
  mem = record {
    low_bytes = pressure - pressure / 4;
    pressure_bytes = pressure;
    high_bytes = high;
  };
  effective_memory_bytes = effective_memory;
}

unfoldable pub config_default : ℕ → ℕ → Option MemoryConfig
config_default effective_memory page_size =
    let pressure = pressure_of effective_memory page_size in
    if effective_memory == 0
    then none
    else some (settings effective_memory pressure (u64 (pressure + pressure / 2)))

abbrev pub no_memory_stats : MemoryStats
no_memory_stats = record {
  flow_inits = 0;
  flow_releases = 0;
  write_events = 0;
  write_bytes = 0;
  ack_events = 0;
  ack_bytes = 0;
  charged_bytes = 0;
  peak_charged_bytes = 0;
  pressure_enters = 0;
  pressure_exits = 0;
  high_blocks = 0;
  growth_events = 0;
  growth_bytes = 0;
  growth_suppressed = 0;
  accounting_underflows = 0;
}

unfoldable pub manager_init : MemoryConfig → Option Manager
manager_init config =
    let w = config.wmem in
    let m = config.mem in
    if w.min_bytes == 0
      || (ltb w.initial_bytes w.min_bytes
          || (ltb w.max_bytes w.initial_bytes
              || (ltb m.pressure_bytes m.low_bytes
                  || (ltb m.high_bytes m.pressure_bytes || m.high_bytes == 0))))
    then none
    else some (record { config = config; stats = no_memory_stats; pressure_active = false })
