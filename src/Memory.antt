-- ===== src/Memory.antt =====
-- The memory of TCP senders, lwip/tcp_memory.h and lwip/tcp_memory.c: what a flow may queue, and what
-- all flows have queued. One manager serves the process; a flow points to it or to none, `attached`.
-- `Config` has its settings, `Connection` the functions that stand between the bridge and lwIP.
pub mod Config
pub mod Connection
pub mod Account
pub mod Grants
pub mod Books
pub mod Writes
pub mod Calls
pub mod Reach
pub mod Defaults
use tcp_shift.Prelude.{
  ℕ, ◌+◌, ◌-◌, ◌*◌, ◌/◌, Bool, true, false, not, ◌&&◌, ◌||◌, Option, none, some, ltb, leb, ◌==◌,
  ◌/=◌, if◌then◌else◌, u64, u32_max, u64_max,
}
use Prim.Native.Nat.{min, max}

-- `struct tcp_shift_tcp_wmem_policy`
pub record Wmem : Type 0 where
  pub min_bytes : ℕ  -- uint32_t, as the next two
  pub initial_bytes : ℕ
  pub max_bytes : ℕ

-- `struct tcp_shift_tcp_mem_policy`
pub record Mem : Type 0 where
  pub low_bytes : ℕ  -- uint64_t, as the next two
  pub pressure_bytes : ℕ
  pub high_bytes : ℕ

-- `struct tcp_shift_tcp_memory_config`
pub record MemoryConfig : Type 0 where
  pub wmem : Wmem
  pub mem : Mem
  pub effective_memory_bytes : ℕ  -- uint64_t

-- `struct tcp_shift_tcp_memory_stats`, all of uint64_t
pub record MemoryStats : Type 0 where
  pub flow_inits : ℕ
  pub flow_releases : ℕ
  pub write_events : ℕ
  pub write_bytes : ℕ
  pub ack_events : ℕ
  pub ack_bytes : ℕ
  pub charged_bytes : ℕ
  pub peak_charged_bytes : ℕ
  pub pressure_enters : ℕ
  pub pressure_exits : ℕ
  pub high_blocks : ℕ
  pub growth_events : ℕ
  pub growth_bytes : ℕ
  pub growth_suppressed : ℕ
  pub accounting_underflows : ℕ

-- `struct tcp_shift_tcp_memory_manager`
pub record Manager : Type 0 where
  pub config : MemoryConfig
  pub stats : MemoryStats
  pub pressure_active : Bool

-- `struct tcp_shift_tcp_memory_flow`
pub record Flow : Type 0 where
  pub attached : Bool  -- the pointer to the manager
  pub capacity_bytes : ℕ  -- uint32_t, as the next two
  pub sndbuf_expand_num : ℕ
  pub sndbuf_expand_den : ℕ
  pub queued_bytes : ℕ  -- uint64_t

-- The fields of lwIP's `struct tcp_pcb` that are read or written here; of the two lists of segments
-- only whether there are any.
pub record Pcb : Type 0 where
  pub snd_queuelen : ℕ
  pub unsent : Bool
  pub unacked : Bool
  pub snd_buf : ℕ
  pub cwnd : ℕ

abbrev pub no_flow : Flow
no_flow = record {
  attached = false;
  capacity_bytes = 0;
  sndbuf_expand_num = 0;
  sndbuf_expand_den = 0;
  queued_bytes = 0;
}

unfoldable pub u64_mul_sat : ℕ → ℕ → ℕ
u64_mul_sat value multiplier =
    if value /= 0 && ltb (u64_max / value) multiplier then u64_max else value * multiplier

unfoldable pub update_pressure : Manager → Manager
update_pressure m =
    if not m.pressure_active && leb m.config.mem.pressure_bytes m.stats.charged_bytes
    then record m {
      pressure_active = true;
      stats = record m.stats { pressure_enters = u64 (m.stats.pressure_enters + 1) };
    }
    else if m.pressure_active && leb m.stats.charged_bytes m.config.mem.low_bytes
    then record m {
      pressure_active = false;
      stats = record m.stats { pressure_exits = u64 (m.stats.pressure_exits + 1) };
    }
    else m

-- A flow for a connection that queues nothing yet; `none` is -1.
unfoldable pub flow_init : Manager → Pcb → Option (Manager × Flow × Pcb)
flow_init m pcb =
    if pcb.snd_queuelen /= 0 || (pcb.unsent || pcb.unacked)
    then none
    else some (
      record m { stats = record m.stats { flow_inits = u64 (m.stats.flow_inits + 1) } },
      record {
        attached = true;
        capacity_bytes = m.config.wmem.initial_bytes;
        sndbuf_expand_num = 2;
        sndbuf_expand_den = 1;
        queued_bytes = 0;
      },
      record pcb { snd_buf = m.config.wmem.initial_bytes },
    )

unfoldable pub flow_set_sndbuf_expand : Flow → ℕ → ℕ → Option Flow
flow_set_sndbuf_expand flow num den =
    if not flow.attached || (num == 0 || den == 0)
    then none
    else some (record flow { sndbuf_expand_num = num; sndbuf_expand_den = den })

-- The results -1, 0 and 1 of `maybe_grow`, with what it changes.
pub data Grown : Type 0 where
  unfit : Grown
  as_before : Manager → Grown
  bigger : Manager → Flow → Pcb → Grown

-- The capacity wished for, held between the initial and the greatest one.
unfoldable pub growth_target : Manager → Pcb → ℕ → ℕ → ℕ
growth_target m pcb num den =
    min (max (u64_mul_sat pcb.cwnd num / den) m.config.wmem.initial_bytes) m.config.wmem.max_bytes

unfoldable pub flow_maybe_grow : Manager → Flow → Pcb → ℕ → ℕ → Grown
flow_maybe_grow m flow pcb num den =
    let target = growth_target m pcb num den in
    let delta = target - flow.capacity_bytes in
    if not flow.attached || (num == 0 || den == 0)
    then unfit
    else if leb target flow.capacity_bytes
    then as_before m
    else if m.pressure_active
    then as_before (record m {
      stats = record m.stats { growth_suppressed = u64 (m.stats.growth_suppressed + 1) };
    })
    else if ltb u32_max (pcb.snd_buf + delta)
    then unfit
    else bigger
        (record m {
          stats = record m.stats {
            growth_events = u64 (m.stats.growth_events + 1);
            growth_bytes = u64 (m.stats.growth_bytes + delta);
          };
        })
        (record flow { capacity_bytes = target }) (record pcb { snd_buf = pcb.snd_buf + delta })

unfoldable pub flow_can_write : Manager → Flow → Pcb → ℕ → Manager × Bool
flow_can_write m flow pcb bytes =
    if not flow.attached
    then (m, false)
    else if bytes == 0
    then (m, true)
    else if ltb pcb.snd_buf bytes
    then (m, false)
    else if ltb m.config.mem.high_bytes m.stats.charged_bytes
        || ltb (m.config.mem.high_bytes - m.stats.charged_bytes) bytes
    then (
      record m { stats = record m.stats { high_blocks = u64 (m.stats.high_blocks + 1) } },
      false,
    )
    else (m, true)

unfoldable pub flow_note_write : Manager → Flow → ℕ → Manager × Flow
flow_note_write m flow bytes =
    if not flow.attached || bytes == 0
    then (m, flow)
    else let charged = u64 (m.stats.charged_bytes + bytes) in
      (
        update_pressure (record m {
          stats = record m.stats {
            charged_bytes = charged;
            write_events = u64 (m.stats.write_events + 1);
            write_bytes = u64 (m.stats.write_bytes + bytes);
            peak_charged_bytes = max m.stats.peak_charged_bytes charged;
          };
        }),
        record flow { queued_bytes = u64 (flow.queued_bytes + bytes) },
      )

-- What is taken off the accounts for bytes acknowledged, and how often less than these.
unfoldable pub settled : Manager → Flow → ℕ → ℕ
settled m flow bytes = min (min bytes flow.queued_bytes) m.stats.charged_bytes

unfoldable pub underflows : Manager → Flow → ℕ → ℕ
underflows m flow bytes =
    (if ltb flow.queued_bytes bytes then 1 else 0)
    + (if ltb m.stats.charged_bytes (min bytes flow.queued_bytes) then 1 else 0)

unfoldable pub flow_note_acked : Manager → Flow → ℕ → Manager × Flow
flow_note_acked m flow bytes =
    let amount = settled m flow bytes in
    if not flow.attached || bytes == 0 then (m, flow) else (
      update_pressure (record m {
        stats = record m.stats {
          accounting_underflows = u64 (m.stats.accounting_underflows + underflows m flow bytes);
          charged_bytes = m.stats.charged_bytes - amount;
          ack_events = u64 (m.stats.ack_events + 1);
          ack_bytes = u64 (m.stats.ack_bytes + amount);
        };
      }),
      record flow { queued_bytes = flow.queued_bytes - amount },
    )

unfoldable pub flow_release : Manager → Flow → Manager × Flow
flow_release m flow = if not flow.attached then (m, flow) else (
  update_pressure (record m {
    stats = record m.stats {
      accounting_underflows =
          if ltb m.stats.charged_bytes flow.queued_bytes
          then u64 (m.stats.accounting_underflows + 1)
          else m.stats.accounting_underflows;
      charged_bytes = m.stats.charged_bytes - min flow.queued_bytes m.stats.charged_bytes;
      flow_releases = u64 (m.stats.flow_releases + 1);
    };
  }),
  no_flow,
)
