-- ===== src/Memory/Connection.antt =====
-- The functions of lwip/tcp_memory.c that the bridge calls in place of lwIP's, and the memory extension
-- of a connection. What calloc and lwIP's tcp_write answer, and the configuration that the environment
-- gives, are arguments.
use tcp_shift.Prelude.{ℕ, Bool, true, false, ◌||◌, Option, none, some, ◌==◌, ◌/=◌, if◌then◌else◌}
use tcp_shift.Memory.{
  MemoryConfig, Manager, Flow, Pcb, no_flow, flow_init, flow_set_sndbuf_expand, Grown, unfit,
  as_before, bigger, flow_maybe_grow, flow_can_write, flow_note_write, flow_note_acked,
  flow_release,
}
use tcp_shift.Memory.Config.{manager_init}

-- `struct tcp_shift_lwip_tcp_memory_ext`; a callback is told by a number.
pub record Ext : Type 0 where
  pub flow : Flow
  pub app_sent : Option ℕ
  pub pending_expand_num : ℕ  -- uint32_t, as the next
  pub pending_expand_den : ℕ

-- The callback that lwIP calls for bytes acknowledged.
pub data Sent : Type 0 where
  app : Option ℕ → Sent
  dispatch : Sent

-- A connection: lwIP's state, its callback, and its extension if there is one.
pub record Connection : Type 0 where
  pub pcb : Pcb
  pub sent : Sent
  pub ext : Option Ext

abbrev pub no_ext : Ext
no_ext = record { flow = no_flow; app_sent = none; pending_expand_num = 0; pending_expand_den = 0 }

-- `tcp_shift_process_tcp_memory_state`, which is 0, 1 or -1, and the manager of the process.
pub data ProcessState : Type 0 where
  unread : ProcessState
  ready : ProcessState
  invalid : ProcessState

pub record Process : Type 0 where
  pub state : ProcessState
  pub manager : Manager

abbrev pub adopt : Process → Option Manager → Process × Bool
adopt p none = (record p { state = invalid }, false)
adopt p (some m) = (record { state = ready; manager = m }, true)

-- The manager initialised from a configuration, where the environment's texts gave one.
abbrev pub adopt_config : Process → Option MemoryConfig → Process × Bool
adopt_config p none = adopt p none
adopt_config p (some config) = adopt p (manager_init config)

abbrev pub process_init_in : ProcessState → Process → Option MemoryConfig → Process × Bool
process_init_in unread p config = adopt_config p config
process_init_in ready p config = (p, true)
process_init_in invalid p config = (p, false)

unfoldable pub process_init : Process → Option MemoryConfig → Process × Bool
process_init p config = process_init_in p.state p config

-- What a call knows of the world: whether calloc has memory, and the configuration read.
pub record World : Type 0 where
  pub has_memory : Bool
  pub config : Option MemoryConfig

abbrev pub set_ext : Connection → Ext → Connection
set_ext c e = record c { ext = some e }

abbrev pub attached_ext : Option Ext → Bool
attached_ext none = false
attached_ext (some e) = e.flow.attached

-- The extension made where there is none, `none` where calloc fails.
abbrev pub find_ext : Option Ext → Bool → Option Ext
find_ext (some e) has_memory = some e
find_ext none true = some no_ext
find_ext none false = none

-- The flow's expansion set to a ratio noted before; a failure gives the flow back.
abbrev pub keep_expand :
    Process → Manager → Flow → Pcb → Connection → Ext → Option Flow → Process × Connection × Bool
keep_expand p m flow pcb c e (some f) = (
  record p { manager = m },
  record c {
    pcb = pcb;
    ext = some (record e { flow = f; pending_expand_num = 0; pending_expand_den = 0 });
  },
  true,
)
keep_expand p m flow pcb c e none =
    let (m', f) = flow_release m flow in
    (record p { manager = m' }, record c { pcb = pcb; ext = some (record e { flow = f }) }, false)

abbrev pub apply_pending :
    Process → Connection → Ext → Option (Manager × Flow × Pcb) → Process × Connection × Bool
apply_pending p c e none = (p, set_ext c e, false)
apply_pending p c e (some (m, flow, pcb)) = keep_expand p m flow pcb c e (
    if e.pending_expand_num /= 0
    then flow_set_sndbuf_expand flow e.pending_expand_num e.pending_expand_den
    else some flow)

abbrev pub start_flow : Process → Connection → Option Ext → Process × Connection × Bool
start_flow p c none = (p, c, false)
start_flow p c (some e) = apply_pending p c e (flow_init p.manager c.pcb)

abbrev pub ensure_with : Process × Bool → Connection → World → Process × Connection × Bool
ensure_with (p, false) c w = (p, c, false)
ensure_with (p, true) c w = start_flow p c (find_ext c.ext w.has_memory)

-- The Boolean tells whether an extension with a flow is returned.
unfoldable pub ensure : Process → Connection → World → Process × Connection × Bool
ensure p c w =
    if attached_ext c.ext then (p, c, true) else ensure_with (process_init p w.config) c w

-- The bytes that lwIP took, noted.
abbrev pub note_written : Process → Connection → Ext → ℕ → Bool → Process × Connection × Bool
note_written p c e len true =
    let (m, f) = flow_note_write p.manager e.flow len in
    (record p { manager = m }, set_ext c (record e { flow = f }), true)
note_written p c e len false = (p, c, false)

-- `tcp_write` called if the flow may write; `ok` is whether it returns ERR_OK.
abbrev pub write_if :
    Process → Connection → Ext → Manager × Bool → ℕ → Bool → Process × Connection × Bool
write_if p c e (m, false) len ok = (record p { manager = m }, c, false)
write_if p c e (m, true) len ok = note_written (record p { manager = m }) c e len ok

abbrev pub write_grown : Process → Connection → Ext → Grown → ℕ → Bool → Process × Connection × Bool
write_grown p c e unfit len ok = (p, c, false)
write_grown p c e (as_before m) len ok = write_if p c e (flow_can_write m e.flow c.pcb len) len ok
write_grown p c e (bigger m f pcb) len ok =
    let e' : Ext = record e { flow = f } in
    write_if p (record c { pcb = pcb; ext = some e' }) e' (flow_can_write m f pcb len) len ok

abbrev pub write_ext : Process → Connection → Option Ext → ℕ → Bool → Process × Connection × Bool
write_ext p c none len ok = (p, c, false)
write_ext p c (some e) len ok =
    write_grown p c e
      (flow_maybe_grow p.manager e.flow c.pcb e.flow.sndbuf_expand_num e.flow.sndbuf_expand_den) len
      ok

abbrev pub write_ensured : Process × Connection × Bool → ℕ → Bool → Process × Connection × Bool
write_ensured (p, c, false) len ok = (p, c, false)
write_ensured (p, c, true) len ok = write_ext p c c.ext len ok

-- The Boolean tells whether the result is ERR_OK.
unfoldable pub memory_write : Process → Connection → World → ℕ → Bool → Process × Connection × Bool
memory_write p c w len ok = write_ensured (ensure p c w) len ok

abbrev pub dispatch_ext : Process → Connection → Option Ext → ℕ → Process × Connection × Option ℕ
dispatch_ext p c none len = (p, c, none)
dispatch_ext p c (some e) len =
    let (m, f) = flow_note_acked p.manager e.flow len in
    (record p { manager = m }, set_ext c (record e { flow = f }), e.app_sent)

-- The third part is the callback of the application that is called then.
unfoldable pub sent_dispatch : Process → Connection → ℕ → Process × Connection × Option ℕ
sent_dispatch p c len = dispatch_ext p c c.ext len

abbrev pub forget_sent : Option Ext → Option Ext
forget_sent none = none
forget_sent (some e) = some (record e { app_sent = none })

-- The callback put behind the dispatcher, or registered itself where there is no extension.
abbrev pub register : Process → Connection → Option Ext → Option ℕ → Process × Connection
register p c none sent = (p, record c { sent = app sent })
register p c (some e) sent =
    (p, record c { sent = dispatch; ext = some (record e { app_sent = sent }) })

abbrev pub register_ensured : Process × Connection × Bool → Option ℕ → Process × Connection
register_ensured (p, c, false) sent = (p, record c { sent = app sent })
register_ensured (p, c, true) sent = register p c c.ext sent

abbrev pub sent_ext : Process → Connection → World → Option Ext → Option ℕ → Process × Connection
sent_ext p c w e none = (p, record c { sent = app none; ext = forget_sent e })
sent_ext p c w (some e) (some f) = register p c (some e) (some f)
sent_ext p c w none (some f) = register_ensured (ensure p c w) (some f)

unfoldable pub memory_sent : Process → Connection → World → Option ℕ → Process × Connection
memory_sent p c w sent = sent_ext p c w c.ext sent

abbrev pub expand_flow : Connection → Ext → Option Flow → Connection × Bool
expand_flow c e none = (c, false)
expand_flow c e (some f) = (set_ext c (record e { flow = f }), true)

abbrev pub expand_ext : Connection → Option Ext → ℕ → ℕ → Connection × Bool
expand_ext c none num den = (c, false)
expand_ext c (some e) num den =
    if e.flow.attached
    then expand_flow c e (flow_set_sndbuf_expand e.flow num den)
    else (set_ext c (record e { pending_expand_num = num; pending_expand_den = den }), true)

unfoldable pub set_sndbuf_expand : Connection → World → ℕ → ℕ → Connection × Bool
set_sndbuf_expand c w num den =
    if num == 0 || den == 0 then (c, false) else expand_ext c (find_ext c.ext w.has_memory) num den

abbrev pub destroy_ext : Process → Connection → Option Ext → Process × Connection
destroy_ext p c none = (p, c)
destroy_ext p c (some e) =
    let (m, f) = flow_release p.manager e.flow in
    (record p { manager = m }, record c { ext = none })

-- lwIP frees a connection.
unfoldable pub destroyed : Process → Connection → Process × Connection
destroyed p c = destroy_ext p c c.ext
