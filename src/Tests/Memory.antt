-- ===== src/Tests/Memory.antt =====
-- The memory of TCP senders on small inputs.
use tcp_shift.Prelude.{◌≡◌, true, false, none, some, [], ◌∷◌, arith}
use tcp_shift.Memory.{Pcb, MemoryConfig}
use tcp_shift.Memory.Config.{settings}
use tcp_shift.Memory.Account.{Sound}
use tcp_shift.Memory.Connection.{Connection, Process, World, app}
use tcp_shift.Memory.Books.{typed}
use tcp_shift.Memory.Reach.{
  writes, step, Reached, started, opened, called, start, queued, Reached-Sound,
}

abbrev open_pcb : Pcb
open_pcb = record { snd_queuelen = 0; unsent = false; unacked = false; snd_buf = 0; cwnd = 10000 }

abbrev conn : Connection
conn = record { pcb = open_pcb; sent = app none; ext = none }

abbrev config : MemoryConfig
config = settings 1000000000 62500000 93750000

abbrev world : World
world = record { has_memory = true; config = some config }

-- One connection that has written 1000 bytes.
abbrev written : Process × Connection
written = step start conn (writes world 1000 true)

thousand_charged : Reached written.0 (written.1 ∷ [])
thousand_charged =
    called start [] conn [] (opened start [] started open_pcb) (writes world 1000 true)
      (typed config (omega arith))

Reached-Sound_example :
    Sound written.0.manager × (written.0.manager.stats.charged_bytes ≡ queued (written.1 ∷ []))
Reached-Sound_example = Reached-Sound written.0 (written.1 ∷ []) thousand_charged
