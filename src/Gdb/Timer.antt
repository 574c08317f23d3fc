-- ===== src/Gdb/Timer.antt =====
-- The debugger's turn in the machine, `timer` of src/modules/gdb/gdb.odin: a client that connects
-- or interrupts, and the session at a debug trap; its
-- `install` and `config`. The flush of the prefetch queue, the file of the memory dump and the log
-- are left out.
pub mod Session
use libretro_virtualxt.Base.{
  ℕ, zero, suc, ◌+◌, ◌^◌, Bool, true, false, ◌&&◌, ◌||◌, not, Option, none, some, List, [], ◌∷◌,
  length, ◌==◌, leb, if◌then◌else◌, u32,
}
use libretro_virtualxt.Bus.{Bus}
use libretro_virtualxt.Gdb.Link.{
  GdbState, Incoming, Listening, accept_client, open_server_socket, has_data, getc, hang_up,
}
use libretro_virtualxt.Gdb.Command.{Target}
use libretro_virtualxt.Gdb.Main.{Outcome, returned, crashed, out_of_fuel, gdb_main}
use libretro_virtualxt.Gdb.Session.{Cpu, load_registers, store_registers}

-- The server with the bus and the debug flag, and the other registers of the processor.
pub record Machine (D : Type 0) : Type 0 where
  pub target : Target D
  pub cpu : Cpu

-- How a turn ends: with the machine, or with a read past the packet buffer, or, in the model
-- alone, with no more fuel.
pub data Turn (D : Type 0) : Type 0 where
  done : Machine D → Turn D
  fault : Turn D
  unfinished : Turn D

module _ {D : Type 0} where
  -- Bytes that come while no debugger has stopped the processor.
  unfoldable pub interrupted : Bool → Target D → Target D
  interrupted readable t =
      let (byte, g) = getc t.gdb in
      if not t.debug && has_data t.gdb.client readable
      then record t { gdb = g; debug = elim byte [ none ↦ false | some c ↦ c == 3 ] }
      else t

  -- A client that connects stops the processor.
  unfoldable pub connected : Bool → Incoming → Target D → Target D
  connected ready c t =
      let (new, g) = accept_client ready c t.gdb in record t { gdb = g; debug = t.debug || new }

  -- The registers that are left to the server, and those that it leaves.
  abbrev pub enter : Machine D → Target D
  enter m = record m.target { gdb = record m.target.gdb { registers = load_registers m.cpu } }

  abbrev pub leave : Target D → Machine D
  leave t =
      let cpu = store_registers t.gdb.registers in
      record {
        target = record t { gdb = record t.gdb { current_cs = cpu.cs; current_ip = cpu.ip } };
        cpu = cpu;
      }

module _ {D : Type 0} (bus : Bus D) (stack : ℕ → ℕ) where
  -- The memory dump reads `n` addresses from `addr` on.
  unfoldable pub dump : D → ℕ → ℕ → D
  dump d addr zero = d
  dump d addr (suc n) = dump (bus.read d addr).1 (u32 (addr + 1)) n

  -- The loop over the sessions: the client is gone after a negative result, and 13 is for a dump.
  -- Every session takes the fuel that it needs.
  unfoldable pub sessions : ℕ → List ℕ → Target D → Turn D
  unfolding dump
  sessions zero buf t = unfinished
  sessions (suc fuel) buf t = elim (gdb_main bus stack (suc (length t.gdb.inbox)) buf t) [
    | returned code t' ↦
        let again = sessions fuel buf (record t' { mem = dump t'.mem 0 0x100000 }) in
        if leb (2 ^ 31) code
        then done (leave (record t' { gdb = hang_up t'.gdb; debug = false }))
        else if code == 13
        then again
        else done (leave t')
    | crashed ↦ fault
    | out_of_fuel ↦ unfinished
  ]

  -- `timer`, with what the operating system answers about a client that connects and about data
  -- that can be read.
  unfoldable pub timer : ℕ → List ℕ → Bool → Incoming → Bool → Machine D → Turn D
  timer fuel buf ready c readable m =
      let t1 = connected ready c m.target in
      let t2 = interrupted readable t1 in
      let m1 = record m { target = t1 } in
      let m2 = record m { target = t2 } in
      elim t1.gdb.client [
        | none ↦ done m1
        | some fd ↦
            if not t2.debug
            then done m2
            else if (t2.gdb.current_cs == m.cpu.cs) && (t2.gdb.current_ip == m.cpu.ip)
            then done m2
            else sessions fuel buf (enter m2)
      ]

-- `install`: what it returns, with the state and the debug flag. Waiting for a client gets the
-- client that comes.
unfoldable pub install : Bool → Listening → Incoming → GdbState → Bool × GdbState × Bool
install halt_on_startup os c g =
    let (err, g') = open_server_socket os (record g { port = 1234 }) in
    if err == 0
    then if halt_on_startup then (true, (accept_client true c g').1, true) else (true, g', false)
    else (false, g', false)

-- The messages of `config`: `halt` with a Boolean, or with a text, which may stand for one.
pub data Setting : Type 0 where
  halt : Bool → Setting
  halt_text : Option Bool → Setting
  other : Setting

-- `config` of a message for the debugger: what it returns, with `halt_on_startup`.
unfoldable pub config : Setting → Bool → Bool × Bool
config (halt v) h = (true, v)
config (halt_text none) h = (false, h)
config (halt_text (some v)) h = (true, v)
config other h = (false, h)
