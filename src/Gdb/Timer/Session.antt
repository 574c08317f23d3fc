-- ===== src/Gdb/Timer/Session.antt =====
-- A session that leaves the registers (`timer` of src/modules/gdb/gdb.odin).
use libretro_virtualxt.Base.{
  ℕ, suc, ◌^◌, ◌<◌, ◌≡◌, ◌≢◌, refl, sym, ap, ◌∙◌, arith, Bool, true, false, ◌&&◌, ◌||◌, not, some,
  List, length, ◌==◌, ==_ne, leb,
}
use libretro_virtualxt.Bus.{Bus}
use libretro_virtualxt.Gdb.Link.{GdbState, Incoming, accept_client, has_data}
use libretro_virtualxt.Gdb.Command.{Target}
use libretro_virtualxt.Gdb.Main.{returned, gdb_main}
use libretro_virtualxt.Gdb.Session.{load_registers, store_registers, stored_flags}
use libretro_virtualxt.Gdb.Session.Laws.{IsWide, store-load}
use libretro_virtualxt.Gdb.Timer.{Machine, done, connected, interrupted, enter, sessions, timer}

accept_same :
    (ready : Bool) (c : Incoming) (g : GdbState) (fd : ℕ)
    → g.client ≡ some fd
    → accept_client ready c g ≡ (false, g)
unfolding accept_client
accept_same ready c g fd client =
    let there : g ≡ record g { client = some fd } = ap (λ x. record g { client = x }) client in
    ap (accept_client ready c) there ∙ ap (λ h. (false, h)) (sym there)

-- With a client, and where the processor has stopped, a turn begins with nothing new.
connected_same :
    {D : Type 0} (ready : Bool) (c : Incoming) (t : Target D) (fd : ℕ)
    → t.gdb.client ≡ some fd
    → t.debug ≡ true
    → connected ready c t ≡ t
unfolding connected
connected_same ready c t fd client on =
    let still : (t.debug || false) ≡ t.debug = rw on refl in
    simp (connected, accept_same ready c t.gdb fd client) (ap (λ b. record t { debug = b }) still)

interrupted_same :
    {D : Type 0} (readable : Bool) (t : Target D) → t.debug ≡ true → interrupted readable t ≡ t
unfolding interrupted
interrupted_same readable t on =
    let stopped : (not t.debug && has_data t.gdb.client readable) ≡ false = rw on refl in
    rw (interrupted, stopped) refl

module _ {D : Type 0} (bus : Bus D) (stack : ℕ → ℕ) where
  -- If a client is connected, the processor has stopped at another place than at the last trap,
  -- its registers have 16 bits, and the session of `gdb_main` returns a result that is neither
  -- negative nor 13 and has left the registers of the server, then `timer` gives the processor
  -- back with every register as it was, but the reserved flags, which take their fixed values,
  -- and keeps its place as that of the trap.
  pub timer-resumes :
      (fuel : ℕ) (buf : List ℕ) (ready : Bool) (c : Incoming) (readable : Bool) (m : Machine D)
      (fd code : ℕ) (t' : Target D)
      → m.target.debug ≡ true
      → m.target.gdb.client ≡ some fd
      → ((m.target.gdb.current_cs == m.cpu.cs) && (m.target.gdb.current_ip == m.cpu.ip)) ≡ false
      → IsWide m.cpu
      → gdb_main bus stack (suc (length m.target.gdb.inbox)) buf (enter m) ≡ returned code t'
      → code < 2 ^ 31
      → code ≢ 13
      → t'.gdb.registers ≡ load_registers m.cpu
      → timer bus stack (suc fuel) buf ready c readable m
        ≡ done (record {
          target = record t' {
            gdb = record t'.gdb { current_cs = m.cpu.cs; current_ip = m.cpu.ip };
          };
          cpu = record m.cpu { flags = stored_flags m.cpu.flags };
        })
  unfolding timer sessions
  timer-resumes fuel buf ready c readable m fd code t' on client moved wide run small other same =
      let positive : leb (2 ^ 31) code ≡ false = ground arith in
      let back : store_registers t'.gdb.registers
          ≡ record m.cpu { flags = stored_flags m.cpu.flags } =
        ap store_registers same ∙ store-load m.cpu wide in
      let stopped : not m.target.debug ≡ false = rw on refl in
      let first = connected_same ready c m.target fd client on in
      rw
        (
          timer,
          first,
          client,
          first,
          interrupted_same readable m.target on,
          stopped,
          moved,
          sessions,
          run,
          positive,
          ==_ne code 13 other,
          back,
        )
        refl
