-- ===== src/Gdb/Link.antt =====
-- The sockets of src/modules/gdb/gdb.c and the state that they act on. A descriptor is `none`
-- for -1. What the operating system will do on the client's connection is part of the state:
-- the bytes that `recv` will deliver before it fails, and how many bytes `send` will accept
-- before it fails. What has been sent is recorded.
use libretro_virtualxt.Base.{
  ℕ, zero, suc, Bool, true, false, Option, none, some, List, [], ◌∷◌, ◌++◌, ◌==◌, if◌then◌else◌, u8,
}

-- `struct gdb_state`, with the connection of the client. The flag `noack` is a Boolean, and
-- `registers` holds `GDB_CPU_NUM_REGISTERS` words.
pub record GdbState : Type 0 where
  pub server : Option ℕ
  pub client : Option ℕ
  pub port : ℕ
  pub current_cs : ℕ
  pub current_ip : ℕ
  pub signum : ℕ
  pub noack : Bool
  pub registers : List ℕ
  pub inbox : List ℕ
  pub room : ℕ
  pub sent : List ℕ

-- `has_data`: `ready` is whether `select` finds the descriptor readable.
unfoldable pub has_data : Option ℕ → Bool → Bool
has_data none ready = false
has_data (some fd) ready = ready

-- What the operating system answers to a client that connects: its descriptor, or none if
-- `accept` fails, with what `recv` and `send` will do on it.
pub record Incoming : Type 0 where
  pub fd : Option ℕ
  pub bytes : List ℕ
  pub space : ℕ

-- The assignment of what `accept` returns.
abbrev pub accepted : Incoming → GdbState → GdbState
accepted c s = record s { client = c.fd; inbox = c.bytes; room = c.space; sent = [] }

-- `accept_client`: whether a client was connected by this call.
unfoldable pub accept_client : Bool → Incoming → GdbState → Bool × GdbState
unfolding has_data
accept_client ready c s = elim s.client [
  | some fd ↦ (false, s)
  | none ↦ elim (has_data s.server ready) [
    | false ↦ (false, s)
    | true ↦ elim c.fd [ none ↦ (false, accepted c s) | some fd ↦ (true, accepted c s) ]
  ]
]

-- What `socket`, `bind` and `listen` return to `open_server_socket`.
pub record Listening : Type 0 where
  pub socket : Option ℕ
  pub bind : ℕ
  pub listen : ℕ

-- `open_server_socket`: 0, or the number of the step that failed.
unfoldable pub open_server_socket : Listening → GdbState → ℕ × GdbState
open_server_socket os s = elim os.socket [
  | none ↦ (1, record s { server = none })
  | some fd ↦
      ((if os.bind == 0 then if os.listen == 0 then 0 else 3 else 2), record s { server = some fd })
]

-- The state after the client's descriptor is closed.
abbrev pub hang_up : GdbState → GdbState
hang_up s = record s { client = none }

-- `gdb_sys_getc`. `*buf` is a signed char, so the byte 0xff gives `GDB_EOF`, here `none`.
unfoldable pub getc : GdbState → Option ℕ × GdbState
getc s = elim s.client [
  | none ↦ (none, hang_up s)
  | some fd ↦ elim s.inbox [
    | [] ↦ (none, hang_up s)
    | b ∷ bs ↦ ((if b == 0xff then none else some b), record s { inbox = bs })
  ]
]

-- `gdb_sys_putchar`: whether the character was sent; `GDB_EOF` is false.
unfoldable pub putchar : GdbState → ℕ → Bool × GdbState
putchar s ch = elim s.client [
  | none ↦ (false, hang_up s)
  | some fd ↦ elim s.room [
    | zero ↦ (false, hang_up s)
    | suc n ↦ (true, record s { room = n; sent = s.sent ++ (u8 ch ∷ []) })
  ]
]
