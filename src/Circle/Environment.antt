-- ===== src/Circle/Environment.antt =====
-- What tools/circle/kernel/kernel.cpp gives to the core: retro_environment, and log_printf. A
-- message is given with its arguments put in.
pub mod Laws
use libretro_virtualxt.Base.{
  ℕ, zero, suc, ◌+◌, ◌==◌, Bool, true, false, not, Option, none, some, List, [], ◌∷◌, ◌++◌,
  if◌then◌else◌,
}

-- `RETRO_LOG_DEBUG`, `_INFO`, `_WARN`, `_ERROR`, and any other level.
abbrev log_debug : ℕ
log_debug = 0

abbrev log_info : ℕ
log_info = 1

abbrev log_warn : ℕ
log_warn = 2

abbrev log_error : ℕ
log_error = 3

-- The prefix of a level.
unfoldable pub prefix : ℕ → List ℕ
prefix level =
    if level == log_debug
    then b'[' ∷ b'D' ∷ b'E' ∷ b'B' ∷ b'U' ∷ b'G' ∷ b']' ∷ b' ' ∷ []
    else if level == log_info
    then b'[' ∷ b'I' ∷ b'N' ∷ b'F' ∷ b'O' ∷ b']' ∷ b' ' ∷ []
    else if level == log_warn
    then b'[' ∷ b'W' ∷ b'A' ∷ b'R' ∷ b'N' ∷ b'I' ∷ b'N' ∷ b'G' ∷ b']' ∷ b' ' ∷ []
    else if level == log_error
    then b'[' ∷ b'E' ∷ b'R' ∷ b'R' ∷ b'O' ∷ b'R' ∷ b']' ∷ b' ' ∷ []
    else []

abbrev pub new_line : ℕ
new_line = 10

-- The last character; the text is read before its start if it is empty.
abbrev pub last : List ℕ → Option ℕ
last [] = none
last (x ∷ []) = some x
last (x ∷ y ∷ xs) = last (y ∷ xs)

-- `log_printf`: the log file with the line at its end, or none for the read before the start.
unfoldable pub log_printf : ℕ → List ℕ → List ℕ → Option (List ℕ)
log_printf level msg file =
    let line = prefix level ++ msg in
    elim (last line) [
      | none ↦ none
      | some c ↦ some (file ++ (if not (c == new_line) then line ++ (new_line ∷ []) else line))
    ]

-- `no_log_printf`.
unfoldable no_log_printf : ℕ → List ℕ → List ℕ → Option (List ℕ)
no_log_printf level msg file = some file

-- The commands of libretro that are answered.
abbrev get_log_interface : ℕ
get_log_interface = 27

abbrev set_pixel_format : ℕ
set_pixel_format = 10

abbrev set_frame_time_callback : ℕ
set_frame_time_callback = 21

abbrev get_save_directory : ℕ
get_save_directory = 31

abbrev get_vfs_interface : ℕ
get_vfs_interface = 0x1002d

-- What is written for the core, if anything: the log function, `DRIVE`, or the file functions.
pub data Reply : Type 0 where
  no_reply : Reply
  log : Bool → Reply
  drive : Reply
  vfs : Reply

-- `enable_logging` and `frame_time`, whose callback is a number.
pub record Environment : Type 0 where
  pub enable_logging : Bool
  pub frame_time : ℕ

-- `retro_environment`, with the callback that the core passes.
unfoldable retro_environment : ℕ → ℕ → Environment → Bool × Reply × Environment
retro_environment cmd callback e =
    if cmd == get_log_interface
    then (true, log e.enable_logging, e)
    else if cmd == set_pixel_format
    then (true, no_reply, e)
    else if cmd == set_frame_time_callback
    then (true, no_reply, record e { frame_time = callback })
    else if cmd == get_save_directory
    then (true, drive, e)
    else if cmd == get_vfs_interface
    then (true, vfs, e)
    else (false, no_reply, e)
