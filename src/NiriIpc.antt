-- ===== src/NiriIpc.antt =====
-- niri_ipc.rs: the two connections to niri, one for its events and one for actions. What the operating
-- system answers on a connection is an argument; a failure is known by its text, and so is a path.
pub mod Reply
pub mod Stream
pub mod Action
pub mod Sent
use melibea.Base.{ℕ, String, Option, Result}

-- The answers on one connection while one operation runs. A line that `read_line` gives is empty exactly
-- if no byte was read.
pub record Transport : Type 0 where
  pub write_all : String → Result String (Unit {0})
  pub flush : Result String (Unit {0})
  pub read_line : Result String String
  pub shutdown_write : Result String (Unit {0})

abbrev pub niri_socket_env : String
niri_socket_env = "NIRI_SOCKET"

-- The value of that variable, and the connection to a path.
pub record Environment : Type 0 where
  pub socket : Option String
  pub connect : String → Result String Transport

pub data NiriWindowActionStatus : Type 0 where
  applied already_in_requested_state close_requested window_not_found blocked legacy_handled :
      NiriWindowActionStatus

pub record NiriWindowActionResult : Type 0 where
  pub requested_id : Option ℕ
  pub window_id : Option ℕ
  pub status : NiriWindowActionStatus

pub data ActionReply : Type 0 where
  handled : ActionReply
  window : NiriWindowActionResult → ActionReply
