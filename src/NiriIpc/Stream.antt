-- ===== src/NiriIpc/Stream.antt =====
-- niri_ipc.rs: `NiriEventStream`, which asks niri for its events and reads them.
use melibea.Base.{String, Option, none, some, Result, ok, err, map_err, ◌>>=◌, ◌>>◌, if◌then◌else◌}
use melibea.Base.Text.{text_is_empty}
use melibea.Base.Json.{Json}
use melibea.Niri.{NiriEvent}
use melibea.Niri.Parse.{Payloads, parse_event_line}
use melibea.NiriIpc.{Transport, Environment}
use melibea.NiriIpc.Reply.{
  NiriIpcError, missing_socket_environment, connect, write_request, read_handshake,
  closed_during_handshake, shutdown_write, read_event, invalid_event, validate_handshake,
}

module _ (j : Json) where
  -- From the reply of `read_line` on.
  unfoldable pub finish_handshake : Transport → String → Result NiriIpcError (Unit {0})
  finish_handshake t reply =
      if text_is_empty reply
      then err closed_during_handshake
      else (validate_handshake j reply >> map_err shutdown_write t.shutdown_write)

  -- `NiriEventStream::start`
  unfoldable pub start : Transport → Result NiriIpcError (Unit {0})
  unfolding finish_handshake
  start t =
      map_err write_request (t.write_all "\"EventStream\"\n")
      >> map_err write_request t.flush
      >> (map_err read_handshake t.read_line >>= finish_handshake t)

  -- `NiriEventStream::connect_to`
  unfoldable pub connect_to : Environment → String → Result NiriIpcError (Unit {0})
  unfolding start
  connect_to env path = map_err (connect path) (env.connect path) >>= start

  -- `NiriEventStream::connect`
  unfoldable pub connect_stream : Environment → Result NiriIpcError (Unit {0})
  unfolding connect_to
  connect_stream env = elim env.socket [
    | none ↦ err missing_socket_environment
    | some path ↦ connect_to env path
  ]

  module _ (p : Payloads j) where
    -- `NiriEventStream::read_event`, for what `read_line` gives.
    unfoldable pub read_stream_event : Result String String → Result NiriIpcError (Option NiriEvent)
    read_stream_event input = map_err read_event input >>= λ line.
        if text_is_empty line
        then ok none
        else (map_err invalid_event (parse_event_line j p line) >>= λ event. ok (some event))
