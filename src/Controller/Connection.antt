-- ===== src/Controller/Connection.antt =====
-- main.rs: one connection of the controller to niri, from connecting to the error or the reloaded
-- configuration that ends it.
use melibea.Base.{
  Bool, true, false, if◌then◌else◌, String, List, [], ◌∷◌, Option, none, some, Result, ok, err,
  map_err, ◌>>=◌, ◌>>◌,
}
use melibea.Config.{Config, Platform}
use melibea.Executor.{no_resizes}
use melibea.Minimization.{empty_registry}
use melibea.Niri.{NiriEvent, new_adapter}
use melibea.NiriIpc.Reply.{NiriIpcError, ipc_error_text}
use melibea.NiriIpc.{Environment}
use melibea.NiriIpc.Stream.{connect_stream}
use melibea.NiriIpc.Action.{Codec, connect_actions}
use melibea.Controller.{Controller}
use melibea.Controller.Watcher.{
  ConfigWatcher, ConfigPoll, unchanged, reloaded, rejected, Poll, poll_if_due,
}
use melibea.Controller.Run.{
  Delivery, Channel, ConnectionError, no_event_stream, no_action_client, no_cancellation_handle,
  reader_stopped, Ran, after_optional, ends, ingest_delivery, and_then, drain_stream_messages,
  Progress, done, failed, going, Round, apply_pending,
}

-- What `recv_timeout` gives.
pub data Received : Type 0 where
  message : Delivery → Received
  timeout disconnected : Received

-- What one round of the loop over the messages asks for.
pub record Turn : Type 0 where
  pub received : Received
  pub channel : Channel
  pub poll : Poll
  pub rounds : List Round

-- The watcher, and what is returned unless the run is still going.
pub record ConnectionEnd : Type 0 where
  pub watcher : ConfigWatcher
  pub returned : Option (Result ConnectionError Config)

abbrev pub fails_with : ConfigWatcher → ConnectionError → ConnectionEnd
fails_with w e = record { watcher = w; returned = some (err e) }

abbrev pub fresh_controller : Config → Controller
fresh_controller config = record {
  adapter = new_adapter config;
  pending = no_resizes;
  minimized = empty_registry;
}

abbrev pub Next : Type 0
Next = ConfigWatcher → Controller → Option (Ran ConnectionEnd)

-- After a poll: the end for a reloaded configuration, and otherwise what follows.
unfoldable pub unless_reloaded :
    ConfigWatcher × ConfigPoll → Next → Controller → Option (Ran ConnectionEnd)
unless_reloaded (w, unchanged) next c = next w c
unless_reloaded (w, rejected error) next c = next w c
unless_reloaded (w, reloaded config) next c =
    some (ends c (record { watcher = w; returned = some (ok config) }))

-- After the loop over the queue.
unfoldable pub after_pending :
    Option (Ran Progress) → ConfigWatcher → Next → Option (Ran ConnectionEnd)
after_pending none w next = none
after_pending (some r) w next = elim r.ending [
  | done ↦ after_optional r.published r.widths (next w r.state)
  | failed e ↦ some (record {
    state = r.state;
    published = r.published;
    widths = r.widths;
    ending = fails_with w e;
  })
  | going ↦ some (record {
    state = r.state;
    published = r.published;
    widths = r.widths;
    ending = record { watcher = w; returned = none };
  })
]

-- What the two connections and the handle for the reader thread come to, and the rounds that follow.
pub record Attempt : Type 0 where
  pub events : Environment
  pub actions : Environment
  pub cancellation_handle : Result String (Unit {0})
  pub turns : List Turn

-- A read after which the reader thread ends: all but an event.
abbrev is_terminal : Result String (Option NiriEvent) → Bool
is_terminal (ok (some event)) = false
is_terminal _ = true

-- The thread of `spawn_event_reader`: the messages that it sends for what it reads, as long as they are
-- received.
unfoldable pub reader_messages :
    List (Result NiriIpcError (Option NiriEvent)) → List (Result String (Option NiriEvent))
reader_messages [] = []
reader_messages (read ∷ reads) =
    let message = map_err ipc_error_text read in
    let rest = reader_messages reads in message ∷ (if is_terminal message then [] else rest)

module _ (p : Platform) (codec : Codec) where
  -- After `recv_timeout`.
  unfoldable pub take_received : Received → Turn → Next → Next
  unfolding unless_reloaded after_pending
  take_received disconnected t next w c = some (ends c (fails_with w reader_stopped))
  take_received timeout t next w c = unless_reloaded (poll_if_due p w t.poll) next c
  take_received (message d) t next w c = and_then (ingest_delivery c d) (fails_with w) (λ c.
      and_then (drain_stream_messages t.channel c) (fails_with w) (λ c.
        unless_reloaded (poll_if_due p w t.poll)
          (λ w c. after_pending (apply_pending codec p.arithmetic t.rounds c) w next) c))

  unfoldable pub run_turns : List Turn → Next
  unfolding take_received
  run_turns [] w c = some (ends c (record { watcher = w; returned = none }))
  run_turns (t ∷ turns) w c = take_received t.received t (run_turns turns) w c

  -- The two connections and `spawn_event_reader`.
  unfoldable pub open_connection : Attempt → Result ConnectionError (Unit {0})
  open_connection a =
      map_err no_event_stream (connect_stream codec.json a.events)
      >> (map_err no_action_client (connect_actions a.actions) >>= λ t.
          map_err no_cancellation_handle a.cancellation_handle)

  unfoldable pub run_controller_connection :
      Attempt → Config → ConfigWatcher → Option (Ran ConnectionEnd)
  unfolding open_connection run_turns
  run_controller_connection a config w = elim (open_connection a) [
    | err e ↦ some (ends (fresh_controller config) (fails_with w e))
    | ok _ ↦ run_turns a.turns w (fresh_controller config)
  ]
