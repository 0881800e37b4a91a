-- ===== src/Cli/Loops.antt =====
-- main.rs: `observe` and `subscribe`, which print what they read until it ends. A run that is still going
-- has used up its reads.
use melibea.Base.{String, List, [], ◌∷◌, Option, none, some, Result, ok, err, map_err, ◌>>=◌}
use melibea.Base.Json.{Json}
use melibea.Config.{Platform}
use melibea.Config.Load.{Host, ConfiguredError, configured}
use melibea.Niri
use melibea.Niri.{NiriEvent, NiriAdapter, NiriAdapterError, new_adapter}
use melibea.Niri.Parse.{event_name}
use melibea.NiriIpc.{Environment}
use melibea.NiriIpc.Reply.{NiriIpcError}
use melibea.NiriIpc.Stream.{connect_stream}
use melibea.Protocol.Message.{ServerMessage}
use melibea.Protocol.Request.{v1_request, subscribe}
use melibea.Service.Client.{
  ClientError, ClientIo, Subscription, from_environment, subscribe_versioned, read_subscription,
}
use melibea.Transition.{FocusTransition}
use melibea.Cli.Status.{Read}

pub data ObserveError : Type 0 where
  not_configured : ConfiguredError → ObserveError
  not_connected : NiriIpcError → ObserveError
  stream_closed : ObserveError
  stream_failed : NiriIpcError → ObserveError
  not_applied : String → NiriAdapterError → ObserveError

-- What was printed, each transition with the name of its event, and why it ended.
pub record Observed : Type 0 where
  pub printed : List (String × FocusTransition)
  pub adapter : NiriAdapter
  pub ending : Option ObserveError

abbrev stops : NiriAdapter → ObserveError → Observed
stops a e = record { printed = []; adapter = a; ending = some e }

abbrev print_transition : String → Option FocusTransition → Observed → Observed
print_transition name none rest = rest
print_transition name (some t) rest = record rest { printed = (name, t) ∷ rest.printed }

-- What follows an event that is read, with the rest of the loop.
unfoldable pub observe_event : NiriAdapter → NiriEvent → (NiriAdapter → Observed) → Observed
observe_event a event rest =
    let out = Niri.apply a event in
    elim out.1 [
      | err e ↦ stops out.0 (not_applied (event_name event) e)
      | ok t ↦ print_transition (event_name event) t (rest out.0)
    ]

-- The loop of `observe`.
unfoldable pub observe_loop : List Read → NiriAdapter → Observed
unfolding observe_event
observe_loop [] a = record { printed = []; adapter = a; ending = none }
observe_loop (ok (some event) ∷ reads) a = observe_event a event (observe_loop reads)
observe_loop (ok none ∷ reads) a = stops a stream_closed
observe_loop (err e ∷ reads) a = stops a (stream_failed e)

unfoldable pub observe :
    Platform → Json → Host → Environment → List Read → Option String → Result ObserveError Observed
unfolding observe_loop
observe p j h env reads given = do
  loaded ← map_err not_configured (configured p h given)
  _ ← map_err not_connected (connect_stream j env)
  ok (observe_loop reads (new_adapter loaded.config))

pub data SubscribeError : Type 0 where
  client : ClientError → SubscribeError
  not_encoded : String → SubscribeError

module _ (decode : String → Result String ServerMessage)
    (encode : ServerMessage → Result String String) where
  -- A message on its line, then the rest of the loop.
  abbrev print_line :
      Result String String
      → List String × Option SubscribeError
      → List String × Option SubscribeError
  print_line (err e) rest = ([], some (not_encoded e))
  print_line (ok line) rest = (line ∷ rest.0, rest.1)

  abbrev print_read :
      Result ClientError ServerMessage
      → List String × Option SubscribeError
      → List String × Option SubscribeError
  print_read (err e) rest = ([], some (client e))
  print_read (ok message) rest = print_line (encode message) rest

  -- The loop of `service_subscribe`: the printed lines, and why it ended.
  unfoldable pub subscribe_loop :
      Subscription → List (Result String String) → List String × Option SubscribeError
  subscribe_loop s [] = ([], none)
  subscribe_loop s (input ∷ inputs) =
      print_read (read_subscription decode s input) (subscribe_loop s inputs)

  unfoldable pub service_subscribe :
      Host
      → ClientIo
      → List (Result String String)
      → Result ClientError (List String × Option SubscribeError)
  unfolding subscribe_loop
  service_subscribe h io inputs = do
    c ← from_environment h
    s ← subscribe_versioned decode c io (v1_request subscribe)
    ok (subscribe_loop s inputs)
