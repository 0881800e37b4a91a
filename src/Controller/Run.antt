-- ===== src/Controller/Run.antt =====
-- main.rs: the loops of the controller. The thread that reads niri's events, the clock, the file of the
-- configuration and niri's answers to actions are data: one entry for each time that a loop asks, so a
-- run that is still going has used up its entries. `none` is a panic.
use melibea.Base.{
  Bool, true, false, String, List, [], ◌∷◌, ◌++◌, Option, none, some, Result, ok, err, map_err,
  if◌then◌else◌,
}
use melibea.Base.Float.{Arithmetic}
use melibea.Executor.{ResizeAction, no_pending, pop_next}
use melibea.Niri.{NiriEvent}
use melibea.NiriIpc.{Transport}
use melibea.NiriIpc.Reply.{NiriIpcError, NiriActionError}
use melibea.NiriIpc.Action.{Codec, send_width}
use melibea.Protocol.Message.{Window}
use melibea.Controller.{Controller, ControllerError, ingest_stream_message}

-- A message of the event reader, and whether the service takes what is published for it.
pub record Delivery : Type 0 where
  pub takes : Bool
  pub message : Result String (Option NiriEvent)

-- What the channel gives until it is empty or found to be disconnected.
pub record Channel : Type 0 where
  pub waiting : List Delivery
  pub disconnected : Bool

pub data ConnectionError : Type 0 where
  no_event_stream : NiriIpcError → ConnectionError
  no_action_client : NiriActionError → ConnectionError
  no_cancellation_handle : String → ConnectionError
  not_ingested : ControllerError → ConnectionError
  reader_stopped : ConnectionError
  not_resized : ResizeAction → NiriActionError → ConnectionError

-- The state that a loop leaves, the lists that it published, the widths that it asked niri for, and
-- how it ended.
pub record Ran {ℓ} (A : Type ℓ) : Type ℓ where
  pub state : Controller
  pub published : List (List Window)
  pub widths : List ResizeAction
  pub ending : A

-- The same after earlier steps.
abbrev pub after {ℓ} : {A : Type ℓ} → List (List Window) → List ResizeAction → Ran A → Ran A
after published widths r = record r {
  published = published ++ r.published;
  widths = widths ++ r.widths;
}

abbrev pub after_optional {ℓ} :
    {A : Type ℓ} → List (List Window) → List ResizeAction → Option (Ran A) → Option (Ran A)
after_optional published widths none = none
after_optional published widths (some r) = some (after published widths r)

abbrev pub ends {ℓ} : {A : Type ℓ} → Controller → A → Ran A
ends c a = record { state = c; published = []; widths = []; ending = a }

abbrev pub Outcome : Type 0
Outcome = Result ConnectionError (Unit {0})

-- `ingest_stream_message`, by its outcome.
unfoldable pub ingest_delivery : Controller → Delivery → Option (Ran Outcome)
ingest_delivery c d = elim (ingest_stream_message d.takes c d.message) [
  | none ↦ none
  | some i ↦ some (record {
    state = i.state;
    published = i.published;
    widths = [];
    ending = map_err not_ingested i.result;
  })
]

-- A step, then the next unless it failed: the `?` between two calls.
unfoldable pub and_then {ℓ} :
    {A : Type ℓ}
    → Option (Ran Outcome)
    → (ConnectionError → A)
    → (Controller → Option (Ran A))
    → Option (Ran A)
and_then none fail next = none
and_then (some r) fail next = elim r.ending [
  | err e ↦
      some (record { state = r.state; published = r.published; widths = r.widths; ending = fail e })
  | ok _ ↦ after_optional r.published r.widths (next r.state)
]

unfoldable pub drain_from : List Delivery → Bool → Controller → Option (Ran Outcome)
unfolding ingest_delivery and_then
drain_from [] disconnected c = some (ends c (if disconnected then err reader_stopped else ok tt))
drain_from (d ∷ waiting) disconnected c =
    and_then (ingest_delivery c d) err (drain_from waiting disconnected)

unfoldable pub drain_stream_messages : Channel → Controller → Option (Ran Outcome)
unfolding drain_from
drain_stream_messages channel c = drain_from channel.waiting channel.disconnected c

-- The end of the loop over the queue: it is done, a step failed, or it is still going.
pub data Progress : Type 0 where
  done : Progress
  failed : ConnectionError → Progress
  going : Progress

-- One round of that loop: what is drained first, and niri's answers to the action.
pub record Round : Type 0 where
  pub channel : Channel
  pub transport : Transport

module _ (codec : Codec) (arithmetic : Arithmetic) where
  -- The rest of a round, from `pop_next` on.
  unfoldable pub resize_next :
      Transport → (Controller → Option (Ran Progress)) → Controller → Option (Ran Progress)
  resize_next t next c =
      let popped = pop_next c.pending in
      let c' : Controller = record c { pending = popped.0 } in
      elim popped.1 [
        | none ↦ some (ends c' done)
        | some action ↦ elim (send_width codec arithmetic t action.window_id action.width) [
          | err e ↦ some (after [] (action ∷ []) (ends c' (failed (not_resized action e))))
          | ok _ ↦ after_optional [] (action ∷ []) (next c')
        ]
      ]

  -- The loop over the queue.
  unfoldable pub apply_pending : List Round → Controller → Option (Ran Progress)
  unfolding drain_stream_messages and_then resize_next
  apply_pending [] c = some (ends c (if no_pending c.pending then done else going))
  apply_pending (r ∷ rounds) c = elim (no_pending c.pending) [
    | true ↦ some (ends c done)
    | false ↦
        and_then (drain_stream_messages r.channel c) failed
          (resize_next r.transport (apply_pending rounds))
  ]
