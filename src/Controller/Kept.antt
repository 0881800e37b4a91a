-- ===== src/Controller/Kept.antt =====
-- main.rs: a whole connection keeps to its configuration, and returns only what was parsed.
use melibea.Base.{
  ◌≡◌, refl, sym, subst, inl, inr, String, List, [], ◌∷◌, Option, some, Result, ok, err,
  Result-cases, Bool-cases, arith, ltb, ◌-◌, ◌=?◌, string_eq, option_eq,
}
use melibea.Config.{Config, Platform, parse}
use melibea.Executor.Consistency.{no_resizes-IsConsistent}
use melibea.Executor.Lawful.{no_resizes-IsLawfulQueue}
use melibea.NiriIpc.Action.{Codec}
use melibea.Niri.Replace.{new-Agrees}
use melibea.Transition.{new_engine}
use melibea.Controller.{Controller}
use melibea.Controller.Lawful.{IsSafe}
use melibea.Controller.Watcher.{
  ConfigWatcher, ConfigPoll, unchanged, reloaded, rejected, Poll, config_poll_interval,
  read_message, poll_unreadable, parsed_poll, poll_source, poll_now, poll_if_due,
}
use melibea.Controller.Run.{
  ConnectionError, reader_stopped, Ran, ingest_delivery, drain_stream_messages, Progress, done,
  failed, going, apply_pending,
}
use melibea.Controller.Connection.{
  Received, message, timeout, disconnected, Turn, ConnectionEnd, fails_with, fresh_controller, Next,
  unless_reloaded, after_pending, take_received, run_turns, Attempt, open_connection,
  run_controller_connection,
}
use melibea.Controller.Guarded.{
  Guarded, Reaches, after_optional-Reaches, and_then-Reaches, ingest_delivery-Guarded,
  drain-Guarded, apply_pending-Guarded,
}

module _ (p : Platform) where
  -- The configuration is what some text is parsed to.
  abbrev pub IsParsed : Config → Type 0
  IsParsed config = (source : String) × (parse p source ≡ ok config)

  abbrev pub PollsParsed : ConfigPoll → Type 0
  PollsParsed (reloaded config) = IsParsed config
  PollsParsed _ = Unit {0}

  parsed_poll-PollsParsed :
      (path source : String) → PollsParsed (parsed_poll p path (parse p source))
  unfolding parsed_poll
  parsed_poll-PollsParsed path source = elim (Result-cases (parse p source)) [
    | inl (config, e) ↦ rw (e, parsed_poll) (source, e)
    | inr (x, e) ↦ rw (e, parsed_poll) tt
  ]

  poll_now-PollsParsed :
      (w : ConfigWatcher) (file : Result String String) → PollsParsed (poll_now p w file).1
  unfolding poll_now poll_unreadable poll_source
  poll_now-PollsParsed w (err error) =
      elim (Bool-cases (w.last_read_error =? some (read_message w.path error))) [
        | inl same ↦ rw same tt
        | inr new ↦ rw new tt
      ]
  poll_now-PollsParsed w (ok source) = elim (Bool-cases (source =? w.last_seen_source)) [
    | inl same ↦ rw same tt
    | inr new ↦ rw new (parsed_poll-PollsParsed w.path source)
  ]

  poll_if_due-PollsParsed : (w : ConfigWatcher) (poll : Poll) → PollsParsed (poll_if_due p w poll).1
  unfolding poll_if_due
  poll_if_due-PollsParsed w poll =
      elim (Bool-cases (ltb (poll.checked - w.last_poll) config_poll_interval)) [
        | inl early ↦ rw early tt
        | inr due ↦ rw due (poll_now-PollsParsed (record w { last_poll = poll.polled }) poll.file)
      ]

  -- A configuration that a connection returns was parsed.
  abbrev pub ReturnsParsed : ConnectionEnd → Type 0
  ReturnsParsed end = (config : Config) → end.returned ≡ some (ok config) → IsParsed config

  fails_with-ReturnsParsed :
      (w : ConfigWatcher) (x : ConnectionError) → ReturnsParsed (fails_with w x)
  fails_with-ReturnsParsed w x config h = absurd (ground (arith, h))

  module _ (config : Config) where
    abbrev pub Keeps : Option (Ran ConnectionEnd) → Type 0
    Keeps out = Reaches config ReturnsParsed out

    abbrev pub NextKeeps : Next → Type 0
    NextKeeps next = (w : ConfigWatcher) (c : Controller) → IsSafe config c → Keeps (next w c)

    unless_reloaded-Keeps :
        (out : ConfigWatcher × ConfigPoll) (next : Next) (c : Controller)
        → PollsParsed out.1
        → IsSafe config c
        → NextKeeps next
        → Keeps (unless_reloaded out next c)
    unfolding unless_reloaded
    unless_reloaded-Keeps (w, unchanged) next c h s k = k w c s
    unless_reloaded-Keeps (w, rejected error) next c h s k = k w c s
    unless_reloaded-Keeps (w, reloaded loaded) next c h s k =
        (_, refl, (s, tt, tt), λ other e. subst IsParsed (ground (arith, e)) h)

    after_pending-Keeps :
        (out : Option (Ran Progress)) (w : ConfigWatcher) (next : Next)
        → Guarded config out
        → NextKeeps next
        → Keeps (after_pending out w next)
    after_pending-Keeps out w next (r, e, (s, sent, asked), u) k =
        subst (λ o. Keeps (after_pending o w next)) (sym e) (go r.ending refl)
      where
        go : (end : Progress) → r.ending ≡ end → Keeps (after_pending (some r) w next)
        go done f =
            unfold after_pending in
            rw (f, after_pending)
              (after_optional-Reaches config ReturnsParsed r.published r.widths _ sent asked
                (k w r.state s))
        go (failed x) f =
            unfold after_pending in
            rw (f, after_pending) (_, refl, (s, sent, asked), fails_with-ReturnsParsed w x)
        go going f =
            unfold after_pending in
            rw (f, after_pending) (_, refl, (s, sent, asked), λ other h. absurd (ground (arith, h)))

    module _ (codec : Codec) where
      take_received-Keeps :
          (x : Received) (t : Turn) (next : Next)
          → NextKeeps next
          → NextKeeps (take_received p codec x t next)
      unfolding take_received
      take_received-Keeps disconnected t next k w c s =
          (_, refl, (s, tt, tt), fails_with-ReturnsParsed w reader_stopped)
      take_received-Keeps timeout t next k w c s =
          unless_reloaded-Keeps (poll_if_due p w t.poll) next c (poll_if_due-PollsParsed w t.poll) s
            k
      take_received-Keeps (message d) t next k w c s =
          and_then-Reaches config ReturnsParsed (ingest_delivery c d) (fails_with w) _
            (ingest_delivery-Guarded config c d s) (fails_with-ReturnsParsed w)
            (λ c s.
              and_then-Reaches config ReturnsParsed (drain_stream_messages t.channel c)
                (fails_with w) _ (drain-Guarded config t.channel c s) (fails_with-ReturnsParsed w)
                (λ c s.
                  unless_reloaded-Keeps (poll_if_due p w t.poll) _ c
                    (poll_if_due-PollsParsed w t.poll) s
                    (λ w c s.
                      after_pending-Keeps (apply_pending codec p.arithmetic t.rounds c) w next
                        (apply_pending-Guarded config codec p.arithmetic t.rounds c s) k)))

      run_turns-Keeps : (turns : List Turn) → NextKeeps (run_turns p codec turns)
      unfolding run_turns
      run_turns-Keeps [] w c s = (_, refl, (s, tt, tt), λ other h. absurd (ground (arith, h)))
      run_turns-Keeps (t ∷ turns) w c s =
          take_received-Keeps t.received t (run_turns p codec turns)
            (λ w c s. run_turns-Keeps turns w c s) w c s

      fresh_controller-IsSafe : IsSafe config (fresh_controller config)
      fresh_controller-IsSafe = record {
        well = record {
          agrees = new-Agrees config;
          consistent = no_resizes-IsConsistent;
          distinct = tt;
        };
        ruled = record {
          configured = unfold new_engine in refl;
          queue = no_resizes-IsLawfulQueue config;
        };
      }

      -- A connection of the controller, whatever niri sends and answers, whatever the configuration's
      -- file contains and whether the service still answers: it never panics; its state is well formed
      -- and keeps the configuration; no list of windows that it publishes names a window twice; every
      -- width that it asks niri for is one that a rule of that configuration has for the window's state;
      -- and a configuration that it returns was parsed.
      pub run_controller_connection-Keeps :
          (a : Attempt) (w : ConfigWatcher) → Keeps (run_controller_connection p codec a config w)
      unfolding run_controller_connection
      run_controller_connection-Keeps a w = elim (Result-cases (open_connection p codec a)) [
        | inr (x, e) ↦
            rw (e, run_controller_connection)
              (_, refl, (fresh_controller-IsSafe, tt, tt), fails_with-ReturnsParsed w x)
        | inl (u, e) ↦
            rw (e, run_controller_connection)
              (run_turns-Keeps a.turns w (fresh_controller config) fresh_controller-IsSafe)
      ]
