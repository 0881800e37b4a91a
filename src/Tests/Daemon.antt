-- ===== src/Tests/Daemon.antt =====
-- main.rs: the daemon, from its configuration to what its subscribers read.
use melibea.Base.{
  ◌≡◌, refl, true, false, List, [], ◌∷◌, none, some, ok, err, All, ◌=?◌, string_eq, arith,
}
use melibea.Base.Text.{◌<>◌}
use melibea.Base.OrdMap
use melibea.Attention.{from_str, new_proportion}
use melibea.Base.Text.{trim, strip_suffix}
use melibea.Config.{
  Platform, parse, from_raw, try_from_raw_all, try_from_raw, resolve, resolve_from, rule_matches,
}
use melibea.Config.Load.{Host, configured, default_config_path}
use melibea.Executor.{PendingResizes, ingest, ingest_decision, pop_next, reset, max_by_key}
use melibea.Executor.Consistency.{IsConsistent}
use melibea.Executor.Pop.{Drains}
use melibea.Minimization
use melibea.Minimization.{MinimizedWindow, replace_snapshot, first_duplicate}
use melibea.Niri
use melibea.Niri.{
  replace_windows, replaced_engine, upsert_all, remove_all, NiriWindow, windows_changed,
  minimized_windows_changed,
}
use melibea.Protocol.Message.{Window, window_of}
use melibea.Protocol.Request.{subscribe}
use melibea.Service.Broker.{Io, ReadResult, BrokerMessage, publish_windows, client}
use melibea.Service.Broker.Mirror.{live}
use melibea.Service.Broker.Delivery.{Delivers}
use melibea.Transition.{
  focused, synchronize_focus, decision_for, new_engine, upsert_window, remove_window,
}
use melibea.Controller.{
  ingest_stream_message, ingest_event, mirror_minimized, advance_adapter, go_on,
}
use melibea.NiriIpc.Stream.{connect_stream}
use melibea.NiriIpc.Reply.{
  validate_handshake, handshake_envelope, validate_action_reply, reply_envelope,
}
use melibea.NiriIpc.Action.{connect_actions, send_width}
use melibea.Service.Socket.{socket_path, start_service}
use melibea.Controller.Watcher.{poll_if_due, new_watcher, adopt_all, last_good, adopt_all-last_good}
use melibea.Controller.Run.{
  Delivery, Channel, Ran, Progress, done, Round, apply_pending, and_then, ingest_delivery,
  drain_stream_messages, resize_next,
}
use melibea.Controller.Connection.{message, Turn, fresh_controller, run_controller_connection}
use melibea.Controller.Daemon.{publishes, Session, Life, serve, run_controller_inner}
use melibea.Controller.Alive.{Lives, run_controller_inner-Lives}
use melibea.Controller.Served.{Serves, over, published, asked, daemon-follows}
use melibea.Controller.Drained.{IsServed, apply_pending-Drains}
use melibea.Tests.Fixtures.{arithmetic, platform, config, half, fraction}
use melibea.Tests.Policy.{good, loaded}
use melibea.Tests.Ipc.{codec, transport, environment}
use melibea.Tests.Socket.{stale}

abbrev toml : Platform
toml = record platform {
  toml_from_str = λ s. elim (s =? "good") [ true ↦ ok good | false ↦ err "no TOML" ];
}

adopt_all-last_good_example :
    adopt_all toml config (new_watcher "a.toml" "bad" 0) (ok "good" ∷ err "gone" ∷ ok "worse" ∷ [])
    ≡ last_good toml config (ok "good" ∷ err "gone" ∷ ok "worse" ∷ [])
unfolding new_watcher parse
adopt_all-last_good_example =
    adopt_all-last_good toml (ok "good" ∷ err "gone" ∷ ok "worse" ∷ []) config
      (new_watcher "a.toml" "bad" 0) refl

abbrev host : Host
host = record {
  var_os = λ name. some "/run";
  join = λ base name. base <> "/" <> name;
  read_to_string = λ path. ok "good";
}

abbrev kitty : NiriWindow
kitty = record {
  id = 3;
  title = none;
  app_id = some "kitty";
  is_focused = true;
  is_floating = false;
}

abbrev parked : MinimizedWindow
parked = record { id = 4; app_id = some "kitty"; title = none }

abbrev shown : Window
shown = record { id = 4; app_id = some "kitty"; title = none; icon_name = none }

abbrev silent : Channel
silent = record { waiting = []; disconnected = false }

abbrev parks : Delivery
parks = record { takes = true; message = ok (some (minimized_windows_changed (parked ∷ []))) }

abbrev shows : Delivery
shows = record { takes = true; message = ok (some (windows_changed (kitty ∷ []))) }

abbrev round : Round
round = record { channel = silent; transport = transport }

abbrev turn : Turn
turn = record {
  received = message shows;
  channel = record { waiting = parks ∷ []; disconnected = false };
  poll = record { checked = 2000000000; polled = 2000000001; file = ok "good" };
  rounds = round ∷ [];
}

abbrev session : Session
session = record {
  attempt = record {
    events = environment;
    actions = environment;
    cancellation_handle = ok tt;
    turns = turn ∷ [];
  };
  takes = true;
}

abbrev life : Life
life = record {
  calls = publishes (shown ∷ []) ∷ [];
  widths = record { generation = 1; window_id = 3; state = focused; width = fraction half } ∷ [];
  config = loaded;
  stopped = false;
}

daemon_runs : run_controller_inner toml codec host stale 0 (session ∷ []) none ≡ ok (some life)
unfolding from_str trim strip_suffix new_proportion run_controller_inner serve configured
    default_config_path parse from_raw try_from_raw_all try_from_raw resolve socket_path
    start_service run_controller_connection connect_stream validate_handshake handshake_envelope
    validate_action_reply reply_envelope connect_actions send_width and_then ingest_delivery
    drain_stream_messages apply_pending resize_next new_watcher poll_if_due ingest_stream_message
    ingest_event mirror_minimized advance_adapter go_on replace_snapshot first_duplicate ingest
    pop_next reset max_by_key synchronize_focus decision_for new_engine upsert_window remove_window
    window_of Niri.apply Minimization.apply replace_windows replaced_engine upsert_all remove_all
    OrdMap.insert OrdMap.get OrdMap.remove ingest_decision resolve_from rule_matches
daemon_runs = refl

run_controller_inner-Lives_example : Lives toml (some life)
run_controller_inner-Lives_example =
    run_controller_inner-Lives toml codec host stale 0 (session ∷ []) none (some life) daemon_runs

abbrev io : Io
io = record {
  writes = λ k. true;
  clones = λ k. true;
  set_nonblocking = λ k mode. true;
  read = λ k. ReadResult.would_block;
  execute = λ r. err "no compositor";
}

abbrev messages : List (Io × BrokerMessage)
messages = (io, client 1 subscribe 7) ∷ (io, publish_windows (shown ∷ []) 0) ∷ []

messages-Serves : Serves (λ reason. "lost") life.calls messages
messages-Serves =
    asked io 1 subscribe 7 life.calls ((io, publish_windows (shown ∷ []) 0) ∷ [])
      (published io (shown ∷ []) 0 [] [] over)

daemon-follows_example : Delivers messages (live 1 (shown ∷ []))
daemon-follows_example =
    daemon-follows toml codec host stale 0 (session ∷ []) none life (λ reason. "lost")
      (publishes (shown ∷ []) ∷ []) [] messages daemon_runs refl messages-Serves (refl, tt)

-- A queue of one width.
abbrev queue : PendingResizes
queue = record {
  latest_generation = (3, 1) ∷ [];
  pending =
      (3, record { generation = 1; window_id = 3; state = focused; width = fraction half }) ∷ [];
}

queue-IsConsistent : IsConsistent queue
unfolding OrdMap.get
queue-IsConsistent = record { sorted = (tt, tt); keyed = λ k a h. ground (arith, h) }

round-IsServed : All (IsServed codec arithmetic) (round ∷ [])
unfolding send_width validate_action_reply reply_envelope
round-IsServed = (((refl, refl), λ id width. refl), tt)

apply_pending-Drains_example :
    (r : Ran Progress) × (apply_pending codec arithmetic
        (round ∷ [])
        (record (fresh_controller config) { pending = queue })
      ≡ some r)
    × (r.ending ≡ done)
    × (r.published ≡ [])
    × Drains queue r.state.pending r.widths
apply_pending-Drains_example =
    apply_pending-Drains codec arithmetic (round ∷ [])
      (record (fresh_controller config) { pending = queue }) round-IsServed queue-IsConsistent
      (omega arith)
