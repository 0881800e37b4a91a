-- ===== src/Controller/Alive.antt =====
-- main.rs: what the whole daemon keeps to, over any number of connections and reloaded configurations.
use melibea.Base.{
  ℕ, ◌≡◌, refl, ap, subst, inl, inr, Bool, true, false, String, List, [], ◌∷◌, ◌++◌, Option, some,
  ok, err, map, Result-cases, Option-cases, All, All-append, All-weaken, All-get_elem?, arith,
}
use melibea.Base.Vec.Keyed.{IsDistinct}
use melibea.Attention.{WidthPolicy, width_for}
use melibea.Attention.Bounds.{InRange}
use melibea.Config.{Config, Platform, AttentionRule, parse, from_raw}
use melibea.Config.Load.{Host, LoadedConfig, configured, path_or_default, load_with_source}
use melibea.Config.Validate.{IsValidRule, from_raw-ok}
use melibea.Executor.{ResizeAction}
use melibea.Executor.Lawful.{IsRuleAction}
use melibea.NiriIpc.Action.{Codec}
use melibea.Protocol.Message.{Window, window_id}
use melibea.Service.Socket.{SocketIo}
use melibea.Transition.{is_focused}
use melibea.Controller.Watcher.{ConfigWatcher, new_watcher}
use melibea.Controller.Run.{Ran}
use melibea.Controller.Connection.{ConnectionEnd}
use melibea.Controller.Guarded.{IsGuarded}
use melibea.Controller.Kept.{IsParsed, ReturnsParsed, run_controller_connection-Keeps}
use melibea.Controller.Daemon.{
  Reason, reloading, connection_lost, ServiceCall, publishes, withdraws, Session, Life, after_life,
  withdraw_and, after_session, serve, run_controller_inner,
}

-- The width may be sent to niri: above zero and at most the whole.
abbrev pub IsSendable : ResizeAction → Type 0
IsSendable a = InRange (WidthPolicy.proportion a.width)

-- No published list names a window twice.
abbrev pub IsDistinctCall : ServiceCall → Type 0
IsDistinctCall (publishes windows) = IsDistinct window_id windows
IsDistinctCall (withdraws reason) = Unit {0}

publishes-All :
    (ps : List (List Window))
    → All (IsDistinct window_id) ps
    → All IsDistinctCall (map publishes ps)
publishes-All [] h = tt
publishes-All (w ∷ ps) h = (h.0, publishes-All ps h.1)

module _ (p : Platform) where
  IsParsed-rules : (config : Config) → IsParsed p config → All IsValidRule config.attention
  IsParsed-rules config (source, e) = elim (Result-cases (p.toml_from_str source)) [
    | inr (x, bad) ↦ absurd (unfold parse in ground (arith, e, bad))
    | inl (raw, read) ↦
        let made : from_raw p raw ≡ ok config = unfold parse in ground (arith, e, read) in
        (from_raw-ok p raw config made).1
  ]

  width-InRange :
      (rule : AttentionRule) (focused : Bool)
      → IsValidRule rule
      → InRange (width_for rule.policy focused)
  unfolding width_for
  width-InRange rule true v = v.focused
  width-InRange rule false v = v.unfocused

  IsRuleAction-IsSendable :
      (config : Config) (a : ResizeAction)
      → IsParsed p config
      → IsRuleAction config a
      → IsSendable a
  IsRuleAction-IsSendable config a h (index, rule, at, policy) = subst InRange policy (
      width-InRange rule (is_focused a.state)
        (All-get_elem? IsValidRule config.attention index rule (IsParsed-rules config h) at))

  pub record IsSound (l : Life) : Type 0 where
    pub distinct : All IsDistinctCall l.calls
    pub sendable : All IsSendable l.widths
    pub parsed : IsParsed p l.config

  abbrev pub Lives : Option Life → Type 0
  Lives out = (l : Life) × (out ≡ some l) × IsSound l

  abbrev NextLives : (Config → ConfigWatcher → Option Life) → Type 0
  NextLives next = (config : Config) (w : ConfigWatcher) → IsParsed p config → Lives (next config w)

  withdraw_and-Lives :
      (r : Ran ConnectionEnd) (takes : Bool) (reason : Reason) (config : Config)
      (next : Config → ConfigWatcher → Option Life)
      → All (IsDistinct window_id) r.published
      → All IsSendable r.widths
      → IsParsed p config
      → NextLives next
      → Lives (withdraw_and r takes reason config next)
  unfolding withdraw_and
  withdraw_and-Lives r false reason config next sent asked h k = (
    _,
    refl,
    record {
      distinct =
          All-append IsDistinctCall _ (withdraws reason ∷ []) (publishes-All r.published sent)
            (tt, tt);
      sendable = asked;
      parsed = h;
    },
  )
  withdraw_and-Lives r true reason config next sent asked h k =
      let (l, e, s) = k config r.ending.watcher h in
      (
        _,
        ap (after_life (map publishes r.published ++ withdraws reason ∷ []) r.widths) e,
        record {
          distinct =
              All-append IsDistinctCall _ l.calls
                (All-append IsDistinctCall _ (withdraws reason ∷ [])
                  (publishes-All r.published sent) (tt, tt))
                s.distinct;
          sendable = All-append IsSendable r.widths l.widths asked s.sendable;
          parsed = s.parsed;
        },
      )

  after_session-Lives :
      (r : Ran ConnectionEnd) (takes : Bool) (config : Config)
      (next : Config → ConfigWatcher → Option Life)
      → IsGuarded config r
      → ReturnsParsed p r.ending
      → IsParsed p config
      → NextLives next
      → Lives (after_session r takes config next)
  unfolding after_session
  after_session-Lives r takes config next (safe, sent, asked) back h k =
      let sendable =
        All-weaken (IsRuleAction config) IsSendable (λ a. IsRuleAction-IsSendable config a h)
          r.widths asked in
      elim (Option-cases r.ending.returned) [
        | inl still ↦
            rw (still, after_session)
              (
                _,
                refl,
                record {
                  distinct = publishes-All r.published sent;
                  sendable = sendable;
                  parsed = h;
                },
              )
        | inr (ok reloaded, e) ↦
            rw (e, after_session)
              (withdraw_and-Lives r takes reloading reloaded next sent sendable (back reloaded e) k)
        | inr (err x, e) ↦
            rw (e, after_session)
              (withdraw_and-Lives r takes (connection_lost x) config next sent sendable h k)
      ]

  module _ (codec : Codec) where
    pub serve-Lives :
        (sessions : List Session) (config : Config) (w : ConfigWatcher)
        → IsParsed p config
        → Lives (serve p codec sessions config w)
    unfolding serve
    serve-Lives [] config w h = (_, refl, record { distinct = tt; sendable = tt; parsed = h })
    serve-Lives (s ∷ sessions) config w h =
        let (r, e, guarded, back) = run_controller_connection-Keeps p config codec s.attempt w in
        rw (e, serve)
          (after_session-Lives r s.takes config (serve p codec sessions) guarded back h
            (λ config w h. serve-Lives sessions config w h))

    load_with_source-IsParsed :
        (h : Host) (path : String) (loaded : Config × String)
        → load_with_source p h path ≡ ok loaded
        → IsParsed p loaded.0
    unfolding load_with_source
    load_with_source-IsParsed h path loaded e = elim (Result-cases (h.read_to_string path)) [
      | inr (x, f) ↦ absurd (ground (arith, e, f))
      | inl (input, f) ↦ elim (Result-cases (parse p input)) [
        | inr (x, g) ↦ absurd (ground (arith, e, f, g))
        | inl (config, g) ↦
            let same : (config, input) ≡ loaded = ground (arith, e, f, g) in
            subst (λ l. IsParsed p l.0) same (input, g)
      ]
    ]

    configured-IsParsed :
        (h : Host) (given : Option String) (loaded : LoadedConfig)
        → configured p h given ≡ ok loaded
        → IsParsed p loaded.config
    unfolding configured
    configured-IsParsed h given loaded e = elim (Result-cases (path_or_default p h given)) [
      | inr (x, f) ↦ absurd (ground (arith, e, f))
      | inl (path, f) ↦ elim (Result-cases (load_with_source p h path)) [
        | inr (x, g) ↦ absurd (ground (arith, e, f, g))
        | inl (l, g) ↦
            let same : record { config = l.0; path = path; source = l.1 } ≡ loaded =
              ground (arith, e, f, g) in
            subst (λ l. IsParsed p l.config) same (load_with_source-IsParsed h path l g)
      ]
    ]

    -- The daemon, once it has started, never panics, over any connections to niri and any reloaded or
    -- rejected configurations: whatever it is given, every width that it ever asks niri for is, as a
    -- fraction, above zero and at most one, it publishes no list that names a window twice, and the policy in force is always
    -- one that was parsed.
    pub run_controller_inner-Lives :
        (h : Host) (io : SocketIo) (now : ℕ) (sessions : List Session) (given : Option String)
        (out : Option Life)
        → run_controller_inner p codec h io now sessions given ≡ ok out
        → Lives out
    unfolding run_controller_inner
    run_controller_inner-Lives h io now sessions given out e =
        elim (Result-cases (configured p h given)) [
          | inr (x, f) ↦ absurd (ground (arith, e, f))
          | inl (loaded, f) ↦
              let same : serve p codec sessions loaded.config
                    (new_watcher loaded.path loaded.source now)
                  ≡ out =
                ground (arith, e, f) in
              subst Lives same
                (serve-Lives sessions loaded.config _ (configured-IsParsed h given loaded f))
        ]
