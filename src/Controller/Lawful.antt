-- ===== src/Controller/Lawful.antt =====
-- main.rs: a message of the event reader keeps the controller to the rules of its configuration.
use melibea.Base.{
  ◌≡◌, subst, inl, inr, Bool, String, Option, none, some, Result, ok, err, Result-cases,
  Option-cases, All,
}
use melibea.Base.Vec.Keyed.{IsDistinct}
use melibea.Config.{Config}
use melibea.Transition.{FocusTransition}
use melibea.Executor.{PendingResizes}
use melibea.Executor.Lawful.{
  IsLawfulQueue, ingest-IsLawfulQueue, forget-IsLawfulQueue, reset-IsLawfulQueue,
}
use melibea.Minimization
use melibea.Minimization.{MinimizedWindow}
use melibea.Protocol.Message.{window_id}
use melibea.Niri
use melibea.Niri.{
  NiriEvent, windows_changed, minimized_windows_changed, window_opened_or_changed, window_closed,
  window_focus_changed, ignored,
}
use melibea.Niri.Lawful.{IsLawfulOption, IsLawfulAnswer, IsLawfulResult, apply-IsLawfulResult}
use melibea.Controller.{
  Controller, ControllerError, Ingested, mirror_minimized, prepare_queue, ingest_optional,
  advance_adapter, go_on, ingest_event, ingest_stream_message,
}
use melibea.Controller.Sound.{IsWell, ingest_stream_message-KeepsWell}

module _ (config : Config) where
  -- The adapter has the configuration, and what is queued follows it.
  pub record IsRuled (c : Controller) : Type 0 where
    pub configured : c.adapter.engine.config ≡ config
    pub queue : IsLawfulQueue config c.pending

  prepare_queue-IsLawfulQueue :
      (e : NiriEvent) (p : PendingResizes)
      → IsLawfulQueue config p
      → IsLawfulQueue config (prepare_queue e p)
  unfolding prepare_queue
  prepare_queue-IsLawfulQueue (windows_changed windows) p q = reset-IsLawfulQueue config p
  prepare_queue-IsLawfulQueue (minimized_windows_changed windows) p q = q
  prepare_queue-IsLawfulQueue (window_opened_or_changed w) p q = q
  prepare_queue-IsLawfulQueue (window_closed id) p q = forget-IsLawfulQueue config p id q
  prepare_queue-IsLawfulQueue (window_focus_changed id) p q = q
  prepare_queue-IsLawfulQueue (ignored name) p q = q

  ingest_optional-IsLawfulQueue :
      (p : PendingResizes) (t : Option FocusTransition)
      → IsLawfulOption config t
      → IsLawfulQueue config p
      → IsLawfulQueue config (ingest_optional p t)
  unfolding ingest_optional
  ingest_optional-IsLawfulQueue p none h q = q
  ingest_optional-IsLawfulQueue p (some t) h q = ingest-IsLawfulQueue config p t h q

  advance_adapter-IsRuled :
      (i : Ingested) (e : NiriEvent) → IsRuled i.state → IsRuled (advance_adapter i e).state
  unfolding advance_adapter
  advance_adapter-IsRuled i e r =
      let (kept, lawful) =
        subst (λ c. IsLawfulResult c (Niri.apply i.state.adapter e)) r.configured
          (apply-IsLawfulResult i.state.adapter e) in
      elim (Result-cases (Niri.apply i.state.adapter e).1) [
        | inr (x, refused) ↦
            rw (refused, advance_adapter) (record { configured = kept; queue = r.queue })
        | inl (t, taken) ↦
            rw (taken, advance_adapter)
              (record {
                configured = kept;
                queue =
                    ingest_optional-IsLawfulQueue _ t (subst (IsLawfulAnswer config) taken lawful)
                      (prepare_queue-IsLawfulQueue e i.state.pending r.queue);
              })
      ]

  go_on-IsRuled :
      (result : Result ControllerError (Unit {0})) (i : Ingested) (e : NiriEvent)
      → IsRuled i.state
      → IsRuled (go_on result i e).state
  unfolding go_on
  go_on-IsRuled (err x) i e r = r
  go_on-IsRuled (ok u) i e r = advance_adapter-IsRuled i e r

  -- What holds of the outcome, if there is one.
  abbrev RulesOption : Option Ingested → Type 0
  RulesOption none = Unit {0}
  RulesOption (some i) = IsRuled i.state

  mirror-IsRuled :
      (takes : Bool) (c : Controller) (e : NiriEvent)
      → IsRuled c
      → RulesOption (mirror_minimized takes c e)
  unfolding mirror_minimized
  mirror-IsRuled takes c (minimized_windows_changed ws) r =
      elim (Option-cases (Minimization.apply c.minimized (Minimization.snapshot ws))) [
        | inl broken ↦ rw (broken, mirror_minimized) tt
        | inr ((next, err x), e) ↦
            rw (e, mirror_minimized) (record { configured = r.configured; queue = r.queue })
        | inr ((next, ok change), e) ↦
            rw (e, mirror_minimized) (record { configured = r.configured; queue = r.queue })
      ]
  mirror-IsRuled takes c (windows_changed windows) r = r
  mirror-IsRuled takes c (window_opened_or_changed w) r = r
  mirror-IsRuled takes c (window_closed id) r = r
  mirror-IsRuled takes c (window_focus_changed id) r = r
  mirror-IsRuled takes c (ignored name) r = r

  event-IsRuled :
      (takes : Bool) (c : Controller) (e : NiriEvent)
      → IsRuled c
      → RulesOption (ingest_event takes c e)
  unfolding ingest_event
  event-IsRuled takes c e r = elim (Option-cases (mirror_minimized takes c e)) [
    | inl broken ↦ rw (broken, ingest_event) tt
    | inr (i, m) ↦
        rw (m, ingest_event)
          (go_on-IsRuled i.result i e (subst RulesOption m (mirror-IsRuled takes c e r)))
  ]

  message-IsRuled :
      (takes : Bool) (c : Controller) (message : Result String (Option NiriEvent))
      → IsRuled c
      → RulesOption (ingest_stream_message takes c message)
  unfolding ingest_stream_message
  message-IsRuled takes c (ok (some event)) r = event-IsRuled takes c event r
  message-IsRuled takes c (ok none) r = r
  message-IsRuled takes c (err reason) r = r

  -- A state of the controller that is well formed and follows its configuration.
  pub record IsSafe (c : Controller) : Type 0 where
    pub well : IsWell c
    pub ruled : IsRuled c

  abbrev pub KeepsSafe : Option Ingested → Type 0
  KeepsSafe out =
      (i : Ingested) × (out ≡ some i) × IsSafe i.state × All (IsDistinct window_id) i.published

  pub ingest_stream_message-KeepsSafe :
      (takes : Bool) (c : Controller) (message : Result String (Option NiriEvent))
      → IsSafe c
      → KeepsSafe (ingest_stream_message takes c message)
  ingest_stream_message-KeepsSafe takes c message s =
      let (i, e, well, sent) = ingest_stream_message-KeepsWell takes c message s.well in
      (
        i,
        e,
        record {
          well = well;
          ruled = subst RulesOption e (message-IsRuled takes c message s.ruled);
        },
        sent,
      )
