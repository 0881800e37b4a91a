-- ===== src/Controller/Sound.antt =====
-- The components together, over the messages of the event reader (main.rs).
use melibea.Base.{
  ◌≡◌, refl, sym, ap, subst, ◌∙◌, inl, inr, Bool, String, List, [], ◌∷◌, Option, none, some, Result,
  ok, err, map, ℕ, Result-cases, All, arith, if◌then◌else◌,
}
use melibea.Base.Vec.Keyed.{has, IsDistinct}
use melibea.Transition.{FocusTransition}
use melibea.Executor.{PendingResizes}
use melibea.Executor.Consistency.{
  IsConsistent, after_call, after_call-IsConsistent, ingests, forgets, resets,
}
use melibea.Minimization
use melibea.Minimization.{
  MinimizedWindow, MinimizedRegistry, MinimizationError, RegistryChange, id_of,
}
use melibea.Minimization.Reference.{apply-Accounts}
use melibea.Minimization.Changes.{Accounts-IsDistinct}
use melibea.Protocol.Message.{window_of, window_id}
use melibea.Niri
use melibea.Niri.{
  NiriEvent, NiriAdapterError, windows_changed, minimized_windows_changed, window_opened_or_changed,
  window_closed, window_focus_changed, ignored,
}
use melibea.Niri.Consistency.{Agrees}
use melibea.Niri.Replace.{apply-Agrees}
use melibea.Controller.{
  Controller, ControllerError, stream_closed, stream_failed, cannot_apply_minimized,
  service_stopped, Ingested, published_windows, mirror_minimized, prepare_queue, ingest_optional,
  advance_adapter, stays, go_on, ingest_event, ingest_stream_message,
}

-- The adapter knows the engine's windows, the queue is consistent, and no minimized window is there
-- twice.
pub record IsWell (c : Controller) : Type 0 where
  pub agrees : Agrees c.adapter
  pub consistent : IsConsistent c.pending
  pub distinct : IsDistinct id_of c.minimized.windows

abbrev pub KeepsWell : Option Ingested → Type 0
KeepsWell out =
    (i : Ingested) × (out ≡ some i) × IsWell i.state × All (IsDistinct window_id) i.published

has-window_of :
    (k : ℕ) (ws : List MinimizedWindow) → has window_id k (map window_of ws) ≡ has id_of k ws
unfolding window_of
has-window_of k [] = refl
has-window_of k (w ∷ ws) = ground (arith, has-window_of k ws)

window_of-IsDistinct :
    (ws : List MinimizedWindow) → IsDistinct id_of ws → IsDistinct window_id (map window_of ws)
unfolding window_of
window_of-IsDistinct [] d = tt
window_of-IsDistinct (w ∷ ws) d = (has-window_of w.id ws ∙ d.0, window_of-IsDistinct ws d.1)

prepare_queue-IsConsistent :
    (e : NiriEvent) (p : PendingResizes) → IsConsistent p → IsConsistent (prepare_queue e p)
unfolding prepare_queue after_call
prepare_queue-IsConsistent (windows_changed windows) p h = after_call-IsConsistent p resets h
prepare_queue-IsConsistent (minimized_windows_changed windows) p h = h
prepare_queue-IsConsistent (window_opened_or_changed w) p h = h
prepare_queue-IsConsistent (window_closed id) p h = after_call-IsConsistent p (forgets id) h
prepare_queue-IsConsistent (window_focus_changed id) p h = h
prepare_queue-IsConsistent (ignored name) p h = h

ingest_optional-IsConsistent :
    (p : PendingResizes) (t : Option FocusTransition)
    → IsConsistent p
    → IsConsistent (ingest_optional p t)
unfolding ingest_optional after_call
ingest_optional-IsConsistent p none h = h
ingest_optional-IsConsistent p (some t) h = after_call-IsConsistent p (ingests t) h

advance_adapter-IsWell :
    (i : Ingested) (e : NiriEvent)
    → IsWell i.state
    → IsWell (advance_adapter i e).state × ((advance_adapter i e).published ≡ i.published)
unfolding advance_adapter
advance_adapter-IsWell i e h = elim (Result-cases (Niri.apply i.state.adapter e).1) [
  | inr (x, refused) ↦
      rw (refused, advance_adapter)
        (
          record {
            agrees = apply-Agrees i.state.adapter e h.agrees;
            consistent = h.consistent;
            distinct = h.distinct;
          },
          refl,
        )
  | inl (t, taken) ↦
      rw (taken, advance_adapter)
        (
          record {
            agrees = apply-Agrees i.state.adapter e h.agrees;
            consistent =
                ingest_optional-IsConsistent _ t
                  (prepare_queue-IsConsistent e i.state.pending h.consistent);
            distinct = h.distinct;
          },
          refl,
        )
]

mirror-refused :
    (takes : Bool) (c : Controller) (ws : List MinimizedWindow) (next : MinimizedRegistry)
    (x : MinimizationError)
    → Minimization.apply c.minimized (Minimization.snapshot ws) ≡ some (next, err x)
    → mirror_minimized takes c (minimized_windows_changed ws)
      ≡ some (record {
        state = record c { minimized = next };
        published = [];
        result = err (cannot_apply_minimized x);
      })
unfolding mirror_minimized
mirror-refused takes c ws next x e = rw (e, mirror_minimized)

mirror-taken :
    (takes : Bool) (c : Controller) (ws : List MinimizedWindow) (next : MinimizedRegistry)
    (change : RegistryChange)
    → Minimization.apply c.minimized (Minimization.snapshot ws) ≡ some (next, ok change)
    → mirror_minimized takes c (minimized_windows_changed ws)
      ≡ some (record {
        state = record c { minimized = next };
        published = published_windows next ∷ [];
        result = if takes then ok tt else err service_stopped;
      })
unfolding mirror_minimized
mirror-taken takes c ws next change e = rw (e, mirror_minimized)

abbrev quiet : Controller → Ingested
quiet c = record { state = c; published = []; result = ok tt }

mirror-KeepsWell :
    (takes : Bool) (c : Controller) (e : NiriEvent)
    → IsWell c
    → KeepsWell (mirror_minimized takes c e)
mirror-KeepsWell takes c (minimized_windows_changed ws) h =
    let a = apply-Accounts c.minimized (Minimization.snapshot ws) h.distinct in
    let d = Accounts-IsDistinct c.minimized (Minimization.snapshot ws) a h.distinct in
    let well : IsWell (record c { minimized = a.after }) = record {
      agrees = h.agrees;
      consistent = h.consistent;
      distinct = d;
    } in
    elim (Result-cases a.result) [
      | inr (x, r) ↦ (
        _,
        mirror-refused takes c ws a.after x (a.returns ∙ ap (λ q. some (a.after, q)) r),
        well,
        tt,
      )
      | inl (change, r) ↦ (
        _,
        mirror-taken takes c ws a.after change (a.returns ∙ ap (λ q. some (a.after, q)) r),
        well,
        (window_of-IsDistinct a.after.windows d, tt),
      )
    ]
mirror-KeepsWell takes c (windows_changed ws) h = (quiet c, unfold mirror_minimized in refl, h, tt)
mirror-KeepsWell takes c (window_opened_or_changed w) h =
    (quiet c, unfold mirror_minimized in refl, h, tt)
mirror-KeepsWell takes c (window_closed id) h = (quiet c, unfold mirror_minimized in refl, h, tt)
mirror-KeepsWell takes c (window_focus_changed id) h =
    (quiet c, unfold mirror_minimized in refl, h, tt)
mirror-KeepsWell takes c (ignored name) h = (quiet c, unfold mirror_minimized in refl, h, tt)

go_on-IsWell :
    (r : Result ControllerError (Unit {0})) (i : Ingested) (e : NiriEvent)
    → IsWell i.state
    → IsWell (go_on r i e).state × ((go_on r i e).published ≡ i.published)
unfolding go_on
go_on-IsWell (err x) i e h = (h, refl)
go_on-IsWell (ok u) i e h = advance_adapter-IsWell i e h

event-mirrored :
    (takes : Bool) (c : Controller) (e : NiriEvent) (i : Ingested)
    → mirror_minimized takes c e ≡ some i
    → ingest_event takes c e ≡ some (go_on i.result i e)
unfolding ingest_event
event-mirrored takes c e i m = rw (m, ingest_event)

ingest_event-KeepsWell :
    (takes : Bool) (c : Controller) (e : NiriEvent) → IsWell c → KeepsWell (ingest_event takes c e)
ingest_event-KeepsWell takes c e h =
    let (i, m, well, sent) = mirror-KeepsWell takes c e h in
    let (after, same) = go_on-IsWell i.result i e well in
    (
      go_on i.result i e,
      event-mirrored takes c e i m,
      after,
      subst (All (IsDistinct window_id)) (sym same) sent,
    )

-- From a state in which the adapter knows exactly the engine's windows, the queue is consistent and no
-- minimized window stands twice, the controller takes any message of the event reader, whether the
-- service still answers or not, without a panic; the state after it is such a state again, on the error
-- paths too; and no list of windows that it publishes names a window twice.
pub ingest_stream_message-KeepsWell :
    (takes : Bool) (c : Controller) (message : Result String (Option NiriEvent))
    → IsWell c
    → KeepsWell (ingest_stream_message takes c message)
unfolding ingest_stream_message
ingest_stream_message-KeepsWell takes c (ok (some event)) h = ingest_event-KeepsWell takes c event h
ingest_stream_message-KeepsWell takes c (ok none) h = (stays c stream_closed, refl, h, tt)
ingest_stream_message-KeepsWell takes c (err reason) h =
    (stays c (stream_failed reason), refl, h, tt)
