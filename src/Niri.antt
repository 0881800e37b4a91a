-- ===== src/Niri.antt =====
-- niri.rs: niri's events, and their application to the attention engine.
pub mod Consistency
pub mod Snapshot
pub mod Replace
pub mod Lawful
pub mod Parse
use melibea.Base.{
  ℕ, ◌≡◌, ◌↔◌, Bool, true, false, not, ◌&&◌, String, List, [], ◌∷◌, Option, none, some, Result, ok,
  err, if◌then◌else◌, ◌==◌, Eq, ◌=?◌, string_eq, nat_eq, option_eq, option_beq_iff, ltb, length,
  filter, map, head?, arith,
}
use melibea.Base.OrdMap
use melibea.Base.OrdMap.{OrdMap}
use melibea.Config.{Config}
use melibea.Minimization.{MinimizedWindow}
use melibea.Transition.{
  WindowId, WindowRecord, WindowEligibility, managed, excluded, floating, FocusTransition,
  AttentionEngine, new_engine, upsert_window, remove_window, observe_focus, reevaluate_focus,
  synchronize_focus,
}

pub record NiriWindow : Type 0 where
  pub id : ℕ
  pub title : Option String
  pub app_id : Option String
  pub is_focused : Bool
  pub is_floating : Bool

abbrev pub niri_id : NiriWindow → ℕ
niri_id w = w.id

-- `NiriWindow::into_record`
abbrev pub into_record : NiriWindow → WindowRecord
into_record w = record {
  id = w.id;
  app_id = w.app_id;
  title = w.title;
  eligibility = if w.is_floating then excluded floating else managed;
}

pub data NiriEvent : Type 0 where
  windows_changed : List NiriWindow → NiriEvent
  minimized_windows_changed : List MinimizedWindow → NiriEvent
  window_opened_or_changed : NiriWindow → NiriEvent
  window_closed : WindowId → NiriEvent
  window_focus_changed : Option WindowId → NiriEvent
  ignored : String → NiriEvent

pub record WindowSignature : Type 0 where
  pub title : Option String
  pub app_id : Option String
  pub is_floating : Bool

abbrev pub bool_beq : Bool → Bool → Bool
bool_beq true b = b
bool_beq false b = not b

-- The derived `PartialEq`.
abbrev pub signature_beq : WindowSignature → WindowSignature → Bool
signature_beq a b =
    a.title =? b.title && (a.app_id =? b.app_id && bool_beq a.is_floating b.is_floating)

-- `From<&NiriWindow> for WindowSignature`
abbrev pub signature_from : NiriWindow → WindowSignature
signature_from w = record { title = w.title; app_id = w.app_id; is_floating = w.is_floating }

pub record NiriAdapter : Type 0 where
  pub engine : AttentionEngine
  pub known_windows : OrdMap WindowSignature

pub data NiriAdapterError : Type 0 where
  multiple_focused_windows : List WindowId → NiriAdapterError

-- `NiriAdapter::new`
abbrev pub new_adapter : Config → NiriAdapter
new_adapter config = record { engine = new_engine config; known_windows = [] }

unfoldable pub apply_focus : AttentionEngine → Option WindowId → AttentionEngine × FocusTransition
apply_focus e focused = if e.focus =? focused then reevaluate_focus e else observe_focus e focused

-- The loops over the windows that are gone and over the new ones.
unfoldable pub remove_all : AttentionEngine → List WindowId → AttentionEngine
remove_all e [] = e
remove_all e (id ∷ ids) = remove_all (remove_window e id).0 ids

unfoldable pub upsert_all : AttentionEngine → List NiriWindow → AttentionEngine
upsert_all e [] = e
upsert_all e (w ∷ ws) = upsert_all (upsert_window e (into_record w)) ws

abbrev pub focused_ids : List NiriWindow → List WindowId
focused_ids ws = map niri_id (filter (λ w. w.is_focused) ws)

abbrev pub next_windows : List NiriWindow → OrdMap WindowSignature
next_windows ws = OrdMap.collect_from [] (map (λ w. (w.id, signature_from w)) ws)

abbrev pub gone_windows : OrdMap WindowSignature → OrdMap WindowSignature → List WindowId
gone_windows known next = filter (λ id. not (OrdMap.contains_key id next)) (OrdMap.keys known)

-- The engine that `replace_windows` synchronizes.
unfoldable pub replaced_engine : NiriAdapter → List NiriWindow → AttentionEngine
replaced_engine a ws =
    upsert_all (remove_all a.engine (gone_windows a.known_windows (next_windows ws))) ws

abbrev pub AdapterResult : Type 0
AdapterResult = NiriAdapter × Result NiriAdapterError (Option FocusTransition)

unfoldable pub replace_windows : NiriAdapter → List NiriWindow → AdapterResult
replace_windows a ws =
    let focused = focused_ids ws in
    let out = synchronize_focus (replaced_engine a ws) (head? focused) in
    if ltb 1 (length focused)
    then (a, err (multiple_focused_windows focused))
    else (record { engine = out.0; known_windows = next_windows ws }, ok (some out.1))

-- Whether the event is no mere repetition.
abbrev pub relevant_change : NiriAdapter → NiriWindow → Bool
relevant_change a w = elim (OrdMap.get w.id a.known_windows) [
  | none ↦ true
  | some old ↦ not (signature_beq old (signature_from w))
]

unfoldable pub open_or_change : NiriAdapter → NiriWindow → AdapterResult
open_or_change a w =
    let known = OrdMap.insert w.id (signature_from w) a.known_windows in
    let engine = upsert_window a.engine (into_record w) in
    let out = apply_focus engine (some w.id) in
    if w.is_focused && relevant_change a w
    then (record { engine = out.0; known_windows = known }, ok (some out.1))
    else (record { engine = engine; known_windows = known }, ok none)

-- `NiriAdapter::apply`
unfoldable pub apply : NiriAdapter → NiriEvent → AdapterResult
apply a (windows_changed ws) = replace_windows a ws
apply a (window_opened_or_changed w) = open_or_change a w
apply a (window_closed id) = (
  record {
    engine = (remove_window a.engine id).0;
    known_windows = OrdMap.remove id a.known_windows;
  },
  ok none,
)
apply a (window_focus_changed id) =
    let out = apply_focus a.engine id in (record a { engine = out.0 }, ok (some out.1))
apply a (minimized_windows_changed ws) = (a, ok none)
apply a (ignored name) = (a, ok none)
