-- ===== src/Minimization.antt =====
-- minimization.rs: the ordered registry of minimized windows.
pub mod Accounts
pub mod Reference
pub mod Changes
use melibea.Base.{
  ℕ, ◌≡◌, ◌↔◌, Bool, true, false, ◌&&◌, String, List, [], ◌∷◌, ◌++◌, Option, none, some, Result, ok,
  err, if◌then◌else◌, ◌==◌, Eq, ◌=?◌, string_eq, option_eq, list_eq, option_beq_iff, length,
  get_elem?, any, saturating_suc, arith,
}
use melibea.Base.Vec.{remove_at, set_at}
use melibea.Base.Vec.Keyed.{position}
use melibea.Transition.{WindowId}

pub record MinimizedWindow : Type 0 where
  pub id : WindowId
  pub app_id : Option String
  pub title : Option String

abbrev pub id_of : MinimizedWindow → WindowId
id_of w = w.id

-- The derived `PartialEq`.
abbrev pub minimized_beq : MinimizedWindow → MinimizedWindow → Bool
minimized_beq a b = a.id == b.id && (a.app_id =? b.app_id && a.title =? b.title)

pub minimized_beq_iff : (a b : MinimizedWindow) → (minimized_beq a b ≡ true) ↔ (a ≡ b)
minimized_beq_iff a b =
    ground (arith, option_beq_iff a.app_id b.app_id, option_beq_iff a.title b.title)

instance abbrev pub minimized_eq : Eq MinimizedWindow
minimized_eq = record { beq = minimized_beq; beq_iff = minimized_beq_iff }

pub data MinimizationEvent : Type 0 where
  snapshot : List MinimizedWindow → MinimizationEvent
  minimized : MinimizedWindow → MinimizationEvent
  metadata_changed : MinimizedWindow → MinimizationEvent
  restored : WindowId → MinimizationEvent
  closed : WindowId → MinimizationEvent

pub data RemovalReason : Type 0 where
  restored closed : RemovalReason

pub data RegistryChange : Type 0 where
  snapshot_replaced : ℕ → ℕ → RegistryChange
  added : WindowId → ℕ → RegistryChange
  updated : WindowId → ℕ → RegistryChange
  removed : WindowId → ℕ → RemovalReason → RegistryChange
  unchanged : RegistryChange
  unknown_window : WindowId → RegistryChange

pub data MinimizationError : Type 0 where
  duplicate_window : WindowId → MinimizationError

pub record MinimizedRegistry : Type 0 where
  pub windows : List MinimizedWindow
  pub revision : ℕ

-- `MinimizedRegistry::default`
abbrev pub empty_registry : MinimizedRegistry
empty_registry = record { windows = []; revision = 0 }

-- `advance_revision` after the windows are replaced.
abbrev pub advance : MinimizedRegistry → List MinimizedWindow → MinimizedRegistry
advance r windows = record { windows = windows; revision = saturating_suc r.revision }

-- The loop over the set of ids seen so far: the first id that is seen again.
unfoldable pub first_duplicate : List WindowId → List MinimizedWindow → Option WindowId
first_duplicate ids [] = none
first_duplicate ids (w ∷ ws) =
    let rest = first_duplicate (w.id ∷ ids) ws in
    if any (λ id. id == w.id) ids then some w.id else rest

-- What a call leaves: the registry and its result. `none` is a panic.
abbrev pub Outcome : Type 0
Outcome = Option (MinimizedRegistry × Result MinimizationError RegistryChange)

unfoldable pub replace_snapshot : MinimizedRegistry → List MinimizedWindow → Outcome
replace_snapshot r windows = elim (first_duplicate [] windows) [
  | some id ↦ some (r, err (duplicate_window id))
  | none ↦
      if r.windows =? windows
      then some (r, ok unchanged)
      else some (advance r windows, ok (snapshot_replaced (length r.windows) (length windows)))
]

-- The assignment at a known position that `minimized` and `metadata_changed` share.
unfoldable pub update_at : MinimizedRegistry → ℕ → MinimizedWindow → Outcome
update_at r index window = elim (get_elem? r.windows index) [
  | none ↦ none
  | some old ↦
      if old =? window then some (r, ok unchanged) else elim (set_at r.windows index window) [
        | none ↦ none
        | some windows ↦ some (advance r windows, ok (updated window.id index))
      ]
]

unfoldable pub minimize : MinimizedRegistry → MinimizedWindow → Outcome
unfolding update_at
minimize r window = elim (position id_of window.id r.windows) [
  | some index ↦ update_at r index window
  | none ↦ some (advance r (r.windows ++ window ∷ []), ok (added window.id (length r.windows)))
]

unfoldable pub change_metadata : MinimizedRegistry → MinimizedWindow → Outcome
unfolding update_at
change_metadata r window = elim (position id_of window.id r.windows) [
  | none ↦ some (r, ok (unknown_window window.id))
  | some index ↦ update_at r index window
]

unfoldable pub remove_window : MinimizedRegistry → WindowId → RemovalReason → Outcome
remove_window r id reason = elim (position id_of id r.windows) [
  | none ↦ some (r, ok (unknown_window id))
  | some index ↦ elim (remove_at r.windows index) [
    | none ↦ none
    | some (w, windows) ↦ some (advance r windows, ok (removed id index reason))
  ]
]

-- `MinimizedRegistry::apply`
unfoldable pub apply : MinimizedRegistry → MinimizationEvent → Outcome
unfolding replace_snapshot minimize change_metadata remove_window
apply r (snapshot windows) = replace_snapshot r windows
apply r (minimized window) = minimize r window
apply r (metadata_changed window) = change_metadata r window
apply r (MinimizationEvent.restored id) = remove_window r id RemovalReason.restored
apply r (MinimizationEvent.closed id) = remove_window r id RemovalReason.closed
