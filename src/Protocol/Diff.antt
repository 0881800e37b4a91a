-- ===== src/Protocol/Diff.antt =====
-- `diff_windows` of protocol.rs, and the reading of its changes that PROTOCOL.md gives to clients.
-- `none` is a panic, and for a client a change that does not fit its state.
pub mod Replay
pub mod Prune
pub mod Place
pub mod Loop
pub mod Exact
use melibea.Base.{
  ℕ, zero, suc, ◌+◌, ◌≡◌, Bool, true, false, List, [], ◌∷◌, ◌++◌, Option, none, some, if◌then◌else◌,
  ◌==◌, ◌=?◌, length, get_elem?,
}
use melibea.Base.Vec.{insert_at, remove_at, set_at}
use melibea.Base.Vec.Keyed.{has, position}
use melibea.Protocol.Message.{
  Window, window_id, window_eq, WindowChange, added, updated, moved, removed,
}

-- A panic, or the current windows and the changes made so far on the way to them.
abbrev pub Progress : Type 0
Progress = Option (List Window × List WindowChange)

-- The changes of a later stage follow one that is already made.
abbrev pub after_change : List WindowChange → Progress → Progress
after_change made none = none
after_change made (some (current, later)) = some (current, made ++ later)

-- The first loop, over the indices below `n` from the last on.
unfoldable pub prune : ℕ → List Window → List Window → Progress
prune zero next current = some (current, [])
prune (suc index) next current = elim (get_elem? current index) [
  | none ↦ none
  | some w ↦ elim (has window_id w.id next) [
    | true ↦ prune index next current
    | false ↦ elim (remove_at current index) [
      | none ↦ none
      | some (gone, rest) ↦ after_change (removed index gone.id ∷ []) (prune index next rest)
    ]
  ]
]

-- The move of a window that stands elsewhere.
unfoldable pub move_to : ℕ → ℕ → Window → List Window → Progress
move_to current_index target_index next_window current =
    if current_index == target_index
    then some (current, [])
    else elim (remove_at current current_index) [
      | none ↦ none
      | some (window, rest) ↦ elim (insert_at rest target_index window) [
        | none ↦ none
        | some moved_windows ↦
            some (moved_windows, moved next_window.id current_index target_index ∷ [])
      ]
    ]

-- The update of a window that differs.
unfoldable pub refresh : ℕ → Window → List Window → Progress
refresh target_index next_window current = elim (get_elem? current target_index) [
  | none ↦ none
  | some old ↦
      if old =? next_window
      then some (current, [])
      else elim (set_at current target_index next_window) [
        | none ↦ none
        | some windows ↦ some (windows, updated target_index next_window ∷ [])
      ]
]

-- One round of the second loop.
unfoldable pub place : ℕ → Window → List Window → Progress
unfolding move_to refresh
place target_index next_window current = elim (position window_id next_window.id current) [
  | none ↦ elim (insert_at current target_index next_window) [
    | none ↦ none
    | some windows ↦ some (windows, added target_index next_window ∷ [])
  ]
  | some current_index ↦ elim (move_to current_index target_index next_window current) [
    | none ↦ none
    | some (placed, made) ↦ after_change made (refresh target_index next_window placed)
  ]
]

-- The second loop, over `next` from the target index on.
unfoldable pub place_all : ℕ → List Window → List Window → Progress
place_all target_index [] current = some (current, [])
place_all target_index (w ∷ ws) current = elim (place target_index w current) [
  | none ↦ none
  | some (placed, made) ↦ after_change made (place_all (target_index + 1) ws placed)
]

-- Both loops: where they end, and the changes.
unfoldable pub diff_progress : List Window → List Window → Progress
diff_progress previous next = elim (prune (length previous) next previous) [
  | none ↦ none
  | some (current, made) ↦ after_change made (place_all 0 next current)
]

unfoldable pub diff_windows : List Window → List Window → Option (List WindowChange)
unfolding diff_progress
diff_windows previous next = elim (diff_progress previous next) [
  | none ↦ none
  | some (current, changes) ↦ some changes
]

-- A client's reading of one change. A removal or a move names the window that it is about.
unfoldable pub apply_change : WindowChange → List Window → Option (List Window)
apply_change (added index window) ws = insert_at ws index window
apply_change (updated index window) ws = set_at ws index window
apply_change (moved id from_index to_index) ws = elim (remove_at ws from_index) [
  | none ↦ none
  | some (w, rest) ↦ if w.id == id then insert_at rest to_index w else none
]
apply_change (removed index id) ws = elim (remove_at ws index) [
  | none ↦ none
  | some (w, rest) ↦ if w.id == id then some rest else none
]

unfoldable pub apply_changes : List WindowChange → List Window → Option (List Window)
apply_changes [] ws = some ws
apply_changes (c ∷ cs) ws = elim (apply_change c ws) [
  | none ↦ none
  | some next ↦ apply_changes cs next
]
