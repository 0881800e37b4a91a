-- ===== src/Protocol/Diff/Replay.antt =====
-- A client's replay of the changes of one stage of `diff_windows` (protocol.rs).
use melibea.Base.{◌≡◌, ◌∙◌, inl, inr, List, [], ◌∷◌, ◌++◌, some, Option-cases, arith}
use melibea.Protocol.Message.{Window, window_eq, WindowChange}
use melibea.Protocol.Diff.{Progress, after_change, apply_change, apply_changes}

-- A stage took the windows `ws` to `target`, and so does a client that applies its changes.
abbrev pub Reaches : List Window → List Window → Progress → Type 0
Reaches ws target p =
    (cs : List WindowChange) × (p ≡ some (target, cs)) × (apply_changes cs ws ≡ some target)

pub apply_changes-append :
    (cs ds : List WindowChange) (ws mid : List Window)
    → apply_changes cs ws ≡ some mid
    → apply_changes (cs ++ ds) ws ≡ apply_changes ds mid
unfolding apply_changes
apply_changes-append [] ds ws mid h = ground arith
apply_changes-append (c ∷ cs) ds ws mid h = elim (Option-cases (apply_change c ws)) [
  | inl stuck ↦ absurd (ground arith)
  | inr (next, e) ↦ ground (arith, apply_changes-append cs ds next mid)
]

-- A stage and the one after it.
pub Reaches-then :
    (ws mid last : List Window) (made : List WindowChange) (p : Progress)
    → apply_changes made ws ≡ some mid
    → Reaches mid last p
    → Reaches ws last (after_change made p)
Reaches-then ws mid last made p h (cs, e, k) =
    (made ++ cs, rw e, apply_changes-append made cs ws mid h ∙ k)

-- One change.
pub apply_one :
    (c : WindowChange) (ws next : List Window)
    → apply_change c ws ≡ some next
    → apply_changes (c ∷ []) ws ≡ some next
unfolding apply_changes
apply_one c ws next h = rw (h, apply_changes)
