-- ===== src/Protocol/Diff/Exact.antt =====
-- `diff_windows` of protocol.rs as a whole.
use melibea.Base.{
  ℕ, ◌≡◌, refl, inl, inr, true, false, List, [], ◌∷◌, some, length, Bool-cases, arith,
}
use melibea.Base.Vec.Keyed.{has, IsDistinct}
use melibea.Protocol.Message.{Window, window_id, WindowChange}
use melibea.Protocol.Diff.{
  after_change, prune, place_all, diff_progress, diff_windows, apply_changes,
}
use melibea.Protocol.Diff.Replay.{Reaches, Reaches-then}
use melibea.Protocol.Diff.Prune.{keeps, prune-Reaches}
use melibea.Protocol.Diff.Place.{by_equal}
use melibea.Protocol.Diff.Loop.{place_all-Reaches}

has-keeps :
    (k : ℕ) (next ws : List Window)
    → has window_id k (keeps next ws) ≡ true
    → has window_id k next ≡ true
has-keeps k next [] h = absurd (ground arith)
has-keeps k next (w ∷ ws) h = elim (Bool-cases (has window_id w.id next)) [
  | inl stays ↦ ground (arith, has-keeps k next ws)
  | inr goes ↦ has-keeps k next ws (ground arith)
]

keeps-has :
    (k : ℕ) (next ws : List Window)
    → has window_id k ws ≡ false
    → has window_id k (keeps next ws) ≡ false
keeps-has k next [] h = refl
keeps-has k next (w ∷ ws) h = ground (arith, keeps-has k next ws)

keeps-IsDistinct :
    (next ws : List Window) → IsDistinct window_id ws → IsDistinct window_id (keeps next ws)
keeps-IsDistinct next [] d = tt
keeps-IsDistinct next (w ∷ ws) d = elim (Bool-cases (has window_id w.id next)) [
  | inl stays ↦ ground (arith, keeps-has w.id next ws, keeps-IsDistinct next ws d.1)
  | inr goes ↦ ground (arith, keeps-IsDistinct next ws d.1)
]

diff_progress-step :
    (previous next current : List Window) (made : List WindowChange)
    → prune (length previous) next previous ≡ some (current, made)
    → diff_progress previous next ≡ after_change made (place_all 0 next current)
unfolding diff_progress
diff_progress-step previous next current made e = rw (e, diff_progress)

diff_progress-Reaches :
    (previous next : List Window)
    → IsDistinct window_id previous
    → IsDistinct window_id next
    → Reaches previous next (diff_progress previous next)
diff_progress-Reaches previous next d e =
    let (made, gives, applied) = prune-Reaches next previous in
    by_equal _ _ _ _ (diff_progress-step previous next (keeps next previous) made gives) (
      Reaches-then _ (keeps next previous) _ made _ applied (
        place_all-Reaches next [] (keeps next previous) e (keeps-IsDistinct next previous d)
          (λ k h. refl) (λ k h. has-keeps k next previous h)))

diff_windows-some :
    (previous next current : List Window) (changes : List WindowChange)
    → diff_progress previous next ≡ some (current, changes)
    → diff_windows previous next ≡ some changes
unfolding diff_windows
diff_windows-some previous next current changes e = rw (e, diff_windows)

-- For windows with distinct ids before and after, `diff_windows` does not panic, its working copy
-- ends as the windows after, as it asserts in debug builds, and a client that
-- holds the windows before and applies its changes in order, each of which fits the client's state,
-- then holds exactly the windows after, in their order.
pub diff_windows-exact :
    (previous next : List Window)
    → IsDistinct window_id previous
    → IsDistinct window_id next
    → (changes : List WindowChange) × (diff_windows previous next ≡ some changes)
      × (diff_progress previous next ≡ some (next, changes))
      × (apply_changes changes previous ≡ some next)
diff_windows-exact previous next d e =
    let (changes, gives, applied) = diff_progress-Reaches previous next d e in
    (changes, diff_windows-some previous next next changes gives, gives, applied)
