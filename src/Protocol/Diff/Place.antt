-- ===== src/Protocol/Diff/Place.antt =====
-- The second loop of `diff_windows` (protocol.rs): one round.
use melibea.Base.{
  ℕ, zero, suc, ◌+◌, ◌≡◌, refl, sym, subst, ap, inl, inr, true, false, List, [], ◌∷◌, ◌++◌, Option,
  none, some, ◌==◌, ◌=?◌, length, Bool-cases, Option-cases, arith, eq_of_beq,
}
use melibea.Base.Vec.{
  remove_at, insert_at-prefix, remove_at-prefix, set_at-prefix, get_elem?-prefix,
}
use melibea.Base.Vec.Keyed.{
  has, position, IsDistinct, position-none, position-some, position-prefix, remove_at-without,
  without, without_absent,
}
use melibea.Protocol.Message.{Window, window_id, window_eq, WindowChange, added, updated, moved}
use melibea.Protocol.Diff.{
  Progress, move_to, refresh, place, after_change, apply_change, apply_changes,
}
use melibea.Protocol.Diff.Replay.{Reaches, Reaches-then, apply_one}

-- A stage that makes no change, and one that makes one.
pub stays-Reaches : (ws target : List Window) → ws ≡ target → Reaches ws target (some (ws, []))
unfolding apply_changes
stays-Reaches ws target e = ([], rw e, rw e)

change-Reaches :
    (ws target : List Window) (c : WindowChange)
    → apply_change c ws ≡ some target
    → Reaches ws target (some (target, c ∷ []))
change-Reaches ws target c h = (c ∷ [], refl, apply_one c ws target h)

-- A stage that gives what another gives.
pub by_equal :
    (ws target : List Window) (p q : Progress) → p ≡ q → Reaches ws target q → Reaches ws target p
by_equal ws target p q e r = subst (Reaches ws target) (sym e) r

cut_first :
    (rest ys : List Window) (j : ℕ) (x : Window)
    → remove_at rest j ≡ some (x, ys)
    → j ≡ 0
    → rest ≡ x ∷ ys
unfolding remove_at
cut_first [] ys j x cut e = absurd (ground arith)
cut_first (y ∷ rest) ys zero x cut e = ground arith
cut_first (y ∷ rest) ys (suc j) x cut e = absurd (ground arith)

module _ (pre : List Window) (w : Window) where
  refresh-same :
      (x : Window) (ys : List Window)
      → (x =? w) ≡ true
      → refresh (length pre) w (pre ++ (x ∷ ys)) ≡ some (pre ++ (x ∷ ys), [])
  unfolding refresh
  refresh-same x ys same = rw (get_elem?-prefix pre ys x, refresh) (rw (same, refresh))

  refresh-differs :
      (x : Window) (ys : List Window)
      → (x =? w) ≡ false
      → refresh (length pre) w (pre ++ (x ∷ ys))
        ≡ some (pre ++ (w ∷ ys), updated (length pre) w ∷ [])
  unfolding refresh
  refresh-differs x ys differs =
      rw (get_elem?-prefix pre ys x, refresh)
        (rw (differs, refresh) (rw (set_at-prefix pre ys x w, refresh)))

  apply-updated :
      (x : Window) (ys : List Window)
      → apply_change (updated (length pre) w) (pre ++ (x ∷ ys)) ≡ some (pre ++ (w ∷ ys))
  unfolding apply_change
  apply-updated x ys = set_at-prefix pre ys x w

  refresh-Reaches :
      (x : Window) (ys : List Window)
      → Reaches (pre ++ (x ∷ ys)) (pre ++ (w ∷ ys)) (refresh (length pre) w (pre ++ (x ∷ ys)))
  refresh-Reaches x ys = elim (Bool-cases (x =? w)) [
    | inl same ↦
        subst
          (λ v.
            Reaches (pre ++ (x ∷ ys)) (pre ++ (v ∷ ys)) (refresh (length pre) w (pre ++ (x ∷ ys))))
          (eq_of_beq x w same) (by_equal _ _ _ _ (refresh-same x ys same) (stays-Reaches _ _ refl))
    | inr differs ↦
        by_equal _ _ _ _ (refresh-differs x ys differs)
          (change-Reaches _ _ (updated (length pre) w) (apply-updated x ys))
  ]

  module _ (j : ℕ) (x : Window) (rest ys : List Window)
      (cut : remove_at rest j ≡ some (x, ys)) where
    move-here :
        (length pre + j == length pre) ≡ true
        → move_to (length pre + j) (length pre) w (pre ++ rest) ≡ some (pre ++ rest, [])
    unfolding move_to
    move-here here = rw (here, move_to)

    move-there :
        (length pre + j == length pre) ≡ false
        → move_to (length pre + j) (length pre) w (pre ++ rest)
          ≡ some (pre ++ (x ∷ ys), moved w.id (length pre + j) (length pre) ∷ [])
    unfolding move_to
    move-there there =
        rw (there, move_to)
          (rw (remove_at-prefix pre rest j x ys cut, move_to)
            (rw (insert_at-prefix pre ys x, move_to)))

    apply-moved :
        x.id ≡ w.id
        → apply_change (moved w.id (length pre + j) (length pre)) (pre ++ rest)
          ≡ some (pre ++ (x ∷ ys))
    unfolding apply_change
    apply-moved key =
        rw (remove_at-prefix pre rest j x ys cut, apply_change)
          (rw (insert_at-prefix pre ys x, apply_change) (ground (arith, key)))

    move-Reaches :
        x.id ≡ w.id
        → Reaches
            (pre ++ rest)
            (pre ++ (x ∷ ys))
            (move_to (length pre + j) (length pre) w (pre ++ rest))
    move-Reaches key = elim (Bool-cases (length pre + j == length pre)) [
      | inl here ↦
          by_equal _ _ _ _ (move-here here)
            (stays-Reaches _ _ (ap (◌++◌ pre) (cut_first rest ys j x cut (ground arith))))
      | inr there ↦
          by_equal _ _ _ _ (move-there there)
            (change-Reaches _ _ (moved w.id (length pre + j) (length pre)) (apply-moved key))
    ]

  place-new :
      (rest : List Window)
      → position window_id w.id (pre ++ rest) ≡ none
      → place (length pre) w (pre ++ rest) ≡ some (pre ++ (w ∷ rest), added (length pre) w ∷ [])
  unfolding place
  place-new rest e = rw (e, place) (rw (insert_at-prefix pre rest w, place))

  apply-added :
      (rest : List Window)
      → apply_change (added (length pre) w) (pre ++ rest) ≡ some (pre ++ (w ∷ rest))
  unfolding apply_change
  apply-added rest = insert_at-prefix pre rest w

  place-old :
      (rest placed : List Window) (i : ℕ) (made : List WindowChange)
      → position window_id w.id (pre ++ rest) ≡ some i
      → move_to i (length pre) w (pre ++ rest) ≡ some (placed, made)
      → place (length pre) w (pre ++ rest) ≡ after_change made (refresh (length pre) w placed)
  unfolding place
  place-old rest placed i made e m = rw (e, place) (rw (m, place))

  module _ (rest : List Window) (new : has window_id w.id pre ≡ false) where
    found_at :
        (found : Option ℕ)
        → position window_id w.id rest ≡ found
        → position window_id w.id (pre ++ rest)
          ≡ elim found [ none ↦ none | some j ↦ some (length pre + j) ]
    found_at found e = rw (← e) (position-prefix window_id w.id pre rest new)

    place_new-Reaches :
        position window_id w.id rest ≡ none
        → Reaches
            (pre ++ rest)
            (pre ++ (w ∷ without window_id w.id rest))
            (place (length pre) w (pre ++ rest))
    place_new-Reaches e =
        subst (λ ys. Reaches (pre ++ rest) (pre ++ (w ∷ ys)) (place (length pre) w (pre ++ rest)))
          (sym (without_absent window_id w.id rest ((position-none window_id w.id rest).0 e)))
          (by_equal _ _ _ _ (place-new rest (found_at none e))
            (change-Reaches _ _ (added (length pre) w) (apply-added rest)))

    place_old-Reaches :
        (j : ℕ)
        → IsDistinct window_id rest
        → position window_id w.id rest ≡ some j
        → Reaches
            (pre ++ rest)
            (pre ++ (w ∷ without window_id w.id rest))
            (place (length pre) w (pre ++ rest))
    place_old-Reaches j d e =
        let (x, at, key) = position-some window_id w.id j rest e in
        let cut = remove_at-without window_id w.id j x rest d e at in
        let ys = without window_id w.id rest in
        let (made, gives, applied) = move-Reaches j x rest ys cut key in
        by_equal _ _ _ _
          (place-old rest (pre ++ (x ∷ ys)) (length pre + j) made (found_at (some j) e) gives)
          (Reaches-then _ (pre ++ (x ∷ ys)) _ made _ applied (refresh-Reaches x ys))

    -- One round puts the new window at its index and takes the old one away.
    pub place-Reaches :
        IsDistinct window_id rest
        → Reaches
            (pre ++ rest)
            (pre ++ (w ∷ without window_id w.id rest))
            (place (length pre) w (pre ++ rest))
    place-Reaches d = elim (Option-cases (position window_id w.id rest)) [
      | inl absent ↦ place_new-Reaches absent
      | inr (j, found) ↦ place_old-Reaches j d found
    ]
