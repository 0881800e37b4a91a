-- ===== src/Protocol/Diff/Prune.antt =====
-- The first loop of `diff_windows` (protocol.rs).
use melibea.Base.{
  ℕ, suc, ◌+◌, ◌≡◌, refl, sym, subst, ◌∙◌, ap, inl, inr, Bool, true, false, List, [], ◌∷◌, ◌++◌,
  some, length, get_elem?, filter, Bool-cases, arith,
}
use mathlib.Core.List.{append-nil}
use native.Mathlib.Nat.{add-zero}
use melibea.Base.Vec.{remove_at}
use melibea.Base.Vec.Keyed.{has}
use melibea.Protocol.Message.{Window, window_id, removed}
use melibea.Protocol.Diff.{prune, after_change, apply_change, apply_changes}
use melibea.Protocol.Diff.Replay.{Reaches, Reaches-then, apply_one}

-- `onto r ws` has the entries of `r`, the last one first, before `ws`.
module _ {A : Type 0} where
  abbrev onto : List A → List A → List A
  onto [] ws = ws
  onto (x ∷ r) ws = onto r (x ∷ ws)

  onto-onto : (xs ys zs : List A) → onto (onto xs ys) zs ≡ onto ys (xs ++ zs)
  onto-onto [] ys zs = refl
  onto-onto (x ∷ xs) ys zs = onto-onto xs (x ∷ ys) zs

  length-onto : (xs ys : List A) → length (onto xs ys) ≡ length xs + length ys
  length-onto [] ys = omega arith
  length-onto (x ∷ xs) ys = omega (arith, length-onto xs (x ∷ ys))

  filter-onto :
      (p : A → Bool) (xs ys : List A) → filter p (onto xs ys) ≡ onto (filter p xs) (filter p ys)
  filter-onto p [] ys = refl
  filter-onto p (x ∷ xs) ys = elim (Bool-cases (p x)) [
    | inl stays ↦ filter-onto p xs (x ∷ ys) ∙ rw stays
    | inr goes ↦ filter-onto p xs (x ∷ ys) ∙ rw goes
  ]

  get_elem?-onto : (r ws : List A) (j : ℕ) → get_elem? (onto r ws) (length r + j) ≡ get_elem? ws j
  get_elem?-onto [] ws j = ground arith
  get_elem?-onto (x ∷ r) ws j =
      let e : length (x ∷ r) + j ≡ length r + suc j = omega arith in
      rw e (get_elem?-onto r (x ∷ ws) (suc j))

  remove_at-onto :
      (r ws ys : List A) (j : ℕ) (a : A)
      → remove_at ws j ≡ some (a, ys)
      → remove_at (onto r ws) (length r + j) ≡ some (a, onto r ys)
  unfolding remove_at
  remove_at-onto [] ws ys j a h = ground arith
  remove_at-onto (x ∷ r) ws ys j a h =
      let e : length (x ∷ r) + j ≡ length r + suc j = omega arith in
      rw e (remove_at-onto r (x ∷ ws) (x ∷ ys) (suc j) a (rw (h, remove_at)))

-- The windows that are still there.
abbrev pub keeps : List Window → List Window → List Window
keeps next ws = filter (λ w. has window_id w.id next) ws

module _ (next : List Window) where
  at_end : (x : Window) (r kept : List Window) → get_elem? (onto r (x ∷ kept)) (length r) ≡ some x
  at_end x r kept = rw (← add-zero (length r)) (get_elem?-onto r (x ∷ kept) 0)

  cut_end :
      (x : Window) (r kept : List Window)
      → remove_at (onto r (x ∷ kept)) (length r) ≡ some (x, onto r kept)
  unfolding remove_at
  cut_end x r kept = rw (← add-zero (length r)) (remove_at-onto r (x ∷ kept) kept 0 x refl)

  prune-stays :
      (x : Window) (r kept : List Window)
      → has window_id x.id next ≡ true
      → prune (length (x ∷ r)) next (onto (x ∷ r) kept) ≡ prune (length r) next (onto r (x ∷ kept))
  unfolding prune
  prune-stays x r kept h = rw (at_end x r kept, prune) (rw (h, prune))

  prune-goes :
      (x : Window) (r kept : List Window)
      → has window_id x.id next ≡ false
      → prune (length (x ∷ r)) next (onto (x ∷ r) kept)
        ≡ after_change (removed (length r) x.id ∷ []) (prune (length r) next (onto r kept))
  unfolding prune
  prune-goes x r kept h = rw (at_end x r kept, prune) (rw (h, prune) (rw (cut_end x r kept, prune)))

  removed_end :
      (x : Window) (r kept : List Window)
      → apply_change (removed (length r) x.id) (onto r (x ∷ kept)) ≡ some (onto r kept)
  unfolding apply_change
  removed_end x r kept = rw (cut_end x r kept, apply_change) (ground arith)

  keeps-stays :
      (x : Window) (r : List Window)
      → has window_id x.id next ≡ true
      → keeps next (x ∷ r) ≡ x ∷ keeps next r
  keeps-stays x r h = rw h

  keeps-goes :
      (x : Window) (r : List Window)
      → has window_id x.id next ≡ false
      → keeps next (x ∷ r) ≡ keeps next r
  keeps-goes x r h = rw h

  prune-onto :
      (r kept : List Window)
      → Reaches (onto r kept) (onto (keeps next r) kept) (prune (length r) next (onto r kept))
  prune-onto [] kept = unfold prune apply_changes in ([], refl, refl)
  prune-onto (x ∷ r) kept = elim (Bool-cases (has window_id x.id next)) [
    | inl stays ↦
        subst
          (λ ks.
            Reaches (onto r (x ∷ kept)) (onto ks kept)
              (prune (length (x ∷ r)) next (onto (x ∷ r) kept)))
          (sym (keeps-stays x r stays))
          (subst (λ p. Reaches (onto r (x ∷ kept)) (onto (keeps next r) (x ∷ kept)) p)
            (sym (prune-stays x r kept stays)) (prune-onto r (x ∷ kept)))
    | inr goes ↦
        subst
          (λ ks.
            Reaches (onto r (x ∷ kept)) (onto ks kept)
              (prune (length (x ∷ r)) next (onto (x ∷ r) kept)))
          (sym (keeps-goes x r goes))
          (subst (λ p. Reaches (onto r (x ∷ kept)) (onto (keeps next r) kept) p)
            (sym (prune-goes x r kept goes))
            (Reaches-then _ (onto r kept) _ (removed (length r) x.id ∷ []) _
              (apply_one (removed (length r) x.id) _ (onto r kept) (removed_end x r kept))
              (prune-onto r kept)))
  ]

  -- The first loop ends at the windows that are still there, and so does a client.
  pub prune-Reaches :
      (previous : List Window)
      → Reaches previous (keeps next previous) (prune (length previous) next previous)
  prune-Reaches previous =
      let back : onto (onto previous []) [] ≡ previous =
        onto-onto previous [] [] ∙ append-nil previous in
      let kept : onto (keeps next (onto previous [])) [] ≡ keeps next previous =
        sym (filter-onto (λ w. has window_id w.id next) (onto previous []) [])
        ∙ ap (keeps next) back in
      let count : length (onto previous []) ≡ length previous =
        omega (arith, length-onto previous []) in
      subst (λ n. Reaches previous (keeps next previous) (prune n next previous)) count
        (subst (λ ks. Reaches previous ks (prune (length (onto previous [])) next previous)) kept
          (subst
            (λ ws.
              Reaches ws (onto (keeps next (onto previous [])) [])
                (prune (length (onto previous [])) next ws))
            back (prune-onto (onto previous []) [])))
