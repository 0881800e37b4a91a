-- ===== src/Protocol/Diff/Loop.antt =====
-- The second loop of `diff_windows` (protocol.rs): all its rounds.
use melibea.Base.{
  ℕ, ◌+◌, ◌≡◌, refl, sym, subst, inl, inr, true, false, List, [], ◌∷◌, ◌++◌, some, ◌==◌, length,
  Bool-cases, arith, length-append,
}
use melibea.Base.Vec.{append_snoc}
use melibea.Base.Vec.Keyed.{has, IsDistinct, without, has-append, without-IsDistinct, has-without}
use melibea.Protocol.Message.{Window, window_id, window_eq, WindowChange}
use melibea.Protocol.Diff.{place, place_all, after_change}
use melibea.Protocol.Diff.Replay.{Reaches, Reaches-then}
use melibea.Protocol.Diff.Place.{stays-Reaches, by_equal, place-Reaches}

place_all-step :
    (n : ℕ) (w : Window) (ws current placed : List Window) (made : List WindowChange)
    → place n w current ≡ some (placed, made)
    → place_all n (w ∷ ws) current ≡ after_change made (place_all (n + 1) ws placed)
unfolding place_all
place_all-step n w ws current placed made e = rw (e, place_all)

no_entry : (rest : List Window) → ((k : ℕ) → has window_id k rest ≡ true → false ≡ true) → rest ≡ []
no_entry [] h = refl
no_entry (x ∷ rest) h = absurd (ground (arith, h x.id))

place_all-done :
    (pre : List Window) (n : ℕ) → Reaches (pre ++ []) (pre ++ []) (place_all n [] (pre ++ []))
unfolding place_all
place_all-done pre n = stays-Reaches _ _ refl

-- What the loop maintains goes on to hold after a round.
still_new :
    (w : Window) (ws pre : List Window) (k : ℕ)
    → has window_id w.id ws ≡ false
    → (has window_id k (w ∷ ws) ≡ true → has window_id k pre ≡ false)
    → has window_id k ws ≡ true
    → has window_id k (pre ++ w ∷ []) ≡ false
still_new w ws pre k apart new h = elim (Bool-cases (w.id == k)) [
  | inl same ↦ absurd (ground arith)
  | inr other ↦ ground (arith, has-append window_id k pre (w ∷ []))
]

still_covered :
    (w : Window) (ws rest : List Window) (k : ℕ)
    → (has window_id k rest ≡ true → has window_id k (w ∷ ws) ≡ true)
    → has window_id k (without window_id w.id rest) ≡ true
    → has window_id k ws ≡ true
still_covered w ws rest k covered h = elim (Bool-cases (w.id == k)) [
  | inl same ↦ absurd (ground (arith, has-without window_id k w.id rest))
  | inr other ↦ ground (arith, has-without window_id k w.id rest)
]

from_next :
    (w : Window) (ws pre ys : List Window)
    → Reaches
        ((pre ++ w ∷ []) ++ ys)
        ((pre ++ w ∷ []) ++ ws)
        (place_all (length (pre ++ w ∷ [])) ws ((pre ++ w ∷ []) ++ ys))
    → Reaches (pre ++ (w ∷ ys)) (pre ++ (w ∷ ws)) (place_all (length pre + 1) ws (pre ++ (w ∷ ys)))
from_next w ws pre ys r =
    subst (λ n. Reaches (pre ++ (w ∷ ys)) (pre ++ (w ∷ ws)) (place_all n ws (pre ++ (w ∷ ys))))
      (length-append pre (w ∷ []))
      (subst (λ us. Reaches us (pre ++ (w ∷ ws)) (place_all (length (pre ++ w ∷ [])) ws us))
        (append_snoc pre w ys)
        (subst
          (λ vs.
            Reaches ((pre ++ w ∷ []) ++ ys) vs
              (place_all (length (pre ++ w ∷ [])) ws ((pre ++ w ∷ []) ++ ys)))
          (append_snoc pre w ws) r))

-- The whole loop: `pre` is in place, `rest` is what is left of the old windows.
pub place_all-Reaches :
    (todo pre rest : List Window)
    → IsDistinct window_id todo
    → IsDistinct window_id rest
    → ((k : ℕ) → has window_id k todo ≡ true → has window_id k pre ≡ false)
    → ((k : ℕ) → has window_id k rest ≡ true → has window_id k todo ≡ true)
    → Reaches (pre ++ rest) (pre ++ todo) (place_all (length pre) todo (pre ++ rest))
place_all-Reaches [] pre rest d e new covered =
    subst (λ r. Reaches (pre ++ r) (pre ++ []) (place_all (length pre) [] (pre ++ r)))
      (sym (no_entry rest covered)) (place_all-done pre (length pre))
place_all-Reaches (w ∷ ws) pre rest d e new covered =
    let (made, gives, applied) = place-Reaches pre w rest (new w.id (ground arith)) e in
    let ys = without window_id w.id rest in
    let later =
      place_all-Reaches ws (pre ++ w ∷ []) ys d.1 (without-IsDistinct window_id w.id rest e)
        (λ k. still_new w ws pre k d.0 (new k)) (λ k. still_covered w ws rest k (covered k)) in
    by_equal _ _ _ _ (place_all-step (length pre) w ws (pre ++ rest) (pre ++ (w ∷ ys)) made gives)
      (Reaches-then _ (pre ++ (w ∷ ys)) _ made _ applied (from_next w ws pre ys later))
