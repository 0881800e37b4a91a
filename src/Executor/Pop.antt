-- ===== src/Executor/Pop.antt =====
-- The order in which executor.rs runs actions.
use melibea.Base.{
  ℕ, zero, suc, ◌≤◌, ◌≡◌, refl, ◌⊎◌, inl, inr, List, [], ◌∷◌, none, some, arith, if◌then◌else◌,
  ◌==◌, Bool-cases, Option-cases, length, eq-nil_of_length, All, subst, sym, ◌+◌,
}
use melibea.Base.OrdMap
use melibea.Base.OrdMap.{OrdMap}
use melibea.Transition.{WindowId}
use melibea.Executor.{ResizeAction, PendingResizes, max_by_key, pop_next}
use melibea.Executor.Consistency.{IsConsistent, after_call-IsConsistent, pops, after_call}
use melibea.Executor.Best.{Outranks, All-get, max_by_key-best, length-remove_held}

-- What a pop that finds an action does.
pub record Pops (p : PendingResizes) (best : ResizeAction) : Type 0 where
  pub queued : OrdMap.get best.window_id p.pending ≡ some best
  pub first : (k : WindowId) (a : ResizeAction) → OrdMap.get k p.pending ≡ some a → Outranks best a
  pub others :
      (k : WindowId)
      → OrdMap.get k (pop_next p).0.pending
        ≡ (if k == best.window_id then none else OrdMap.get k p.pending)
  pub fewer : length (pop_next p).0.pending + 1 ≡ length p.pending

max_by_key-none : (m : OrdMap ResizeAction) → max_by_key (OrdMap.values m) ≡ none → m ≡ []
unfolding max_by_key
max_by_key-none [] h = refl
max_by_key-none ((j, a) ∷ m) h = absurd (ground arith)

found-Pops :
    (p : PendingResizes) (best : ResizeAction)
    → IsConsistent p
    → max_by_key (OrdMap.values p.pending) ≡ some best
    → ((pop_next p).1 ≡ some best) × Pops p best
unfolding pop_next
found-Pops p best c found =
    let (held, top) = max_by_key-best p.pending best c.sorted found in
    let (k, at) = held in
    let key : best.window_id ≡ k = (c.keyed k best at).0 in
    let queued : OrdMap.get best.window_id p.pending ≡ some best =
      subst (λ j. OrdMap.get j p.pending ≡ some best) (sym key) at in
    (
      rw (found, pop_next) queued,
      record {
        queued = queued;
        first = All-get (Outranks best) p.pending top;
        others = λ j. rw (found, pop_next) (OrdMap.get-remove best.window_id j p.pending);
        fewer =
            rw (found, pop_next) (length-remove_held best.window_id best p.pending c.sorted queued);
      },
    )

-- On a consistent queue `pop_next` finds nothing exactly if no action is queued. Otherwise it hands out
-- the queued action that no other outranks, by observation number and then by focus, and takes that
-- one action and no other off the queue.
pub pop_next-Pops :
    (p : PendingResizes)
    → IsConsistent p
    → ((p.pending ≡ []) × ((pop_next p).1 ≡ none))
      ⊎ ((best : ResizeAction) × ((pop_next p).1 ≡ some best) × Pops p best)
pop_next-Pops p c = elim (Option-cases (max_by_key (OrdMap.values p.pending))) [
  | inl empty ↦ inl (max_by_key-none p.pending empty, unfold pop_next in rw (empty, pop_next))
  | inr (best, found) ↦ let (out, taken) = found-Pops p best c found in inr (best, out, taken)
]

-- The loop that runs actions while any is queued, on fuel.
unfoldable pub pop_all : ℕ → PendingResizes → PendingResizes × List ResizeAction
pop_all zero p = (p, [])
pop_all (suc fuel) p = elim (pop_next p).1 [
  | none ↦ (p, [])
  | some a ↦ let (last, rest) = pop_all fuel (pop_next p).0 in (last, a ∷ rest)
]

-- Each action is outranked by none that comes after it.
abbrev pub IsRanked : List ResizeAction → Type 0
IsRanked [] = Unit {0}
IsRanked (a ∷ rest) = All (Outranks a) rest × IsRanked rest

-- The actions of a run each come from the queue.
pop_all-All :
    (P : ResizeAction → Type 0) (fuel : ℕ) (p : PendingResizes)
    → IsConsistent p
    → ((k : WindowId) (a : ResizeAction) → OrdMap.get k p.pending ≡ some a → P a)
    → All P (pop_all fuel p).1
unfolding pop_all
pop_all-All P zero p c h = tt
pop_all-All P (suc fuel) p c h = elim (pop_next-Pops p c) [
  | inl (empty, out) ↦ rw (out, pop_all) tt
  | inr (best, out, taken) ↦
      rw (out, pop_all)
        (
          h best.window_id best taken.queued,
          pop_all-All P fuel (pop_next p).0 (unfold after_call in after_call-IsConsistent p pops c)
              (λ k a e. h k a (ground (arith, taken.others k))),
        )
]

abbrev pub Among : ResizeAction → List ResizeAction → Type 0
Among a [] = ⊥
Among a (b ∷ rest) = (a ≡ b) ⊎ Among a rest

-- What running a whole queue amounts to.
pub record Drains (p : PendingResizes) (last : PendingResizes) (run : List ResizeAction)
    : Type 0 where
  pub emptied : last.pending ≡ []
  pub ranked : IsRanked run
  pub complete : (k : WindowId) (a : ResizeAction) → OrdMap.get k p.pending ≡ some a → Among a run
  pub sound : All (λ a. OrdMap.get a.window_id p.pending ≡ some a) run
  pub counted : length run ≡ length p.pending

Drains-empty : (p : PendingResizes) → p.pending ≡ [] → Drains p p []
unfolding OrdMap.get
Drains-empty p e = record {
  emptied = e;
  ranked = tt;
  complete = λ k a h. absurd (ground arith);
  sound = tt;
  counted = ground arith;
}

module _ (p : PendingResizes) (best : ResizeAction) (c : IsConsistent p) (taken : Pops p best) where
  Drains-cons :
      (fuel : ℕ)
      → Drains (pop_next p).0 (pop_all fuel (pop_next p).0).0 (pop_all fuel (pop_next p).0).1
      → Drains p (pop_all fuel (pop_next p).0).0 (best ∷ (pop_all fuel (pop_next p).0).1)
  Drains-cons fuel d =
      let after : IsConsistent (pop_next p).0 =
        unfold after_call in after_call-IsConsistent p pops c in
      record {
        emptied = d.emptied;
        ranked = (
          pop_all-All (Outranks best) fuel (pop_next p).0 after
              (λ k a e. taken.first k a (ground (arith, taken.others k))),
          d.ranked,
        );
        complete = λ k a e. elim (Bool-cases (k == best.window_id)) [
          | inl here ↦ inl (ground (arith, taken.queued))
          | inr there ↦ inr (d.complete k a (ground (arith, taken.others k)))
        ];
        sound = (
          taken.queued,
          pop_all-All (λ a. OrdMap.get a.window_id p.pending ≡ some a) fuel (pop_next p).0 after
              (λ k a e.
                let was : OrdMap.get k p.pending ≡ some a = ground (arith, taken.others k) in
                subst (λ j. OrdMap.get j p.pending ≡ some a) (sym (c.keyed k a was).0) was),
        );
        counted = omega (arith, d.counted, taken.fewer);
      }

pub pop_all-Drains_at :
    (fuel : ℕ) (p : PendingResizes)
    → IsConsistent p
    → length p.pending ≤ fuel
    → Drains p (pop_all fuel p).0 (pop_all fuel p).1
unfolding pop_all
pop_all-Drains_at zero p c enough = Drains-empty p (eq-nil_of_length p.pending enough)
pop_all-Drains_at (suc fuel) p c enough = elim (pop_next-Pops p c) [
  | inl (empty, out) ↦ rw (out, pop_all) (Drains-empty p empty)
  | inr (best, out, taken) ↦
      let after : IsConsistent (pop_next p).0 =
        unfold after_call in after_call-IsConsistent p pops c in
      rw (out, pop_all)
        (Drains-cons p best c taken fuel
          (pop_all-Drains_at fuel (pop_next p).0 after (omega (arith, taken.fewer))))
]

-- Popping until nothing is found ends after as many pops as actions are queued and leaves none: the
-- actions that come out are the queued ones, each as it was queued, newer observations first and,
-- within one observation, the focused window first.
pub pop_all-Drains :
    (p : PendingResizes)
    → IsConsistent p
    → Drains p (pop_all (length p.pending) p).0 (pop_all (length p.pending) p).1
pop_all-Drains p c = pop_all-Drains_at (length p.pending) p c (omega arith)
