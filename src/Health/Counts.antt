-- ===== src/Health/Counts.antt =====
-- The loop of `HealthReport::from_windows` (health.rs).
use melibea.Base.{
  ℕ, zero, suc, ◌+◌, ◌<◌, ◌≡◌, refl, ap, ◌∙◌, inl, inr, Bool, true, false, not, List, [], ◌∷◌,
  Option, none, some, if◌then◌else◌, ◌==◌, nat_eq, option_eq, length, filter, is_some, get_elem?,
  Bool-cases, Option-cases, arith,
}
use melibea.Config.{Config, AttentionRule, resolve}
use melibea.Config.Resolve.{resolve-first}
use melibea.Niri.{NiriWindow}
use melibea.Health.{window_identity, resolve_rule, Counters, bump, count_window, count_all}

abbrev pub count : (NiriWindow → Bool) → List NiriWindow → ℕ
count p ws = length (filter p ws)

module _ (config : Config) where
  -- The classes of windows.
  abbrev pub is_matched : NiriWindow → Bool
  is_matched w = is_some (resolve_rule config w)

  abbrev pub matches_rule : ℕ → NiriWindow → Bool
  matches_rule i w = elim (resolve_rule config w) [ none ↦ false | some j ↦ j == i ]

  abbrev pub tiled_for : ℕ → NiriWindow → Bool
  tiled_for i w = if w.is_floating then false else matches_rule i w

  abbrev pub matched_tiled : NiriWindow → Bool
  matched_tiled w = if w.is_floating then false else is_matched w

  abbrev pub unmatched_tiled : NiriWindow → Bool
  unmatched_tiled w = if w.is_floating then false else not (is_matched w)

  abbrev pub matched_floating : NiriWindow → Bool
  matched_floating w = if w.is_floating then is_matched w else false

  -- From `c` the windows are counted to `last`.
  pub record Counted (ws : List NiriWindow) (c last : Counters) : Type 0 where
    pub matched : last.matched_tiled ≡ c.matched_tiled + count matched_tiled ws
    pub unmatched : last.unmatched_tiled ≡ c.unmatched_tiled + count unmatched_tiled ws
    pub floats : last.floating ≡ c.floating + count (λ w. w.is_floating) ws
    pub matched_floats : last.matched_floating ≡ c.matched_floating + count matched_floating ws
    pub rules :
        (i n : ℕ)
        → get_elem? c.per_rule i ≡ some n
        → get_elem? last.per_rule i ≡ some (n + count (tiled_for i) ws)
    pub as_many : length last.per_rule ≡ length c.per_rule

bump-here :
    (m : ℕ) (ns : List ℕ) (i n : ℕ)
    → get_elem? (m ∷ ns) i ≡ some n
    → get_elem? ((m + 1) ∷ ns) i ≡ some (if 0 == i then n + 1 else n)
bump-here m ns zero n e = ground arith
bump-here m ns (suc i) n e = ground arith

bump-there :
    (m : ℕ) (ns ms : List ℕ) (index : ℕ)
    → ((i n : ℕ)
        → get_elem? ns i ≡ some n
        → get_elem? ms i ≡ some (if index == i then n + 1 else n))
    → (i n : ℕ) → get_elem? (m ∷ ns) i ≡ some n
    → get_elem? (m ∷ ms) i ≡ some (if suc index == i then n + 1 else n)
bump-there m ns ms index at zero n e = ground arith
bump-there m ns ms index at (suc i) n e = ground (arith, at i n e)

get_elem?-below :
    (rules : List AttentionRule) (i : ℕ) (r : AttentionRule)
    → get_elem? rules i ≡ some r
    → i < length rules
get_elem?-below [] i r h = absurd (ground arith)
get_elem?-below (x ∷ rules) zero r h = omega arith
get_elem?-below (x ∷ rules) (suc i) r h = omega (arith, get_elem?-below rules i r h)

bump-at :
    (ns : List ℕ) (index : ℕ)
    → index < length ns
    → (ms : List ℕ) × (bump ns index ≡ some ms)
      × (length ms ≡ length ns)
      × ((i n : ℕ)
          → get_elem? ns i ≡ some n
          → get_elem? ms i ≡ some (if index == i then n + 1 else n))
unfolding bump
bump-at [] index h = absurd (ground arith)
bump-at (m ∷ ns) zero h = ((m + 1) ∷ ns, refl, refl, bump-here m ns)
bump-at (m ∷ ns) (suc index) h =
    let (ms, gives, same, at) = bump-at ns index (omega arith) in
    (m ∷ ms, rw gives, ap suc same, bump-there m ns ms index at)

resolve_rule-below :
    (config : Config) (w : NiriWindow) (i : ℕ)
    → resolve_rule config w ≡ some i
    → i < length config.attention
unfolding resolve_rule
resolve_rule-below config w i h = elim (Option-cases (resolve config (window_identity w))) [
  | inl missing ↦ absurd (ground arith)
  | inr (r, e) ↦
      let f = ((resolve-first config (window_identity w)).0 r).0 e in
      let same : r.index ≡ i = ground arith in
      omega (arith, get_elem?-below config.attention r.index r.rule f.found)
]

count_window-same :
    (b b' : Bool) (r r' : Option ℕ) (c : Counters)
    → b ≡ b'
    → r ≡ r'
    → count_window b r c ≡ count_window b' r' c
count_window-same b b' r r' c e f = cc (e, f)

count_all-step :
    (config : Config) (c next last : Counters) (w : NiriWindow) (ws : List NiriWindow)
    → count_window w.is_floating (resolve_rule config w) c ≡ some next
    → count_all config next ws ≡ some last
    → count_all config c (w ∷ ws) ≡ some last
unfolding count_all
count_all-step config c next last w ws e f = rw (e, count_all) f

abbrev pub CountsOn : Config → List NiriWindow → Counters → Type 0
CountsOn config ws c =
    (last : Counters) × (count_all config c ws ≡ some last) × Counted config ws c last

module _ (config : Config) (w : NiriWindow) (ws : List NiriWindow) (c : Counters) where
  counted-floating :
      w.is_floating ≡ true
      → ((c' : Counters) → length c'.per_rule ≡ length config.attention → CountsOn config ws c')
      → length c.per_rule ≡ length config.attention
      → CountsOn config (w ∷ ws) c
  counted-floating floats later h =
      let next : Counters = record c {
        floating = c.floating + 1;
        matched_floating =
            if is_some (resolve_rule config w) then c.matched_floating + 1 else c.matched_floating;
      } in
      let (last, gives, n) = later next h in
      (
        last,
        count_all-step config c next last w ws (unfold count_window in rw floats) gives,
        record {
          matched = ground (arith, n.matched);
          unmatched = ground (arith, n.unmatched);
          floats = ground (arith, n.floats);
          matched_floats = ground (arith, n.matched_floats);
          rules = λ i m e. ground (arith, n.rules i m e);
          as_many = n.as_many;
        },
      )

  counted-unmatched :
      w.is_floating ≡ false
      → resolve_rule config w ≡ none
      → ((c' : Counters) → length c'.per_rule ≡ length config.attention → CountsOn config ws c')
      → length c.per_rule ≡ length config.attention
      → CountsOn config (w ∷ ws) c
  counted-unmatched tiled missing later h =
      let next : Counters = record c { unmatched_tiled = c.unmatched_tiled + 1 } in
      let (last, gives, n) = later next h in
      (
        last,
        count_all-step config c next last w ws
            (count_window-same w.is_floating false (resolve_rule config w) none c tiled missing
              ∙ unfold count_window in refl)
            gives,
        record {
          matched = ground (arith, n.matched);
          unmatched = ground (arith, n.unmatched);
          floats = ground (arith, n.floats);
          matched_floats = ground (arith, n.matched_floats);
          rules = λ i m e. ground (arith, n.rules i m e);
          as_many = n.as_many;
        },
      )

  count_window-matched :
      (index : ℕ) (per_rule : List ℕ)
      → bump c.per_rule index ≡ some per_rule
      → count_window false (some index) c
        ≡ some (record c { matched_tiled = c.matched_tiled + 1; per_rule = per_rule })
  unfolding count_window
  count_window-matched index per_rule e = rw (e, count_window)

  counted-matched :
      (index : ℕ)
      → w.is_floating ≡ false
      → resolve_rule config w ≡ some index
      → ((c' : Counters) → length c'.per_rule ≡ length config.attention → CountsOn config ws c')
      → length c.per_rule ≡ length config.attention
      → CountsOn config (w ∷ ws) c
  counted-matched index tiled hit later h =
      let below = resolve_rule-below config w index hit in
      let (per_rule, bumped, same, at) = bump-at c.per_rule index (omega arith) in
      let next : Counters = record c { matched_tiled = c.matched_tiled + 1; per_rule = per_rule } in
      let (last, gives, n) = later next (same ∙ h) in
      (
        last,
        count_all-step config c next last w ws
            (count_window-same w.is_floating false (resolve_rule config w) (some index) c tiled hit
              ∙ count_window-matched index per_rule bumped)
            gives,
        record {
          matched = ground (arith, n.matched);
          unmatched = ground (arith, n.unmatched);
          floats = ground (arith, n.floats);
          matched_floats = ground (arith, n.matched_floats);
          rules = λ i m e. n.rules i _ (at i m e) ∙ ground (arith, tiled, hit);
          as_many = n.as_many ∙ same;
        },
      )

pub count_all-Counted :
    (config : Config) (c : Counters) (ws : List NiriWindow)
    → length c.per_rule ≡ length config.attention
    → CountsOn config ws c
count_all-Counted config c [] h = (
  c,
  unfold count_all in refl,
  record {
    matched = omega arith;
    unmatched = omega arith;
    floats = omega arith;
    matched_floats = omega arith;
    rules = λ i n e. ground (arith, e);
    as_many = refl;
  },
)
count_all-Counted config c (w ∷ ws) h = elim (Bool-cases w.is_floating) [
  | inl floats ↦ counted-floating config w ws c floats (λ c'. count_all-Counted config c' ws) h
  | inr tiled ↦ elim (Option-cases (resolve_rule config w)) [
    | inl missing ↦
        counted-unmatched config w ws c tiled missing (λ c'. count_all-Counted config c' ws) h
    | inr (index, hit) ↦
        counted-matched config w ws c index tiled hit (λ c'. count_all-Counted config c' ws) h
  ]
]
