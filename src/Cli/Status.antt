-- ===== src/Cli/Status.antt =====
-- main.rs: `status`, which reads niri's windows once and reports on them.
use melibea.Base.{
  ℕ, zero, suc, ◌+◌, ◌<◌, ◌≡◌, refl, sym, ap, subst, ◌∙◌, ◌↔◌, ◌⊎◌, inl, inr, List, Option, none,
  some, Result, ok, err, arith,
}
use melibea.Niri.{
  NiriWindow, NiriEvent, windows_changed, minimized_windows_changed, window_opened_or_changed,
  window_closed, window_focus_changed, ignored,
}
use melibea.NiriIpc.Reply.{NiriIpcError}

abbrev pub initial_snapshot_event_limit : ℕ
initial_snapshot_event_limit = 64

-- What `read_event` gives.
abbrev pub Read : Type 0
Read = Result NiriIpcError (Option NiriEvent)

pub data SnapshotError : Type 0 where
  closed_before_snapshot : SnapshotError
  cannot_read_snapshot : NiriIpcError → SnapshotError
  no_snapshot : SnapshotError

-- The body of the search, with what the rest of it finds.
unfoldable pub take_read :
    Read → Result SnapshotError (List NiriWindow) → Result SnapshotError (List NiriWindow)
take_read (ok (some (windows_changed windows))) rest = ok windows
take_read (ok (some event)) rest = rest
take_read (ok none) rest = err closed_before_snapshot
take_read (err error) rest = err (cannot_read_snapshot error)

-- The search from the `k`-th read on, for so many reads.
unfoldable pub find_snapshot : (ℕ → Read) → ℕ → ℕ → Result SnapshotError (List NiriWindow)
unfolding take_read
find_snapshot reads k zero = err no_snapshot
find_snapshot reads k (suc n) = take_read (reads k) (find_snapshot reads (k + 1) n)

-- An event that is no snapshot of the windows.
abbrev pub IsOther : NiriEvent → Type 0
IsOther (windows_changed windows) = ⊥
IsOther _ = Unit {0}

abbrev pub SkipsAt : (ℕ → Read) → ℕ → Type 0
SkipsAt reads j = (event : NiriEvent) × (reads j ≡ ok (some event)) × IsOther event

-- The snapshot is the first one from `k` on, within `n` reads, and only events come before it.
abbrev pub IsFirstSnapshot : (ℕ → Read) → ℕ → ℕ → List NiriWindow → Type 0
IsFirstSnapshot reads k n windows =
    (i : ℕ) × (i < n)
    × (reads (k + i) ≡ ok (some (windows_changed windows)))
    × ((j : ℕ) → j < i → SkipsAt reads (k + j))

first-here :
    (reads : ℕ → Read) (k n : ℕ) (windows : List NiriWindow)
    → reads k ≡ ok (some (windows_changed windows))
    → IsFirstSnapshot reads k (suc n) windows
first-here reads k n windows e = (
  0,
  omega arith,
  subst (λ i. reads i ≡ ok (some (windows_changed windows))) (omega arith) e,
  λ j h. absurd (omega (arith, h)),
)

first-later :
    (reads : ℕ → Read) (k n : ℕ) (windows : List NiriWindow)
    → SkipsAt reads k
    → IsFirstSnapshot reads (k + 1) n windows
    → IsFirstSnapshot reads k (suc n) windows
first-later reads k n windows skip (i, lt, e, before) = (
  suc i,
  omega (arith, lt),
  subst (λ m. reads m ≡ ok (some (windows_changed windows))) (omega arith) e,
  skipped,
)
  where
    skipped : (j : ℕ) → j < suc i → SkipsAt reads (k + j)
    skipped zero h = subst (SkipsAt reads) (omega arith) skip
    skipped (suc j) h = subst (SkipsAt reads) (omega arith) (before j (omega (arith, h)))

event-cases :
    (e : NiriEvent) → IsOther e ⊎ ((windows : List NiriWindow) × (e ≡ windows_changed windows))
event-cases (windows_changed windows) = inr (windows, refl)
event-cases (minimized_windows_changed windows) = inl tt
event-cases (window_opened_or_changed w) = inl tt
event-cases (window_closed id) = inl tt
event-cases (window_focus_changed id) = inl tt
event-cases (ignored name) = inl tt

take_read-other :
    (e : NiriEvent) (rest : Result SnapshotError (List NiriWindow))
    → IsOther e
    → take_read (ok (some e)) rest ≡ rest
unfolding take_read
take_read-other (windows_changed windows) rest h = absurd h
take_read-other (minimized_windows_changed windows) rest h = refl
take_read-other (window_opened_or_changed w) rest h = refl
take_read-other (window_closed id) rest h = refl
take_read-other (window_focus_changed id) rest h = refl
take_read-other (ignored name) rest h = refl

-- What a read that leads to a snapshot gives.
take_read-ok :
    (r : Read) (rest : Result SnapshotError (List NiriWindow)) (windows : List NiriWindow)
    → take_read r rest ≡ ok windows
    → (r ≡ ok (some (windows_changed windows)))
      ⊎ ((e : NiriEvent) × (r ≡ ok (some e)) × IsOther e × (rest ≡ ok windows))
unfolding take_read
take_read-ok (err error) rest windows h = absurd (ground (arith, h))
take_read-ok (ok none) rest windows h = absurd (ground (arith, h))
take_read-ok (ok (some e)) rest windows h = elim (event-cases e) [
  | inl other ↦ inr (e, refl, other, sym (take_read-other e rest other) ∙ h)
  | inr (ws, is_snapshot) ↦
      let found : ok ws ≡ ok windows =
        ap (λ e. take_read (ok (some e)) rest) (sym is_snapshot) ∙ h in
      let same : ws ≡ windows = ground (arith, found) in
      inl (ap (λ e. ok (some e)) (is_snapshot ∙ ap windows_changed same))
]

module _ (reads : ℕ → Read) where
  find_snapshot-first :
      (n k : ℕ) (windows : List NiriWindow)
      → find_snapshot reads k n ≡ ok windows
      → IsFirstSnapshot reads k n windows
  unfolding find_snapshot
  find_snapshot-first zero k windows h = absurd (ground (arith, h))
  find_snapshot-first (suc n) k windows h =
      elim (take_read-ok (reads k) (find_snapshot reads (k + 1) n) windows h) [
        | inl e ↦ first-here reads k n windows e
        | inr (event, e, other, rest) ↦
            first-later reads k n windows (event, e, other)
              (find_snapshot-first n (k + 1) windows rest)
      ]

  first-find_snapshot :
      (n k : ℕ) (windows : List NiriWindow)
      → IsFirstSnapshot reads k n windows
      → find_snapshot reads k n ≡ ok windows
  unfolding find_snapshot
  first-find_snapshot zero k windows (i, lt, e, before) = absurd (omega (arith, lt))
  first-find_snapshot (suc n) k windows (zero, lt, e, before) =
      let here : reads k ≡ ok (some (windows_changed windows)) =
        subst (λ i. reads i ≡ ok (some (windows_changed windows))) (omega arith) e in
      rw here (unfold take_read in refl)
  first-find_snapshot (suc n) k windows (suc i, lt, e, before) =
      let (event, f, other) = before zero (omega arith) in
      let here : reads k ≡ ok (some event) =
        subst (λ m. reads m ≡ ok (some event)) (omega arith) f in
      ap (λ r. take_read r (find_snapshot reads (k + 1) n)) here
      ∙ take_read-other event (find_snapshot reads (k + 1) n) other
      ∙ first-find_snapshot n (k + 1) windows (
        i,
        omega (arith, lt),
        subst (λ m. reads m ≡ ok (some (windows_changed windows))) (omega arith) e,
        λ j h. subst (SkipsAt reads) (omega arith) (before (suc j) (omega (arith, h))),
      )

  -- The search for niri's windows finds exactly the first snapshot among the first 64 reads, if every
  -- read before it gives an event: whatever other events come first are skipped, and nothing else is.
  pub find_snapshot-IsFirstSnapshot :
      (windows : List NiriWindow)
      → (find_snapshot reads 0 initial_snapshot_event_limit ≡ ok windows)
        ↔ IsFirstSnapshot reads 0 64 windows
  find_snapshot-IsFirstSnapshot windows =
      (find_snapshot-first 64 0 windows, first-find_snapshot 64 0 windows)
