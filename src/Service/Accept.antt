-- ===== src/Service/Accept.antt =====
-- `accept_loop` of service.rs. The answers of `accept` are data, one for each round of the loop.
use melibea.Base.{
  ℕ, ◌≡◌, sym, ap, ◌∙◌, ◌↔◌, ◌⊎◌, refl, inl, inr, Bool, true, false, ◌||◌, List, [], ◌∷◌, Option,
  none, some, if◌then◌else◌, ◌==◌, ◌=?◌, option_eq, nat_eq, ◌++◌, Bool-cases, All, arith,
}
use mathlib.Core.List.{append-nil, append_assoc}

-- What `accept` gives: a stream, that none is waiting, or another failure with its errno, if it has one.
pub data Accepted : Type 0 where
  stream : ℕ → Accepted
  would_block : Accepted
  failed : Option ℕ → Accepted

-- What a round does: a thread for a stream, a wait, or a report of a failure.
pub data AcceptEffect : Type 0 where
  spawned : ℕ → AcceptEffect
  slept : AcceptEffect
  reported_transient : Option ℕ → AcceptEffect
  reported_fatal : AcceptEffect
  reported_stop : AcceptEffect

unfoldable pub accept_error_is_fatal : Option ℕ → Bool
accept_error_is_fatal none = false
accept_error_is_fatal (some errno) = errno == 9 || errno == 22 || errno == 88

pub record Round : Type 0 where
  pub running : Bool
  pub accepted : Accepted
  pub still_running : Bool

-- After the loop.
abbrev pub after_loop : Bool → List AcceptEffect
after_loop running = if running then reported_stop ∷ [] else []

-- One round, with the rest of the loop from what is reported by then on.
unfoldable pub accept_round :
    Option ℕ → Accepted → Bool → (Option ℕ → List AcceptEffect) → List AcceptEffect
unfolding accept_error_is_fatal
accept_round reported (stream s) still_running rest = spawned s ∷ rest none
accept_round reported would_block still_running rest = slept ∷ rest reported
accept_round reported (failed errno) still_running rest = elim (accept_error_is_fatal errno) [
  | true ↦ reported_fatal ∷ after_loop still_running
  | false ↦ (if reported =? errno then [] else reported_transient errno ∷ []) ++ slept ∷ rest errno
]

unfoldable pub accept_loop : Option ℕ → List Round → List AcceptEffect
unfolding accept_round
accept_loop reported [] = []
accept_loop reported (r ∷ rounds) = elim r.running [
  | false ↦ after_loop r.still_running
  | true ↦ accept_round reported r.accepted r.still_running (λ next. accept_loop next rounds)
]

-- The streams that got a thread.
abbrev pub streams_of : List AcceptEffect → List ℕ
streams_of [] = []
streams_of (spawned s ∷ es) = s ∷ streams_of es
streams_of (e ∷ es) = streams_of es

-- A broken descriptor: EBADF, EINVAL or ENOTSOCK.
abbrev pub IsBroken : Option ℕ → Type 0
IsBroken none = ⊥
IsBroken (some errno) = (errno ≡ 9) ⊎ (errno ≡ 22) ⊎ (errno ≡ 88)

-- A round after which the loop goes on.
abbrev pub IsFatal : Accepted → Type 0
IsFatal (failed errno) = IsBroken errno
IsFatal _ = ⊥

abbrev pub GoesOn : Round → Type 0
GoesOn r = (r.running ≡ true) × (IsFatal r.accepted → ⊥)

abbrev pub stream_at : Accepted → List ℕ
stream_at (stream s) = s ∷ []
stream_at would_block = []
stream_at (failed errno) = []

abbrev pub all_streams : List Round → List ℕ
all_streams [] = []
all_streams (r ∷ rounds) = stream_at r.accepted ++ all_streams rounds

fatal-IsBroken : (errno : Option ℕ) → (accept_error_is_fatal errno ≡ true) ↔ IsBroken errno
unfolding accept_error_is_fatal
fatal-IsBroken none = ground arith
fatal-IsBroken (some errno) = ground arith

streams_of-append :
    (es fs : List AcceptEffect) → streams_of (es ++ fs) ≡ streams_of es ++ streams_of fs
streams_of-append [] fs = refl
streams_of-append (spawned s ∷ es) fs = ap (◌∷◌ s) (streams_of-append es fs)
streams_of-append (slept ∷ es) fs = streams_of-append es fs
streams_of-append (reported_transient errno ∷ es) fs = streams_of-append es fs
streams_of-append (reported_fatal ∷ es) fs = streams_of-append es fs
streams_of-append (reported_stop ∷ es) fs = streams_of-append es fs

after_loop-silent : (running : Bool) → streams_of (after_loop running) ≡ []
after_loop-silent running = ground arith

report-silent :
    (reported errno : Option ℕ)
    → streams_of (if reported =? errno then [] else reported_transient errno ∷ []) ≡ []
report-silent reported errno = elim (Bool-cases (reported =? errno)) [
  | inl same ↦ rw same
  | inr new ↦ rw new
]

round-goes_on :
    (reported : Option ℕ) (x : Accepted) (b : Bool) (rest : Option ℕ → List AcceptEffect)
    → (IsFatal x → ⊥)
    → (next : Option ℕ) × (streams_of (accept_round reported x b rest)
        ≡ stream_at x ++ streams_of (rest next))
unfolding accept_round
round-goes_on reported (stream s) b rest h = (none, refl)
round-goes_on reported would_block b rest h = (reported, refl)
round-goes_on reported (failed errno) b rest h = elim (Bool-cases (accept_error_is_fatal errno)) [
  | inl fatal ↦ absurd (h ((fatal-IsBroken errno).0 fatal))
  | inr transient ↦ (
    errno,
    rw (transient, accept_round)
        (streams_of-append (if reported =? errno then [] else reported_transient errno ∷ [])
            (slept ∷ rest errno)
          ∙ ap (λ ss. ss ++ streams_of (rest errno)) (report-silent reported errno)),
  )
]

round-ends :
    (reported : Option ℕ) (x : Accepted) (b : Bool) (rest : Option ℕ → List AcceptEffect)
    → IsFatal x
    → streams_of (accept_round reported x b rest) ≡ []
unfolding accept_round
round-ends reported (stream s) b rest h = absurd h
round-ends reported would_block b rest h = absurd h
round-ends reported (failed errno) b rest h =
    rw ((fatal-IsBroken errno).1 h, accept_round) (after_loop-silent b)

loop-goes_on :
    (reported : Option ℕ) (r : Round) (later : List Round)
    → r.running ≡ true
    → accept_loop reported (r ∷ later)
      ≡ accept_round reported r.accepted r.still_running (λ next. accept_loop next later)
unfolding accept_loop
loop-goes_on reported r later h = rw (h, accept_loop)

loop-stops :
    (reported : Option ℕ) (r : Round) (later : List Round)
    → r.running ≡ false
    → accept_loop reported (r ∷ later) ≡ after_loop r.still_running
unfolding accept_loop
loop-stops reported r later h = rw (h, accept_loop)

nothing_left : (reported : Option ℕ) → streams_of (accept_loop reported []) ≡ []
unfolding accept_loop
nothing_left reported = refl

last_round :
    (reported : Option ℕ) (r : Round) (later : List Round)
    → (r.running ≡ false) ⊎ IsFatal r.accepted
    → streams_of (accept_loop reported (r ∷ later)) ≡ []
last_round reported r later h = elim (Bool-cases r.running) [
  | inr off ↦ ap streams_of (loop-stops reported r later off) ∙ after_loop-silent r.still_running
  | inl on ↦
      ap streams_of (loop-goes_on reported r later on)
      ∙ round-ends reported r.accepted r.still_running (λ next. accept_loop next later)
          (ground (arith, on))
]

goes_on :
    (reported : Option ℕ) (before later : List Round)
    → All GoesOn before
    → (next : Option ℕ) × (streams_of (accept_loop reported (before ++ later))
        ≡ all_streams before ++ streams_of (accept_loop next later))
goes_on reported [] later h = (reported, refl)
goes_on reported (r ∷ before) later h =
    let (mid, e) =
      round-goes_on reported r.accepted r.still_running (λ next. accept_loop next (before ++ later))
        h.0.1 in
    let (next, f) = goes_on mid before later h.1 in
    (
      next,
      ap streams_of (loop-goes_on reported r (before ++ later) h.0.0)
          ∙ e
          ∙ ap (λ ss. stream_at r.accepted ++ ss) f
          ∙ sym (
              append_assoc (stream_at r.accepted) (all_streams before)
                (streams_of (accept_loop next later))),
    )

-- Whatever `accept` fails with, unless it says that the listener is broken, and whatever was reported
-- before, the loop goes on: each stream that is accepted while it does gets a thread, once and in
-- order, and none gets one after the first round that stops it.
pub accept_loop-serves :
    (reported : Option ℕ) (before later : List Round) (last : Round)
    → All GoesOn before
    → (streams_of (accept_loop reported before) ≡ all_streams before)
      × (((last.running ≡ false) ⊎ IsFatal last.accepted)
          → streams_of (accept_loop reported (before ++ (last ∷ later))) ≡ all_streams before)
accept_loop-serves reported before later last h =
    let (first, e) = goes_on reported before [] h in
    let (next, f) = goes_on reported before (last ∷ later) h in
    (
      ap (λ rs. streams_of (accept_loop reported rs)) (sym (append-nil before))
          ∙ e
          ∙ ap (◌++◌ (all_streams before)) (nothing_left first)
          ∙ append-nil (all_streams before),
      λ stop.
          f
          ∙ ap (◌++◌ (all_streams before)) (last_round next last later stop)
          ∙ append-nil (all_streams before),
    )
