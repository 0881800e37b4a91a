-- ===== src/Cli/Laws.antt =====
-- What the command line of main.rs means.
use melibea.Base.{
  ℕ, ◌≡◌, refl, sym, ap, ◌∙◌, inl, inr, false, String, List, [], ◌∷◌, ◌++◌, Option, none, some, ok,
  ◌=?◌, string_eq, ◌>>=◌, All, Bool-cases, arith, eq_of_beq,
}
use mathlib.Core.List.{append_assoc, append-nil}
use melibea.Base.Decimal.{parse_u64}
use melibea.Cli.{
  Command, status, check_config, observe, run, list, minimize, restore, close, subscribe, help,
  is_help, scan_arguments, parse_window_id, dispatch, finish, parse_args,
}

-- An argument that the loop passes on.
abbrev pub IsPlain : String → Type 0
IsPlain a = ((a =? "--config") ≡ false) × (is_help a ≡ false)

scan-plain :
    (ps : List String) (path : Option String) (a : String) (rest : List String)
    → IsPlain a
    → scan_arguments ps path (a ∷ rest) ≡ scan_arguments (ps ++ a ∷ []) path rest
unfolding scan_arguments
scan-plain ps path a [] (no_flag, no_help) =
    rw (no_flag, scan_arguments) (rw (no_help, scan_arguments))
scan-plain ps path a (b ∷ rest) (no_flag, no_help) =
    rw (no_flag, scan_arguments) (rw (no_help, scan_arguments))

scan-append :
    (pre ps : List String) (path : Option String) (rest : List String)
    → All IsPlain pre
    → scan_arguments ps path (pre ++ rest) ≡ scan_arguments (ps ++ pre) path rest
scan-append [] ps path rest h = rw append-nil
scan-append (a ∷ pre) ps path rest h =
    scan-plain ps path a (pre ++ rest) h.0
    ∙ scan-append pre (ps ++ a ∷ []) path rest h.1
    ∙ ap (λ q. scan_arguments q path rest) (append_assoc ps (a ∷ []) pre)

-- `--config` with its path may stand anywhere behind plain arguments: the command is that of the line
-- on which it stands first, errors included.
pub parse_args-config_first :
    (before after : List String) (path : String)
    → All IsPlain before
    → parse_args (before ++ "--config" ∷ path ∷ after)
      ≡ parse_args ("--config" ∷ path ∷ before ++ after)
unfolding parse_args
parse_args-config_first before after path h =
    ap (λ r. r >>= finish)
      (scan-append before [] none ("--config" ∷ path ∷ after) h
        ∙ sym (scan-append before [] (some path) after h))

-- A command line for a command, with `t` as its window id where it has one.
abbrev with_config : Option String → List String → List String
with_config none rest = rest
with_config (some path) rest = "--config" ∷ path ∷ rest

abbrev pub command_line : Command → String → List String
command_line (status path) t = with_config path ("status" ∷ [])
command_line (check_config path) t = with_config path ("check-config" ∷ [])
command_line (observe path) t = with_config path ("observe" ∷ [])
command_line (run path) t = with_config path ("run" ∷ [])
command_line list t = "list" ∷ []
command_line (minimize none) t = "minimize" ∷ []
command_line (minimize (some id)) t = "minimize" ∷ t ∷ []
command_line (restore id) t = "restore" ∷ t ∷ []
command_line (close id) t = "close" ∷ t ∷ []
command_line subscribe t = "subscribe" ∷ []
command_line help t = "help" ∷ []

abbrev pub target_of : Command → Option ℕ
target_of (minimize id) = id
target_of (restore id) = some id
target_of (close id) = some id
target_of _ = none

-- `t` reads as the command's window id, if it has one.
abbrev pub Spells : String → Option ℕ → Type 0
Spells t none = Unit {0}
Spells t (some id) = parse_u64 t ≡ some id

id-IsPlain : (t : String) (id : ℕ) → parse_u64 t ≡ some id → IsPlain t
unfolding parse_u64
id-IsPlain t id h = (
  elim (Bool-cases (t =? "--config")) [
    | inl same ↦ absurd (config_no_id (ap parse_u64 (sym (eq_of_beq t "--config" same)) ∙ h))
    | inr other ↦ other
  ],
  elim (Bool-cases (t =? "--help")) [
    | inl same ↦ absurd (help_no_id (ap parse_u64 (sym (eq_of_beq t "--help" same)) ∙ h))
    | inr other ↦ elim (Bool-cases (t =? "-h")) [
      | inl same ↦ absurd (short_no_id (ap parse_u64 (sym (eq_of_beq t "-h" same)) ∙ h))
      | inr short ↦ rw (other, short)
    ]
  ],
)
  where
    config_no_id : parse_u64 "--config" ≡ some id → ⊥
    config_no_id e = ground arith

    help_no_id : parse_u64 "--help" ≡ some id → ⊥
    help_no_id e = ground arith

    short_no_id : parse_u64 "-h" ≡ some id → ⊥
    short_no_id e = ground arith

parse_args-target :
    (name t : String) (id : ℕ)
    → IsPlain name
    → parse_u64 t ≡ some id
    → parse_args (name ∷ t ∷ []) ≡ dispatch name (t ∷ []) none
unfolding parse_args scan_arguments
parse_args-target name t id plain h =
    let e =
      scan-plain [] none name (t ∷ []) plain
      ∙ scan-plain (name ∷ []) none t [] (id-IsPlain t id h) in
    ap (λ r. r >>= finish) e

-- Every command can be written on the command line: its line is parsed to that command, whatever the
-- path of its configuration and whichever decimal text of its window id is written.
pub parse_args-command_line :
    (c : Command) (t : String) → Spells t (target_of c) → parse_args (command_line c t) ≡ ok c
unfolding parse_args dispatch
parse_args-command_line (status none) t h = refl
parse_args-command_line (status (some path)) t h = refl
parse_args-command_line (check_config none) t h = refl
parse_args-command_line (check_config (some path)) t h = refl
parse_args-command_line (observe none) t h = refl
parse_args-command_line (observe (some path)) t h = refl
parse_args-command_line (run none) t h = refl
parse_args-command_line (run (some path)) t h = refl
parse_args-command_line list t h = refl
parse_args-command_line (minimize none) t h = refl
parse_args-command_line (minimize (some id)) t h =
    parse_args-target "minimize" t id (refl, refl) h ∙ rw (h, parse_window_id)
parse_args-command_line (restore id) t h =
    parse_args-target "restore" t id (refl, refl) h ∙ rw (h, parse_window_id)
parse_args-command_line (close id) t h =
    parse_args-target "close" t id (refl, refl) h ∙ rw (h, parse_window_id)
parse_args-command_line subscribe t h = refl
parse_args-command_line help t h = refl
