-- ===== src/Cli.antt =====
-- main.rs: the command line. An error is kept as the data that its text is made from.
pub mod Laws
pub mod Status
pub mod Exit
pub mod Loops
use melibea.Base.{
  ℕ, ◌≡◌, Bool, true, false, ◌||◌, String, List, [], ◌∷◌, ◌++◌, Option, none, some, is_some, Result,
  ok, err, map_err, if◌then◌else◌, ◌>>=◌, ◌>>◌, ◌=?◌, string_eq,
}
use melibea.Base.Decimal.{parse_u64}
use melibea.Transition.{WindowId}

pub data Command : Type 0 where
  status check_config observe run : Option String → Command
  list : Command
  minimize : Option WindowId → Command
  restore close : WindowId → Command
  subscribe help : Command

pub data ArgumentError : Type 0 where
  config_requires_path config_supplied_twice config_requires_command : ArgumentError
  config_not_accepted : String → ArgumentError
  unexpected_argument : String → String → ArgumentError
  window_id_required at_most_one_window_id exactly_one_window_id : String → ArgumentError
  invalid_window_id : String → String → ArgumentError
  unknown_command : String → ArgumentError

-- The arguments that stand for themselves, and the path of `--config`.
pub record Scanned : Type 0 where
  pub positionals : List String
  pub config_path : Option String

abbrev pub is_help : String → Bool
is_help a = a =? "--help" || a =? "-h"

-- The loop over the arguments; `none` is the early return at a request for help.
unfoldable pub scan_arguments :
    List String → Option String → List String → Result ArgumentError (Option Scanned)
scan_arguments positionals path [] =
    ok (some (record { positionals = positionals; config_path = path }))
scan_arguments positionals path (a ∷ []) = elim (a =? "--config") [
  | true ↦ err config_requires_path
  | false ↦ elim (is_help a) [
    | true ↦ ok none
    | false ↦ scan_arguments (positionals ++ a ∷ []) path []
  ]
]
scan_arguments positionals path (a ∷ b ∷ rest) = elim (a =? "--config") [
  | true ↦ elim (is_some path) [
    | true ↦ err config_supplied_twice
    | false ↦ scan_arguments positionals (some b) rest
  ]
  | false ↦ elim (is_help a) [
    | true ↦ ok none
    | false ↦ scan_arguments (positionals ++ a ∷ []) path (b ∷ rest)
  ]
]

unfoldable pub reject_config : String → Option String → Result ArgumentError (Unit {0})
reject_config command path = if is_some path then err (config_not_accepted command) else ok tt

unfoldable pub require_no_operands : String → List String → Result ArgumentError (Unit {0})
require_no_operands command [] = ok tt
require_no_operands command (value ∷ rest) = err (unexpected_argument command value)

unfoldable pub parse_window_id : String → String → Result ArgumentError WindowId
parse_window_id command value = elim (parse_u64 value) [
  | none ↦ err (invalid_window_id command value)
  | some id ↦ ok id
]

unfoldable pub required_window_id : String → List String → Result ArgumentError WindowId
unfolding parse_window_id
required_window_id command [] = err (window_id_required command)
required_window_id command (id ∷ []) = parse_window_id command id
required_window_id command (id ∷ other ∷ rest) = err (exactly_one_window_id command)

unfoldable pub optional_window_id : String → List String → Result ArgumentError (Option WindowId)
unfolding parse_window_id
optional_window_id command [] = ok none
optional_window_id command (id ∷ []) = parse_window_id command id >>= λ i. ok (some i)
optional_window_id command (id ∷ other ∷ rest) = err (at_most_one_window_id command)

-- The `match` on the command.
unfoldable pub dispatch : String → List String → Option String → Result ArgumentError Command
unfolding reject_config require_no_operands required_window_id optional_window_id
dispatch command operands path =
    if command =? "status"
    then (require_no_operands command operands >> ok (status path))
    else if command =? "check-config"
    then (require_no_operands command operands >> ok (check_config path))
    else if command =? "observe"
    then (require_no_operands command operands >> ok (observe path))
    else if command =? "run"
    then (require_no_operands command operands >> ok (run path))
    else if command =? "list" || command =? "minimized"
    then (reject_config command path >> (require_no_operands command operands >> ok list))
    else if command =? "minimize"
    then (reject_config command path
        >> (optional_window_id command operands >>= λ id. ok (minimize id)))
    else if command =? "restore"
    then (reject_config command path
        >> (required_window_id command operands >>= λ id. ok (restore id)))
    else if command =? "close" || command =? "close-window"
    then (reject_config command path
        >> (required_window_id command operands >>= λ id. ok (close id)))
    else if command =? "subscribe"
    then (reject_config command path >> (require_no_operands command operands >> ok subscribe))
    else if command =? "help"
    then (reject_config command path >> (require_no_operands command operands >> ok help))
    else err (unknown_command command)

-- What follows the loop.
unfoldable pub command_of : Scanned → Result ArgumentError Command
command_of s = elim s.positionals [
  | [] ↦ if is_some s.config_path then err config_requires_command else ok help
  | command ∷ operands ↦ dispatch command operands s.config_path
]

unfoldable pub finish : Option Scanned → Result ArgumentError Command
unfolding command_of
finish none = ok help
finish (some s) = command_of s

unfoldable pub parse_args : List String → Result ArgumentError Command
unfolding scan_arguments finish
parse_args arguments = scan_arguments [] none arguments >>= finish
