-- ===== src/Tests/Line.antt =====
-- main.rs: command lines.
use melibea.Base.{◌≡◌, refl, [], ◌∷◌, some, ok, err}
use melibea.Base.Decimal.{parse_u64}
use melibea.Cli.{minimize, run, parse_args, dispatch, invalid_window_id}
use melibea.Cli.Laws.{parse_args-config_first, parse_args-command_line}

parse_args-config_first_example :
    parse_args ("run" ∷ "--config" ∷ "a.toml" ∷ [])
    ≡ parse_args ("--config" ∷ "a.toml" ∷ "run" ∷ [])
parse_args-config_first_example =
    parse_args-config_first ("run" ∷ []) [] "a.toml" ((refl, refl), tt)

parse_args-command_line_example : parse_args ("minimize" ∷ "+42" ∷ []) ≡ ok (minimize (some 42))
unfolding parse_u64
parse_args-command_line_example = parse_args-command_line (minimize (some 42)) "+42" refl

run_after_config : parse_args ("--config" ∷ "a.toml" ∷ "run" ∷ []) ≡ ok (run (some "a.toml"))
unfolding parse_args dispatch
run_after_config = refl

invalid_id : parse_args ("close" ∷ "-1" ∷ []) ≡ err (invalid_window_id "close" "-1")
unfolding parse_args dispatch parse_u64
invalid_id = refl
