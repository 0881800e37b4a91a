-- ===== src/Config/Load.antt =====
-- config.rs and main.rs: where the configuration comes from.
use melibea.Base.{String, Option, none, some, Result, ok, err, map_err, ◌>>=◌, if◌then◌else◌}
use melibea.Base.Text.{text_is_empty}
use melibea.Config.{Config, ConfigError, read, at_path, Platform, parse}

-- `ConfigPathError`
pub data ConfigPathError : Type 0 where
  no_base_directory : ConfigPathError

-- What the process sees: its environment variables, its paths and its files, a failed
-- read by its text.
pub record Host : Type 0 where
  pub var_os : String → Option String
  pub join : String → String → String
  pub read_to_string : String → Result String String

-- `Option::filter` by a text that is not empty.
abbrev pub non_empty : Option String → Option String
non_empty none = none
non_empty (some value) = if text_is_empty value then none else some value

unfoldable pub non_empty_env : Host → String → Option String
non_empty_env h name = non_empty (h.var_os name)

abbrev pub config_directory : String
config_directory = "melibea"

abbrev pub config_filename : String
config_filename = "config.toml"

-- The second place to look.
unfoldable pub home_config_path : Host → Option String → Result ConfigPathError String
home_config_path h none = err no_base_directory
home_config_path h (some home) =
    ok (h.join (h.join (h.join home ".config") config_directory) config_filename)

unfoldable pub base_config_path :
    Host → Option String → Option String → Result ConfigPathError String
unfolding home_config_path
base_config_path h none home = home_config_path h home
base_config_path h (some base) home = ok (h.join (h.join base config_directory) config_filename)

unfoldable pub default_config_path : Host → Result ConfigPathError String
unfolding non_empty_env base_config_path
default_config_path h =
    base_config_path h (non_empty_env h "XDG_CONFIG_HOME") (non_empty_env h "HOME")

pub record LoadedConfig : Type 0 where
  pub config : Config
  pub path : String
  pub source : String

pub data ConfiguredError : Type 0 where
  no_path : ConfigPathError → ConfiguredError
  not_loaded : ConfigError → ConfiguredError

module _ (p : Platform) (h : Host) where
  -- `Config::load_with_source`
  unfoldable pub load_with_source : String → Result ConfigError (Config × String)
  load_with_source path = do
    input ← map_err (read path) (h.read_to_string path)
    config ← map_err (at_path path) (parse p input)
    ok (config, input)

  -- `Config::load`
  unfoldable pub load : String → Result ConfigError Config
  unfolding load_with_source
  load path = load_with_source path >>= λ loaded. ok loaded.0

  -- The path that is given, or the default one.
  unfoldable pub path_or_default : Option String → Result ConfiguredError String
  path_or_default none = map_err no_path (default_config_path h)
  path_or_default (some path) = ok path

  -- `configured` of main.rs
  unfoldable pub configured : Option String → Result ConfiguredError LoadedConfig
  unfolding path_or_default load_with_source
  configured given = do
    path ← path_or_default given
    loaded ← map_err not_loaded (load_with_source path)
    ok (record { config = loaded.0; path = path; source = loaded.1 })
