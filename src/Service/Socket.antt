-- ===== src/Service/Socket.antt =====
-- service.rs: where the daemon listens, and how its socket is taken and given back. What the operating
-- system answers is an argument; what is done to the path is a list of effects in order.
use melibea.Base.{
  ℕ, Bool, not, ◌&&◌, String, List, [], ◌∷◌, ◌++◌, Option, none, some, Result, ok, err, map_err,
  ◌>>=◌, if◌then◌else◌, ◌==◌,
}
use melibea.Base.Text.{◌<>◌}
use melibea.Config.Load.{Host, non_empty_env}

pub data SocketPathError : Type 0 where
  missing_runtime_directory : SocketPathError

abbrev pub melibea_socket_env : String
melibea_socket_env = "MELIBEA_SOCKET"

abbrev pub xdg_runtime_dir_env : String
xdg_runtime_dir_env = "XDG_RUNTIME_DIR"

abbrev pub default_socket_name : String
default_socket_name = "melibea.sock"

abbrev default_path : Host → Option String → Result SocketPathError String
default_path h none = err missing_runtime_directory
default_path h (some runtime) = ok (h.join runtime default_socket_name)

abbrev explicit_path : Host → Option String → Result SocketPathError String
explicit_path h (some path) = ok path
explicit_path h none = default_path h (non_empty_env h xdg_runtime_dir_env)

unfoldable pub socket_path : Host → Result SocketPathError String
unfolding non_empty_env
socket_path h = explicit_path h (non_empty_env h melibea_socket_env)

pub record SocketIdentity : Type 0 where
  pub device : ℕ
  pub inode : ℕ

-- The derived `PartialEq`.
abbrev pub identity_beq : SocketIdentity → SocketIdentity → Bool
identity_beq a b = a.device == b.device && a.inode == b.inode

pub data ServiceError : Type 0 where
  invalid_path missing_parent occupied_path already_running : String → ServiceError
  inspect remove_stale bind permissions : String → String → ServiceError
  nonblocking : String → ServiceError

-- Their `Display`
unfoldable pub socket_path_error_text : SocketPathError → String
socket_path_error_text missing_runtime_directory =
    "neither " <> melibea_socket_env <> " nor " <> xdg_runtime_dir_env <> " is set"

unfoldable pub service_error_text : ServiceError → String
service_error_text (invalid_path path) = "invalid Melibea socket path: " <> path
service_error_text (missing_parent path) =
    "Melibea socket parent directory does not exist: " <> path
service_error_text (occupied_path path) = "refusing to replace non-socket path: " <> path
service_error_text (already_running path) =
    "another Melibea service is already listening on " <> path
service_error_text (inspect path source) = "cannot inspect " <> path <> ": " <> source
service_error_text (remove_stale path source) =
    "cannot remove stale Melibea socket " <> path <> ": " <> source
service_error_text (bind path source) = "cannot bind Melibea socket " <> path <> ": " <> source
service_error_text (permissions path source) =
    "cannot restrict Melibea socket " <> path <> ": " <> source
service_error_text (nonblocking error) = "cannot configure Melibea listener: " <> error

-- What `symlink_metadata` gives: whether the path is a socket, and its identity; or the failure's text,
-- with `NotFound` apart.
pub data Metadata : Type 0 where
  found : Bool → SocketIdentity → Metadata
  not_found unreadable : String → Metadata

-- The answers while a service starts: first for the path as it is found, then for what is done to it.
-- The second metadata are those after the permissions are set.
pub record SocketIo : Type 0 where
  pub parent : Option String
  pub is_dir : String → Bool
  pub metadata : Metadata
  pub connects : Bool
  pub remove_file : Result String (Unit {0})
  pub bind : Result String (Unit {0})
  pub set_permissions : Result String (Unit {0})
  pub own_metadata : Metadata
  pub set_nonblocking : Result String (Unit {0})

pub data SocketEffect : Type 0 where
  removed bound restricted : SocketEffect
  spawned_broker spawned_acceptor : SocketEffect

-- `SocketIdentity::read`
unfoldable pub read_identity : Metadata → Result String SocketIdentity
read_identity (found is_socket identity) = ok identity
read_identity (not_found reason) = err reason
read_identity (unreadable reason) = err reason

pub record Started : Type 0 where
  pub path : String
  pub identity : SocketIdentity

-- A step that may fail, with its effect if it does not.
abbrev pub Step : Type 0
Step = Result ServiceError (List SocketEffect)

-- What is done to the path until a step fails, and what comes of it.
pub record Start : Type 0 where
  pub effects : List SocketEffect
  pub result : Result ServiceError Started

module _ (path : String) (io : SocketIo) where
  -- The end of `prepare_socket_path`, for a path that is there.
  unfoldable pub replace_stale : Bool → Step
  replace_stale is_socket =
      if not is_socket
      then err (occupied_path path)
      else if io.connects
      then err (already_running path)
      else (map_err (remove_stale path) io.remove_file >>= λ _. ok (removed ∷ []))

  unfoldable pub prepare_found : Metadata → Step
  unfolding replace_stale
  prepare_found (not_found reason) = ok []
  prepare_found (unreadable reason) = err (inspect path reason)
  prepare_found (found is_socket identity) = replace_stale is_socket

  unfoldable pub prepare_in : Option String → Step
  unfolding prepare_found
  prepare_in none = err (invalid_path path)
  prepare_in (some parent) =
      if not (io.is_dir parent) then err (missing_parent parent) else prepare_found io.metadata

  -- `prepare_socket_path`
  unfoldable pub prepare_socket_path : Step
  unfolding prepare_in
  prepare_socket_path = prepare_in io.parent

  unfoldable pub finish_start : List SocketEffect → Start
  unfolding read_identity
  finish_start before = elim io.set_permissions [
    | err e ↦ record { effects = before; result = err (permissions path e) }
    | ok _ ↦ elim (read_identity io.own_metadata) [
      | err e ↦ record { effects = before ++ restricted ∷ []; result = err (inspect path e) }
      | ok identity ↦ elim io.set_nonblocking [
        | err e ↦ record { effects = before ++ restricted ∷ []; result = err (nonblocking e) }
        | ok _ ↦ record {
          effects = before ++ restricted ∷ spawned_broker ∷ spawned_acceptor ∷ [];
          result = ok (record { path = path; identity = identity });
        }
      ]
    ]
  ]

  -- `Service::start`
  unfoldable pub start_service : Start
  unfolding prepare_socket_path finish_start
  start_service = elim prepare_socket_path [
    | err e ↦ record { effects = []; result = err e }
    | ok before ↦ elim io.bind [
      | err e ↦ record { effects = before; result = err (bind path e) }
      | ok _ ↦ finish_start (before ++ bound ∷ [])
    ]
  ]

-- What `Drop for Service` does.
pub data DropEffect : Type 0 where
  stopped joined_acceptor sent_shutdown joined_broker removed_own : DropEffect

unfoldable pub drop_service : Started → Metadata → List DropEffect
unfolding read_identity
drop_service s m =
    stopped ∷ joined_acceptor ∷ sent_shutdown ∷ joined_broker ∷ (elim (read_identity m) [
      | err e ↦ []
      | ok identity ↦ if identity_beq identity s.identity then removed_own ∷ [] else []
    ])
