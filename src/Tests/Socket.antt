-- ===== src/Tests/Socket.antt =====
-- service.rs: the socket of the daemon and its clients.
use melibea.Base.{refl, true, false, String, some, Result, ok, err, All, ◌=?◌, string_eq}
use melibea.Protocol.Message.{ServerMessage, for_version, error, unavailable_error}
use melibea.Protocol.Request.{list, v2_request}
use melibea.Service.Socket.{SocketIo, found, start_service}
use melibea.Service.Ownership.{IsOrderly, start_service-IsOrderly}
use melibea.Service.Client.{AcceptsSent, handle_client-AcceptsSent}
use melibea.Service.Broker.{Io, ReadResult, new_state, handle_client}

-- A socket that was left behind, and everything else succeeds.
abbrev pub stale : SocketIo
stale = record {
  parent = some "/run/user/1000";
  is_dir = λ path. true;
  metadata = found true (record { device = 1; inode = 7 });
  connects = false;
  remove_file = ok tt;
  bind = ok tt;
  set_permissions = ok tt;
  own_metadata = found true (record { device = 1; inode = 8 });
  set_nonblocking = ok tt;
}

start_service-IsOrderly_example :
    IsOrderly "/run/user/1000/melibea.sock" stale
      (start_service "/run/user/1000/melibea.sock" stale)
start_service-IsOrderly_example = start_service-IsOrderly "/run/user/1000/melibea.sock" stale

io : Io
io = record {
  writes = λ k. true;
  clones = λ k. true;
  set_nonblocking = λ k mode. true;
  read = λ k. ReadResult.would_block;
  execute = λ r. err "no compositor";
}

abbrev answer : ServerMessage
answer = for_version 2 (error (unavailable_error "awaiting authoritative niri snapshot"))

abbrev encode : ServerMessage → String
encode m = "unavailable"

abbrev decode : String → Result String ServerMessage
decode s = elim (s =? "unavailable\n") [ true ↦ ok answer | false ↦ err "no JSON" ]

handle_client-AcceptsSent_example :
    All (AcceptsSent decode encode 2) (handle_client io new_state 2 list 7).1
unfolding io handle_client
handle_client-AcceptsSent_example =
    handle_client-AcceptsSent decode encode io new_state (v2_request list) 7 (refl, tt)
