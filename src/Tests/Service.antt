-- ===== src/Tests/Service.antt =====
-- service.rs.
use melibea.Base.{
  ℕ, ◌≡◌, refl, inl, inr, Bool, true, false, not, ◌&&◌, ◌==◌, All, arith, String, [], ◌∷◌, ◌++◌,
  List, Option, none, some, Result, ok, err, ◌=?◌, string_eq,
}
use melibea.Base.Text.{strip_suffix}
use melibea.Protocol.Message.{Window, ServerMessage, v1_message, error, incompatible_error}
use melibea.Protocol.Request.{ClientRequest, list, subscribe, v1_request, validate}
use melibea.Service.Reader.{
  forwarded, answered, read_client_request, IsRequestLine, IsRefusal, read_client_request-forwarded,
  read_client_request-answered, handle_request, answer_undecoded,
}
use melibea.Service.Accept.{
  Accepted, stream, failed, Round, accept_loop, streams_of, GoesOn, accept_loop-serves,
}
use melibea.Service.Broker.{
  Io, ReadResult, BrokerMessage, publish_windows, become_unavailable, client,
}
use melibea.Service.Broker.Asked.{IsSession}
use melibea.Service.Broker.Delivery.{Delivers}
use melibea.Service.Broker.Mirror.{lost}
use melibea.Service.Broker.Session.{broker_loop-follows}
use melibea.Tests.Fixtures.{arithmetic}

decode : String → Result String ClientRequest
decode s = elim (s =? "list\n") [ true ↦ ok (v1_request list) | false ↦ err "no JSON" ]

abbrev probe : String → Option ℕ
probe s = elim (s =? "three\n") [ true ↦ some 3 | false ↦ none ]

abbrev typed : Result String String → Result String String
typed input = input

read_list : read_client_request arithmetic decode probe (ok "list\n") ≡ forwarded 1 list
unfolding read_client_request decode handle_request validate strip_suffix
read_list = refl

read_client_request-forwarded_example :
    (line : String) × (typed (ok "list\n") ≡ ok line)
    × IsRequestLine arithmetic decode probe line (v1_request list)
read_client_request-forwarded_example =
    (read_client_request-forwarded arithmetic decode probe (ok "list\n") 1 list).0 read_list

refused_version : ServerMessage
refused_version = v1_message (error (incompatible_error 3))

answers_three :
    read_client_request arithmetic decode probe (ok "three\n") ≡ answered refused_version
unfolding read_client_request decode answer_undecoded strip_suffix refused_version
answers_three = refl

read_client_request-answered_example : IsRefusal refused_version
read_client_request-answered_example =
    read_client_request-answered arithmetic decode probe (ok "three\n") refused_version
      answers_three

round : Bool → Accepted → Round
round running accepted = record { running = running; accepted = accepted; still_running = false }

abbrev rounds : List Round
rounds =
    round true (stream 5)
    ∷ round true (failed (some 24))
    ∷ round true (stream 6)
    ∷ round true Accepted.would_block
    ∷ []

rounds-GoesOn : All GoesOn rounds
unfolding round
rounds-GoesOn =
    ((refl, λ h. h), ((refl, λ h. ground (arith, h)), ((refl, λ h. h), ((refl, λ h. h), tt))))

accept_loop-serves_example :
    streams_of
      (accept_loop none (rounds ++ (round true (failed (some 9)) ∷ round true (stream 7) ∷ [])))
    ≡ 5 ∷ 6 ∷ []
unfolding round
accept_loop-serves_example =
    (accept_loop-serves none rounds (round true (stream 7) ∷ []) (round true (failed (some 9)))
        rounds-GoesOn).1
      (inr (inl refl))

-- Every write succeeds, except that stream 8 fails when `cut` says so.
io : Bool → Io
io cut = record {
  writes = λ k. not (cut && k == 8);
  clones = λ k. true;
  set_nonblocking = λ k mode. true;
  read = λ k. ReadResult.would_block;
  execute = λ r. err "no compositor";
}

shown : ℕ → Window
shown id = record { id = id; app_id = none; title = none; icon_name = none }

abbrev session : List (Io × BrokerMessage)
session =
    (io false, client 1 subscribe 7)
    ∷ (io false, publish_windows (shown 1 ∷ []) 0)
    ∷ (io false, client 2 subscribe 8)
    ∷ (io false, client 1 list 9)
    ∷ (io true, publish_windows (shown 2 ∷ shown 1 ∷ []) 1)
    ∷ (io false, become_unavailable "niri is gone" 2)
    ∷ []

session-IsSession : IsSession [] session
unfolding shown
session-IsSession = ground arith

broker_loop-follows_example : Delivers session (lost 2 "niri is gone")
unfolding shown
broker_loop-follows_example = broker_loop-follows session session-IsSession
