-- ===== src/Tests/Connection.antt =====
-- A connection's bytes at concrete inputs.
use np_hw.Prelude.{
  ℕ, ◌≡◌, refl, false, some, none, List, [], ◌∷◌, ◌++◌, arith, lit, pos, str_key, length, take,
  drop, ok,
}
use mathlib.Core.List.{append-nil}
use np_hw.Database.Types.{fresh}
use np_hw.Database.Users.{Sqlite, User}
use np_hw.Server.State.{Server}
use np_hw.Server.Dispatch.{Environment, handle_tcp, closes}
use np_hw.Server.Connection.{tcp_round, tcp_round-serialize, tcp_round-cut}
use np_hw.Wire.Package.{Package, FieldsAreText, all_text, all_text-IsText}
use np_hw.Wire.Codec.{serialize, packet_size, fields_size}
use np_hw.Wire.Codec.RoundTrip.{length-serialize}
use np_hw.Wire.Bytes.{le_bytes}
use np_hw.Wire.Tcp.{stream_of, send_calls}
use np_hw.Wire.Tcp.Calls.{
  got, given_as, no_bytes, send_call, recv_call, recv_call-send_call, all_taken,
}

abbrev pub no_users : Sqlite
no_users = record {
  Handle = List User;
  exec = λ query users. record { rows = users; errmsg = none; handle = users };
}

abbrev pub quiet_server : Server (List User)
quiet_server = record { users = []; db = fresh; logins = [] }

abbrev pub midnight : Environment
midnight = record { draws = []; now = record { tm_mon = 0; tm_mday = 1 } }

recv_call-send_call_example :
    (sent : List ℕ) × (send_call (1 ∷ (2 ∷ (3 ∷ []))) (all_taken (send_calls (1 ∷ (2 ∷ (3 ∷ [])))))
      ≡ some (pos 0, sent))
    × (recv_call (got (take 4 sent) ∷ given_as ((1 ∷ []) ∷ ((2 ∷ (3 ∷ [])) ∷ [])))
        ≡ some (record { returned = pos 7; closes = false; message = some (1 ∷ (2 ∷ (3 ∷ []))) }))
    × (drop 4 sent ≡ 1 ∷ (2 ∷ (3 ∷ [])))
recv_call-send_call_example =
    recv_call-send_call (1 ∷ (2 ∷ (3 ∷ []))) ((1 ∷ []) ∷ ((2 ∷ (3 ∷ [])) ∷ [])) (omega arith)
      (omega arith, (omega arith, tt)) (unfold stream_of in refl)

-- Three of four bytes, and then the end of the stream.
tcp_round-cut_example :
    tcp_round no_users midnight
      (got (le_bytes 4 4) ∷ (given_as ((1 ∷ (2 ∷ (3 ∷ []))) ∷ []) ++ (no_bytes false ∷ [])))
      quiet_server
    ≡ some (ok closes, quiet_server)
tcp_round-cut_example =
    tcp_round-cut no_users midnight (1 ∷ (2 ∷ (3 ∷ (4 ∷ [])))) (4 ∷ []) ((1 ∷ (2 ∷ (3 ∷ []))) ∷ [])
      false [] quiet_server (omega arith) (omega arith, tt) (unfold stream_of in refl) (omega arith)

abbrev list_request : Package
list_request = record { payload = []; fields = (lit "type", lit "TYPE_LIST_BOARD") ∷ [] }

list_request-text : FieldsAreText list_request.fields
unfolding all_text lit
list_request-text =
    (all_text-IsText (lit "type") refl, all_text-IsText (lit "TYPE_LIST_BOARD") refl, tt)

length-list_request : length (serialize list_request) ≡ 29
unfolding lit packet_size fields_size
length-list_request = length-serialize list_request (omega arith)

tcp_round-serialize_example :
    tcp_round no_users midnight
      (got (le_bytes 4 (length (stream_of (serialize list_request ∷ []))))
        ∷ (given_as (serialize list_request ∷ []) ++ []))
      quiet_server
    ≡ some (handle_tcp no_users midnight list_request.fields quiet_server)
tcp_round-serialize_example =
    tcp_round-serialize no_users midnight (lit "type") (lit "TYPE_LIST_BOARD") [] []
      (serialize list_request ∷ []) [] quiet_server list_request-text (tt, tt) (omega arith)
      (omega (arith, length-list_request)) (omega (arith, length-list_request), tt)
      (unfold stream_of in append-nil (serialize list_request))
