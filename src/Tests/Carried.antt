-- ===== src/Tests/Carried.antt =====
-- A request and its reply as bytes, at concrete inputs.
use np_hw.Prelude.{
  ◌≡◌, refl, [], ◌∷◌, arith, lit, minus_one, int_eq, str_eq, str_key, lookup, insert, length, ok,
  List, lift, pure, pos, some, int_key, ◌>>=◌,
}
use mathlib.Core.List.{append-nil}
use np_hw.Prelude.Decimal.{to_string, stoi-to_string}
use np_hw.Client.Told.{read_line-on_package}
use np_hw.Database.Types.{board_created}
use np_hw.Database.Calls.{text}
use np_hw.Server.State.{Server, Fields, message_reply, please_login, field, int_field}
use np_hw.Server.Boards.{on_create_board}
use np_hw.Server.Dispatch.{handle_tcp, handle, command_of, replies}
use np_hw.Client.Requests.{Client, bbs, chat, ask_create_board}
use np_hw.Client.Tasks.{ask, opens_board, converse}
use np_hw.Client.Deeds.{deed, tells_room, message_package}
use np_hw.Client.Commands.{read_line, is_command, is_any}
use np_hw.Prelude.Decimal.{is_space}
use np_hw.Chat.Packages.{Delivery}
use np_hw.Chat.Room.{ChatRoom, start_server, unstarted, on_package}
use np_hw.Client.Carried.{client_recv, carried, carried-converse, calls_for, IsSendable, package_of}
use np_hw.Wire.Codec.{serialize, packet_size, fields_size}
use np_hw.Wire.Codec.RoundTrip.{length-serialize}
use np_hw.Wire.Tcp.{stream_of}
use np_hw.Tests.Connection.{no_users, quiet_server, midnight}
use np_hw.Wire.Package.{all_text, all_text-IsText}

abbrev stranger : Client
stranger = record { login_token = minus_one; mode = bbs; username = [] }

abbrev board_request : Fields
board_request = (ask minus_one (opens_board (lit "x"))).request

abbrev refusal : Fields
refusal = message_reply (lit "TYPE_CREATE_BOARD") please_login

length-request : length (serialize (package_of board_request)) ≡ 61
unfolding ask_create_board insert lit str_eq to_string packet_size fields_size
length-request = length-serialize (package_of board_request) (omega arith)

length-refusal : length (serialize (package_of refusal)) ≡ 60
unfolding insert lit str_eq packet_size fields_size
length-refusal = length-serialize (package_of refusal) (omega arith)

board_request-IsSendable : IsSendable board_request
unfolding ask_create_board insert lit str_eq to_string all_text
board_request-IsSendable = record {
  text = (
    all_text-IsText (lit "type") refl,
    all_text-IsText (lit "TYPE_CREATE_BOARD") refl,
    (
      all_text-IsText (lit "boardname") refl,
      all_text-IsText (lit "x") refl,
      (all_text-IsText (lit "transaction_id") refl, all_text-IsText (lit "-1") refl, tt),
    ),
  );
  distinct = (((λ e. cc), ((λ e. cc), tt)), (((λ e. cc), tt), (tt, tt)));
  some_field = λ e. cc;
  fits = omega (arith, length-request);
}

refusal-IsSendable : IsSendable refusal
unfolding insert lit str_eq all_text
refusal-IsSendable = record {
  text = (
    all_text-IsText (lit "type") refl,
    all_text-IsText (lit "TYPE_CREATE_BOARD") refl,
    (all_text-IsText (lit "message") refl, all_text-IsText (please_login) refl, tt),
  );
  distinct = (((λ e. cc), tt), (tt, tt));
  some_field = λ e. cc;
  fits = omega (arith, length-refusal);
}

refused :
    handle_tcp no_users midnight board_request quiet_server ≡ (ok (replies refusal), quiet_server)
unfolding handle_tcp handle command_of field int_field on_create_board ask_create_board insert
    lookup lit str_eq ◌>>=◌ pure lift int_eq
refused = rw (stoi-to_string minus_one (omega arith)) refl

carried-converse_example :
    carried no_users midnight
      (ask minus_one (opens_board (lit "x")))
      (calls_for (serialize (package_of board_request) ∷ []))
      (calls_for (serialize (package_of refusal) ∷ []))
      stranger
      quiet_server
    ≡ converse no_users midnight (ask minus_one (opens_board (lit "x"))) stranger quiet_server
carried-converse_example =
    carried-converse no_users midnight minus_one (opens_board (lit "x")) stranger quiet_server
      quiet_server refusal (serialize (package_of board_request) ∷ [])
      (serialize (package_of refusal) ∷ []) board_request-IsSendable refusal-IsSendable refused
      (omega (arith, length-request), tt)
      (unfold stream_of in append-nil (serialize (package_of board_request)))
      (omega (arith, length-refusal), tt)
      (unfold stream_of in append-nil (serialize (package_of refusal)))

abbrev member : Client
member = record { login_token = pos 5; mode = chat; username = lit "bob" }

abbrev member_server : Server no_users.Handle
member_server = record quiet_server { logins = (pos 5, lit "bob") ∷ [] }

abbrev signed_request : Fields
signed_request = (ask (pos 5) (opens_board (lit "x"))).request

abbrev creation : Fields
creation = message_reply (lit "TYPE_CREATE_BOARD") board_created

abbrev spoken : Fields
spoken = message_package (lit "bob") (lit "hi")

spoken-told : deed member (read_line chat (lit "hi")) ≡ tells_room spoken
unfolding read_line deed lookup lit str_eq is_command is_space is_any
spoken-told = refl

length-spoken : length (serialize (package_of spoken)) ≡ 51
unfolding message_package insert lit str_eq packet_size fields_size
length-spoken = length-serialize (package_of spoken) (omega arith)

abbrev bob_room : ChatRoom
bob_room = start_server (lit "bob") unstarted

read_line-on_package_example :
    (received : Fields) × (next : ChatRoom) × (sent : List Delivery) × (client_recv
        (calls_for (serialize (package_of spoken) ∷ []))
      ≡ some received)
    × (on_package 4 (lit "bob") received (record { tm_hour = 12; tm_min = 5 }) bob_room
        ≡ some (next, sent))
read_line-on_package_example =
    read_line-on_package 4 (lit "bob") (record { tm_hour = 12; tm_min = 5 }) bob_room member
      (lit "hi") spoken (serialize (package_of spoken) ∷ [])
      (unfold all_text lit in all_text-IsText (lit "bob") refl)
      (unfold all_text lit in all_text-IsText (lit "hi") refl) spoken-told
      (omega (arith, length-spoken)) (omega (arith, length-spoken), tt)
      (unfold stream_of in append-nil (serialize (package_of spoken)))
