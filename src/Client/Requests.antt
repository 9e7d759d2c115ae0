-- ===== src/Client/Requests.antt =====
-- The `on_C_...` functions of client/client_part.cpp, each one the package that it sends and what
-- it makes of the package that answers, and the globals of client/client.cpp that they change.
use np_hw.Prelude.{
  ℕ, ◌-◌, ◌%◌, Bool, true, false, Option, none, some, [], ◌++◌, Str, String, lit, ℤ, pos, negsuc,
  int_eq, str_key, lookup, ok, Exec, pure, at, lift, ◌>>=◌, ◌>>◌, if◌then◌else◌,
}
use np_hw.Prelude.Decimal.{stoi, to_string}
use np_hw.Server.State.{Fields, assign, reply_to}

-- `MODE_BBS` and `MODE_CHAT`
pub data Mode : Type 0 where
  bbs chat : Mode

pub record Client : Type 0 where
  pub login_token : ℤ
  pub mode : Mode
  pub username : Str

-- The socket that a package takes, `bbs_TCPsock` or `bbs_UDPsock`.
pub data Transport : Type 0 where
  over_tcp over_udp : Transport

pub record Exchange (A : Type 0) : Type 0 where
  pub transport : Transport
  pub request : Fields
  pub answer : Fields → Exec Client A

abbrev or_empty : Option Str → Str
or_empty none = []
or_empty (some text) = text

-- `fields[name]`, which is empty where there is none.
abbrev pub value : String → Fields → Str
value name fields = or_empty (lookup (lit name) fields)

abbrev message_of : Fields → Exec Client Str
message_of fields = pure (value "message" fields)

-- `fields["transaction_id"] = std::to_string(login_token)`
abbrev signed_by : ℤ → Fields → Fields
signed_by login_token fields = assign "transaction_id" (to_string login_token) fields

abbrev pub by_tcp : Fields → Exchange Str
by_tcp out = record { transport = over_tcp; request = out; answer = message_of }

abbrev by_udp : Fields → Exchange Str
by_udp out = record { transport = over_udp; request = out; answer = message_of }

unfoldable pub exit_request : ℤ → Fields
exit_request token = signed_by token (reply_to (lit "TYPE_EXIT"))

unfoldable pub ask_list_user : Exchange Str
ask_list_user = by_tcp (reply_to (lit "TYPE_LIST_USER"))

unfoldable pub ask_whoami : ℤ → Exchange Str
ask_whoami token = by_udp (signed_by token (reply_to (lit "TYPE_WHOAMI")))

unfoldable pub set_token : ℤ → Exec Client (Unit {0})
set_token token client = (ok tt, record client { login_token = token })

-- The client keeps the token of the answer.
unfoldable pub keep_token : Fields → Exec Client Str
unfolding set_token
keep_token fields = do
  token ← lift (stoi (value "transaction_id" fields))
  set_token token
  pure (value "message" fields)

unfoldable pub ask_logout : ℤ → Exchange Str
unfolding keep_token
ask_logout token = record {
  transport = over_tcp;
  request = signed_by token (reply_to (lit "TYPE_LOGOUT"));
  answer = keep_token;
}

unfoldable pub ask_login : ℤ → Str → Str → Exchange Str
unfolding keep_token
ask_login token username password = record {
  transport = over_tcp;
  request =
      signed_by token
        (assign "message" (username ++ lit " " ++ password) (reply_to (lit "TYPE_LOGIN")));
  answer = keep_token;
}

unfoldable pub ask_register : Str → Str → Str → Exchange Str
ask_register username email password = by_udp (
    assign "message" (username ++ lit " " ++ email ++ lit " " ++ password)
      (reply_to (lit "TYPE_REGISTER")))

unfoldable pub ask_create_board : ℤ → Str → Exchange Str
ask_create_board token boardname =
    by_tcp (signed_by token (assign "boardname" boardname (reply_to (lit "TYPE_CREATE_BOARD"))))

unfoldable pub ask_create_post : ℤ → Str → Str → Str → Exchange Str
ask_create_post token boardname title content = by_tcp (
    signed_by token (
      assign "content" content
        (assign "title" title (assign "boardname" boardname (reply_to (lit "TYPE_CREATE_POST"))))))

unfoldable pub ask_list_board : ℤ → Exchange Str
ask_list_board token = by_tcp (signed_by token (reply_to (lit "TYPE_LIST_BOARD")))

unfoldable pub ask_list_post : ℤ → Str → Exchange Str
ask_list_post token boardname =
    by_tcp (signed_by token (assign "boardname" boardname (reply_to (lit "TYPE_LIST_POST"))))

abbrev about_post : ℤ → Str → Fields
about_post serial type = assign "postserial" (to_string serial) (reply_to type)

unfoldable pub ask_read_post : ℤ → ℤ → Exchange Str
ask_read_post token serial = by_tcp (signed_by token (about_post serial (lit "TYPE_READ_POST")))

unfoldable pub ask_delete_post : ℤ → ℤ → Exchange Str
ask_delete_post token serial = by_tcp (signed_by token (about_post serial (lit "TYPE_DELETE_POST")))

-- `std::to_string` of a `bool`.
abbrev pub digit_of : Bool → ℤ
digit_of false = pos 0
digit_of true = pos 1

unfoldable pub ask_update_post : ℤ → ℤ → Bool → Str → Exchange Str
ask_update_post token serial title replacement = by_tcp (
    signed_by token (
      assign "replacement" replacement (
        assign "istitle" (to_string (digit_of title))
          (about_post serial (lit "TYPE_UPDATE_POST")))))

unfoldable pub ask_comment : ℤ → ℤ → Str → Exchange Str
ask_comment token serial comment =
    by_tcp (signed_by token (assign "comment" comment (about_post serial (lit "TYPE_COMMENT"))))

-- A number as a `uint16_t`, as `htons` takes it.
unfoldable pub to_uint16 : ℤ → ℕ
to_uint16 (pos n) = n % 65536
to_uint16 (negsuc n) = 65535 - n % 65536

unfoldable pub set_username : Str → Exec Client (Unit {0})
set_username name client = (ok tt, record client { username = name })

-- What an operation on rooms tells its caller: the result code, and the port to connect to, which
-- is left alone unless the code is 0.
pub record RoomAnswer : Type 0 where
  pub status : ℤ
  pub port : Option ℕ

abbrev refused : ℤ → RoomAnswer
refused status = record { status = status; port = none }

unfoldable pub take_username : Fields → Exec Client (Unit {0})
unfolding set_username
take_username fields = do name ← at (lookup (lit "username") fields); set_username name

unfoldable pub ask_create_chatroom : ℤ → Str → Exchange RoomAnswer
unfolding take_username
ask_create_chatroom token port = record {
  transport = over_tcp;
  request = assign "port" port (signed_by token (reply_to (lit "TYPE_CREATE_CHATROOM")));
  answer = λ fields. do
    code ← at (lookup (lit "result_code") fields)
    status ← lift (stoi code)
    if int_eq status (pos 0)
        then (do take_username fields; pure (refused status))
        else pure (refused status);
}

unfoldable pub ask_list_chatroom : ℤ → Exchange Str
ask_list_chatroom token = by_udp (signed_by token (reply_to (lit "TYPE_LIST_CHATROOM")))

-- What the operations that enter a room do with the code that they were given.
unfoldable pub enter_room : ℤ → Fields → Exec Client RoomAnswer
unfolding take_username to_uint16
enter_room status fields =
    if int_eq status (pos 0)
    then (do
      take_username fields
      text ← at (lookup (lit "port") fields)
      port ← lift (stoi text)
      pure (record { status = status; port = some (to_uint16 port) }))
    else pure (refused status)

unfoldable pub ask_join_chatroom : ℤ → Str → Exchange RoomAnswer
unfolding enter_room
ask_join_chatroom token roomname = record {
  transport = over_tcp;
  request = assign "roomname" roomname (signed_by token (reply_to (lit "TYPE_JOIN_CHATROOM")));
  answer = λ fields. do
    status ← lift (stoi (value "result_code" fields))
    enter_room status fields;
}

abbrev by_code : Fields → Exec Client RoomAnswer
by_code fields = do
  code ← at (lookup (lit "result_code") fields)
  status ← lift (stoi code)
  enter_room status fields

unfoldable pub ask_restart_chatroom : ℤ → Exchange RoomAnswer
unfolding enter_room
ask_restart_chatroom token = record {
  transport = over_tcp;
  request = signed_by token (reply_to (lit "TYPE_RESTART_CHATROOM"));
  answer = by_code;
}

unfoldable pub ask_attach : ℤ → Exchange RoomAnswer
unfolding enter_room
ask_attach token = record {
  transport = over_tcp;
  request = signed_by token (reply_to (lit "TYPE_ATTACH"));
  answer = by_code;
}
