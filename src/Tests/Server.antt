-- ===== src/Tests/Server.antt =====
-- The server at concrete inputs.
use np_hw.Prelude.{
  ◌≡◌, refl, sym, ◌∙◌, inr, true, none, some, List, [], ◌∷◌, Str, lit, str_eq, ℤ, pos, int_eq,
  int_eq_iff, str_key, int_key, lookup, insert, length, ◌<◌, ok, pure, arith,
}
use np_hw.Prelude.Decimal.{to_string, stoi, stoi-to_string}
use np_hw.Database.Types.{Chatroom, fresh}
use np_hw.Database.Users.{Sqlite, User}
use np_hw.Database.Invariant.{fresh-IsValid}
use np_hw.Server.State.{Server, Fields, assign, reply_to, int_field}
use np_hw.Server.Sessions.{open_session, on_exit, on_whoami}
use np_hw.Server.Dispatch.{
  create_board, Environment, command_of, handle, handle_tcp, handle_udp, Event, tcp, udp, serve,
  serve_all,
}
use np_hw.Server.Invariant.{IsServing}
use np_hw.Server.Serving.Events.{AreNoExits, serve_all-IsServing}
use np_hw.Server.Identity.{whoami_request, whoami-open_session}
use np_hw.Server.Access.{IsAnonymous, anonymous_writes_change_nothing}
use np_hw.Server.Faults.{exit-not-IsServing}

-- A users' table that answers every query with all of its rows.
abbrev memory : Sqlite
memory = record {
  Handle = List User;
  exec = λ query users. record { rows = users; errmsg = none; handle = users };
}

abbrev bob : Str
bob = lit "bob"

abbrev token : Str
token = to_string (pos 5)

stoi-token : stoi token ≡ ok (pos 5)
stoi-token = stoi-to_string (pos 5) (omega arith)

abbrev noon : Environment
noon = record { draws = pos 5 ∷ (pos 9 ∷ []); now = record { tm_mon = 4; tm_mday = 3 } }

-- Bob is logged in.
abbrev bob_server : Server (List User)
bob_server = record { users = []; db = fresh; logins = (pos 5, bob) ∷ [] }

bob_server-IsServing : IsServing bob_server
unfolding lookup
bob_server-IsServing = record {
  database = fresh-IsValid;
  named = λ name r e. cc;
  hosted = λ name r e o. cc;
}

abbrev board_request : Fields
board_request =
    assign "boardname" (lit "tech")
      (assign "transaction_id" token (reply_to (lit "TYPE_CREATE_BOARD")))

board_request-type : lookup (lit "type") board_request ≡ some (lit "TYPE_CREATE_BOARD")
unfolding lookup insert lit str_eq
board_request-type = refl

board_request-command : command_of (lit "TYPE_CREATE_BOARD") ≡ create_board
unfolding command_of lit str_eq
board_request-command = refl

abbrev board_events : List (Event memory)
board_events = tcp noon board_request ∷ (udp [] ∷ [])

board_events-AreNoExits : AreNoExits memory board_events
board_events-AreNoExits = (
  (λ type e k.
      let same : some (lit "TYPE_CREATE_BOARD") ≡ some type = sym board_request-type ∙ e in
      let named : type ≡ lit "TYPE_CREATE_BOARD" = cc in let known = board_request-command in cc),
  (tt, tt),
)

board_events-served :
    serve_all memory board_events bob_server
    ≡ some (handle_tcp memory noon board_request bob_server).1
unfolding serve_all serve handle_udp lookup lit str_eq pure
board_events-served = refl

serve_all-IsServing_example : IsServing (handle_tcp memory noon board_request bob_server).1
serve_all-IsServing_example =
    serve_all-IsServing memory board_events bob_server
      (handle_tcp memory noon board_request bob_server).1 bob_server-IsServing
      board_events-AreNoExits (omega arith) board_events-served

-- A request under the token 7, which is nobody's.
abbrev stale_request : Fields
stale_request = assign "transaction_id" (to_string (pos 7)) (reply_to (lit "TYPE_CREATE_BOARD"))

stale_request-token : lookup (lit "transaction_id") stale_request ≡ some (to_string (pos 7))
unfolding lookup insert lit str_eq
stale_request-token = refl

stale_request-absent : lookup (pos 7) bob_server.logins ≡ none
unfolding lookup int_eq
stale_request-absent = refl

stale_request-IsAnonymous : IsAnonymous bob_server stale_request
stale_request-IsAnonymous text id e k =
    let read : stoi (to_string (pos 7)) ≡ ok (pos 7) = stoi-to_string (pos 7) (omega arith) in
    let named : some (to_string (pos 7)) ≡ some text = sym stale_request-token ∙ e in
    let same : pos 7 ≡ id = cc in inr (rw same at stale_request-absent)

anonymous_writes_change_nothing_example :
    (handle memory create_board noon stale_request bob_server).1 ≡ bob_server
anonymous_writes_change_nothing_example =
    anonymous_writes_change_nothing memory bob_server stale_request stale_request-IsAnonymous
      create_board noon tt

one-few : length bob_server.logins < 1000
unfolding length
one-few = omega arith

two-many : length bob_server.logins < length noon.draws
unfolding length
two-many = omega arith

whoami-open_session_example :
    (out : Fields) × (login_token : ℤ) × (t : Server (List User)) × (open_session noon.draws bob
        bob_server
      ≡ (ok (some out), t))
    × (int_field "transaction_id" out t ≡ (ok login_token, t))
    × (on_whoami (whoami_request login_token) t
        ≡ (ok (assign "message" bob (whoami_request login_token)), t))
whoami-open_session_example =
    whoami-open_session bob_server noon.draws bob one-few (((λ e. cc), tt), (tt, tt)) two-many
      (omega arith, (omega arith, tt))

-- Bob has an open room.
abbrev bob_room : Chatroom
bob_room = record { roomname = bob; port = pos 5000; opened = true }

abbrev hosting_server : Server (List User)
hosting_server = record {
  users = [];
  db = record fresh { rooms = (bob, bob_room) ∷ [] };
  logins = (pos 5, bob) ∷ [];
}

abbrev exit_request : Fields
exit_request = assign "transaction_id" token (reply_to (lit "TYPE_EXIT"))

exit_request-token : lookup (lit "transaction_id") exit_request ≡ some token
unfolding lookup insert lit str_eq
exit_request-token = refl

hosting-bob : lookup (pos 5) hosting_server.logins ≡ some bob
unfolding lookup int_eq
hosting-bob = refl

hosting-only : (k : ℤ) → lookup k hosting_server.logins ≡ some bob → k ≡ pos 5
unfolding lookup
hosting-only k e = ground (arith, int_eq_iff (pos 5) k)

hosting-room : lookup bob hosting_server.db.rooms ≡ some bob_room
unfolding lookup lit str_eq
hosting-room = refl

exit-not-IsServing_example : ¬ IsServing (on_exit exit_request hosting_server).1
exit-not-IsServing_example =
    exit-not-IsServing hosting_server exit_request token bob (pos 5) bob_room exit_request-token
      stoi-token hosting-bob hosting-only hosting-room refl

abbrev close_request : Fields
close_request = assign "username" bob (reply_to (lit "TYPE_CLOSE_CHATROOM"))

close_request-username : lookup (lit "username") close_request ≡ some bob
unfolding lookup insert lit str_eq
close_request-username = refl

abbrev bare_whoami : Fields
bare_whoami = reply_to (lit "TYPE_WHOAMI")

bare_whoami-type : lookup (lit "type") bare_whoami ≡ some (lit "TYPE_WHOAMI")
unfolding lookup insert lit str_eq
bare_whoami-type = refl

bare_whoami-tokenless : lookup (lit "transaction_id") bare_whoami ≡ none
unfolding lookup insert lit str_eq
bare_whoami-tokenless = refl
