-- ===== src/Chat/Packages.antt =====
-- The packages that the room of client/server_part.cpp sends, and the records and times in them.
use np_hw.Prelude.{ℕ, List, [], ◌∷◌, ◌++◌, Str, lit, str_key, nat_key, pos, ltb, if◌then◌else◌}
use np_hw.Prelude.Decimal.{to_string}
use np_hw.Server.State.{Fields, assign, reply_to}

pub record ChatRecord : Type 0 where
  pub who : Str
  pub time : Str
  pub msg : Str

-- What `localtime` gives.
pub record Clock : Type 0 where
  pub tm_hour : ℕ
  pub tm_min : ℕ

-- `%02d`
abbrev pub two_digits : ℕ → Str
two_digits n = if ltb n 10 then b'0' ∷ to_string (pos n) else to_string (pos n)

abbrev pub get_time : Clock → Str
get_time now = two_digits now.tm_hour ++ (lit ":" ++ two_digits now.tm_min)

-- A package that is sent to a socket.
abbrev pub Delivery : Type 0
Delivery = ℕ × Fields

abbrev pub room_msg : ChatRecord → Fields
room_msg ch =
    assign "msg" ch.msg
      (assign "time" ch.time (assign "who" ch.who (reply_to (lit "TYPE_ROOM_MSG"))))

abbrev pub exit_room : Str → Fields
exit_room action = assign "action" action (reply_to (lit "TYPE_EXIT_ROOM"))

-- The title holds two zero-width spaces, three bytes each.
abbrev pub welcome_text : Str
welcome_text =
    lit "***************************\n**"
    ++ (226 ∷ (128 ∷ (139 ∷ []))
        ++ (lit "Welcome to the chatroom"
            ++ (226 ∷ (128 ∷ (139 ∷ [])) ++ lit "**\n***************************\n")))

unfoldable pub recent : List ChatRecord → Str
recent [] = []
recent (ch ∷ rest) =
    ch.who ++ (lit "[" ++ (ch.time ++ (lit "]:" ++ (ch.msg ++ (lit "\n" ++ recent rest)))))

unfoldable pub server_msg : List ChatRecord → Fields
unfolding recent
server_msg last_three =
    assign "message" (welcome_text ++ recent last_three) (reply_to (lit "TYPE_SERVER_MSG"))

-- `for (TCP_socket so : who) so.send(&rec);`
unfoldable pub send_each : Fields → List ℕ → List Delivery
send_each rec [] = []
send_each rec (so ∷ who) = (so, rec) ∷ send_each rec who

unfoldable pub broadcast_msg : ChatRecord → List ℕ → List Delivery
unfolding send_each
broadcast_msg ch who = send_each (room_msg ch) who

abbrev pub sys_record : Clock → Str → ChatRecord
sys_record now text = record { who = lit "sys"; time = get_time now; msg = text }
