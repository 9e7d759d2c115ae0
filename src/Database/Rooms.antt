-- ===== src/Database/Rooms.antt =====
-- The methods of server/database.cpp on chat rooms. A method that fills a `Chatroom &` returns the
-- room, and `none` where it returns false and leaves the argument alone.
use np_hw.Prelude.{
  ℕ, Option, none, some, [], ◌∷◌, ◌++◌, Bool, true, false, Str, ℤ, str_key, Map, lookup, insert,
  lit, setw, endl, Exec, ok, if◌then◌else◌,
}
use np_hw.Database.Types.{Database, Chatroom}

unfoldable pub get_room : Str → Exec Database (Option Chatroom)
get_room roomname db = (ok (lookup roomname db.rooms), db)

unfoldable pub set_room : Str → Chatroom → Exec Database Bool
set_room roomname room db = elim (lookup roomname db.rooms) [
  | some old ↦ (ok true, record db { rooms = insert roomname room db.rooms })
  | none ↦ (ok false, db)
]

-- 0 for a new room, 2 for one that is there.
unfoldable pub create_chatroom : ℤ → Str → Exec Database ℕ
create_chatroom port roomname db = elim (lookup roomname db.rooms) [
  | some old ↦ (ok 2, db)
  | none ↦ (
    ok 0,
    record db {
      rooms = insert roomname (record { roomname = roomname; port = port; opened = true }) db.rooms;
    },
  )
]

unfoldable pub room_rows : Map Str Chatroom → Str
room_rows [] = []
room_rows ((key, room) ∷ rest) =
    setw 20 room.roomname
    ++ ((if room.opened then lit "open" else lit "close") ++ (endl ++ room_rows rest))

unfoldable pub list_chatroom : Exec Database Str
unfolding room_rows
list_chatroom db =
    (ok (setw 20 (lit "Chatroom_name") ++ (lit "Status" ++ (endl ++ room_rows db.rooms))), db)
