-- ===== src/Database/Calls.antt =====
-- A client of the database: any of its public methods, in any order.
use np_hw.Prelude.{ℕ, Bool, List, [], ◌∷◌, Option, Str, ℤ, Exec, Result, ok, throws}
use np_hw.Database.Types.{Database, Tm, Chatroom}
use np_hw.Database.Boards.{create_board, list_boards}
use np_hw.Database.Posts.{create_post, list_posts, read_post, delete_post, update_post, comment}
use np_hw.Database.Rooms.{get_room, set_room, create_chatroom, list_chatroom}

pub data Call : Type 0 where
  creates_board : Str → Str → Call
  creates_post : Str → Str → Str → Str → Tm → Call
  lists_boards : Call
  lists_posts : Str → Call
  reads_post : ℤ → Call
  deletes_post : ℤ → Str → Call
  updates_post : ℤ → Str → Bool → Str → Call
  comments : ℤ → Str → Str → Call
  creates_chatroom : ℤ → Str → Call
  gets_room : Str → Call
  sets_room : Str → Chatroom → Call
  lists_chatroom : Call

pub data Reply : Type 0 where
  text : Str → Reply
  code : ℕ → Reply
  room : Option Chatroom → Reply
  flag : Bool → Reply

abbrev pub as_reply : {A : Type 0} → (A → Reply) → Result A × Database → Result Reply × Database
as_reply f (ok a, db) = (ok (f a), db)
as_reply f (throws e, db) = (throws e, db)

unfoldable pub perform : Call → Exec Database Reply
perform (creates_board name moderator) db = as_reply text (create_board name moderator db)
perform (creates_post name title content creator now) db =
    as_reply text (create_post name title content creator now db)
perform lists_boards db = as_reply text (list_boards db)
perform (lists_posts name) db = as_reply text (list_posts name db)
perform (reads_post serial) db = as_reply text (read_post serial db)
perform (deletes_post serial user) db = as_reply text (delete_post serial user db)
perform (updates_post serial user title replace) db =
    as_reply text (update_post serial user title replace db)
perform (comments serial user content) db = as_reply text (comment serial user content db)
perform (creates_chatroom port name) db = as_reply code (create_chatroom port name db)
perform (gets_room name) db = as_reply room (get_room name db)
perform (sets_room name given) db = as_reply flag (set_room name given db)
perform lists_chatroom db = as_reply text (list_chatroom db)

-- The database after a sequence of calls; a call that throws ends itself alone.
unfoldable pub after_calls : Database → List Call → Database
after_calls db [] = db
after_calls db (c ∷ cs) = after_calls (perform c db).1 cs
