-- ===== src/Database/Types.antt =====
-- The records of server/database.h, and the replies of server/database.cpp.
use np_hw.Prelude.{ℕ, List, [], Bool, Str, ℤ, Map, lit}

pub record Post : Type 0 where
  pub board : Str
  pub author : Str
  pub title : Str
  pub date : Str
  pub content : Str
  pub comments : List (Str × Str)

-- An entry of `boardInfos`: name, moderator, and the serials of the posts.
pub record BoardInfo : Type 0 where
  pub name : Str
  pub moderator : Str
  pub serials : List ℤ

pub record Chatroom : Type 0 where
  pub roomname : Str
  pub port : ℤ
  pub opened : Bool

-- The fields of the class that live in memory. Each public method holds its mutexes throughout,
-- so a call is one step. `post_serial` is the 32 bits of the `int postSerial`, read as a number.
pub record Database : Type 0 where
  pub post_serial : ℕ
  pub boards : Map Str ℕ
  pub board_infos : List BoardInfo
  pub posts : Map ℤ Post
  pub rooms : Map Str Chatroom

-- The constructor `Database()`, but for the SQL handle.
abbrev pub fresh : Database
fresh = record { post_serial = 1; boards = []; board_infos = []; posts = []; rooms = [] }

-- What `localtime` gives: the month from 0, and the day of the month.
pub record Tm : Type 0 where
  pub tm_mon : ℕ
  pub tm_mday : ℕ

abbrev pub board_exists : Str
board_exists = lit "Board already exists.\n"

abbrev pub board_created : Str
board_created = lit "Create board successfully.\n"

abbrev pub board_missing : Str
board_missing = lit "Board does not exist.\n"

abbrev pub post_created : Str
post_created = lit "Create post successfully.\n"

abbrev pub post_missing : Str
post_missing = lit "Post does not exist.\n"

abbrev pub not_owner : Str
not_owner = lit "Not the post owner.\n"

abbrev pub post_deleted : Str
post_deleted = lit "Delete successfully.\n"

abbrev pub post_updated : Str
post_updated = lit "Update successfully.\n"

abbrev pub post_commented : Str
post_commented = lit "Comment successfully.\n"
