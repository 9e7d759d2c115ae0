-- ===== src/Database/Boards.antt =====
-- The methods of server/database.cpp on boards.
use np_hw.Prelude.{
  ℕ, suc, ◌+◌, Option, none, some, List, [], ◌∷◌, ◌++◌, Str, ℤ, pos, str_key, int_key, Map, lookup,
  insert, lit, setw, endl, Exec, Result, ok, throws, out_of_range, length,
}
use np_hw.Prelude.Decimal.{to_string}
use np_hw.Database.Types.{Database, BoardInfo, Post, board_exists, board_created}

unfoldable pub create_board : Str → Str → Exec Database Str
create_board boardname moderator db = elim (lookup boardname db.boards) [
  | some index ↦ (ok board_exists, db)
  | none ↦ (
    ok board_created,
    record db {
      boards = insert boardname (length db.board_infos) db.boards;
      board_infos =
          db.board_infos ++ record { name = boardname; moderator = moderator; serials = [] } ∷ [];
    },
  )
]

abbrev pub boards_heading : Str
boards_heading = setw 9 (lit "Index") ++ (setw 30 (lit "Name") ++ (lit "Moderator" ++ endl))

-- The loop of `listBoards`, from index `a`.
unfoldable pub board_rows : ℕ → List BoardInfo → Str
board_rows a [] = []
board_rows a (info ∷ rest) =
    setw 9 (to_string (pos (a + 1)))
    ++ (setw 30 info.name ++ (info.moderator ++ (endl ++ board_rows (suc a) rest)))

unfoldable pub list_boards : Exec Database Str
unfolding board_rows
list_boards db = (ok (boards_heading ++ board_rows 0 db.board_infos), db)

abbrev pub posts_heading : Str
posts_heading =
    setw 5 (lit "S/N")
    ++ (setw 30 (lit "Title") ++ (setw 15 (lit "Author") ++ (lit "Date" ++ endl)))

abbrev pub post_row : ℤ → Post → Str
post_row i post =
    setw 5 (to_string i) ++ (setw 30 post.title ++ (setw 15 post.author ++ (post.date ++ endl)))

abbrev pub add_row : ℤ → Option Post → Result Str → Result Str
add_row i none rows = throws out_of_range
add_row i (some post) (ok rows) = ok (post_row i post ++ rows)
add_row i (some post) (throws e) = throws e

-- The loop of `listPosts`: `posts.at(i)` throws for a serial that has no post.
unfoldable pub post_rows : Map ℤ Post → List ℤ → Result Str
post_rows posts [] = ok []
post_rows posts (i ∷ rest) = add_row i (lookup i posts) (post_rows posts rest)
