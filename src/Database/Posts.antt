-- ===== src/Database/Posts.antt =====
-- The methods of server/database.cpp on posts.
use np_hw.Prelude.{
  ℕ, ◌+◌, Bool, Option, none, some, List, [], ◌∷◌, ◌++◌, Str, str_eq, ℤ, pos, str_key, int_key,
  lookup, insert, remove, lit, endl, Exec, Result, ok, throws, out_of_range, get_elem?, set,
  erase_first, if◌then◌else◌,
}
use np_hw.Prelude.Decimal.{to_string}
use np_hw.Prelude.Ints.{to_int, int_suc}
use np_hw.Database.Types.{
  Database, Post, Tm, board_missing, post_created, post_missing, not_owner, post_deleted,
  post_updated, post_commented,
}
use np_hw.Database.Boards.{posts_heading, post_rows}

abbrev pub date_of : Tm → Str
date_of now = to_string (pos (now.tm_mon + 1)) ++ (lit "/" ++ to_string (pos now.tm_mday))

abbrev pub new_post : Str → Str → Str → Str → Tm → Post
new_post boardname title content creator now = record {
  board = boardname;
  author = creator;
  title = title;
  date = date_of now;
  content = content;
  comments = [];
}

-- `boardInfos.at(index)`, with its serials changed by `f`.
unfoldable pub change_serials : ℕ → (List ℤ → List ℤ) → Database → Option Database
change_serials index f db = elim (get_elem? db.board_infos index) [
  | none ↦ none
  | some info ↦ some (record db {
    board_infos = set db.board_infos index (record info { serials = f info.serials });
  })
]

-- `now` is what `localtime` gives at the call.
unfoldable pub create_post : Str → Str → Str → Str → Tm → Exec Database Str
unfolding change_serials to_int int_suc
create_post boardname title content creator now db = elim (lookup boardname db.boards) [
  | none ↦ (ok board_missing, db)
  | some index ↦
      let serial = to_int (pos db.post_serial) in
      let counted : Database = record db { post_serial = int_suc db.post_serial } in
      elim (change_serials index (λ l. l ++ serial ∷ []) counted) [
        | none ↦ (throws out_of_range, counted)
        | some db' ↦ (
          ok post_created,
          record db' {
            posts = insert serial (new_post boardname title content creator now) db'.posts;
          },
        )
      ]
]

abbrev pub after_heading : Result Str → Result Str
after_heading (ok rows) = ok (posts_heading ++ rows)
after_heading (throws e) = throws e

unfoldable pub list_posts : Str → Exec Database Str
unfolding post_rows
list_posts boardname db = elim (lookup boardname db.boards) [
  | none ↦ (ok board_missing, db)
  | some index ↦ elim (get_elem? db.board_infos index) [
    | none ↦ (throws out_of_range, db)
    | some info ↦ (after_heading (post_rows db.posts info.serials), db)
  ]
]

unfoldable pub comment_rows : List (Str × Str) → Str
comment_rows [] = []
comment_rows ((who, text) ∷ rest) = who ++ (lit ": " ++ (text ++ (endl ++ comment_rows rest)))

abbrev pub rendered : Post → Str
rendered post =
    lit "Author: "
    ++ (post.author
        ++ (endl
            ++ (lit "Title: "
                ++ (post.title
                    ++ (endl
                        ++ (lit "Date: "
                            ++ (post.date
                                ++ (endl
                                    ++ (lit "--"
                                        ++ (endl
                                            ++ (post.content
                                                ++ (endl
                                                    ++ (lit "--"
                                                        ++ (endl
                                                            ++ comment_rows
                                                            post.comments))))))))))))))

unfoldable pub read_post : ℤ → Exec Database Str
read_post serial db = elim (lookup serial db.posts) [
  | none ↦ (ok post_missing, db)
  | some post ↦ (ok (rendered post), db)
]

-- `boards.at(p.board)`, the erasing loop and `posts.erase(serial)`.
unfoldable pub drop_post : ℤ → Post → Exec Database Str
unfolding change_serials
drop_post serial p db = elim (lookup p.board db.boards) [
  | none ↦ (throws out_of_range, db)
  | some index ↦ elim (change_serials index (erase_first serial) db) [
    | none ↦ (throws out_of_range, db)
    | some db' ↦ (ok post_deleted, record db' { posts = remove serial db'.posts })
  ]
]

unfoldable pub delete_post : ℤ → Str → Exec Database Str
unfolding drop_post
delete_post serial user db = elim (lookup serial db.posts) [
  | none ↦ (ok post_missing, db)
  | some p ↦ if str_eq p.author user then drop_post serial p db else (ok not_owner, db)
]

unfoldable pub update_post : ℤ → Str → Bool → Str → Exec Database Str
update_post serial user title replace db = elim (lookup serial db.posts) [
  | none ↦ (ok post_missing, db)
  | some p ↦
      if str_eq p.author user
      then (
        ok post_updated,
        record db {
          posts =
              insert serial
                (if title then record p { title = replace } else record p { content = replace })
                db.posts;
        },
      )
      else (ok not_owner, db)
]

unfoldable pub comment : ℤ → Str → Str → Exec Database Str
comment serial user content db = elim (lookup serial db.posts) [
  | none ↦ (ok post_missing, db)
  | some p ↦ (
    ok post_commented,
    record db {
      posts = insert serial (record p { comments = p.comments ++ (user, content) ∷ [] }) db.posts;
    },
  )
]
