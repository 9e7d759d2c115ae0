-- ===== src/Tests/Database.antt =====
-- The bulletin board at concrete inputs.
use np_hw.Prelude.{
  ◌≡◌, refl, none, some, List, [], ◌∷◌, ◌++◌, Str, lit, endl, ℤ, pos, str_key, int_key, ◌==◌, ◌&&◌,
  lookup, insert, str_eq, int_eq, ok, if◌then◌else◌, arith,
}
use np_hw.Prelude.Ints.{to_int}
use np_hw.Database.Types.{Database, Post, Tm, fresh, post_created, post_commented}
use np_hw.Database.Boards.{posts_heading, create_board}
use np_hw.Database.Posts.{
  new_post, create_post, list_posts, read_post, delete_post, comment, rendered, change_serials,
}
use np_hw.Database.Calls.{
  Call, creates_board, creates_post, lists_posts, deletes_post, comments, perform, after_calls,
}
use np_hw.Database.Invariant.{IsValid, fresh-IsValid}
use np_hw.Database.Pages.{board_page}
use np_hw.Database.Reading.{
  list_posts-page, read-create_post, delete_post-effect, read-comment, owned_by, deletion_reply,
}
use np_hw.Database.Safety.{Returns, calls_never_throw, after_calls-IsValid}
use np_hw.Database.Ownership.{Survives, after_calls-Survives}

abbrev alice : Str
alice = lit "alice"

abbrev bob : Str
bob = lit "bob"

abbrev tech : Str
tech = lit "tech"

abbrev may_third : Tm
may_third = record { tm_mon = 4; tm_mday = 3 }

abbrev two_calls : List Call
two_calls =
    creates_board tech alice ∷ (creates_post tech (lit "Hello") (lit "First") alice may_third ∷ [])

abbrev first_post : Post
first_post = new_post tech (lit "Hello") (lit "First") alice may_third

abbrev board_db : Database
board_db = after_calls fresh two_calls

board_db-IsValid : IsValid board_db
board_db-IsValid = (after_calls-IsValid fresh two_calls fresh-IsValid (omega arith)).0

lookup-tech : lookup tech board_db.boards ≡ some 0
unfolding after_calls perform create_board create_post change_serials lookup insert str_eq lit
lookup-tech = refl

lookup-first : lookup (pos 1) board_db.posts ≡ some first_post
unfolding after_calls perform create_board create_post change_serials lookup insert str_eq int_eq
    lit to_int
lookup-first = refl

alice-bob : ¬ (alice ≡ bob)
unfolding lit
alice-bob e = cc

calls_never_throw_example : Returns (perform (lists_posts tech) (after_calls fresh two_calls))
calls_never_throw_example = calls_never_throw two_calls (lists_posts tech) (omega arith)

list_posts-page_example :
    list_posts tech board_db
    ≡ (ok (posts_heading ++ board_page board_db.posts tech board_db.post_serial), board_db)
list_posts-page_example = list_posts-page board_db tech 0 board_db-IsValid lookup-tech

after_calls-Survives_example :
    Survives
      (pos 1)
      first_post
      (after_calls board_db
        (deletes_post (pos 1) bob ∷ (comments (pos 1) bob (lit "Hi") ∷ []))).posts
after_calls-Survives_example =
    after_calls-Survives (deletes_post (pos 1) bob ∷ (comments (pos 1) bob (lit "Hi") ∷ []))
      board_db (pos 1) first_post board_db-IsValid lookup-first (alice-bob, (tt, tt))
      (unfold after_calls perform create_board create_post change_serials lookup insert str_eq
          lit in
        omega arith)

read-create_post_example :
    let r = create_post tech (lit "Again") (lit "Second") bob may_third board_db in
    (r.0 ≡ ok post_created)
    × ((read_post (to_int (pos board_db.post_serial)) r.1).0
        ≡ ok (rendered (new_post tech (lit "Again") (lit "Second") bob may_third)))
    × ((s : ℤ)
        → lookup s r.1.posts ≡ (
            if to_int (pos board_db.post_serial) == s
            then some (new_post tech (lit "Again") (lit "Second") bob may_third)
            else lookup s board_db.posts))
read-create_post_example =
    read-create_post board_db tech (lit "Again") (lit "Second") bob may_third 0 board_db-IsValid
      lookup-tech

delete_post-effect_example :
    let r = delete_post (pos 1) alice board_db in
    (r.0 ≡ ok (deletion_reply alice (lookup (pos 1) board_db.posts)))
    × ((t : ℤ)
        → lookup t r.1.posts ≡ (
            if pos 1 == t && owned_by alice (lookup (pos 1) board_db.posts)
            then none
            else lookup t board_db.posts))
delete_post-effect_example = delete_post-effect board_db (pos 1) alice board_db-IsValid

read-comment_example :
    let r = comment (pos 1) bob (lit "Hi") board_db in
    (r.0 ≡ ok post_commented)
    × ((read_post (pos 1) r.1).0
        ≡ ok (rendered first_post ++ (bob ++ (lit ": " ++ (lit "Hi" ++ endl)))))
read-comment_example = read-comment board_db (pos 1) bob (lit "Hi") first_post lookup-first
