-- ===== src/Database/Safety.antt =====
-- Every method keeps the invariant, and none of the `.at` calls of database.cpp can throw.
use np_hw.Prelude.Ints.{int_suc-bound}
use np_hw.Prelude.{
  suc, ◌-◌, ◌+◌, ◌^◌, ◌<◌, ◌≤◌, length, ◌≡◌, refl, Bool, some, List, [], ◌∷◌, arith, inl, inr, Str,
  str_eq, str_key, ℤ, int_key, Result, ok, throws, Map, lookup, Option-cases, Bool-cases,
}
use np_hw.Database.Types.{Database, Post, Chatroom, Tm, fresh}
use np_hw.Database.Boards.{create_board, list_boards}
use np_hw.Database.Posts.{
  change_serials, new_post, create_post, list_posts, read_post, drop_post, delete_post, update_post,
  comment,
}
use np_hw.Database.Rooms.{get_room, set_room, create_chatroom, list_chatroom}
use np_hw.Database.Calls.{
  Call, Reply, creates_board, creates_post, lists_boards, lists_posts, reads_post, deletes_post,
  updates_post, comments, creates_chatroom, gets_room, sets_room, lists_chatroom, perform,
  after_calls, as_reply, text, code, flag,
}
use np_hw.Database.Pages.{post_rows-listing}
use np_hw.Database.Invariant.{IsValid, fresh-IsValid, replace-IsValid}
use np_hw.Database.Changes.{posted-IsValid, dropped-IsValid, boarded-IsValid}

-- A call that returns, and leaves a valid database.
pub record Returns {A : Type 0} (r : Result A × Database) : Type 0 where
  pub value : A
  pub returned : r.0 ≡ ok value
  pub valid : IsValid r.1

module _ {db : Database} (v : IsValid db) where
  -- What a method returns without changing anything.
  unchanged : {A : Type 0} (a : A) → Returns (ok a, db)
  unchanged a = record { value = a; returned = refl; valid = v }

  pub create_board-Returns : (name moderator : Str) → Returns (create_board name moderator db)
  unfolding create_board
  create_board-Returns name moderator = elim (Option-cases (lookup name db.boards)) [
    | inl e ↦
        rw (e, create_board)
          (record { value = _; returned = refl; valid = boarded-IsValid db name moderator v e })
    | inr (i, e) ↦ rw (e, create_board) (unchanged _)
  ]

  pub create_post-Returns :
      (name title content creator : Str) (now : Tm)
      → db.post_serial + 1 < 2 ^ 31
      → Returns (create_post name title content creator now db)
  unfolding create_post
  create_post-Returns name title content creator now room =
      elim (Option-cases (lookup name db.boards)) [
        | inl e ↦ rw (e, create_post) (unchanged _)
        | inr (i, e) ↦
            let (info, g, k) = v.sound name i e in
            rw (e, create_post, g)
              (record {
                value = _;
                returned = refl;
                valid =
                    posted-IsValid db i info (new_post name title content creator now) v room g k;
              })
      ]

  pub list_posts-Returns : (name : Str) → Returns (list_posts name db)
  unfolding list_posts
  list_posts-Returns name = elim (Option-cases (lookup name db.boards)) [
    | inl e ↦ rw (e, list_posts) (unchanged _)
    | inr (i, e) ↦
        let (info, g, k) = v.sound name i e in
        rw (e, list_posts, g, v.listed i info g, post_rows-listing) (unchanged _)
  ]

  pub read_post-Returns : (s : ℤ) → Returns (read_post s db)
  unfolding read_post
  read_post-Returns s = elim (Option-cases (lookup s db.posts)) [
    | inl e ↦ rw (e, read_post) (unchanged _)
    | inr (p, e) ↦ rw (e, read_post) (unchanged _)
  ]

  drop_post-Returns : (s : ℤ) (p : Post) → lookup s db.posts ≡ some p → Returns (drop_post s p db)
  unfolding drop_post
  drop_post-Returns s p q =
      let (i, e) = v.housed s p q in
      let (info, g, k) = v.sound p.board i e in
      rw (e, drop_post, g)
        (record { value = _; returned = refl; valid = dropped-IsValid db i info s p v q g k })

  pub delete_post-Returns : (s : ℤ) (user : Str) → Returns (delete_post s user db)
  unfolding delete_post
  delete_post-Returns s user = elim (Option-cases (lookup s db.posts)) [
    | inl e ↦ rw (e, delete_post) (unchanged _)
    | inr (p, e) ↦ elim (Bool-cases (str_eq p.author user)) [
      | inl own ↦ rw (e, delete_post, own) (drop_post-Returns s p e)
      | inr other ↦ rw (e, delete_post, other) (unchanged _)
    ]
  ]

  pub update_post-Returns :
      (s : ℤ) (user : Str) (title : Bool) (replace : Str)
      → Returns (update_post s user title replace db)
  unfolding update_post
  update_post-Returns s user title replace = elim (Option-cases (lookup s db.posts)) [
    | inl e ↦ rw (e, update_post) (unchanged _)
    | inr (p, e) ↦ elim (Bool-cases (str_eq p.author user)) [
      | inl own ↦
          rw (e, update_post, own)
            (record {
              value = _;
              returned = refl;
              valid = replace-IsValid db s p _ v e (ground arith);
            })
      | inr other ↦ rw (e, update_post, other) (unchanged _)
    ]
  ]

  pub comment-Returns : (s : ℤ) (user content : Str) → Returns (comment s user content db)
  unfolding comment
  comment-Returns s user content = elim (Option-cases (lookup s db.posts)) [
    | inl e ↦ rw (e, comment) (unchanged _)
    | inr (p, e) ↦
        rw (e, comment)
          (record { value = _; returned = refl; valid = replace-IsValid db s p _ v e refl })
  ]

  -- The rooms are no part of the invariant.
  pub with_rooms : (rooms : Map Str Chatroom) → IsValid (record db { rooms = rooms })
  with_rooms rooms = record {
    sound = v.sound;
    indexed = v.indexed;
    listed = v.listed;
    housed = v.housed;
    numbered = v.numbered;
  }

  pub create_chatroom-Returns : (port : ℤ) (name : Str) → Returns (create_chatroom port name db)
  unfolding create_chatroom
  create_chatroom-Returns port name = elim (Option-cases (lookup name db.rooms)) [
    | inl e ↦ rw (e, create_chatroom) (record { value = _; returned = refl; valid = with_rooms _ })
    | inr (r, e) ↦ rw (e, create_chatroom) (unchanged _)
  ]

  pub set_room-Returns : (name : Str) (given : Chatroom) → Returns (set_room name given db)
  unfolding set_room
  set_room-Returns name given = elim (Option-cases (lookup name db.rooms)) [
    | inl e ↦ rw (e, set_room) (unchanged _)
    | inr (r, e) ↦ rw (e, set_room) (record { value = _; returned = refl; valid = with_rooms _ })
  ]

as_reply-Returns :
    {A : Type 0} (f : A → Reply) (r : Result A × Database) → Returns r → Returns (as_reply f r)
as_reply-Returns f (ok a, db) h = record { value = f a; returned = refl; valid = h.valid }
as_reply-Returns f (throws e, db) h = absurd (cc (h.returned))

-- On a valid database every method returns, and leaves the database valid, while there is
-- an `int` for the serial of a next post.
pub perform-Returns :
    (c : Call) (db : Database) → IsValid db → db.post_serial + 1 < 2 ^ 31 → Returns (perform c db)
unfolding perform list_boards get_room list_chatroom
perform-Returns (creates_board name moderator) db v room =
    as_reply-Returns text _ (create_board-Returns v name moderator)
perform-Returns (creates_post name title content creator now) db v room =
    as_reply-Returns text _ (create_post-Returns v name title content creator now room)
perform-Returns lists_boards db v room = unchanged v _
perform-Returns (lists_posts name) db v room = as_reply-Returns text _ (list_posts-Returns v name)
perform-Returns (reads_post s) db v room = as_reply-Returns text _ (read_post-Returns v s)
perform-Returns (deletes_post s user) db v room =
    as_reply-Returns text _ (delete_post-Returns v s user)
perform-Returns (updates_post s user title replace) db v room =
    as_reply-Returns text _ (update_post-Returns v s user title replace)
perform-Returns (comments s user content) db v room =
    as_reply-Returns text _ (comment-Returns v s user content)
perform-Returns (creates_chatroom port name) db v room =
    as_reply-Returns code _ (create_chatroom-Returns v port name)
perform-Returns (gets_room name) db v room = unchanged v _
perform-Returns (sets_room name given) db v room =
    as_reply-Returns flag _ (set_room-Returns v name given)
perform-Returns lists_chatroom db v room = unchanged v _

as_reply-db : {A : Type 0} (f : A → Reply) (r : Result A × Database) → (as_reply f r).1 ≡ r.1
as_reply-db f (ok a, db) = refl
as_reply-db f (throws e, db) = refl

pub create_post_counted :
    (name title content creator : Str) (now : Tm) (db : Database)
    → (create_post name title content creator now db).1.post_serial ≤ suc db.post_serial
unfolding create_post change_serials
create_post_counted name title content creator now db = ground (arith, int_suc-bound db.post_serial)

-- A call uses up one serial at most.
pub perform_counted : (c : Call) (db : Database) → (perform c db).1.post_serial ≤ suc db.post_serial
unfolding perform create_board list_boards create_post change_serials list_posts read_post
    delete_post drop_post update_post comment create_chatroom set_room get_room list_chatroom
perform_counted (creates_board name moderator) db = rw as_reply-db (ground arith)
perform_counted (creates_post name title content creator now) db =
    rw as_reply-db (create_post_counted name title content creator now db)
perform_counted (deletes_post s user) db = rw as_reply-db (ground arith)
perform_counted (updates_post s user title replace) db = rw as_reply-db (ground arith)
perform_counted (comments s user content) db = rw as_reply-db (ground arith)
perform_counted (lists_posts name) db = rw as_reply-db (ground arith)
perform_counted (reads_post s) db = rw as_reply-db (ground arith)
perform_counted (creates_chatroom port name) db = rw as_reply-db (ground arith)
perform_counted (sets_room name given) db = rw as_reply-db (ground arith)
perform_counted lists_boards db = omega arith
perform_counted (gets_room name) db = omega arith
perform_counted lists_chatroom db = omega arith

-- After so many calls on a valid database that the serials stay within an `int`, it is valid.
pub after_calls-IsValid :
    (db : Database) (cs : List Call)
    → IsValid db
    → db.post_serial + length cs < 2 ^ 31
    → IsValid (after_calls db cs) × ((after_calls db cs).post_serial ≤ db.post_serial + length cs)
unfolding after_calls
after_calls-IsValid db [] v room = (v, omega arith)
after_calls-IsValid db (c ∷ cs) v room =
    let counted = perform_counted c db in
    let kept =
      after_calls-IsValid (perform c db).1 cs (perform-Returns c db v (omega (arith, room))).valid
        (omega (arith, room, counted)) in
    (kept.0, omega (arith, counted, kept.1))

-- Whatever methods for boards, posts and rooms were called on a new database, with whatever
-- arguments, fewer than 2 ^ 31 - 2 calls in all, the next call of any of them returns a value and
-- no exception, and the database is valid after it.
pub calls_never_throw :
    (cs : List Call) (c : Call)
    → length cs < 2 ^ 31 - 2
    → Returns (perform c (after_calls fresh cs))
calls_never_throw cs c few =
    let (valid, counted) = after_calls-IsValid fresh cs fresh-IsValid (omega (arith, few)) in
    perform-Returns c (after_calls fresh cs) valid (omega (arith, few, counted))
