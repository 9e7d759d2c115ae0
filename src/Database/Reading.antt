-- ===== src/Database/Reading.antt =====
-- What a reader sees after a change: `listPosts` and `readPost` against `createPost`,
-- `updatePost`, `comment` and `deletePost`.
use mathlib.Core.List.{append_assoc}
use np_hw.Prelude.{
  ℕ, ◌≡◌, refl, ap, ◌∙◌, inl, inr, Bool, false, ◌&&◌, Option, none, some, List, [], ◌∷◌, ◌++◌,
  arith, Str, str_eq, str_key, lit, endl, ℤ, pos, int_key, ◌==◌, lookup, lookup-insert,
  lookup-remove, ok, if◌then◌else◌, Bool-cases, Option-cases, same_refl,
}
use np_hw.Prelude.Ints.{to_int}
use np_hw.Database.Types.{
  Database, Post, BoardInfo, Tm, post_created, post_missing, not_owner, post_deleted,
  post_commented,
}
use np_hw.Database.Boards.{posts_heading}
use np_hw.Database.Posts.{
  new_post, create_post, list_posts, read_post, drop_post, delete_post, comment, rendered,
  comment_rows,
}
use np_hw.Database.Pages.{board_page, post_rows-listing}
use np_hw.Database.Invariant.{IsValid}
use np_hw.Database.Changes.{posted, dropped}

-- On a valid database, listing a board that exists returns the heading and one row for each
-- post that is now on the board, in the order of the serials, and changes nothing.
pub list_posts-page :
    (db : Database) (name : Str) (i : ℕ)
    → IsValid db
    → lookup name db.boards ≡ some i
    → list_posts name db ≡ (ok (posts_heading ++ board_page db.posts name db.post_serial), db)
unfolding list_posts
list_posts-page db name i v e =
    let (info, g, k) = v.sound name i e in
    rw (e, list_posts, g, v.listed i info g, k, post_rows-listing) refl

read_post-at :
    (db : Database) (s : ℤ) (p : Post)
    → lookup s db.posts ≡ some p
    → (read_post s db).0 ≡ ok (rendered p)
unfolding read_post
read_post-at db s p e = rw (e, read_post) refl

create_post-eq :
    (db : Database) (name title content creator : Str) (now : Tm) (i : ℕ) (v : IsValid db)
    → (e : lookup name db.boards ≡ some i)
    → create_post name title content creator now db ≡ (
      ok post_created,
      posted db i (v.sound name i e).0 (new_post name title content creator now),
    )
unfolding create_post
create_post-eq db name title content creator now i v e =
    rw (e, create_post, (v.sound name i e).1) refl

-- On a valid database, creating a post on a board that exists succeeds, and reading it under
-- the serial that it was given shows its author, title, date and content and no comment. The
-- post is stored there, and every other post is as it was.
pub read-create_post :
    (db : Database) (name title content creator : Str) (now : Tm) (i : ℕ)
    → IsValid db
    → lookup name db.boards ≡ some i
    → let r = create_post name title content creator now db in
      (r.0 ≡ ok post_created)
      × ((read_post (to_int (pos db.post_serial)) r.1).0
          ≡ ok (rendered (new_post name title content creator now)))
      × ((s : ℤ)
          → lookup s r.1.posts ≡ (
              if to_int (pos db.post_serial) == s
              then some (new_post name title content creator now)
              else lookup s db.posts))
read-create_post db name title content creator now i v e =
    let post = new_post name title content creator now in
    rw (create_post-eq db name title content creator now i v e) (
      refl,
      read_post-at _ _ post (rw (lookup-insert, same_refl (to_int (pos db.post_serial))) refl),
      λ s. rw lookup-insert refl,
    )

abbrev pub owned_by : Str → Option Post → Bool
owned_by user none = false
owned_by user (some p) = str_eq p.author user

abbrev pub deletion_reply : Str → Option Post → Str
deletion_reply user none = post_missing
deletion_reply user (some p) = if str_eq p.author user then post_deleted else not_owner

drop_post-eq :
    (db : Database) (s : ℤ) (p : Post) (v : IsValid db)
    → lookup s db.posts ≡ some p
    → (i : ℕ) × (info : BoardInfo) × (drop_post s p db ≡ (ok post_deleted, dropped db i info s))
unfolding drop_post
drop_post-eq db s p v q =
    let (i, e) = v.housed s p q in
    let (info, g, k) = v.sound p.board i e in (i, info, rw (e, drop_post, g) refl)

-- On a valid database `deletePost` removes the post exactly if it exists and the user is its
-- author, removes and changes no other post, and replies which of the three cases it was.
pub delete_post-effect :
    (db : Database) (s : ℤ) (user : Str)
    → IsValid db
    → let r = delete_post s user db in
      (r.0 ≡ ok (deletion_reply user (lookup s db.posts)))
      × ((t : ℤ)
          → lookup t r.1.posts
            ≡ (if s == t && owned_by user (lookup s db.posts) then none else lookup t db.posts))
unfolding delete_post
delete_post-effect db s user v = elim (Option-cases (lookup s db.posts)) [
  | inl e ↦ rw (e, delete_post) (refl, λ t. ground arith)
  | inr (p, e) ↦ elim (Bool-cases (str_eq p.author user)) [
    | inl own ↦
        let (i, info, d) = drop_post-eq db s p v e in
        rw (e, delete_post, own, d) (refl, λ t. rw lookup-remove (ground arith))
    | inr other ↦ rw (e, delete_post, other) (refl, λ t. ground arith)
  ]
]

comment_rows-append :
    (l : List (Str × Str)) (who text : Str)
    → comment_rows (l ++ (who, text) ∷ []) ≡ comment_rows l ++ (who ++ (lit ": " ++ (text ++ endl)))
unfolding comment_rows
comment_rows-append [] who text = refl
comment_rows-append ((w, t) ∷ l) who text = simp (comment_rows-append l who text, append_assoc)

-- Where a post exists, any user's comment on it succeeds, and reading the post shows it as
-- before with the comment at its end.
pub read-comment :
    (db : Database) (s : ℤ) (user content : Str) (p : Post)
    → lookup s db.posts ≡ some p
    → let r = comment s user content db in
      (r.0 ≡ ok post_commented)
      × ((read_post s r.1).0 ≡ ok (rendered p ++ (user ++ (lit ": " ++ (content ++ endl)))))
unfolding comment
read-comment db s user content p e =
    let q : Post = record p { comments = p.comments ++ (user, content) ∷ [] } in
    rw (e, comment)
      (
        refl,
        read_post-at _ s q (rw (lookup-insert, same_refl s) refl)
            ∙ ap ok (simp (comment_rows-append, append_assoc)),
      )
