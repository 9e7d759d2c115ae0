-- ===== src/Database/Ownership.antt =====
-- Who can change a post: only its author edits or deletes it, and its comments only grow.
use mathlib.Core.List.{append-nil, append_assoc}
use np_hw.Prelude.Ints.{to_int, to_int-small}
use np_hw.Database.Safety.{perform_counted}
use np_hw.Prelude.{
  ◌+◌, ◌^◌, ◌<◌, length, ◌≡◌, refl, ap, sym, ◌∙◌, inl, inr, Bool, false, some, List, [], ◌∷◌, ◌++◌,
  arith, Str, str_eq, str_eq_iff, str_key, ℤ, pos, int_key, int_eq, int_eq_iff, ◌==◌, Map, lookup,
  lookup-insert, Result, ok, throws, Bool-cases, Option-cases,
}
use np_hw.Database.Types.{Database, Post, Tm}
use np_hw.Database.Boards.{create_board, list_boards}
use np_hw.Database.Posts.{create_post, list_posts, read_post, delete_post, update_post, comment}
use np_hw.Database.Rooms.{get_room, set_room, create_chatroom, list_chatroom}
use np_hw.Database.Listing.{IsIssued-ne}
use np_hw.Database.Reading.{read-create_post, delete_post-effect}
use np_hw.Database.Calls.{
  Call, Reply, creates_board, creates_post, deletes_post, updates_post, comments, perform,
  after_calls, as_reply,
}
use np_hw.Database.Invariant.{IsValid}
use np_hw.Database.Safety.{perform-Returns}

-- The call is no deletion and no update in the name of `author`.
abbrev pub IsByOthers : Str → Call → Type 0
IsByOthers author (deletes_post s user) = ¬ (author ≡ user)
IsByOthers author (updates_post s user title replace) = ¬ (author ≡ user)
IsByOthers author _ = Unit

abbrev pub AllByOthers : Str → List Call → Type 0
AllByOthers author [] = Unit
AllByOthers author (c ∷ cs) = IsByOthers author c × AllByOthers author cs

-- The post `p` is still there, as it was but for comments added at the end.
abbrev pub Survives : ℤ → Post → Map ℤ Post → Type 0
Survives s p posts =
    (more : List (Str × Str)) × (lookup s posts ≡ some (record p { comments = p.comments ++ more }))

Survives-same :
    (s : ℤ) (posts : Map ℤ Post) (p : Post) → lookup s posts ≡ some p → Survives s p posts
Survives-same s posts p e =
    ([], e ∙ ap (λ l. some (record p { comments = l })) (sym (append-nil p.comments)))

module _ {db : Database} (v : IsValid db) (s : ℤ) (p : Post)
    (at_s : lookup s db.posts ≡ some p) where
  create_board-Survives :
      (name moderator : Str) → Survives s p (create_board name moderator db).1.posts
  unfolding create_board
  create_board-Survives name moderator = Survives-same s _ p (ground arith)

  create_post-Survives :
      (name title content creator : Str) (now : Tm)
      → db.post_serial + 1 < 2 ^ 31
      → Survives s p (create_post name title content creator now db).1.posts
  create_post-Survives name title content creator now room =
      elim (Option-cases (lookup name db.boards)) [
        | inl e ↦ Survives-same s _ p (unfold create_post in rw (e, create_post) at_s)
        | inr (i, e) ↦
            let (created, shown, others) =
              read-create_post db name title content creator now i v e in
            let given : (to_int (pos db.post_serial) == s) ≡ false =
              rw (to_int-small db.post_serial (omega (arith, room)))
                (IsIssued-ne db.post_serial s (v.numbered s p at_s)) in
            Survives-same s _ p (others s ∙ rw given at_s)
      ]

  delete_post-Survives :
      (t : ℤ) (user : Str) → ¬ (p.author ≡ user) → Survives s p (delete_post t user db).1.posts
  delete_post-Survives t user h = Survives-same s _ p (
      ground
        (arith, (delete_post-effect db t user v).1 s, int_eq_iff t s, str_eq_iff p.author user))

  update_post-Survives :
      (t : ℤ) (user : Str) (title : Bool) (replace : Str)
      → ¬ (p.author ≡ user)
      → Survives s p (update_post t user title replace db).1.posts
  unfolding update_post
  update_post-Survives t user title replace h = elim (Option-cases (lookup t db.posts)) [
    | inl e ↦ rw (e, update_post) (Survives-same s _ p at_s)
    | inr (q, e) ↦ elim (Bool-cases (str_eq q.author user)) [
      | inr other ↦ rw (e, update_post, other) (Survives-same s _ p at_s)
      | inl own ↦
          rw (e, update_post, own)
            (Survives-same s _ p
              (rw lookup-insert (ground (arith, int_eq_iff t s, str_eq_iff q.author user))))
    ]
  ]

  comment-Survives : (t : ℤ) (user content : Str) → Survives s p (comment t user content db).1.posts
  unfolding comment
  comment-Survives t user content = elim (Option-cases (lookup t db.posts)) [
    | inl e ↦ rw (e, comment) (Survives-same s _ p at_s)
    | inr (q, e) ↦ elim (Bool-cases (int_eq t s)) [
      | inr other ↦ rw (e, comment) (Survives-same s _ p (rw (lookup-insert, other) at_s))
      | inl same ↦
          rw (e, comment)
            ((user, content) ∷ [], rw (lookup-insert, same) (ground (arith, int_eq_iff t s)))
    ]
  ]

as_reply-posts : {A : Type 0} (f : A → Reply) (r : Result A × Database) → (as_reply f r).1 ≡ r.1
as_reply-posts f (ok a, db) = refl
as_reply-posts f (throws e, db) = refl

perform-Survives :
    (c : Call) (db : Database) (s : ℤ) (p : Post)
    → IsValid db
    → lookup s db.posts ≡ some p
    → IsByOthers p.author c
    → db.post_serial + 1 < 2 ^ 31
    → Survives s p (perform c db).1.posts
unfolding perform create_chatroom set_room get_room list_chatroom list_boards list_posts read_post
perform-Survives (creates_board name moderator) db s p v e h room =
    rw as_reply-posts (create_board-Survives v s p e name moderator)
perform-Survives (creates_post name title content creator now) db s p v e h room =
    rw as_reply-posts (create_post-Survives v s p e name title content creator now room)
perform-Survives (deletes_post t user) db s p v e h room =
    rw as_reply-posts (delete_post-Survives v s p e t user h)
perform-Survives (updates_post t user title replace) db s p v e h room =
    rw as_reply-posts (update_post-Survives v s p e t user title replace h)
perform-Survives (comments t user content) db s p v e h room =
    rw as_reply-posts (comment-Survives v s p e t user content)
perform-Survives c db s p v e h room = Survives-same s _ p (ground arith)

-- From a valid database, through any calls, in any order, none of which deletes or updates a
-- post in the name of its author, and so few that the serials stay below 2 ^ 31 - 1 if each call
-- uses one, a post keeps its board, author, title, date and content and
-- loses no comment.
pub after_calls-Survives :
    (cs : List Call) (db : Database) (s : ℤ) (p : Post)
    → IsValid db
    → lookup s db.posts ≡ some p
    → AllByOthers p.author cs
    → db.post_serial + length cs < 2 ^ 31
    → Survives s p (after_calls db cs).posts
unfolding after_calls
after_calls-Survives [] db s p v e h room = Survives-same s _ p e
after_calls-Survives (c ∷ cs) db s p v e h room =
    let small : db.post_serial + 1 < 2 ^ 31 = omega (arith, room) in
    let counted = perform_counted c db in
    let (more, e') = perform-Survives c db s p v e h.0 small in
    let q : Post = record p { comments = p.comments ++ more } in
    let (rest, e'') =
      after_calls-Survives cs (perform c db).1 s q (perform-Returns c db v small).valid e' h.1
        (omega (arith, room, counted)) in
    (
      more ++ rest,
      e'' ∙ ap (λ l. some (record p { comments = l })) (append_assoc p.comments more rest),
    )
