-- ===== src/Server/Serving/Rules.antt =====
-- The steps that the handlers of server/server.cpp are made of keep the server's invariant.
use np_hw.Prelude.Leads.{Leads}
use np_hw.Prelude.{
  ℕ, suc, ◌+◌, ◌^◌, ◌<◌, ◌≡◌, refl, ap, sym, ◌∙◌, inl, inr, Bool, true, false, not, Option, none,
  some, List, [], ◌∷◌, Str, String, str_eq, str_key, lit, ℤ, int_key, int_eq, minus_one, Map,
  lookup, insert, remove, Exec, Result, ok, throws, at, ◌>>=◌, pure, case_option, Keeps, Keeps-at,
  Keeps-bind, Keeps-if, Keeps-pure, Keeps-throw, Keeps-lift, keeps_rules, arith, Option-cases,
  Bool-cases, if◌then◌else◌, leb, length,
}
use np_hw.Database.Types.{Database, Tm}
use np_hw.Database.Boards.{create_board, list_boards}
use np_hw.Database.Posts.{create_post, list_posts, read_post, delete_post, update_post, comment}
use np_hw.Database.Rooms.{get_room, list_chatroom}
use np_hw.Database.Safety.{
  create_board-Returns, create_post-Returns, create_post_counted, delete_post-Returns,
  update_post-Returns, comment-Returns,
}
use np_hw.Server.State.{Server, Fields, field, int_field, login_of, db_call}
use np_hw.Server.Invariant.{IsServingWithin, Keeps-db_call}

module _ {H : Type 0} {P : Server H → Type 0} where
  pub Keeps-field : (name : String) (rec : Fields) → Keeps P (field name rec)
  unfolding field
  Keeps-field name rec = Keeps-at _

  pub Keeps-int_field : (name : String) (rec : Fields) → Keeps P (int_field name rec)
  unfolding int_field
  Keeps-int_field name rec = Keeps-bind _ _ (Keeps-field name rec) (λ text. Keeps-lift _)

  pub Keeps-login : (id : ℤ) → Keeps P (login_of id)
  unfolding login_of
  Keeps-login id = record { keeps = λ s h. (Keeps-at {P = P} (lookup id s.logins)).keeps s h }

  -- A method that changes nothing.
  pub Keeps-query :
      {A : Type 0} (m : Exec Database A) → ((db : Database) → (m db).1 ≡ db) → Keeps P (db_call m)
  unfolding db_call
  Keeps-query m same = record { keeps = λ s h. rw (same s.db) h }

-- The methods that change boards and posts, but `createPost`.
module _ {H : Type 0} {k : ℕ} where
  pub Keeps-create_board :
      (name moderator : Str)
      → Keeps (IsServingWithin {H = H} k) (db_call (create_board name moderator))
  Keeps-create_board name moderator =
      Keeps-db_call _ (λ db v. (create_board-Returns v name moderator).valid)
        (λ db. unfold create_board in ground arith) (λ db. unfold create_board in ground arith)

  -- `createPost` uses up one serial.
  pub Leads-create_post :
      (name title content creator : Str) (now : Tm)
      → k + 1 < 2 ^ 31
      → Leads
          (IsServingWithin {H = H} k)
          (IsServingWithin (suc k))
          (db_call (create_post name title content creator now))
  unfolding db_call
  Leads-create_post name title content creator now room = record {
    leads = λ s h.
        let v = h.serving.database in
        let after = (create_post name title content creator now s.db).1 in
        let same : after.rooms ≡ s.db.rooms = unfold create_post in ground arith in
        record {
          serving = record {
            database =
                (create_post-Returns v name title content creator now
                  (omega (arith, room, h.counted))).valid;
            named = λ name r e. h.serving.named name r (rw same at e);
            hosted = λ name r e. h.serving.hosted name r (rw same at e);
          };
          counted =
              omega (arith, h.counted, create_post_counted name title content creator now s.db);
        };
  }

  pub Keeps-delete_post :
      (serial : ℤ) (user : Str)
      → Keeps (IsServingWithin {H = H} k) (db_call (delete_post serial user))
  Keeps-delete_post serial user =
      Keeps-db_call _ (λ db v. (delete_post-Returns v serial user).valid)
        (λ db. unfold delete_post in ground arith) (λ db. unfold delete_post in ground arith)

  pub Keeps-update_post :
      (serial : ℤ) (user : Str) (title : Bool) (replace : Str)
      → Keeps (IsServingWithin {H = H} k) (db_call (update_post serial user title replace))
  Keeps-update_post serial user title replace =
      Keeps-db_call _ (λ db v. (update_post-Returns v serial user title replace).valid)
        (λ db. unfold update_post in ground arith) (λ db. unfold update_post in ground arith)

  pub Keeps-comment :
      (serial : ℤ) (user content : Str)
      → Keeps (IsServingWithin {H = H} k) (db_call (comment serial user content))
  Keeps-comment serial user content =
      Keeps-db_call _ (λ db v. (comment-Returns v serial user content).valid)
        (λ db. unfold comment in ground arith) (λ db. unfold comment in ground arith)

module _ {H : Type 0} {P : Server H → Type 0} where
  pub Keeps-list_boards : Keeps P (db_call list_boards)
  Keeps-list_boards = Keeps-query _ (λ db. unfold list_boards in refl)

  pub Keeps-list_posts : (name : Str) → Keeps P (db_call (list_posts name))
  Keeps-list_posts name = Keeps-query _ (λ db. unfold list_posts in ground arith)

  pub Keeps-read_post : (serial : ℤ) → Keeps P (db_call (read_post serial))
  Keeps-read_post serial = Keeps-query _ (λ db. unfold read_post in ground arith)

  pub Keeps-get_room : (name : Str) → Keeps P (db_call (get_room name))
  Keeps-get_room name = Keeps-query _ (λ db. unfold get_room in refl)

  pub Keeps-list_chatroom : Keeps P (db_call list_chatroom)
  Keeps-list_chatroom = Keeps-query _ (λ db. unfold list_chatroom in refl)

pub ruleset serving_rules = (
  keeps_rules, Keeps-field, Keeps-int_field, Keeps-login, Keeps-create_board, Keeps-delete_post,
  Keeps-update_post, Keeps-comment, Keeps-list_boards, Keeps-list_posts, Keeps-read_post,
  Keeps-get_room, Keeps-list_chatroom,
)
