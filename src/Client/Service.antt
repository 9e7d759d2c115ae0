-- ===== src/Client/Service.antt =====
-- The board operations of client/client_part.cpp, carried as bytes, against the handlers of
-- server/server.cpp and the methods of server/database.cpp.
use np_hw.Prelude.{
  ◌+◌, ◌^◌, ◌<◌, ap, ◌∙◌, ◌≡◌, refl, false, Option, some, [], Str, str_key, int_key, int_eq,
  minus_one, lookup, Result, ok,
}
use np_hw.Prelude.Decimal.{IsInt}
use np_hw.Database.Types.{Database}
use np_hw.Database.Calls.{Reply, text, perform}
use np_hw.Database.Users.{Sqlite}
use np_hw.Database.Invariant.{IsValid}
use np_hw.Database.Safety.{perform-Returns}
use np_hw.Server.State.{Server, Fields, message_reply}
use np_hw.Server.Dispatch.{Environment}
use np_hw.Client.Requests.{Client}
use np_hw.Client.Tasks.{Task, ask, call_for, HasIntSerial, converse}
use np_hw.Client.Handling.{type_of, ask-handled, ask-text, ask-answer, ask-over_tcp}

-- The text of a reply of the database.
abbrev pub words_of : Result Reply → Str
words_of (ok (text words)) = words
words_of _ = []

-- What the server answers to the task of a user, with the text that the method of the database
-- returns.
abbrev pub reply_of : Str → Environment → Task → Database → Fields
reply_of user env task db =
    message_reply (type_of task) (words_of (perform (call_for user env.now task) db).0)

-- A client's call of `converse` for a task.
abbrev pub asks_for :
    (sql : Sqlite)
    → Environment
    → Task
    → Client
    → Server sql.Handle
    → Option ((Result Str × Client) × Server sql.Handle)
asks_for sql env task client s = converse sql env (ask client.login_token task) client s

module _ (sql : Sqlite) (client : Client) (user : Str) (int : IsInt client.login_token)
    (some_session : int_eq client.login_token minus_one ≡ false) where
  asks_for-handled :
      (env : Environment) (task : Task) (words : Str) (db : Database) (s : Server sql.Handle)
      → lookup client.login_token s.logins ≡ some user
      → HasIntSerial task
      → perform (call_for user env.now task) s.db ≡ (ok (text words), db)
      → asks_for sql env task client s ≡ some ((ok words, client), record s { db = db })
  unfolding converse
  asks_for-handled env task words db s known small told =
      rw
        (
          asks_for,
          converse,
          ask-over_tcp task client.login_token,
          ask-handled sql env s client.login_token user int some_session known task words db small
              told,
          ask-answer task client.login_token words client,
        )
        refl

  -- A client holds the token, an `int` other than -1, of a session of a user on a server whose
  -- database is valid, with an `int` left for a next serial. Then each of its operations on
  -- boards and posts, with a serial number that is an `int`, is answered: the client receives
  -- the text that the method of the database returns for that user, and the server's database
  -- is the one that the method leaves, while the client and the rest of the server stay as they
  -- are.
  pub converse-perform :
      (env : Environment) (task : Task) (s : Server sql.Handle)
      → IsValid s.db
      → s.db.post_serial + 1 < 2 ^ 31
      → lookup client.login_token s.logins ≡ some user
      → HasIntSerial task
      → (words : Str) × (db : Database) × (perform (call_for user env.now task) s.db
          ≡ (ok (text words), db))
        × IsValid db
        × (asks_for sql env task client s ≡ some ((ok words, client), record s { db = db }))
  unfolding converse
  converse-perform env task s valid room known small =
      let after = perform-Returns (call_for user env.now task) s.db valid room in
      let db = (perform (call_for user env.now task) s.db).1 in
      let returned : perform (call_for user env.now task) s.db ≡ (ok after.value, db) =
        ap (λ v. (v, db)) after.returned in
      let (words, same) =
        ask-text sql env s client.login_token user int some_session known task s.db db after.value
          returned in
      let told : perform (call_for user env.now task) s.db ≡ (ok (text words), db) =
        returned ∙ ap (λ v. (ok v, db)) same in
      (words, db, told, after.valid, asks_for-handled env task words db s known small told)
