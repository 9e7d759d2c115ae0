-- ===== src/Database/Accounts.antt =====
-- `addUser` and `getUser` of server/database.cpp against a book of accounts, on what SQLite
-- documents of the three statements that they run.
use np_hw.Prelude.{
  ◌≡◌, refl, ap, ◌∙◌, ◌⊎◌, inl, inr, Bool, true, false, Option, none, some, Result, throws,
  invalid_argument, runtime_error, List, [], ◌∷◌, ◌++◌, arith, Str, lit, str_eq, ok, if◌then◌else◌,
  keep, leb, length, Bool-cases,
}
use np_hw.Prelude.Search.{find, is_some}
use np_hw.Database.Users.{
  create_sql, create_table, User, Sqlite, insert_sql, select_sql, select_all_sql, last_row,
  message_of, add_user, get_user,
}

-- A text that stands between quotes as it is.
abbrev pub IsPlain : Str → Type 0
IsPlain [] = Unit
IsPlain (c ∷ s) = ¬ (c ≡ 39) × ¬ (c ≡ 0) × IsPlain s

abbrev pub IsPlainUser : User → Type 0
IsPlainUser u = IsPlain u.username × IsPlain u.email × IsPlain u.password

unfoldable pub named : Str → List User → List User
named username us = keep (λ u. str_eq u.username username) us

-- The account of a name in a table.
unfoldable pub account_of : Str → List User → Option User
unfolding last_row named
account_of username us = last_row (named username us)

abbrev pub unique_failed : Str
unique_failed = lit "UNIQUE constraint failed: bbs_server.username"

abbrev pub table_exists : Str
table_exists = lit "table 'bbs_server' already exists"

abbrev pub user : Str → Str → Str → User
user username email password = record { username = username; email = email; password = password }

-- SQLite keeps a table with a column of unique names. `table` tells its rows in the order of their
-- insertion.
pub record IsTable (sql : Sqlite) (table : sql.Handle → List User) : Type 0 where
  pub inserts :
      (u : User) (h : sql.Handle)
      → IsPlainUser u
      → account_of u.username (table h) ≡ none
      → ((sql.exec (insert_sql u.username u.email u.password) h).errmsg ≡ none)
        × (table (sql.exec (insert_sql u.username u.email u.password) h).handle ≡ table h ++ u ∷ [])
  pub refuses :
      (u old : User) (h : sql.Handle)
      → IsPlainUser u
      → account_of u.username (table h) ≡ some old
      → ((sql.exec (insert_sql u.username u.email u.password) h).errmsg ≡ some unique_failed)
        × (table (sql.exec (insert_sql u.username u.email u.password) h).handle ≡ table h)
  pub selects :
      (username : Str) (h : sql.Handle)
      → IsPlain username
      → ((sql.exec (select_sql username) h).errmsg ≡ none)
        × ((sql.exec (select_sql username) h).rows ≡ named username (table h))
        × (table (sql.exec (select_sql username) h).handle ≡ table h)
  -- The statement fails if the table is there already.
  pub creates :
      (h : sql.Handle)
      → (((sql.exec create_sql h).errmsg ≡ none)
          ⊎ ((sql.exec create_sql h).errmsg ≡ some table_exists))
        × (table (sql.exec create_sql h).handle ≡ table h)
  pub lists :
      (h : sql.Handle)
      → ((sql.exec select_all_sql h).errmsg ≡ none)
        × ((sql.exec select_all_sql h).rows ≡ table h)
        × (table (sql.exec select_all_sql h).handle ≡ table h)

last_row-append : (us : List User) (u : User) → last_row (us ++ u ∷ []) ≡ some u
unfolding last_row
last_row-append [] u = refl
last_row-append (v ∷ []) u = refl
last_row-append (v ∷ (w ∷ us)) u = last_row-append (w ∷ us) u

named-append :
    (username : Str) (us : List User) (u : User)
    → named username (us ++ u ∷ [])
      ≡ (if str_eq u.username username then named username us ++ u ∷ [] else named username us)
unfolding named
named-append username [] u = refl
named-append username (v ∷ us) u = ground (arith, named-append username us u)

-- One more row at the end of the table.
pub account_of-append :
    (username : Str) (us : List User) (u : User)
    → account_of username (us ++ u ∷ [])
      ≡ (if str_eq u.username username then some u else account_of username us)
unfolding account_of
account_of-append username us u = elim (Bool-cases (str_eq u.username username)) [
  | inl e ↦ rw (named-append username us u, e) (last_row-append (named username us) u)
  | inr e ↦ rw (named-append username us u, e) refl
]

abbrev created_with : {H : Type 0} → Option Str → H → Result (Unit {0}) × H
created_with err h =
    if is_some (find (lit "syntax error") (message_of err))
    then (throws invalid_argument, h)
    else (ok tt, h)

-- The ends of `addUser` and `getUser`, by the error message.
abbrev inserted_with : {H : Type 0} → Option Str → H → Result Bool × H
inserted_with err h =
    if is_some (find (lit "UNIQUE constraint") (message_of err))
    then (ok false, h)
    else (if leb 1 (length (message_of err)) then (throws invalid_argument, h) else (ok true, h))

abbrev selected_with : {H A : Type 0} → Option Str → (List User → A) → List User → H → Result A × H
selected_with err f rows h =
    if leb 1 (length (message_of err)) then (throws runtime_error, h) else (ok (f rows), h)

module _ (sql : Sqlite) (table : sql.Handle → List User) (law : IsTable sql table) where
  open law use {inserts, refuses, selects, creates, lists}

  pub add_user-new :
      (u : User) (h : sql.Handle)
      → IsPlainUser u
      → account_of u.username (table h) ≡ none
      → (t : sql.Handle) × (add_user sql u.username u.email u.password h ≡ (ok true, t))
        × (table t ≡ table h ++ u ∷ [])
  unfolding add_user find is_some lit
  add_user-new u h plain free =
      let (fine, rows) = inserts u h plain free in
      let t = (sql.exec (insert_sql u.username u.email u.password) h).handle in
      (t, ap (λ err. inserted_with err t) fine, rows)

  pub add_user-taken :
      (u old : User) (h : sql.Handle)
      → IsPlainUser u
      → account_of u.username (table h) ≡ some old
      → (t : sql.Handle) × (add_user sql u.username u.email u.password h ≡ (ok false, t))
        × (table t ≡ table h)
  unfolding add_user find is_some lit
  add_user-taken u old h plain taken =
      let (failed, rows) = refuses u old h plain taken in
      let t = (sql.exec (insert_sql u.username u.email u.password) h).handle in
      (t, ap (λ err. inserted_with err t) failed, rows)

  pub create_table-returns :
      (h : sql.Handle) → (t : sql.Handle) × (create_table sql h ≡ (ok tt, t)) × (table t ≡ table h)
  unfolding create_table find is_some lit
  create_table-returns h =
      let (how, same) = creates h in
      let t = (sql.exec create_sql h).handle in
      (
        t,
        elim how [
          | inl fine ↦ ap (λ err. created_with err t) fine
          | inr failed ↦ ap (λ err. created_with err t) failed
        ],
        same,
      )

  pub get_user-account :
      (username : Str) (h : sql.Handle)
      → IsPlain username
      → (t : sql.Handle) × (get_user sql username h ≡ (ok (account_of username (table h)), t))
        × (table t ≡ table h)
  unfolding get_user account_of
  get_user-account username h plain =
      let (fine, rows, same) = selects username h plain in
      let answer = sql.exec (select_sql username) h in
      (
        answer.handle,
        ap (λ err. selected_with err last_row answer.rows answer.handle) fine
            ∙ ap (λ us. (ok (last_row us), answer.handle)) rows,
        same,
      )
