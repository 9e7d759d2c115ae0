-- ===== src/Server/Accounts.antt =====
-- Users who register and log in (`on_C_register`, `on_C_login` of server/server.cpp), as the client
-- asks for it (`on_C_register`, `on_C_login` of client/client_part.cpp).
use mathlib.Core.List.{append_assoc}
use np_hw.Prelude.{
  ◌≡◌, refl, ap, ◌∙◌, Bool, true, false, Option, none, some, List, [], ◌∷◌, ◌++◌, arith, Str, lit,
  str_eq, str_eq_iff, str_key, ℤ, minus_one, int_eq, lookup, insert, ok, ◌>>=◌, at, lift, pure,
  gets, case_option, if◌then◌else◌,
}
use np_hw.Prelude.Decimal.{to_string, stoi, stoi-to_string}
use np_hw.Prelude.Search.{splitstr, space, AreWords, splitstr-joined}
use np_hw.Database.Users.{Sqlite, User, add_user, get_user}
use np_hw.Database.Accounts.{
  IsTable, IsPlainUser, account_of, add_user-new, add_user-taken, get_user-account,
  account_of-append,
}
use np_hw.Server.State.{Server, message_reply, field, int_field, sql_call}
use np_hw.Server.Sessions.{on_register, on_login, open_session, failed_login}
use np_hw.Client.Requests.{ask_register, ask_login}

splitstr-two :
    (v w : Str) → AreWords (v ∷ (w ∷ [])) → splitstr (v ++ lit " " ++ w) space ≡ v ∷ (w ∷ [])
unfolding lit
splitstr-two v w h =
    ap (λ l. splitstr l space) (append_assoc v space w) ∙ splitstr-joined v (w ∷ []) h

splitstr-three :
    (v w x : Str)
    → AreWords (v ∷ (w ∷ (x ∷ [])))
    → splitstr (v ++ lit " " ++ w ++ lit " " ++ x) space ≡ v ∷ (w ∷ (x ∷ []))
unfolding lit
splitstr-three v w x h =
    ap (λ l. splitstr l space)
      (append_assoc (v ++ space ++ w) space x
        ∙ append_assoc (v ++ space) w (space ++ x)
        ∙ append_assoc v space (w ++ (space ++ x)))
    ∙ splitstr-joined v (w ∷ (x ∷ [])) h

own_token : stoi (to_string minus_one) ≡ ok minus_one
own_token = stoi-to_string minus_one (omega arith)

module _ (sql : Sqlite) (s : Server sql.Handle) where
  on_register-words :
      (u : User) (b : Bool) (t : sql.Handle)
      → AreWords (u.username ∷ (u.email ∷ (u.password ∷ [])))
      → add_user sql u.username u.email u.password s.users ≡ (ok b, t)
      → on_register sql (ask_register u.username u.email u.password).request s ≡ (
        ok (
            message_reply
              (lit "TYPE_REGISTER")
              (if b then lit "Register successfully." else lit "Username is already used.")),
        record s { users = t },
      )
  unfolding on_register ◌>>=◌ pure field sql_call ask_register lookup insert str_eq lit
  on_register-words u b t words added =
      rw (splitstr-three u.username u.email u.password words, at, added) refl

  on_login-words :
      (draws : List ℤ) (name password : Str) (found : Option User) (t : sql.Handle)
      → AreWords (name ∷ (password ∷ []))
      → get_user sql name s.users ≡ (ok found, t)
      → on_login sql draws (ask_login minus_one name password).request s
        ≡ case_option found
            (pure (some failed_login))
            (λ u.
              if str_eq u.password password
              then open_session draws u.username
              else pure (some failed_login))
            (record s { users = t })
  unfolding on_login ◌>>=◌ case_option int_eq pure lift gets field int_field sql_call ask_login
      lookup insert str_eq lit
  on_login-words draws name password none t words got =
      rw (splitstr-two name password words, at, got, own_token) refl
  on_login-words draws name password (some u) t words got =
      rw (splitstr-two name password words, at, got, own_token) refl

module _ (sql : Sqlite) (table : sql.Handle → List User) (law : IsTable sql table) where
  -- If SQLite keeps the table as it documents, a name that is not taken registers; whoever
  -- registers the same name then is told that it is used; and a login under the name goes on to
  -- open a session exactly if its password is that of the first registration, and fails else.
  -- Names, addresses and passwords are not empty and hold no space, and those that register
  -- hold no quote and no zero byte. Registrations and the search for the user leave sessions,
  -- boards, posts and rooms as they were.
  pub login-register :
      (s : Server sql.Handle) (u again : User) (guess : Str) (draws : List ℤ)
      → AreWords (u.username ∷ (u.email ∷ (u.password ∷ [])))
      → AreWords (again.username ∷ (again.email ∷ (again.password ∷ [])))
      → AreWords (u.username ∷ (guess ∷ []))
      → IsPlainUser u
      → IsPlainUser again
      → again.username ≡ u.username
      → account_of u.username (table s.users) ≡ none
      → (t : Server sql.Handle) × (w : Server sql.Handle) × (x : Server sql.Handle) × (on_register
            sql
            (ask_register u.username u.email u.password).request
            s
          ≡ (ok (message_reply (lit "TYPE_REGISTER") (lit "Register successfully.")), t))
        × (on_register sql (ask_register again.username again.email again.password).request t
            ≡ (ok (message_reply (lit "TYPE_REGISTER") (lit "Username is already used.")), w))
        × (on_login sql draws (ask_login minus_one u.username guess).request w
            ≡ (if str_eq u.password guess
                  then open_session draws u.username
                  else pure (some failed_login))
                x)
        × (x.logins ≡ s.logins)
        × (x.db ≡ s.db)
  unfolding case_option
  login-register s u again guess draws words words_again guessed plain plain_again same free =
      let (h, added, rows) = add_user-new sql table law u s.users plain free in
      let t : Server sql.Handle = record s { users = h } in
      let itself : str_eq u.username u.username ≡ true =
        (str_eq_iff u.username u.username).1 refl in
      let there : account_of u.username (table h) ≡ some u =
        ap (account_of u.username) rows
        ∙ account_of-append u.username (table s.users) u
        ∙ ap (λ b. if b then some u else account_of u.username (table s.users)) itself in
      let taken : account_of again.username (table h) ≡ some u =
        ap (λ name. account_of name (table h)) same ∙ there in
      let (k, refused, rows_again) = add_user-taken sql table law again u h plain_again taken in
      let w : Server sql.Handle = record s { users = k } in
      let (l, found, rows_then) = get_user-account sql table law u.username k plain.0 in
      let still : account_of u.username (table k) ≡ some u =
        ap (account_of u.username) rows_again ∙ there in
      let got : get_user sql u.username k ≡ (ok (some u), l) = found ∙ ap (λ a. (ok a, l)) still in
      (
        t,
        w,
        record s { users = l },
        on_register-words sql s u true h words added,
        on_register-words sql t again false k words_again refused,
        on_login-words sql w draws u.username guess (some u) l guessed got,
        refl,
        refl,
      )
