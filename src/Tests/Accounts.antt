-- ===== src/Tests/Accounts.antt =====
-- Accounts at concrete inputs, with a table that reads the statements of `addUser` and `getUser`.
use np_hw.Prelude.{
  ℕ, ◌≡◌, refl, ap, ◌∙◌, inr, Bool, true, false, not, ◌&&◌, Option, none, some, List, [], ◌∷◌, ◌++◌,
  arith, Str, lit, pos, nat_eq, str_eq, if◌then◌else◌, ok, minus_one, pure,
}
use np_hw.Prelude.Search.{AreWords, IsWord}
use np_hw.Database.Types.{fresh}
use np_hw.Database.Users.{
  User, Answer, Sqlite, insert_sql, select_sql, create_table, get_user, last_row,
}
use np_hw.Database.Accounts.{
  IsPlain, IsPlainUser, named, account_of, unique_failed, table_exists, user, IsTable,
}
use np_hw.Database.Registrations.{register_all, get_user-register_all}
use np_hw.Server.State.{Server, message_reply}
use np_hw.Server.Sessions.{on_register, on_login, open_session, failed_login}
use np_hw.Server.Accounts.{login-register}
use np_hw.Client.Requests.{ask_register, ask_login}

push : ℕ → List Str → List Str
push c [] = (c ∷ []) ∷ []
push c (p ∷ ps) = (c ∷ p) ∷ ps

-- What stands before, between and behind the quotes of a statement.
pieces : Str → List Str
unfolding push
pieces [] = [] ∷ []
pieces (c ∷ s) = let rest = pieces s in if nat_eq c 39 then [] ∷ rest else push c rest

pieces-plain : (w rest : Str) → IsPlain w → pieces (w ++ 39 ∷ rest) ≡ w ∷ pieces rest
unfolding pieces
pieces-plain [] rest h = refl
pieces-plain (c ∷ w) rest h =
    let other : nat_eq c 39 ≡ false = ground (arith, h.0) in
    rw (other, pieces-plain w rest h.2) refl

-- The row that a statement inserts, and the table before.
inserted_row : Option User → User → List User → Answer (List User)
inserted_row none u users = record { rows = []; errmsg = none; handle = users ++ u ∷ [] }
inserted_row (some old) u users = record { rows = []; errmsg = some unique_failed; handle = users }

answer_to : List Str → List User → Answer (List User)
unfolding inserted_row
answer_to (a ∷ (b ∷ (c ∷ (u ∷ (d ∷ (e ∷ (f ∷ (p ∷ (g ∷ []))))))))) users =
    inserted_row (account_of u users) (user u e p) users
answer_to (a ∷ (b ∷ (c ∷ (u ∷ (d ∷ []))))) users = record {
  rows = named u users;
  errmsg = none;
  handle = users;
}
answer_to (a ∷ (b ∷ (c ∷ []))) users =
    if str_eq c (lit ";")
    then record { rows = users; errmsg = none; handle = users }
    else record { rows = []; errmsg = some table_exists; handle = users }
answer_to _ users = record { rows = []; errmsg = some (lit "near: syntax error"); handle = users }

abbrev quoted : Sqlite
quoted = record { Handle = List User; exec = λ query users. answer_to (pieces query) users }

abbrev whole_table : List User → List User
whole_table users = users

exec-insert :
    (u : User) (users : List User)
    → IsPlainUser u
    → quoted.exec (insert_sql u.username u.email u.password) users
      ≡ inserted_row (account_of u.username users) u users
unfolding lit pieces answer_to
exec-insert u users h =
    rw (pieces-plain u.username _ h.0, pieces-plain u.email _ h.1, pieces-plain u.password _ h.2)
      refl

exec-select :
    (username : Str) (users : List User)
    → IsPlain username
    → quoted.exec (select_sql username) users
      ≡ record { rows = named username users; errmsg = none; handle = users }
unfolding lit pieces answer_to
exec-select username users h = rw (pieces-plain username _ h) refl

exec-found :
    (u : User) (users : List User) (found : Option User)
    → IsPlainUser u
    → account_of u.username users ≡ found
    → quoted.exec (insert_sql u.username u.email u.password) users ≡ inserted_row found u users
exec-found u users found h e = exec-insert u users h ∙ ap (λ a. inserted_row a u users) e

quoted-IsTable : IsTable quoted whole_table
unfolding lit pieces answer_to str_eq inserted_row
quoted-IsTable = record {
  inserts = λ u users h free.
      let e = exec-found u users none h free in (ap (λ a. a.errmsg) e, ap (λ a. a.handle) e);
  refuses = λ u old users h taken.
      let e = exec-found u users (some old) h taken in (ap (λ a. a.errmsg) e, ap (λ a. a.handle) e);
  selects = λ username users h.
      let e = exec-select username users h in
      (ap (λ a. a.errmsg) e, ap (λ a. a.rows) e, ap (λ a. a.handle) e);
  creates = λ users. (inr refl, refl);
  lists = λ users. (refl, refl, refl);
}

abbrev ann : User
ann = user (lit "ann") (lit "a@b") (lit "pw")

-- Somebody else who asks for the same name.
abbrev other_ann : User
other_ann = user (lit "ann") (lit "x@y") (lit "qq")

-- Tests for texts that the theorems speak of.
all_plain : Str → Bool
all_plain [] = true
all_plain (c ∷ s) = not (nat_eq c 39) && (not (nat_eq c 0) && all_plain s)

all_plain-IsPlain : (s : Str) → all_plain s ≡ true → IsPlain s
unfolding all_plain
all_plain-IsPlain [] h = tt
all_plain-IsPlain (c ∷ s) h =
    (λ e. ground (arith, h, e), λ e. ground (arith, h, e), all_plain-IsPlain s (ground (arith, h)))

has_no_space : Str → Bool
has_no_space [] = true
has_no_space (c ∷ s) = not (nat_eq c 32) && has_no_space s

has_no_space-IsWord : (s : Str) → has_no_space s ≡ true → IsWord s
unfolding has_no_space
has_no_space-IsWord [] h = tt
has_no_space-IsWord (c ∷ s) h =
    (λ e. ground (arith, h, e), has_no_space-IsWord s (ground (arith, h)))

plain_user :
    (u : User)
    → all_plain u.username ≡ true
    → all_plain u.email ≡ true
    → all_plain u.password ≡ true
    → IsPlainUser u
plain_user u g h k =
    (all_plain-IsPlain u.username g, all_plain-IsPlain u.email h, all_plain-IsPlain u.password k)

ann-IsPlain : IsPlainUser ann × IsPlainUser other_ann
unfolding lit all_plain
ann-IsPlain = (plain_user ann refl refl refl, plain_user other_ann refl refl refl)

ann-AreWords :
    AreWords (lit "ann" ∷ (lit "a@b" ∷ (lit "pw" ∷ [])))
    × AreWords (lit "ann" ∷ (lit "x@y" ∷ (lit "qq" ∷ [])))
    × AreWords (lit "ann" ∷ (lit "qq" ∷ []))
unfolding lit has_no_space
ann-AreWords =
    let name = has_no_space-IsWord (lit "ann") refl in
    let guess = has_no_space-IsWord (lit "qq") refl in
    let mail = has_no_space-IsWord (lit "a@b") refl in
    let password = has_no_space-IsWord (lit "pw") refl in
    let other_mail = has_no_space-IsWord (lit "x@y") refl in
    (
      (name, (λ e. cc), (mail, (λ e. cc), (password, (λ e. cc), tt))),
      (name, (λ e. cc), (other_mail, (λ e. cc), (guess, (λ e. cc), tt))),
      (name, (λ e. cc), (guess, (λ e. cc), tt)),
    )

get_user-register_all_example :
    (opened : List User) × (reopened : List User) × (create_table quoted [] ≡ (ok tt, opened))
    × (create_table quoted (register_all quoted (ann ∷ (other_ann ∷ [])) opened)
        ≡ (ok tt, reopened))
    × ((get_user quoted (lit "ann") reopened).0 ≡ ok (some ann))
unfolding lit str_eq account_of last_row
get_user-register_all_example =
    get_user-register_all quoted whole_table quoted-IsTable (ann ∷ (other_ann ∷ [])) [] (lit "ann")
      (ann-IsPlain.0, (ann-IsPlain.1, tt)) ann-IsPlain.0.0

abbrev empty_server : Server (List User)
empty_server = record { users = []; db = fresh; logins = [] }

login-register_example :
    (t : Server (List User)) × (w : Server (List User)) × (x : Server (List User)) × (on_register
        quoted
        (ask_register (lit "ann") (lit "a@b") (lit "pw")).request
        empty_server
      ≡ (ok (message_reply (lit "TYPE_REGISTER") (lit "Register successfully.")), t))
    × (on_register quoted (ask_register (lit "ann") (lit "x@y") (lit "qq")).request t
        ≡ (ok (message_reply (lit "TYPE_REGISTER") (lit "Username is already used.")), w))
    × (on_login quoted (pos 7 ∷ []) (ask_login minus_one (lit "ann") (lit "qq")).request w
        ≡ (if str_eq (lit "pw") (lit "qq")
              then open_session (pos 7 ∷ []) (lit "ann")
              else pure (some failed_login))
            x)
    × (x.logins ≡ [])
    × (x.db ≡ fresh)
login-register_example =
    login-register quoted whole_table quoted-IsTable empty_server ann other_ann (lit "qq")
      (pos 7 ∷ []) ann-AreWords.0 ann-AreWords.1 ann-AreWords.2 ann-IsPlain.0 ann-IsPlain.1 refl
      (unfold account_of in refl)
