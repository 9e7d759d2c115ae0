-- ===== src/Database/Registrations.antt =====
-- Sequences of `addUser` of server/database.cpp, over restarts of the server.
use np_hw.Prelude.{
  ◌≡◌, refl, ap, ◌∙◌, inl, inr, Bool, true, false, Option, none, some, List, [], ◌∷◌, Str, str_eq,
  str_eq_iff, subst, ok, if◌then◌else◌, Option-cases,
}
use np_hw.Database.Users.{create_table, User, Sqlite, add_user, get_user}
use np_hw.Database.Accounts.{
  IsPlain, IsPlainUser, account_of, account_of-append, IsTable, add_user-new, add_user-taken,
  get_user-account, create_table-returns,
}

-- The first of some registrations that has a name.
abbrev pub first_named : Str → List User → Option User
first_named username [] = none
first_named username (u ∷ us) =
    if str_eq u.username username then some u else first_named username us

abbrev pub if_none : Option User → Option User → Option User
if_none none other = other
if_none (some u) other = some u

if_none-none : (a : Option User) → a ≡ if_none a none
if_none-none none = refl
if_none-none (some u) = refl

if_none_assoc :
    (a : Option User) (b : Bool) (u : User) (f : Option User)
    → if_none (if_none a (if b then some u else none)) f ≡ if_none a (if b then some u else f)
if_none_assoc none true u f = refl
if_none_assoc none false u f = refl
if_none_assoc (some v) b u f = refl

if_none-free :
    (a : Option User) (b : Bool) (u : User)
    → (b ≡ true → a ≡ none)
    → (if b then some u else a) ≡ if_none a (if b then some u else none)
if_none-free a true u h = rw (h refl) refl
if_none-free none false u h = refl
if_none-free (some v) false u h = refl

if_none-taken :
    (a : Option User) (b : Bool) (u old : User)
    → (b ≡ true → a ≡ some old)
    → a ≡ if_none a (if b then some u else none)
if_none-taken a true u old h = rw (h refl) refl
if_none-taken none false u old h = refl
if_none-taken (some v) false u old h = refl

-- `addUser` for each of some users, whatever it returns.
unfoldable pub register_all : (sql : Sqlite) → List User → sql.Handle → sql.Handle
register_all sql [] h = h
register_all sql (u ∷ us) h = register_all sql us (add_user sql u.username u.email u.password h).1

abbrev pub ArePlain : List User → Type 0
ArePlain [] = Unit
ArePlain (u ∷ us) = IsPlainUser u × ArePlain us

module _ (sql : Sqlite) (table : sql.Handle → List User) (law : IsTable sql table) where
  account_of-add_user :
      (u : User) (h : sql.Handle) (username : Str)
      → IsPlainUser u
      → account_of username (table (add_user sql u.username u.email u.password h).1)
        ≡ if_none
            (account_of username (table h))
            (if str_eq u.username username then some u else none)
  account_of-add_user u h username plain = elim (Option-cases (account_of u.username (table h))) [
    | inl free ↦
        let (t, added, rows) = add_user-new sql table law u h plain free in
        let appended = account_of-append username (table h) u in
        let none_there : str_eq u.username username ≡ true → account_of username (table h) ≡ none =
          λ e.
            subst (λ name. account_of name (table h) ≡ none) ((str_eq_iff u.username username).0 e)
              free in
        ap (λ r. account_of username (table r.1)) added
        ∙ ap (account_of username) rows
        ∙ appended
        ∙ if_none-free (account_of username (table h)) (str_eq u.username username) u none_there
    | inr (old, taken) ↦
        let (t, refused, rows) = add_user-taken sql table law u old h plain taken in
        let one_there : str_eq u.username username ≡ true
            → account_of username (table h) ≡ some old =
          λ e.
            subst (λ name. account_of name (table h) ≡ some old)
              ((str_eq_iff u.username username).0 e) taken in
        ap (λ r. account_of username (table r.1)) refused
        ∙ ap (account_of username) rows
        ∙ if_none-taken (account_of username (table h)) (str_eq u.username username) u old one_there
  ]

  account_of-register_all :
      (us : List User) (h : sql.Handle) (username : Str)
      → ArePlain us
      → account_of username (table (register_all sql us h))
        ≡ if_none (account_of username (table h)) (first_named username us)
  unfolding register_all
  account_of-register_all [] h username plain = if_none-none (account_of username (table h))
  account_of-register_all (u ∷ us) h username plain =
      let later =
        account_of-register_all us (add_user sql u.username u.email u.password h).1 username
          plain.1 in
      let now = account_of-add_user u h username plain.0 in
      let first = first_named username us in
      later
      ∙ ap (λ a. if_none a first) now
      ∙ if_none_assoc (account_of username (table h)) (str_eq u.username username) u first

  -- If SQLite keeps the table as it documents and no text holds a quote or a zero byte, then the
  -- database opens a file with a table without a throw, also after any registrations, and then
  -- `getUser` finds under a name the account that the table had before, or else the first of the
  -- registrations with that name: later ones change nothing.
  pub get_user-register_all :
      (us : List User) (h : sql.Handle) (username : Str)
      → ArePlain us
      → IsPlain username
      → (opened : sql.Handle) × (reopened : sql.Handle) × (create_table sql h ≡ (ok tt, opened))
        × (create_table sql (register_all sql us opened) ≡ (ok tt, reopened))
        × ((get_user sql username reopened).0
            ≡ ok (if_none (account_of username (table h)) (first_named username us)))
  get_user-register_all us h username plain name =
      let (opened, first, kept) = create_table-returns sql table law h in
      let (reopened, second, kept_then) =
        create_table-returns sql table law (register_all sql us opened) in
      let (t, found, same) = get_user-account sql table law username reopened name in
      (
        opened,
        reopened,
        first,
        second,
        ap (λ r. r.0) found
            ∙ ap (λ us. ok (account_of username us)) kept_then
            ∙ ap ok (account_of-register_all us opened username plain)
            ∙ ap (λ rows. ok (if_none (account_of username rows) (first_named username us))) kept,
      )
