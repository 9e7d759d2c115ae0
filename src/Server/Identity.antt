-- ===== src/Server/Identity.antt =====
-- What the server says of a session that it opened, to `on_C_whoami` of client/client_part.cpp.
use np_hw.Prelude.{
  ◌≡◌, refl, subst, inl, inr, some, List, [], ◌∷◌, Str, lit, ℤ, int_key, str_key, lookup, insert,
  lookup-insert, same_refl, length, ◌<◌, Map, ok, at, ◌>>=◌, gets, lift, case_option, str_eq,
  Option-cases,
}
use np_hw.Prelude.Decimal.{to_string, IsInt, stoi-to_string}
use np_hw.Server.State.{Server, Fields, assign, reply_to, field, int_field}
use np_hw.Server.Sessions.{draw_token, on_whoami, token_reply, welcome, open_session}
use np_hw.Server.Tokens.{AreDifferent, open_session-fresh}

-- The package by which a client that keeps `login_token` asks who it is.
abbrev pub whoami_request : ℤ → Fields
whoami_request login_token =
    assign "transaction_id" (to_string login_token) (reply_to (lit "TYPE_WHOAMI"))

request-token :
    (login_token : ℤ)
    → lookup (lit "transaction_id") (whoami_request login_token) ≡ some (to_string login_token)
unfolding lookup insert lit str_eq
request-token login_token = refl

reply-token :
    (type message token : Str)
    → lookup (lit "transaction_id") (token_reply type message token) ≡ some token
unfolding lookup insert lit str_eq
reply-token type message token = refl

abbrev pub AreInts : List ℤ → Type 0
AreInts [] = Unit
AreInts (d ∷ ds) = IsInt d × AreInts ds

draw_token-IsInt :
    (m : Map ℤ Str) (draws : List ℤ) (ran : ℤ)
    → AreInts draws
    → draw_token m draws ≡ some ran
    → IsInt ran
unfolding draw_token
draw_token-IsInt m [] ran h e = absurd (cc)
draw_token-IsInt m (d ∷ draws) ran h e = elim (Option-cases (lookup d m)) [
  | inl free ↦
      let same : some d ≡ some ran = rw (free, draw_token) at e in
      let named : d ≡ ran = cc in subst IsInt named h.0
  | inr (name, taken) ↦ draw_token-IsInt m draws ran h.1 (rw (taken, draw_token) at e)
]

module _ {H : Type 0} where
  int_field-number :
      (rec : Fields) (id : ℤ) (s : Server H)
      → IsInt id
      → lookup (lit "transaction_id") rec ≡ some (to_string id)
      → int_field "transaction_id" rec s ≡ (ok id, s)
  unfolding int_field field ◌>>=◌ lift
  int_field-number rec id s h e = rw (e, at, stoi-to_string id h) refl

  whoami-known :
      (s : Server H) (id : ℤ) (name : Str)
      → IsInt id
      → lookup id s.logins ≡ some name
      → on_whoami (whoami_request id) s ≡ (ok (assign "message" name (whoami_request id)), s)
  unfolding on_whoami ◌>>=◌ gets field case_option
  whoami-known s id name h e = rw (request-token id, at, stoi-to_string id h, e, case_option) refl

  -- While fewer than 1000 users are logged in, and if the generator yields `int`s that are all
  -- different and more than there are sessions, a login opens a session, and the client reads a
  -- number off the reply. Asking with that number who it is, it is told the name that it logged
  -- in with, and the server stays as it is.
  pub whoami-open_session :
      (s : Server H) (draws : List ℤ) (name : Str)
      → length s.logins < 1000
      → AreDifferent draws
      → length s.logins < length draws
      → AreInts draws
      → (out : Fields) × (login_token : ℤ) × (t : Server H) × (open_session draws name s
          ≡ (ok (some out), t))
        × (int_field "transaction_id" out t ≡ (ok login_token, t))
        × (on_whoami (whoami_request login_token) t
            ≡ (ok (assign "message" name (whoami_request login_token)), t))
  whoami-open_session s draws name few h many ints =
      let (ran, drawn, free, opened) = open_session-fresh s draws name few h many in
      let int : IsInt ran = draw_token-IsInt s.logins draws ran ints drawn in
      let t : Server H = record s { logins = insert ran name s.logins } in
      (
        token_reply (lit "TYPE_LOGIN") (welcome name) (to_string ran),
        ran,
        t,
        opened,
        int_field-number _ ran t int (reply-token _ _ _),
        whoami-known t ran name int (rw (lookup-insert, same_refl ran) refl),
      )
