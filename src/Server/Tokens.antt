-- ===== src/Server/Tokens.antt =====
-- The numbers that `on_C_login` gives to sessions.
use np_hw.Prelude.{
  ◌≤◌, ◌<◌, ◌≡◌, refl, sym, ◌∙◌, inl, inr, false, none, some, List, [], ◌∷◌, Str, ℤ, int_key,
  int_eq_iff, Map, lookup, insert, remove, lookup-remove, length, arith, Option-cases, ok, ◌>>=◌,
  case_option, leb, lit,
}
use np_hw.Prelude.Decimal.{to_string}
use np_hw.Server.State.{Server}
use np_hw.Server.Sessions.{draw_token, open_session, token_reply, welcome}
use np_hw.Server.Serving.Sessions.{draw_token-free}

-- The numbers are all different.
abbrev pub IsNew : ℤ → List ℤ → Type 0
IsNew d [] = Unit
IsNew d (e ∷ ds) = ¬ (d ≡ e) × IsNew d ds

abbrev pub AreDifferent : List ℤ → Type 0
AreDifferent [] = Unit
AreDifferent (d ∷ ds) = IsNew d ds × AreDifferent ds

remove-absent : (id : ℤ) (m : Map ℤ Str) → lookup id m ≡ none → length (remove id m) ≡ length m
unfolding lookup remove
remove-absent id [] e = refl
remove-absent id ((j, n) ∷ m) e = ground (arith, remove-absent id m)

length-remove-le : (id : ℤ) (m : Map ℤ Str) → length (remove id m) ≤ length m
unfolding remove
length-remove-le id [] = omega arith
length-remove-le id ((j, n) ∷ m) = ground (arith, length-remove-le id m)

length-remove-lt :
    (id : ℤ) (name : Str) (m : Map ℤ Str)
    → lookup id m ≡ some name
    → length (remove id m) < length m
unfolding lookup remove
length-remove-lt id name [] e = cc
length-remove-lt id name ((j, n) ∷ m) e =
    ground (arith, length-remove-lt id name m, length-remove-le id m)

draw_token-remove :
    (id : ℤ) (m : Map ℤ Str) (draws : List ℤ)
    → IsNew id draws
    → draw_token (remove id m) draws ≡ draw_token m draws
unfolding draw_token
draw_token-remove id m [] h = refl
draw_token-remove id m (d ∷ draws) h =
    ground (arith, lookup-remove id d m, int_eq_iff id d, draw_token-remove id m draws h.1)

draw_token-taken :
    (d : ℤ) (draws : List ℤ) (m : Map ℤ Str) (name : Str)
    → lookup d m ≡ some name
    → draw_token m (d ∷ draws) ≡ draw_token m draws
unfolding draw_token case_option
draw_token-taken d draws m name taken = rw (taken, draw_token) refl

-- More different numbers than sessions: the loop ends.
draw_token_ends :
    (draws : List ℤ) (m : Map ℤ Str)
    → AreDifferent draws
    → length m < length draws
    → (ran : ℤ) × (draw_token m draws ≡ some ran)
draw_token_ends [] m h few = absurd (omega arith)
draw_token_ends (d ∷ draws) m h few = elim (Option-cases (lookup d m)) [
  | inl free ↦ (d, unfold draw_token case_option in rw (free, draw_token) refl)
  | inr (name, taken) ↦
      let (ran, e) =
        draw_token_ends draws (remove d m) h.1 (omega (arith, length-remove-lt d name m taken)) in
      (ran, draw_token-taken d draws m name taken ∙ sym (draw_token-remove d m draws h.0) ∙ e)
]

-- While fewer than 1000 users are logged in, the loop that draws a token ends within any numbers
-- that the generator yields, all different and more than there are sessions; the token is the
-- first of them that is no other session's, the session is stored under it, nothing else changes,
-- and the reply carries it.
pub open_session-fresh :
    {H : Type 0} (s : Server H) (draws : List ℤ) (name : Str)
    → length s.logins < 1000
    → AreDifferent draws
    → length s.logins < length draws
    → (ran : ℤ) × (draw_token s.logins draws ≡ some ran)
      × (lookup ran s.logins ≡ none)
      × (open_session draws name s ≡ (
        ok (some (token_reply (lit "TYPE_LOGIN") (welcome name) (to_string ran))),
        record s { logins = insert ran name s.logins },
      ))
unfolding open_session ◌>>=◌ case_option
open_session-fresh s draws name few h many =
    let (ran, e) = draw_token_ends draws s.logins h many in
    let room : leb 1000 (length s.logins) ≡ false = ground arith in
    (ran, e, draw_token-free s.logins draws ran e, rw (room, e, case_option) refl)
