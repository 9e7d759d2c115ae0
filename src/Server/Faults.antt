-- ===== src/Server/Faults.antt =====
-- Where server/server.cpp falls short of what it does elsewhere.
use np_hw.Prelude.{
  ◌≡◌, refl, sym, inl, inr, true, none, some, [], Str, lit, str_key, ℤ, int_key, int_eq, int_eq_iff,
  lookup, remove, lookup-remove, ok, at, ◌>>=◌, case_option, Bool-cases,
}
use np_hw.Prelude.Decimal.{stoi}
use np_hw.Database.Types.{Chatroom}
use np_hw.Database.Rooms.{get_room}
use np_hw.Wire.Package.{Package}
use np_hw.Wire.Codec.{serialize, deserialize}
use np_hw.Wire.Codec.RoundTrip.{deserialize-serialize_no_fields}
use np_hw.Server.State.{Server, Fields}
use np_hw.Server.Sessions.{on_exit}
use np_hw.Server.Rooms.{on_close_chatroom}
use np_hw.Server.Invariant.{IsServing}

-- If a user's room is open and a request carries the token of the user's only session,
-- `on_C_exit` on it leaves a server that is not in order.
pub exit-not-IsServing :
    {H : Type 0} (s : Server H) (rec : Fields) (text name : Str) (id : ℤ) (r : Chatroom)
    → lookup (lit "transaction_id") rec ≡ some text
    → stoi text ≡ ok id
    → lookup id s.logins ≡ some name
    → ((k : ℤ) → lookup k s.logins ≡ some name → k ≡ id)
    → lookup name s.db.rooms ≡ some r
    → r.opened ≡ true
    → ¬ IsServing (on_exit rec s).1
unfolding on_exit ◌>>=◌
exit-not-IsServing s rec text name id r e k at_id only at_name open_now v =
    let left : IsServing (record s { logins = remove id s.logins }) = rw (e, at, k) at v in
    let (j, at_j) = left.hosted name r at_name open_now in
    elim (Bool-cases (int_eq id j)) [
      | inl same ↦ cc (rw (lookup-remove id j s.logins, same) at at_j)
      | inr differs ↦
          let kept : lookup j s.logins ≡ some name =
            rw (lookup-remove id j s.logins, differs) at at_j in
          cc (only j kept, (int_eq_iff id j).1 (sym (only j kept)))
    ]

-- A request to close a room that does not exist changes nothing, and is answered by a package
-- that, sent without payload, `Deserialize` reads past the end of the buffer of.
pub close_chatroom-missing :
    {H : Type 0} (s : Server H) (rec : Fields) (name : Str) (ud : Package)
    → lookup (lit "username") rec ≡ some name
    → lookup name s.db.rooms ≡ none
    → (out : Fields) × (on_close_chatroom rec s ≡ (ok out, s))
      × (deserialize (serialize (record { payload = []; fields = out })) ud ≡ none)
unfolding on_close_chatroom get_room ◌>>=◌ case_option
close_chatroom-missing s rec name ud e at_name =
    ([], rw (e, at, at_name, case_option) refl, deserialize-serialize_no_fields [] ud tt)
