-- ===== src/Server/Invariant.antt =====
-- What holds of the server between two packages.
use np_hw.Prelude.{
  ℕ, ◌≤◌, ◌≡◌, refl, ap, sym, ◌∙◌, inl, inr, true, false, Option, none, some, [], Str, str_key, ℤ,
  int_key, int_eq, int_eq_iff, lookup, insert, remove, lookup-insert, lookup-insert_inv,
  lookup-remove, Exec, at, ◌>>=◌, Keeps, arith, Option-cases, Bool-cases,
}
use np_hw.Database.Types.{Database, Chatroom, fresh}
use np_hw.Database.Rooms.{get_room, set_room, create_chatroom}
use np_hw.Database.Invariant.{IsValid, fresh-IsValid}
use np_hw.Database.Safety.{with_rooms}
use np_hw.Prelude.Leads.{Leads}
use np_hw.Server.State.{Server, login_of, db_call}

-- The database is valid, a room bears the name it is stored under, and the owner of an open room is
-- logged in.
pub record IsServing {H : Type 0} (s : Server H) : Type 0 where
  pub database : IsValid s.db
  pub named : (name : Str) (r : Chatroom) → lookup name s.db.rooms ≡ some r → r.roomname ≡ name
  pub hosted :
      (name : Str) (r : Chatroom)
      → lookup name s.db.rooms ≡ some r
      → r.opened ≡ true
      → (id : ℤ) × (lookup id s.logins ≡ some name)

-- In order, and with the serial of the next post at `k` at most.
pub record IsServingWithin {H : Type 0} (k : ℕ) (s : Server H) : Type 0 where
  pub serving : IsServing s
  pub counted : s.db.post_serial ≤ k

-- The server as it starts.
started-IsServing :
    {H : Type 0} (users : H) → IsServing (record { users = users; db = fresh; logins = [] })
unfolding lookup
started-IsServing users = record {
  database = fresh-IsValid;
  named = λ name r e. cc;
  hosted = λ name r e o. cc;
}

-- A method that keeps the database valid and touches no room and no serial.
module _ {H A : Type 0} {k : ℕ} where
  pub Keeps-db_call :
      (m : Exec Database A)
      → ((db : Database) → IsValid db → IsValid (m db).1)
      → ((db : Database) → (m db).1.rooms ≡ db.rooms)
      → ((db : Database) → (m db).1.post_serial ≡ db.post_serial)
      → Keeps (IsServingWithin {H = H} k) (db_call m)
  unfolding db_call
  Keeps-db_call m valid same uncounted = record {
    keeps = λ s h. record {
      serving = record {
        database = valid s.db h.serving.database;
        named = λ name r e. h.serving.named name r (rw (same s.db) at e);
        hosted = λ name r e. h.serving.hosted name r (rw (same s.db) at e);
      };
      counted = rw (uncounted s.db) h.counted;
    };
  }

module _ {H B : Type 0} {P : Server H → Type 0} where
  -- What follows `logins.at(id)` may use that the name is the one logged in under `id`.
  pub Keeps-login_of :
      (id : ℤ) (f : Str → Exec (Server H) B)
      → ((name : Str) → Leads (λ s. P s × (lookup id s.logins ≡ some name)) P (f name))
      → Keeps P (login_of id >>= f)
  unfolding login_of ◌>>=◌
  Keeps-login_of id f kf = record {
    keeps = λ s h. elim (Option-cases (lookup id s.logins)) [
      | inl e ↦ rw (e, at) h
      | inr (name, e) ↦ rw (e, at) ((kf name).leads s (h, e))
    ];
  }

module _ {H B : Type 0} {P Q : Server H → Type 0} where
  -- What follows `getRoom` may use what it found.
  pub Leads-get_room :
      (name : Str) (f : Option Chatroom → Exec (Server H) B)
      → ((o : Option Chatroom) → Leads (λ s. Q s × (lookup name s.db.rooms ≡ o)) P (f o))
      → Leads Q P (db_call (get_room name) >>= f)
  unfolding db_call get_room ◌>>=◌
  Leads-get_room name f kf = record {
    leads = λ s h. (kf (lookup name s.db.rooms)).leads s (h, refl);
  }

module _ {H : Type 0} where
  -- Storing a room under its name: if it is open, its owner must be logged in.
  store_room :
      (s : Server H) (name : Str) (room : Chatroom)
      → IsServing s
      → room.roomname ≡ name
      → (room.opened ≡ true → (id : ℤ) × (lookup id s.logins ≡ some name))
      → IsServing (record s { db = record s.db { rooms = insert name room s.db.rooms } })
  store_room s name room h same host = record {
    database = with_rooms h.database _;
    named = λ other r e. elim (lookup-insert_inv name other room r s.db.rooms e) [
      | inl (k, w) ↦ cc
      | inr old ↦ h.named other r old
    ];
    hosted = λ other r e open_now. elim (lookup-insert_inv name other room r s.db.rooms e) [
      | inl (k, w) ↦ let (id, at_id) = host (rw w open_now) in (id, rw k at at_id)
      | inr old ↦ h.hosted other r old open_now
    ];
  }

  pub Leads-create_chatroom :
      {k : ℕ} (id port : ℤ) (name : Str)
      → Leads
          (λ (s : Server H). IsServingWithin k s × (lookup id s.logins ≡ some name))
          (IsServingWithin k)
          (db_call (create_chatroom port name))
  unfolding db_call create_chatroom
  Leads-create_chatroom id port name = record {
    leads = λ s h. elim (Option-cases (lookup name s.db.rooms)) [
      | inl e ↦
          rw (e, create_chatroom)
            (record {
              serving =
                  store_room s name (record { roomname = name; port = port; opened = true })
                    h.0.serving refl (λ o. (id, h.1));
              counted = h.0.counted;
            })
      | inr (r, e) ↦ rw (e, create_chatroom) h.0
    ];
  }

  pub set_room-IsServing :
      {k : ℕ} (s : Server H) (name : Str) (room : Chatroom)
      → IsServingWithin k s
      → room.roomname ≡ name
      → (room.opened ≡ true → (id : ℤ) × (lookup id s.logins ≡ some name))
      → IsServingWithin k (db_call (set_room name room) s).1
  unfolding db_call set_room
  set_room-IsServing s name room h same host = elim (Option-cases (lookup name s.db.rooms)) [
    | inl e ↦ rw (e, set_room) h
    | inr (r, e) ↦
        rw (e, set_room)
          (record { serving = store_room s name room h.serving same host; counted = h.counted })
  ]

  -- A login under a number that is not in use.
  pub login-IsServing :
      (s : Server H) (id : ℤ) (name : Str)
      → IsServing s
      → lookup id s.logins ≡ none
      → IsServing (record s { logins = insert id name s.logins })
  login-IsServing s id name h free = record {
    database = h.database;
    named = h.named;
    hosted = λ other r e open_now.
        let (k, at_k) = h.hosted other r e open_now in
        (k, ground (arith, lookup-insert id k name s.logins, int_eq_iff id k));
  }

  -- A logout of a user whose room is not open.
  pub logout-IsServing :
      (s : Server H) (id : ℤ) (name : Str)
      → IsServing s
      → lookup id s.logins ≡ some name
      → ((r : Chatroom) → lookup name s.db.rooms ≡ some r → r.opened ≡ false)
      → IsServing (record s { logins = remove id s.logins })
  logout-IsServing s id name h at_id shut = record {
    database = h.database;
    named = h.named;
    hosted = λ other r e open_now.
        let (k, at_k) = h.hosted other r e open_now in
        (
          k,
          elim (Bool-cases (int_eq id k)) [
            | inr differs ↦ rw (lookup-remove, differs) at_k
            | inl same ↦
                let mine : some name ≡ some other =
                  sym at_id ∙ ap (λ i. lookup i s.logins) ((int_eq_iff id k).0 same) ∙ at_k in
                let own : other ≡ name = cc in
                let closed : r.opened ≡ false = shut r (rw own at e) in absurd (cc)
          ],
        );
  }
