-- ===== src/Server/Access.antt =====
-- Requests without a valid token.
use np_hw.Prelude.{
  ◌≡◌, refl, ap, ◌∙◌, inl, inr, ◌⊎◌, none, some, Str, String, lit, ℤ, int_key, int_eq, int_eq_iff,
  minus_one, lookup, str_key, Exec, Result, Exception, ok, throws, at, ◌>>=◌, Keeps, Keeps-bind,
  Keeps-pure, Option-cases, Bool-cases, if◌then◌else◌,
}
use np_hw.Prelude.Decimal.{stoi}
use np_hw.Database.Users.{Sqlite}
use np_hw.Server.State.{Server, Fields, field, int_field, login_of}
use np_hw.Server.Boards.{
  on_create_board, on_create_post, on_delete_post, on_update_post, on_comment,
}
use np_hw.Server.Rooms.{on_create_chatroom, on_restart_chatroom}
use np_hw.Server.Dispatch.{
  Command, create_board, create_post, delete_post, update_post, comment, create_chatroom,
  restart_chatroom, Environment, handle,
}
use np_hw.Server.Serving.Rules.{Keeps-field, Keeps-int_field}

-- The request's token, if it has one that is a number, is -1 or names no session.
abbrev pub IsAnonymous : {H : Type 0} → Server H → Fields → Type 0
IsAnonymous s rec =
    (text : Str) (id : ℤ)
    → lookup (lit "transaction_id") rec ≡ some text
    → stoi text ≡ ok id
    → (id ≡ minus_one) ⊎ (lookup id s.logins ≡ none)

-- The commands that change boards and posts, or open a room.
abbrev pub IsWrite : Command → Type 0
IsWrite create_board = Unit
IsWrite create_post = Unit
IsWrite delete_post = Unit
IsWrite update_post = Unit
IsWrite comment = Unit
IsWrite create_chatroom = Unit
IsWrite restart_chatroom = Unit
IsWrite _ = ⊥

Result-cases :
    {A : Type 0} (r : Result A) → ((a : A) × (r ≡ ok a)) ⊎ ((e : Exception) × (r ≡ throws e))
Result-cases (ok a) = inl (a, refl)
Result-cases (throws e) = inr (e, refl)

module _ {H A : Type 0} {P : Server H → Type 0} where
  -- What follows may use what the request holds.
  Keeps-int_field_bind :
      (name : String) (rec : Fields) (f : ℤ → Exec (Server H) A)
      → ((text : Str) (id : ℤ)
          → lookup (lit name) rec ≡ some text
          → stoi text ≡ ok id
          → Keeps P (f id))
      → Keeps P (int_field name rec >>= f)
  unfolding int_field field ◌>>=◌
  Keeps-int_field_bind name rec f kf = record {
    keeps = λ t h. elim (Option-cases (lookup (lit name) rec)) [
      | inl e ↦ rw (e, at) h
      | inr (text, e) ↦ elim (Result-cases (stoi text)) [
        | inl (id, k) ↦ rw (e, at, k) ((kf text id e k).keeps t h)
        | inr (x, k) ↦ rw (e, at, k) h
      ]
    ];
  }

abbrev IsUnknown : {H : Type 0} → Server H → ℤ → Type 0
IsUnknown s id = (id ≡ minus_one) ⊎ (lookup id s.logins ≡ none)

module _ {H A : Type 0} where
  -- The guard that the handlers share.
  Keeps-guard :
      (s : Server H) (id : ℤ) (denied : Exec (Server H) A) (f : Str → Exec (Server H) A)
      → IsUnknown s id
      → Keeps (λ t. t ≡ s) denied
      → Keeps (λ t. t ≡ s) (if int_eq id minus_one then denied else (login_of id >>= f))
  unfolding login_of ◌>>=◌
  Keeps-guard s id denied f (inl e) kd = rw ((int_eq_iff id minus_one).1 e) kd
  Keeps-guard s id denied f (inr e) kd = elim (Bool-cases (int_eq id minus_one)) [
    | inl k ↦ rw k kd
    | inr k ↦
        rw k (record { keeps = λ t same. rw (ap (λ u. lookup id u.logins) same ∙ e, at) same })
  ]

module _ (sql : Sqlite) (s : Server sql.Handle) (rec : Fields) (h : IsAnonymous s rec) where
  write-Keeps :
      (c : Command) (env : Environment) → IsWrite c → Keeps (λ t. t ≡ s) (handle sql c env rec)
  unfolding handle on_create_board on_create_post on_delete_post on_update_post on_comment
      on_create_chatroom on_restart_chatroom
  write-Keeps create_board env w =
      Keeps-bind _ _
        (Keeps-bind _ _ (Keeps-field _ rec) λ type.
          Keeps-int_field_bind _ rec _
            λ text id e k. Keeps-guard s id _ _ (h text id e k) (Keeps-pure _))
        (λ out. Keeps-pure _)
  write-Keeps create_post env w =
      Keeps-bind _ _
        (Keeps-bind _ _ (Keeps-field _ rec) λ type.
          Keeps-int_field_bind _ rec _
            λ text id e k. Keeps-guard s id _ _ (h text id e k) (Keeps-pure _))
        (λ out. Keeps-pure _)
  write-Keeps delete_post env w =
      Keeps-bind _ _
        (Keeps-bind _ _ (Keeps-field _ rec) λ type. Keeps-int_field_bind _ rec _ λ text id e k.
          Keeps-bind _ _ (Keeps-int_field _ rec)
            λ serial. Keeps-guard s id _ _ (h text id e k) (Keeps-pure _))
        (λ out. Keeps-pure _)
  write-Keeps update_post env w =
      Keeps-bind _ _
        (Keeps-bind _ _ (Keeps-field _ rec) λ type. Keeps-int_field_bind _ rec _ λ text id e k.
          Keeps-bind _ _ (Keeps-int_field _ rec)
            λ serial. Keeps-guard s id _ _ (h text id e k) (Keeps-pure _))
        (λ out. Keeps-pure _)
  write-Keeps comment env w =
      Keeps-bind _ _
        (Keeps-bind _ _ (Keeps-field _ rec) λ type. Keeps-int_field_bind _ rec _ λ text id e k.
          Keeps-bind _ _ (Keeps-int_field _ rec)
            λ serial. Keeps-guard s id _ _ (h text id e k) (Keeps-pure _))
        (λ out. Keeps-pure _)
  write-Keeps create_chatroom env w =
      Keeps-bind _ _
        (Keeps-int_field_bind _ rec _
          λ text id e k. Keeps-guard s id _ _ (h text id e k) (Keeps-pure _))
        (λ out. Keeps-pure _)
  write-Keeps restart_chatroom env w =
      Keeps-bind _ _
        (Keeps-int_field_bind _ rec _
          λ text id e k. Keeps-guard s id _ _ (h text id e k) (Keeps-pure _))
        (λ out. Keeps-pure _)
  write-Keeps Command.login env w = elim w [ ]
  write-Keeps Command.logout env w = elim w [ ]
  write-Keeps Command.exit env w = elim w [ ]
  write-Keeps Command.list_user env w = elim w [ ]
  write-Keeps Command.list_board env w = elim w [ ]
  write-Keeps Command.list_post env w = elim w [ ]
  write-Keeps Command.read_post env w = elim w [ ]
  write-Keeps Command.join_chatroom env w = elim w [ ]
  write-Keeps Command.close_chatroom env w = elim w [ ]
  write-Keeps Command.attach env w = elim w [ ]
  write-Keeps Command.unknown env w = elim w [ ]

  -- A request to create a board, a post or a chat room, to delete, update or comment on a post, or
  -- to restart a chat room changes nothing on the server, whatever else it says, if its token is
  -- missing, no number, -1, or no session's.
  pub anonymous_writes_change_nothing :
      (c : Command) (env : Environment) → IsWrite c → (handle sql c env rec s).1 ≡ s
  anonymous_writes_change_nothing c env w = (write-Keeps c env w).keeps s refl
