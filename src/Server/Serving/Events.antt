-- ===== src/Server/Serving/Events.antt =====
-- Whatever packages arrive, the server stays in order.
use np_hw.Prelude.Leads.{Leads, Leads-Keeps, Leads-bind}
use np_hw.Prelude.{
  ℕ, suc, ◌+◌, ◌^◌, ◌<◌, arith, length, at, ◌>>=◌, pure, Exec, ◌≡◌, refl, subst, inl, inr, some,
  List, [], ◌∷◌, Str, str_key, lit, int_key, lookup, Result, ok, throws, Keeps, Keeps-bind,
  Keeps-pure, Option-cases,
}
use np_hw.Database.Users.{Sqlite}
use np_hw.Server.State.{Server, Fields, field}
use np_hw.Server.Dispatch.{
  Command, login, logout, exit, list_user, unknown, Environment, Action, survived, handle,
  handle_tcp, handle_udp, command_of, Event, tcp, udp, serve, serve_all,
}
use np_hw.Server.Invariant.{IsServing, IsServingWithin}
use np_hw.Server.Serving.Rules.{serving_rules}
use np_hw.Server.Serving.Boards.{
  on_create_board-Keeps, one_more, on_create_post-Leads, on_list_board-Keeps, on_list_post-Keeps,
  on_read_post-Keeps, on_delete_post-Keeps, on_update_post-Keeps, on_comment-Keeps,
}
use np_hw.Server.Serving.Rooms.{
  on_joinroom-Keeps, on_list_chatroom-Keeps, on_create_chatroom-Keeps, on_restart_chatroom-Keeps,
  on_close_chatroom-Keeps, on_attach-Keeps,
}
use np_hw.Server.Serving.Sessions.{
  on_register-Keeps, on_login-Keeps, on_whoami-Keeps, on_logout-Keeps, on_list_user-Keeps,
}

some-inv : {A : Type 0} (a b : A) → some a ≡ some b → a ≡ b
some-inv a b e = cc

module _ (sql : Sqlite) {k : ℕ} where
  -- A handler that uses up no serial.
  settled :
      {A : Type 0} {m : Exec (Server sql.Handle) A} (f : A → Action)
      → Keeps (IsServingWithin k) m
      → Leads (IsServingWithin k) (IsServingWithin (suc k)) (m >>= (λ out. pure (f out)))
  settled f kept = Leads-Keeps one_more (Keeps-bind _ _ kept (λ out. Keeps-pure _))

  handle-Leads :
      (c : Command) (env : Environment) (rec : Fields)
      → ¬ (c ≡ exit)
      → k + 1 < 2 ^ 31
      → Leads (IsServingWithin k) (IsServingWithin (suc k)) (handle sql c env rec)
  unfolding handle
  handle-Leads login env rec h room = settled _ (on_login-Keeps sql env.draws rec)
  handle-Leads logout env rec h room = settled _ (on_logout-Keeps rec)
  handle-Leads exit env rec h room = absurd (h refl)
  handle-Leads list_user env rec h room = settled _ (on_list_user-Keeps sql)
  handle-Leads Command.create_board env rec h room = settled _ (on_create_board-Keeps rec)
  handle-Leads Command.create_post env rec h room =
      Leads-bind _ _ (on_create_post-Leads env.now rec room) (λ out. Keeps-pure _)
  handle-Leads Command.list_board env rec h room = settled _ (on_list_board-Keeps rec)
  handle-Leads Command.list_post env rec h room = settled _ (on_list_post-Keeps rec)
  handle-Leads Command.read_post env rec h room = settled _ (on_read_post-Keeps rec)
  handle-Leads Command.delete_post env rec h room = settled _ (on_delete_post-Keeps rec)
  handle-Leads Command.update_post env rec h room = settled _ (on_update_post-Keeps rec)
  handle-Leads Command.comment env rec h room = settled _ (on_comment-Keeps rec)
  handle-Leads Command.join_chatroom env rec h room = settled _ (on_joinroom-Keeps rec)
  handle-Leads Command.create_chatroom env rec h room = settled _ (on_create_chatroom-Keeps rec)
  handle-Leads Command.restart_chatroom env rec h room = settled _ (on_restart_chatroom-Keeps rec)
  handle-Leads Command.close_chatroom env rec h room = settled _ (on_close_chatroom-Keeps rec)
  handle-Leads Command.attach env rec h room = settled _ (on_attach-Keeps rec)
  handle-Leads unknown env rec h room = Leads-Keeps one_more (Keeps-pure _)

  handle_tcp-Leads :
      (env : Environment) (rec : Fields)
      → ((type : Str) → lookup (lit "type") rec ≡ some type → ¬ (command_of type ≡ exit))
      → k + 1 < 2 ^ 31
      → Leads (IsServingWithin k) (IsServingWithin (suc k)) (handle_tcp sql env rec)
  unfolding handle_tcp field at ◌>>=◌
  handle_tcp-Leads env rec h room = elim (Option-cases (lookup (lit "type") rec)) [
    | inl e ↦ rw (e) (record { leads = one_more })
    | inr (type, e) ↦
        rw (e) (record { leads = (handle-Leads (command_of type) env rec (h type e) room).leads })
  ]

  handle_udp-Keeps : (rec : Fields) → Keeps (IsServingWithin k) (handle_udp sql rec)
  unfolding handle_udp
  handle_udp-Keeps rec =
      search (serving_rules, on_register-Keeps, on_whoami-Keeps, on_list_chatroom-Keeps) depth 20

module _ (sql : Sqlite) where
  -- The event is no package of the type `TYPE_EXIT`.
  abbrev pub IsNoExit : Event sql → Type 0
  IsNoExit (tcp env rec) =
      (type : Str) → lookup (lit "type") rec ≡ some type → ¬ (command_of type ≡ exit)
  IsNoExit (udp rec) = Unit

  abbrev pub AreNoExits : List (Event sql) → Type 0
  AreNoExits [] = Unit
  AreNoExits (e ∷ es) = IsNoExit e × AreNoExits es

  survived-IsServingWithin :
      {k : ℕ} (r : Result Action × Server sql.Handle) (s' : Server sql.Handle)
      → IsServingWithin k r.1
      → survived sql r ≡ some s'
      → IsServingWithin k s'
  survived-IsServingWithin {k} (ok a, s) s' v e = subst (IsServingWithin k) (some-inv s s' e) v
  survived-IsServingWithin (throws x, s) s' v e = cc

  serve-IsServingWithin :
      {k : ℕ} (e : Event sql) (s s' : Server sql.Handle)
      → IsServingWithin k s
      → IsNoExit e
      → k + 1 < 2 ^ 31
      → serve sql e s ≡ some s'
      → IsServingWithin (suc k) s'
  unfolding serve
  serve-IsServingWithin {k} (tcp env rec) s s' v h room e =
      subst (IsServingWithin (suc k)) (some-inv _ _ e)
        ((handle_tcp-Leads sql env rec h room).leads s v)
  serve-IsServingWithin (udp rec) s s' v h room e =
      one_more s' (
        survived-IsServingWithin (handle_udp sql rec s) s' ((handle_udp-Keeps sql rec).keeps s v) e)

  serve_all-IsServingWithin :
      (es : List (Event sql)) (k : ℕ) (s s' : Server sql.Handle)
      → IsServingWithin k s
      → AreNoExits es
      → k + length es < 2 ^ 31
      → serve_all sql es s ≡ some s'
      → IsServing s'
  unfolding serve_all
  serve_all-IsServingWithin [] k s s' v h room e = subst IsServing (some-inv _ _ e) v.serving
  serve_all-IsServingWithin (e ∷ es) k s s' v h room served = elim (Option-cases (serve sql e s)) [
    | inl dead ↦ absurd (cc (rw (dead, serve_all) at served))
    | inr (t, alive) ↦
        serve_all-IsServingWithin es (suc k) t s'
          (serve-IsServingWithin e s t v h.0 (omega (arith, room)) alive) h.1 (omega (arith, room))
          (rw (alive, serve_all) at served)
  ]

  -- From a server in order, any packages over TCP and UDP, in any order, well formed or not,
  -- but none of the type `TYPE_EXIT` over TCP, and so few that the serials stay below 2 ^ 31 - 1 if
  -- each package uses one, lead to a server in order if the process is still there: the database
  -- is valid, a room bears the name it is stored under, and the owner of an open room is logged in.
  pub serve_all-IsServing :
      (es : List (Event sql)) (s s' : Server sql.Handle)
      → IsServing s
      → AreNoExits es
      → s.db.post_serial + length es < 2 ^ 31
      → serve_all sql es s ≡ some s'
      → IsServing s'
  serve_all-IsServing es s s' v h room served =
      serve_all-IsServingWithin es s.db.post_serial s s'
        (record { serving = v; counted = omega arith }) h room served
