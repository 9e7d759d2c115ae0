-- ===== src/Server/Dispatch.antt =====
-- `handleTCP` and `dispatchUDP` of server/server.cpp: which handler a package reaches, and what
-- becomes of the connection or the process.
use np_hw.Prelude.{
  Option, none, some, List, [], ◌∷◌, Str, str_eq, lit, ℤ, str_key, lookup, Exec, Result, ok, throws,
  pure, ◌>>=◌, ◌>>◌, if◌then◌else◌,
}
use np_hw.Database.Types.{Tm}
use np_hw.Database.Users.{Sqlite}
use np_hw.Server.State.{Server, Fields, field}
use np_hw.Server.Sessions.{on_register, on_login, on_whoami, on_logout, on_list_user, on_exit}
use np_hw.Server.Boards.{
  on_create_board, on_create_post, on_list_board, on_list_post, on_read_post, on_delete_post,
  on_update_post, on_comment,
}
use np_hw.Server.Rooms.{
  on_joinroom, on_list_chatroom, on_create_chatroom, on_restart_chatroom, on_close_chatroom,
  on_attach,
}

-- The branches of `handleTCP`.
pub data Command : Type 0 where
  login logout exit list_user : Command
  create_board create_post list_board list_post read_post delete_post update_post comment : Command
  join_chatroom create_chatroom restart_chatroom close_chatroom attach : Command
  unknown : Command

unfoldable pub command_of : Str → Command
command_of type =
    if str_eq type (lit "TYPE_LOGIN")
    then login
    else (if str_eq type (lit "TYPE_LOGOUT")
        then logout
        else (if str_eq type (lit "TYPE_EXIT")
            then exit
            else (if str_eq type (lit "TYPE_LIST_USER")
                then list_user
                else (if str_eq type (lit "TYPE_CREATE_BOARD")
                    then create_board
                    else (if str_eq type (lit "TYPE_CREATE_POST")
                        then create_post
                        else (if str_eq type (lit "TYPE_LIST_BOARD")
                            then list_board
                            else (if str_eq type (lit "TYPE_LIST_POST")
                                then list_post
                                else (if str_eq type (lit "TYPE_READ_POST")
                                    then read_post
                                    else (if str_eq type (lit "TYPE_DELETE_POST")
                                        then delete_post
                                        else (if str_eq type (lit "TYPE_UPDATE_POST")
                                            then update_post
                                            else (if str_eq type (lit "TYPE_COMMENT")
                                                then comment
                                                else (if str_eq type (lit "TYPE_JOIN_CHATROOM")
                                                    then join_chatroom
                                                    else (if str_eq type
                                                          (lit "TYPE_CREATE_CHATROOM")
                                                        then create_chatroom
                                                        else (if str_eq type
                                                            (lit "TYPE_RESTART_CHATROOM")
                                                            then restart_chatroom
                                                            else (if str_eq type
                                                            (lit "TYPE_CLOSE_CHATROOM")
                                                            then close_chatroom
                                                            else (if str_eq type (lit "TYPE_ATTACH")
                                                            then attach
                                                            else unknown))))))))))))))))

-- What a handler takes from outside: the numbers that the generator yields and the local time.
pub record Environment : Type 0 where
  pub draws : List ℤ
  pub now : Tm

-- What a connection sees of one round: a reply, no reply, its end, or a login that still draws.
pub data Action : Type 0 where
  replies : Fields → Action
  ignores closes draws_on : Action

module _ (sql : Sqlite) where
  abbrev pub reply_or_draw : Option Fields → Action
  reply_or_draw none = draws_on
  reply_or_draw (some out) = replies out

  abbrev pub sending : Exec (Server sql.Handle) Fields → Exec (Server sql.Handle) Action
  sending handler = do out ← handler; pure (replies out)

  unfoldable pub handle : Command → Environment → Fields → Exec (Server sql.Handle) Action
  handle login env rec = do out ← on_login sql env.draws rec; pure (reply_or_draw out)
  handle logout env rec = sending (on_logout rec)
  handle exit env rec = do on_exit rec; pure closes
  handle list_user env rec = sending (on_list_user sql)
  handle create_board env rec = sending (on_create_board rec)
  handle create_post env rec = sending (on_create_post env.now rec)
  handle list_board env rec = sending (on_list_board rec)
  handle list_post env rec = sending (on_list_post rec)
  handle read_post env rec = sending (on_read_post rec)
  handle delete_post env rec = sending (on_delete_post rec)
  handle update_post env rec = sending (on_update_post rec)
  handle comment env rec = sending (on_comment rec)
  handle join_chatroom env rec = sending (on_joinroom rec)
  handle create_chatroom env rec = sending (on_create_chatroom rec)
  handle restart_chatroom env rec = sending (on_restart_chatroom rec)
  handle close_chatroom env rec = sending (on_close_chatroom rec)
  handle attach env rec = sending (on_attach rec)
  handle unknown env rec = pure ignores

  -- One round of the loop of `handleTCP`. An exception ends the connection's thread alone, since
  -- the task that runs it keeps the exception.
  unfoldable pub handle_tcp : Environment → Fields → Exec (Server sql.Handle) Action
  unfolding field handle command_of
  handle_tcp env rec = do type ← field "type" rec; handle (command_of type) env rec

  -- `fields["type"]`, which is empty where there is none.
  abbrev type_or_empty : Option Str → Str
  type_or_empty none = []
  type_or_empty (some type) = type

  unfoldable pub handle_udp : Fields → Exec (Server sql.Handle) Action
  handle_udp rec =
      let type = type_or_empty (lookup (lit "type") rec) in
      if str_eq type (lit "TYPE_REGISTER")
      then sending (on_register sql rec)
      else (if str_eq type (lit "TYPE_WHOAMI")
          then sending (on_whoami rec)
          else (if str_eq type (lit "TYPE_LIST_CHATROOM")
              then sending (on_list_chatroom rec)
              else pure ignores))

  pub data Event : Type 0 where
    tcp : Environment → Fields → Event
    udp : Fields → Event

  abbrev pub survived : Result Action × Server sql.Handle → Option (Server sql.Handle)
  survived (ok a, s) = some s
  survived (throws e, s) = none

  -- The server after one package; `none` where it is no more, since an exception that leaves
  -- `dispatchUDP` ends the process.
  unfoldable pub serve : Event → Server sql.Handle → Option (Server sql.Handle)
  serve (tcp env rec) s = some (handle_tcp env rec s).1
  serve (udp rec) s = survived (handle_udp rec s)

  unfoldable pub serve_all : List Event → Server sql.Handle → Option (Server sql.Handle)
  serve_all [] s = some s
  serve_all (e ∷ es) s = elim (serve e s) [ none ↦ none | some s' ↦ serve_all es s' ]
