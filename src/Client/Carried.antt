-- ===== src/Client/Carried.antt =====
-- A request of the client and the reply of the server as bytes of a TCP connection: `send` and
-- `recv` of socket.cpp on both sides, as client/client_part.cpp and server/server.cpp call them.
use np_hw.Prelude.{
  ℕ, ◌^◌, ◌<◌, ◌≡◌, refl, ap, sym, ◌∙◌, Option, none, some, List, [], ◌∷◌, ◌++◌, arith, String,
  pure, subst, str_key, lookup, lit, ℤ, length, Result, ok,
}
use np_hw.Database.Users.{Sqlite}
use np_hw.Server.State.{Server, Fields}
use np_hw.Server.Dispatch.{Environment, Action, replies, handle_tcp}
use np_hw.Server.Unordered.{HaveSameFields}
use np_hw.Server.Connection.{tcp_round, tcp_round-serialize, or_else-none}
use np_hw.Client.Requests.{
  Client, Exchange, value, by_tcp, ask_create_board, ask_create_post, ask_list_board, ask_list_post,
  ask_read_post, ask_delete_post, ask_update_post, ask_comment,
}
use np_hw.Client.Tasks.{
  Task, ask, converse, opens_board, writes_post, shows_boards, shows_posts, shows_post, drops_post,
  edits_post, adds_comment,
}
use np_hw.Wire.Package.{Package, empty_package, FieldsAreText, HasDistinctKeys}
use np_hw.Wire.Codec.{serialize, deserialize}
use np_hw.Wire.Codec.RoundTrip.{deserialize-serialize}
use np_hw.Wire.Bytes.{le_bytes}
use np_hw.Wire.Tcp.{stream_of}
use np_hw.Wire.Tcp.Calls.{Got, got, TcpReceived, recv_call, given_as, AreChunks, recv_call-whole}

abbrev fields_in : Option Package → Option Fields
fields_in none = none
fields_in (some pack) = some pack.fields

-- The fields of the package after `recv`, which are none if it hands over no message.
unfoldable pub fields_after : Option TcpReceived → Option Fields
fields_after none = none
fields_after (some r) = elim r.message [
  | none ↦ some []
  | some message ↦ fields_in (deserialize message empty_package)
]

unfoldable pub client_recv : List Got → Option Fields
unfolding fields_after
client_recv calls = fields_after (recv_call calls)

module _ (sql : Sqlite) where
  -- What the client makes of what it receives after the server's round.
  unfoldable pub answered_by :
      {A : Type 0}
      → Exchange A
      → Client
      → Option Fields
      → Option (Result Action × Server sql.Handle)
      → Option ((Result A × Client) × Server sql.Handle)
  answered_by e client (some fields) (some (ok (replies out), t)) = some (e.answer fields client, t)
  answered_by e client _ _ = none

  -- An exchange in which the server's calls of `::recv` are `arriving` and the client's
  -- `returning`.
  unfoldable pub carried :
      {A : Type 0}
      → Environment
      → Exchange A
      → List Got
      → List Got
      → Client
      → Server sql.Handle
      → Option ((Result A × Client) × Server sql.Handle)
  unfolding client_recv tcp_round answered_by
  carried env e arriving returning client s =
      answered_by e client (client_recv returning) (tcp_round sql env arriving s)

abbrev pub package_of : Fields → Package
package_of fields = record { payload = []; fields = fields }

-- A package that `Serialize` and `recv` can cope with.
pub record IsSendable (fields : Fields) : Type 0 where
  pub text : FieldsAreText fields
  pub distinct : HasDistinctKeys fields
  pub some_field : ¬ (fields ≡ [])
  pub fits : length (serialize (package_of fields)) < 2 ^ 31

-- Calls of `::recv` that give the size of a message and then its bytes in chunks.
abbrev pub calls_for : List (List ℕ) → List Got
calls_for chunks = got (le_bytes 4 (length (stream_of chunks))) ∷ (given_as chunks ++ [])

pub client_recv-serialize :
    (fields : Fields) (chunks : List (List ℕ))
    → IsSendable fields
    → AreChunks chunks
    → stream_of chunks ≡ serialize (package_of fields)
    → (received : Fields) × (client_recv (calls_for chunks) ≡ some received)
      × HaveSameFields received fields
unfolding client_recv lookup
client_recv-serialize [] chunks sendable h e = absurd (sendable.some_field refl)
client_recv-serialize ((k, v) ∷ more) chunks sendable h e =
    let sent = serialize (package_of ((k, v) ∷ more)) in
    let (q, read, kept, fields) =
      deserialize-serialize k v more [] empty_package sendable.text sendable.distinct
        (omega arith) in
    (
      q.fields,
      ap (λ m. client_recv (got (le_bytes 4 (length m)) ∷ (given_as chunks ++ []))) e
          ∙ ap fields_after (recv_call-whole sent sendable.fits chunks [] h e)
          ∙ ap fields_in read,
      λ j. fields j ∙ or_else-none (lookup j ((k, v) ∷ more)),
    )

value-same :
    (name : String) (fields other : Fields)
    → HaveSameFields fields other
    → value name fields ≡ value name other
value-same name fields other same = rw (same (lit name)) refl

-- The operations on boards and posts go over TCP, and show the message of the reply.
ask-by_tcp : (token : ℤ) (task : Task) → (out : Fields) × (ask token task ≡ by_tcp out)
unfolding ask_create_board ask_create_post ask_list_board ask_list_post ask_read_post
    ask_delete_post ask_update_post ask_comment
ask-by_tcp token (opens_board name) = (_, refl)
ask-by_tcp token (writes_post name title content) = (_, refl)
ask-by_tcp token shows_boards = (_, refl)
ask-by_tcp token (shows_posts name) = (_, refl)
ask-by_tcp token (shows_post serial) = (_, refl)
ask-by_tcp token (drops_post serial) = (_, refl)
ask-by_tcp token (edits_post serial title text) = (_, refl)
ask-by_tcp token (adds_comment serial text) = (_, refl)

module _ (sql : Sqlite) (env : Environment) where
  tcp_round-sendable :
      (fields : Fields) (chunks : List (List ℕ)) (s : Server sql.Handle)
      → IsSendable fields
      → AreChunks chunks
      → stream_of chunks ≡ serialize (package_of fields)
      → tcp_round sql env (calls_for chunks) s ≡ some (handle_tcp sql env fields s)
  tcp_round-sendable [] chunks s sendable h e = absurd (sendable.some_field refl)
  tcp_round-sendable ((k, v) ∷ more) chunks s sendable h e =
      tcp_round-serialize sql env k v more [] chunks [] s sendable.text sendable.distinct
        (omega arith) sendable.fits h e

  carried-by_tcp :
      (request out : Fields) (client : Client) (s t : Server sql.Handle)
      (there back : List (List ℕ))
      → IsSendable request
      → IsSendable out
      → handle_tcp sql env request s ≡ (ok (replies out), t)
      → AreChunks there
      → stream_of there ≡ serialize (package_of request)
      → AreChunks back
      → stream_of back ≡ serialize (package_of out)
      → carried sql env (by_tcp request) (calls_for there) (calls_for back) client s
        ≡ converse sql env (by_tcp request) client s
  unfolding carried converse pure
  carried-by_tcp request out client s t there back sendable reply handled h e k f =
      let (received, got_back, same) = client_recv-serialize out back reply k f in
      let answered_there = tcp_round-sendable request there s sendable h e in
      rw (got_back, answered_there, handled, answered_by, value-same "message" received out same)
        refl

  -- If the server answers a task of a client, and the request and the reply are packages of less
  -- than 2 GB with some field, distinct keys and texts without separators, then carrying both as
  -- bytes, in any chunks of at least one byte, changes nothing: the client gets the same answer and
  -- the server is left the same as if the fields had reached it as they are.
  pub carried-converse :
      (token : ℤ) (task : Task) (client : Client) (s t : Server sql.Handle) (out : Fields)
      (there back : List (List ℕ))
      → IsSendable (ask token task).request
      → IsSendable out
      → handle_tcp sql env (ask token task).request s ≡ (ok (replies out), t)
      → AreChunks there
      → stream_of there ≡ serialize (package_of (ask token task).request)
      → AreChunks back
      → stream_of back ≡ serialize (package_of out)
      → carried sql env (ask token task) (calls_for there) (calls_for back) client s
        ≡ converse sql env (ask token task) client s
  carried-converse token task client s t out there back request reply handled h e k f =
      let (fields, by) = ask-by_tcp token task in
      subst
        (λ x.
          IsSendable x.request
          → handle_tcp sql env x.request s ≡ (ok (replies out), t)
          → stream_of there ≡ serialize (package_of x.request)
          → carried sql env x (calls_for there) (calls_for back) client s
            ≡ converse sql env x client s)
        (sym by)
        (λ sendable replied whole_request.
          carried-by_tcp fields out client s t there back sendable reply replied h whole_request k
            f)
        request handled e
