-- ===== src/Server/Connection.antt =====
-- One round of the loop of `handleTCP` of server/server.cpp, from the bytes that `recv` reads.
use np_hw.Prelude.Ints.{to_int}
use np_hw.Prelude.{
  ℕ, ◌+◌, ◌^◌, ◌≤◌, ◌<◌, ◌≡◌, refl, ap, ◌∙◌, Bool, true, false, Option, none, some, List, [], ◌∷◌,
  ◌++◌, arith, Str, Map, str_key, lookup, lit, ◌>>=◌, pos, int_eq, length, if◌then◌else◌, Result,
  ok, throws, out_of_range,
}
use np_hw.Database.Users.{Sqlite}
use np_hw.Server.State.{Server, field}
use np_hw.Server.Dispatch.{Environment, Action, closes, handle_tcp}
use np_hw.Server.Unordered.{HaveSameFields, handle_tcp-same}
use np_hw.Wire.Package.{Package, empty_package, FieldsAreText, HasDistinctKeys}
use np_hw.Wire.Codec.{serialize, deserialize}
use np_hw.Wire.Codec.RoundTrip.{deserialize-serialize, or_else}
use np_hw.Wire.Bytes.{le_bytes}
use np_hw.Wire.Tcp.{stream_of}
use np_hw.Wire.Tcp.Calls.{
  Got, got, TcpReceived, recv_call, given_as, AreChunks, recv_call-stream, recv_call-whole,
  no_bytes,
}

pub or_else-none : (o : Option Str) → or_else o none ≡ o
or_else-none none = refl
or_else-none (some v) = refl

nonzero : (n : ℕ) → n < 2 ^ 31 → int_eq (to_int (pos (4 + n))) (pos 0) ≡ false
unfolding to_int int_eq
nonzero n h = ground (arith, h)

module _ (sql : Sqlite) (env : Environment) where
  abbrev handle_package :
      Option Package → Server sql.Handle → Option (Result Action × Server sql.Handle)
  handle_package none s = none
  handle_package (some rec) s = some (handle_tcp sql env rec.fields s)

  -- What is done with a message that `recv` handed over, if it did.
  unfoldable pub handle_message :
      Option (List ℕ) → Server sql.Handle → Option (Result Action × Server sql.Handle)
  handle_message none s = some (handle_tcp sql env [] s)
  handle_message (some message) s = handle_package (deserialize message empty_package) s

  unfoldable pub handle_received :
      TcpReceived → Server sql.Handle → Option (Result Action × Server sql.Handle)
  unfolding handle_message
  handle_received r s =
      let rest = handle_message r.message s in
      if int_eq r.returned (pos 0) then some (ok closes, s) else rest

  after_recv : Option TcpReceived → Server sql.Handle → Option (Result Action × Server sql.Handle)
  unfolding handle_received
  after_recv none s = none
  after_recv (some r) s = handle_received r s

  -- `none` while a call of `::recv` has not returned, or where the package leaves its buffer.
  unfoldable pub tcp_round :
      List Got → Server sql.Handle → Option (Result Action × Server sql.Handle)
  unfolding after_recv
  tcp_round calls s = after_recv (recv_call calls) s

  -- A request with at least one field, texts without separators and distinct keys, of less than
  -- 2 GB, that arrives in any chunks is handled as its fields say: `handleTCP` answers, and
  -- leaves the server, as on the request itself.
  pub tcp_round-serialize :
      (k v : Str) (more : Map Str Str) (payload : List ℕ) (chunks : List (List ℕ))
      (calls : List Got) (s : Server sql.Handle)
      → FieldsAreText ((k, v) ∷ more)
      → HasDistinctKeys ((k, v) ∷ more)
      → length payload < 2 ^ 32
      → length (serialize (record { payload = payload; fields = (k, v) ∷ more })) < 2 ^ 31
      → AreChunks chunks
      → stream_of chunks ≡ serialize (record { payload = payload; fields = (k, v) ∷ more })
      → tcp_round (got (le_bytes 4 (length (stream_of chunks))) ∷ (given_as chunks ++ calls)) s
        ≡ some (handle_tcp sql env ((k, v) ∷ more) s)
  unfolding tcp_round lookup
  tcp_round-serialize k v more payload chunks calls s text distinct small fits h e =
      let sent = serialize (record { payload = payload; fields = (k, v) ∷ more }) in
      let (q, read, payload_kept, fields) =
        deserialize-serialize k v more payload empty_package text distinct small in
      let same : HaveSameFields q.fields ((k, v) ∷ more) =
        λ j. fields j ∙ or_else-none (lookup j ((k, v) ∷ more)) in
      ap (λ n. tcp_round (got (le_bytes 4 (length n)) ∷ (given_as chunks ++ calls)) s) e
      ∙ ap (λ r. after_recv r s) (recv_call-whole sent fits chunks calls h e)
      ∙ rw (nonzero (length sent) fits) refl
      ∙ ap (λ p. handle_package p s) read
      ∙ ap (λ handler. some (handler s)) (handle_tcp-same sql q.fields ((k, v) ∷ more) same env)

  -- A connection that ends or fails before all bytes of a message shorter than 2 GB arrived, which
  -- came in chunks of at least one byte behind its size, leaves the server as it was: its thread
  -- ends, without or with an exception.
  pub tcp_round-cut :
      (message left : List ℕ) (chunks : List (List ℕ)) (fails : Bool) (calls : List Got)
      (s : Server sql.Handle)
      → length message < 2 ^ 31
      → AreChunks chunks
      → stream_of chunks ++ left ≡ message
      → 1 ≤ length left
      → tcp_round
          (got (le_bytes 4 (length message)) ∷ (given_as chunks ++ (no_bytes fails ∷ calls)))
          s
        ≡ some ((if fails then throws out_of_range else ok closes), s)
  unfolding tcp_round handle_tcp field lookup lit ◌>>=◌ int_eq
  tcp_round-cut message [] chunks fails calls s small h e some_left =
      absurd (omega (arith, some_left))
  tcp_round-cut message (b ∷ left) chunks true calls s small h e some_left =
      ap (λ r. after_recv r s) (recv_call-stream message small chunks (b ∷ left) true calls h e)
  tcp_round-cut message (b ∷ left) chunks false calls s small h e some_left =
      ap (λ r. after_recv r s) (recv_call-stream message small chunks (b ∷ left) false calls h e)
