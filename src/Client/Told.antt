-- ===== src/Client/Told.antt =====
-- What a user types in the chat mode, as bytes at the room of client/server_part.cpp.
use np_hw.Prelude.{
  ℕ, ◌^◌, ◌<◌, ◌≡◌, refl, ◌∙◌, ◌⊎◌, inl, inr, some, List, [], ◌∷◌, Str, String, str_eq, str_key,
  lit, lookup, insert, length, Bool-cases, Option-cases, nat_key,
}
use np_hw.Server.State.{Fields}
use np_hw.Server.Unordered.{HaveSameFields}
use np_hw.Chat.Packages.{Clock, Delivery}
use np_hw.Chat.Room.{
  ChatRoom, Request, leaves, speaks, asks_nothing, on_request, on_package, request_of,
}
use np_hw.Client.Requests.{Client, chat}
use np_hw.Client.Patterns.{regex_match}
use np_hw.Client.Commands.{leaves_room, read_line, without_args, command_reg, group}
use np_hw.Client.Deeds.{tells_room, deed, leave_package, detach_package, message_package}
use np_hw.Client.Carried.{client_recv, client_recv-serialize, calls_for, IsSendable, package_of}
use np_hw.Wire.Package.{IsText, all_text, all_text-IsText}
use np_hw.Wire.Codec.{serialize}
use np_hw.Wire.Tcp.{stream_of}
use np_hw.Wire.Tcp.Calls.{AreChunks}

-- The packages that the client sends its room.
abbrev IsTold : Str → Str → Fields → Type 0
IsTold username line rec =
    (rec ≡ leave_package username)
    ⊎ ((rec ≡ detach_package username) ⊎ (rec ≡ message_package username line))

without_args-IsTold :
    (client : Client) (usage : String) (args line : Str) (rec : Fields)
    → deed client (without_args usage leaves_room args) ≡ tells_room rec
    → IsTold client.username line rec
unfolding deed
without_args-IsTold client usage [] line rec e = inl (cc)
without_args-IsTold client usage (c ∷ args) line rec e = absurd (cc)

read_line-IsTold :
    (client : Client) (line : Str) (rec : Fields)
    → deed client (read_line chat line) ≡ tells_room rec
    → IsTold client.username line rec
unfolding read_line lookup deed
read_line-IsTold client line rec e =
    let command = group 0 (regex_match command_reg line) in
    elim (Bool-cases (str_eq (lit "leave-chatroom") command)) [
      | inl leaving ↦ without_args-IsTold client _ _ line rec (rw (read_line, lookup, leaving) at e)
      | inr other ↦ elim (Bool-cases (str_eq (lit "detach") command)) [
        | inl detaching ↦ let told = rw (read_line, lookup, other, detaching) at e in inr (inl (cc))
        | inr k ↦ let told = rw (read_line, lookup, other, k) at e in inr (inr (cc))
      ]
    ]

on_request-same :
    (r : Request) (so : ℕ) (name : Str) (rec other : Fields) (now : Clock) (room : ChatRoom)
    → HaveSameFields rec other
    → on_request r so name rec now room ≡ on_request r so name other now room
on_request-same leaves so name rec other now room same = refl
on_request-same speaks so name rec other now room same = rw (same (lit "message")) refl
on_request-same Request.detaches so name rec other now room same = refl
on_request-same asks_nothing so name rec other now room same = refl

-- Whoever waits for the package serves it.
abbrev Serves : ℕ → Str → Clock → ChatRoom → Fields → Type 0
Serves so name now room rec =
    (next : ChatRoom) × (sent : List Delivery) × (on_package so name rec now room
      ≡ some (next, sent))

module _ (username line : Str) (named : IsText username) (said : IsText line) where
  leave-IsSendable :
      length (serialize (package_of (leave_package username))) < 2 ^ 31
      → IsSendable (leave_package username)
  unfolding leave_package insert lit str_eq all_text
  leave-IsSendable fits = record {
    text = (
      all_text-IsText (lit "type") refl,
      all_text-IsText (lit "TYPE_LEAVE_CHATROOM") refl,
      (all_text-IsText (lit "username") refl, named, tt),
    );
    distinct = (((λ e. cc), tt), (tt, tt));
    some_field = λ e. cc;
    fits = fits;
  }

  detach-IsSendable :
      length (serialize (package_of (detach_package username))) < 2 ^ 31
      → IsSendable (detach_package username)
  unfolding detach_package insert lit str_eq all_text
  detach-IsSendable fits = record {
    text = (
      all_text-IsText (lit "type") refl,
      all_text-IsText (lit "TYPE_DETACH") refl,
      (all_text-IsText (lit "username") refl, named, tt),
    );
    distinct = (((λ e. cc), tt), (tt, tt));
    some_field = λ e. cc;
    fits = fits;
  }

  message-IsSendable :
      length (serialize (package_of (message_package username line))) < 2 ^ 31
      → IsSendable (message_package username line)
  unfolding message_package insert lit str_eq all_text
  message-IsSendable fits = record {
    text = (
      all_text-IsText (lit "type") refl,
      all_text-IsText (lit "TYPE_ROOM_MSG") refl,
      (
        all_text-IsText (lit "message") refl,
        said,
        (all_text-IsText (lit "username") refl, named, tt),
      ),
    );
    distinct = (((λ e. cc), ((λ e. cc), tt)), (((λ e. cc), tt), (tt, tt)));
    some_field = λ e. cc;
    fits = fits;
  }

  told-IsSendable :
      (rec : Fields)
      → IsTold username line rec
      → length (serialize (package_of rec)) < 2 ^ 31
      → IsSendable rec
  told-IsSendable rec (inl e) fits = rw e (leave-IsSendable (rw e at fits))
  told-IsSendable rec (inr (inl e)) fits = rw e (detach-IsSendable (rw e at fits))
  told-IsSendable rec (inr (inr e)) fits = rw e (message-IsSendable (rw e at fits))

module _ (so : ℕ) (name : Str) (now : Clock) (room : ChatRoom) where
  told-Serves :
      (username line : Str) (rec : Fields) → IsTold username line rec → Serves so name now room rec
  unfolding leave_package detach_package message_package on_package request_of lookup insert lit
      str_eq
  told-Serves username line rec (inl e) = rw e (_, _, refl)
  told-Serves username line rec (inr (inl e)) = rw e (_, _, refl)
  told-Serves username line rec (inr (inr e)) = rw e (_, _, refl)

  on_package-same :
      (rec other : Fields)
      → HaveSameFields rec other
      → on_package so name rec now room ≡ on_package so name other now room
  unfolding on_package
  on_package-same rec other same = elim (Option-cases (lookup (lit "type") other)) [
    | inl e ↦ rw (on_package, same (lit "type"), e) refl
    | inr (type, e) ↦
        rw (on_package, same (lit "type"), e)
          (on_request-same (request_of type) so name rec other now room same)
  ]

  -- A line is typed in the chat mode, by which the client sends its room a package, and the
  -- line and the client's user name hold no separator. If the package is serialized to less
  -- than 2 GB and arrives in any chunks of at least one byte, then the member's thread in the
  -- room reads fields from it that the room serves, whatever the room's state and the thread's
  -- user: no exception ends the room's process.
  pub read_line-on_package :
      (client : Client) (line : Str) (rec : Fields) (chunks : List (List ℕ))
      → IsText client.username
      → IsText line
      → deed client (read_line chat line) ≡ tells_room rec
      → length (serialize (package_of rec)) < 2 ^ 31
      → AreChunks chunks
      → stream_of chunks ≡ serialize (package_of rec)
      → (received : Fields) × (next : ChatRoom) × (sent : List Delivery) × (client_recv
            (calls_for chunks)
          ≡ some received)
        × (on_package so name received now room ≡ some (next, sent))
  read_line-on_package client line rec chunks named said told fits h e =
      let is_told = read_line-IsTold client line rec told in
      let (received, got_it, same) =
        client_recv-serialize rec chunks
          (told-IsSendable client.username line named said rec is_told fits) h e in
      let (next, sent, served) = told-Serves client.username line rec is_told in
      (received, next, sent, got_it, on_package-same received rec same ∙ served)
