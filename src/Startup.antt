-- ===== src/Startup.antt =====
-- The start of both programs: `main` of server/server.cpp and of client/client.cpp.
use np_hw.Prelude.{
  ℕ, zero, suc, ◌≡◌, refl, ap, sym, ◌∙◌, inl, inr, false, Option, none, some, List, [], ◌∷◌, ◌++◌,
  arith, Str, lit, ℤ, pos, negsuc, int_eq, int_eq_iff, nat_eq, if◌then◌else◌, Bool-cases,
}
use np_hw.Prelude.Decimal.{strtol}
use np_hw.Prelude.Ints.{to_int}
use np_hw.Server.State.{Fields, assign, reply_to}
use np_hw.Client.Requests.{to_uint16, value}
use np_hw.Sockets.{Peer, is_negative, ◌>>◌}
use np_hw.Sockets.Actions.{bind-some, some_inj}

-- `bind` of both sockets, `listen` and `connect`, by what the system call returns; `none` where the
-- process exits.
unfoldable pub bind_udp : ℤ → Option (Unit {0})
bind_udp result = if int_eq result (pos 0) then some tt else none

unfoldable pub bind_tcp : ℤ → Option (Unit {0})
bind_tcp result = if is_negative result then none else some tt

unfoldable pub listen_tcp : ℤ → Option (Unit {0})
listen_tcp result = if is_negative result then none else some tt

unfoldable pub connect_tcp : ℤ → Option (Unit {0})
connect_tcp result = if is_negative result then none else some tt

-- What the system calls of `startServer` return.
pub record Calls : Type 0 where
  pub udp_bound : ℤ
  pub tcp_bound : ℤ
  pub listening : ℤ

-- `startServer` up to its threads: the port that it listens on.
unfoldable pub start_server : Calls → ℕ → Option ℕ
unfolding bind_udp bind_tcp listen_tcp int_eq is_negative
start_server calls serv_port = do
  bind_udp calls.udp_bound
  bind_tcp calls.tcp_bound
  listen_tcp calls.listening
  some serv_port

-- The port that the server listens on, from its arguments.
unfoldable pub server_main : Calls → List Str → Option ℕ
unfolding to_uint16 strtol start_server
server_main calls (program ∷ (portnum ∷ more)) =
    let serv_port = to_uint16 (strtol portnum) in
    if nat_eq serv_port 0 then none else start_server calls serv_port
server_main calls _ = none

-- `connect`, after which the client talks to the address.
abbrev connected_to : ℤ → Peer → Option Peer
connected_to result peer = do connect_tcp result; some peer

abbrev server_at : ℤ → Option ℕ → ℕ → Option Peer
server_at result none port = none
server_at result (some host) port = connected_to result (record { host = host; port = port })

-- The address that the client is connected to; `inet_aton` is a parameter, and `result` is what
-- `::connect` returns.
unfoldable pub client_main : (Str → Option ℕ) → ℤ → List Str → Option Peer
unfolding to_int to_uint16 strtol int_eq connect_tcp is_negative
client_main inet_aton result (program ∷ (address ∷ (portnum ∷ more))) =
    let serv_port = to_int (strtol portnum) in
    if int_eq serv_port (pos 0)
    then none
    else server_at result (inet_aton address) (to_uint16 serv_port)
client_main inet_aton result _ = none

-- What `handleTCP` sends first, and what the client prints of it.
unfoldable pub welcome_package : Fields
welcome_package =
    assign "message"
      (lit "********************************\n"
        ++ (lit "** Welcome to the BBS server. **\n" ++ lit "********************************"))
      (reply_to (lit "TYPE_MSG"))

unfoldable pub printed_welcome : Fields → Str
printed_welcome pack = value "message" pack

to_uint16-to_int : (z : ℤ) → to_uint16 (to_int z) ≡ to_uint16 z
unfolding to_uint16 to_int
to_uint16-to_int (pos n) = ground arith
to_uint16-to_int (negsuc n) = ground arith

started_port :
    (calls : Calls) (serv_port port : ℕ)
    → start_server calls serv_port ≡ some port
    → serv_port ≡ port
unfolding start_server
started_port calls serv_port port h =
    let (a, e, g) = bind-some (bind_udp calls.udp_bound) _ port h in
    let (b, f, k) = bind-some (bind_tcp calls.tcp_bound) _ port g in
    let (c, d, l) = bind-some (listen_tcp calls.listening) _ port k in some_inj l

checked :
    (calls : Calls) (serv_port port : ℕ)
    → (if nat_eq serv_port 0 then none else start_server calls serv_port) ≡ some port
    → (nat_eq serv_port 0 ≡ false) × (serv_port ≡ port)
checked calls zero port h = cc
checked calls (suc n) port h =
    let other : nat_eq (suc n) 0 ≡ false = ground arith in
    (other, started_port calls (suc n) port (rw other at h))

-- A number whose low 16 bits are not zero is no zero as an `int` either.
to_int-nonzero : (z : ℤ) → nat_eq (to_uint16 z) 0 ≡ false → int_eq (to_int z) (pos 0) ≡ false
unfolding to_uint16 strtol
to_int-nonzero z h = elim (Bool-cases (int_eq (to_int z) (pos 0))) [
  | inl e ↦
      let zero_port : to_uint16 z ≡ 0 =
        sym (to_uint16-to_int z) ∙ ap to_uint16 ((int_eq_iff (to_int z) (pos 0)).0 e) in
      absurd (ground (arith, h, zero_port))
  | inr e ↦ e
]

-- If the server starts to listen with some text as its port, then the client that is given the same
-- text and an address, and whose `::connect` succeeds, is connected to that address at the port on
-- which the server listens.
pub client_main-server_main :
    (inet_aton : Str → Option ℕ) (calls : Calls) (result : ℤ) (program address portnum : Str)
    (host port : ℕ)
    → server_main calls (program ∷ (portnum ∷ [])) ≡ some port
    → inet_aton address ≡ some host
    → is_negative result ≡ false
    → client_main inet_aton result (program ∷ (address ∷ (portnum ∷ [])))
      ≡ some (record { host = host; port = port })
unfolding server_main client_main
client_main-server_main inet_aton calls result program address portnum host port started found
      connected =
    let (nonzero, same) = checked calls (to_uint16 (strtol portnum)) port started in
    rw
      (
        to_int-nonzero (strtol portnum) nonzero,
        found,
        connect_tcp,
        connected,
        to_uint16-to_int (strtol portnum),
        same,
      )
      refl
