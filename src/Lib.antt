-- ===== src/Lib.antt =====
-- A bulletin board system with chat rooms: a server that keeps users, boards, posts and rooms,
-- clients that talk to it over TCP and UDP, and the formats in which they do.
--
-- The parts, and how they interact. A client sends packages, which are maps from field names to
-- texts (`Data_package`). socket.cpp turns a package into bytes (`Serialize`) and back
-- (`Deserialize`), and cuts the bytes into UDP packets, which the receiver puts together
-- (`insert_check`). server/server.cpp reads the type of a package and calls a handler, which
-- looks up the session's user in `logins`, calls a method of `Database`, and replies with a
-- package. server/database.cpp keeps boards, posts and rooms in memory, and users in SQLite.
-- client/client.cpp reads the lines that a user types, and for each asks the server by a
-- function of client/client_part.cpp, or enters a chat room. A room runs in the client of its
-- owner (client/server_part.cpp), which listens for the other clients and sends them what each
-- of them says.
--
-- The files:
--   Database/Types.antt: `POST`, `Chatroom`, the fields of `Database`, the replies
--     (server/database.h, server/database.cpp).
--   Database/Boards.antt, Posts.antt, Rooms.antt: `createBoard`, `listBoards`, `createPost`,
--     `listPosts`, `readPost`, `deletePost`, `updatePost`, `comment`, `getRoom`, `setRoom`,
--     `createChatroom`, `listChatroom`.
--   Database/Users.antt: `createTable`, `addUser`, `getUser`, `getUsers` over a parameter
--     `Sqlite` that stands for `sqlite3_exec`. Database/Accounts.antt: what SQLite documents
--     of their statements, as a record of laws, and what the methods do on them.
--     Database/Registrations.antt: sequences of registrations. Database/Injection.antt: texts
--     with quotes.
--   Database/Calls.antt: a client of the database, as a sequence of calls.
--   Database/Listing.antt, Pages.antt: what a board should list, said without the lists that
--     `boardInfos` keeps.
--   Database/Invariant.antt, Changes.antt, Safety.antt, Reading.antt, Ownership.antt: the
--     proofs on the database.
--   Server/State.antt: the globals `db` and `logins` of server/server.cpp, and the steps that
--     its handlers share.
--   Server/Sessions.antt, Boards.antt, Rooms.antt: the handlers `on_C_...`, under the same
--     names in snake case.
--   Server/Dispatch.antt: `handleTCP` and `dispatchUDP`, one package at a time.
--   Server/Invariant.antt, Serving/: what holds between two packages, and that the handlers
--     keep it. Server/Tokens.antt, Identity.antt: sessions that a login opens.
--     Server/Access.antt: requests without a valid token. Server/Faults.antt: where the
--     server falls short.
--   Server/Accounts.antt: registration and login on those laws. Server/Unordered.antt:
--     handlers and the order of fields. Server/Connection.antt: a round of `handleTCP` from
--     the calls of `::recv` on.
--   Wire/Package.antt, Codec.antt: `Data_package`, `Serialize`, `Deserialize` (socket.h,
--     socket.cpp). Wire/Bytes.antt: integers in memory, little-endian.
--   Wire/Udp/Packet.antt: `encode_UDP_packet`, `decode_UDP_packet`. Wire/Udp/Table.antt:
--     `insert_check` and the table of unfinished messages. Wire/Udp/Send.antt: one pass of
--     the inner loop of `send`. Wire/Udp/Sending.antt: the rounds of `UDP_socket::send`.
--     Wire/Udp/Returning.antt: when it returns. Wire/Udp/Receiving.antt: the rounds of
--     `UDP_socket::recv`. Wire/Udp/Arrivals.antt, Reassembly.antt: what the receiver makes of
--     the packets of a pass. Wire/Delivery.antt: a package from `Serialize` through UDP
--     packets to `Deserialize`.
--   Wire/Tcp.antt: `TCP_socket::send` and `TCP_socket::recv` on a stream of bytes.
--     Wire/Tcp/Framing.antt: the one reads what the other wrote. Wire/Tcp/Calls.antt: what
--     both return, by the results of `::send` and `::recv`.
--   Sockets.antt: constructors, copies, assignment, `accept`, `disconnect` and the destructor
--     of `TCP_socket` over the counters that `instances` points at, and a round of
--     `dispatchTCP`. Sockets/Actions.antt, Counting.antt, Counted.antt, Exact.antt: the
--     counters against the objects that are alive. Sockets/Accepting.antt, Lost.antt,
--     Closing.antt: descriptors that are never closed, or twice. Sockets/Udp.antt:
--     `UDP_socket`.
--   Startup.antt: `main` of both programs, `startServer`, `bind`, `listen` and `connect`.
--   Chat/Packages.antt, Room.antt: the packages of the room of client/server_part.cpp, and
--     the room. `server_listener` is `on_accept`, `server_recv_command` is `on_turn`, with a
--     stage for each of its waits, and a run is a list of events in the order in which
--     threads get their turns. Chat/History.antt, Silence.antt, Members.antt: what the room
--     remembers, whom it sends to, and who is in it.
--   Client/Requests.antt: the functions `on_C_...` of client/client_part.cpp, as `ask_...`.
--     Client/Tasks.antt: the operations on boards and posts, and `converse`, an exchange as
--     it should come out. Client/Carried.antt: an exchange as it is, with the request and its
--     reply as bytes. Client/Handling.antt, Service.antt: the operations against the methods
--     of the database.
--   Client/Commands.antt: the lines of `startClient` (client/client.cpp).
--     Client/Patterns.antt, Patterns/: what the standard library's `std::regex_match` does
--     with its patterns, which is no code of the repository. Client/Breaks.antt: the line
--     breaks of a content. Client/Lines.antt, Lines/, Typing.antt: the lines for the
--     operations on boards and posts.
--   Client/Deeds.antt: what the client does for a line, `startChat`, `sendMessage` and
--     `recvMessage`. Client/Chatting.antt, Speaking.antt: the packages between the clients
--     and the room. Client/Told.antt: a typed line as bytes at the room.
--   Prelude/Decimal.antt: `std::to_string`, `std::stoi` and `strtol`. Prelude/Ints.antt:
--     conversion to `int` and its `++`. Prelude/Search.antt: `std::string::find` and
--     `splitstr`. Prelude: tests, lists, maps, texts, and computations with a state that may
--     throw.
--   Tests: runs at concrete inputs.
--
-- State and errors. A method or handler is a function from the state to a result, which is a
-- value or an exception, and the state after it: what was changed before an exception stays
-- changed. Methods of `Database` hold their mutexes throughout, so each is one step. A handler
-- is one step too: `createChatroom` and the other changes of rooms hold `login_mutex`. That the
-- lists and maps of two handlers on different threads are never touched in the midst of a step
-- is assumed, though `on_C_exit` takes no lock.
--
-- Bounds and fuel. `char` is a number below 256, `int` a number with a sign; `stoi` checks the
-- range of 32 bits, and the sizes in `Serialize` and the numbers in a packet are cut to their
-- width. `post_serial` is the 32 bits of the `int postSerial`, which wrap; the theorems on
-- sequences of calls and packages are about so few that the largest `int` is not passed. What
-- `TCP_socket::recv` returns is cut to an `int`, and so are the size of a UDP message and the
-- product of its index and the size of a packet; beyond 2 ^ 31 - 1024 bytes that product
-- overflows, which C++ leaves undefined, and the theorems on UDP messages are about shorter
-- ones. Printing `n` has fuel `n + 1`, which is enough since each digit divides by ten;
-- `splitstr` has one more than the length of its text, and a pass of `send` one more than the
-- length of its message, over UDP and TCP alike, since each of their rounds takes at least one
-- byte. The loop over `<br>` has one more than the length of the text, which each round makes
-- shorter. The loop that draws a token runs on the numbers that the generator yields, as a
-- list. An `unordered_map` is an association list, so listings are in the order of that list.
--
-- The loops of `UDP_socket::send` and `recv` run on a list of rounds: whether a packet could be
-- sent, what came back, and whether the time limit is over. A thread of a chat room takes a
-- step between two waits or under one lock, and the threads take turns in any order; the
-- sockets are numbers, and what is sent to a closed one is sent to nobody. `std::regex_match`
-- is modelled as the search that it does on patterns of this form: each repetition takes as
-- much as it can, and gives back one character at a time.
--
-- In Wire/Tcp.antt, how much each `::recv` of a TCP socket gives is a list of numbers, as long
-- as the message is enough, and `::send` takes its whole buffer; in Wire/Tcp/Calls.antt both
-- may give less, or fail. A counter of sockets is an `atomic_int`, which wraps at 32 bits; the
-- theorems on it are about fewer than 2^31 - 1 actions, which do not reach that. What
-- `::socket`, `::setsockopt` and `::accept` return is an argument of an action.
--
-- Not modelled: signals and the creation of threads, which are calls of the operating system;
-- the instances of `Database`, of which there is one, and the opening of its file; the prompt
-- and the terminal of the client; a connection of the owner to the own room's listener that
-- fails, which ends the process. SQLite is a parameter: of its answers only the theorems on
-- accounts assume anything, and what they assume is the record `IsTable`.
pub mod Prelude
pub mod Database
pub mod Wire
pub mod Sockets
pub mod Startup
pub mod Server
pub mod Chat
pub mod Client
pub mod Tests
