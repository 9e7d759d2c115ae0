-- ===== src/Sockets.antt =====
-- The lifetime of a `TCP_socket` (socket.h, socket.cpp): the descriptor, the objects that share it,
-- and the counter in `instances` that tells the last of them to close it.
pub mod Actions
pub mod Counting
pub mod Counted
pub mod Exact
pub mod Accepting
pub mod Lost
pub mod Closing
pub mod Udp
use np_hw.Prelude.{
  ℕ, zero, suc, ◌+◌, ◌-◌, ◌%◌, ◌^◌, Bool, true, false, ◌&&◌, not, Option, none, some, List, [], ◌∷◌,
  ◌++◌, ℤ, pos, negsuc, nat_eq, if◌then◌else◌, get_elem?, set,
}

-- The host and the port of a `sockaddr_in`.
pub record Peer : Type 0 where
  pub host : ℕ
  pub port : ℕ

-- `instances` is the place of the counter. `connect_addr` is none where nothing was written to it.
pub record TcpSocket : Type 0 where
  pub tcp_sock : ℤ
  pub closed : Bool
  pub connect_addr : Option Peer
  pub instances : ℕ

-- The counters that have been made are those below `next`. `closes` lists the calls of `::close`,
-- the last one first, each with the object that made it.
pub record Memory : Type 0 where
  pub counter : ℕ → ℕ
  pub next : ℕ
  pub closes : List TcpSocket

-- An `atomic_int`, as the number that its 32 bits are without a sign.
unfoldable pub increment : ℕ → ℕ
increment n = (n + 1) % 2 ^ 32

unfoldable pub decrement : ℕ → ℕ
decrement n = (n + (2 ^ 32 - 1)) % 2 ^ 32

abbrev pub update : (ℕ → ℕ) → ℕ → ℕ → ℕ → ℕ
update counter k n i = if nat_eq k i then n else counter i

unfoldable pub add_owner : ℕ → Memory → Memory
add_owner k m = record m { counter = update m.counter k (increment (m.counter k)) }

-- What all constructors but the copying one end with: a counter for this object alone.
unfoldable pub own : ℤ → Memory → TcpSocket × Memory
own descriptor m = (
  record { tcp_sock = descriptor; closed = false; connect_addr = none; instances = m.next },
  record m { counter = update m.counter m.next (increment 0); next = suc m.next },
)

unfoldable pub is_negative : ℤ → Bool
is_negative (pos n) = false
is_negative (negsuc n) = true

-- `TCP_socket()`, where `::socket` returns `answer` and `reuses` says whether `::setsockopt`
-- succeeds; `none` where the process ends.
unfoldable pub construct : ℤ → Bool → Memory → Option (TcpSocket × Memory)
construct answer reuses m =
    if is_negative answer then none else (if reuses then some (own answer m) else none)

-- `TCP_socket(int)`
unfoldable pub construct_from : ℤ → Bool → Memory → Option (TcpSocket × Memory)
construct_from sock reuses m = if reuses then some (own sock m) else none

-- `TCP_socket(const TCP_socket &)`
unfoldable pub copy : TcpSocket → Memory → TcpSocket × Memory
copy old m = (
  record {
    tcp_sock = old.tcp_sock;
    closed = old.closed;
    connect_addr = old.connect_addr;
    instances = old.instances;
  },
  add_owner old.instances m,
)

-- `operator=`: what `instances` pointed at before is left as it is.
unfoldable pub assign : TcpSocket → TcpSocket → Memory → TcpSocket × Memory
assign this sock m = (
  record this {
    tcp_sock = sock.tcp_sock;
    closed = sock.closed;
    connect_addr = sock.connect_addr;
    instances = sock.instances;
  },
  add_owner sock.instances m,
)

unfoldable pub disconnect : TcpSocket → Memory → Memory
disconnect s m = record m { closes = s ∷ m.closes }

-- `~TCP_socket()`
unfoldable pub destroy : TcpSocket → Memory → Memory
destroy s m =
    let left = decrement (m.counter s.instances) in
    let counted = record m { counter = update m.counter s.instances left } in
    if nat_eq left 0 then disconnect s counted else counted

infixl 5 ◌>>=◌ ◌>>◌
abbrev pub ◌>>=◌ : {A B : Type 0} → Option A → (A → Option B) → Option B
none >>= f = none
some a >>= f = f a

abbrev pub ◌>>◌ : {A B : Type 0} → Option A → Option B → Option B
first >> next = first >>= λ _. next

-- What `::accept` returns: a descriptor and the address of the peer, or -1 with or without `EINTR`.
pub data Accepted : Type 0 where
  connection : ℤ → Peer → Accepted
  interrupted failed : Accepted

-- The end of `accept`, for the temporary object of `TCP_socket(so)`, which is gone before
-- `connect_addr` is written.
unfoldable pub take_over : TcpSocket → Option Peer → TcpSocket × Memory → TcpSocket × Memory
unfolding assign destroy
take_over sock peer (temporary, m) =
    let (assigned, shared) = assign sock temporary m in
    (record assigned { connect_addr = peer }, destroy temporary shared)

unfoldable pub accept : Accepted → Bool → TcpSocket → Memory → Option (TcpSocket × Memory)
unfolding construct_from take_over
accept (connection so peer) reuses sock m = do
  made ← construct_from so reuses m
  some (take_over sock (some peer) made)
accept interrupted reuses sock m = do
  made ← construct_from (negsuc 0) reuses m
  some (take_over sock none made)
accept failed reuses sock m = none

-- What a thread does to the objects; those that are alive are named by their places in a list.
pub data Action : Type 0 where
  constructs : ℤ → Bool → Action
  copies : ℕ → Action
  assigns : ℕ → ℕ → Action
  accepts : ℕ → Accepted → Bool → Action
  disconnects : ℕ → Action
  destroys : ℕ → Action

pub record Process : Type 0 where
  pub live : List TcpSocket
  pub memory : Memory

unfoldable pub started : Process
started = record { live = []; memory = record { counter = λ k. 0; next = 0; closes = [] } }

abbrev pub remove_at : ℕ → List TcpSocket → List TcpSocket
remove_at i [] = []
remove_at zero (s ∷ live) = live
remove_at (suc i) (s ∷ live) = s ∷ remove_at i live

abbrev pub enter : List TcpSocket → TcpSocket × Memory → Process
enter live (s, m) = record { live = s ∷ live; memory = m }

abbrev pub put : ℕ → List TcpSocket → TcpSocket × Memory → Process
put i live (s, m) = record { live = set live i s; memory = m }

-- `none` where the process ends, or there is no such object.
unfoldable pub act : Action → Process → Option Process
unfolding construct copy assign accept disconnect destroy
act (constructs answer reuses) p = do
  made ← construct answer reuses p.memory
  some (enter p.live made)
act (copies i) p = do s ← get_elem? p.live i; some (enter p.live (copy s p.memory))
act (assigns i j) p = do
  this ← get_elem? p.live i
  sock ← get_elem? p.live j
  some (put i p.live (assign this sock p.memory))
act (accepts i answer reuses) p = do
  sock ← get_elem? p.live i
  taken ← accept answer reuses sock p.memory
  some (put i p.live taken)
act (disconnects i) p = do
  s ← get_elem? p.live i
  some (record p { memory = disconnect s p.memory })
act (destroys i) p = do
  s ← get_elem? p.live i
  some (record { live = remove_at i p.live; memory = destroy s p.memory })

unfoldable pub run : List Action → Process → Option Process
unfolding act
run [] p = some p
run (a ∷ actions) p = act a p >>= run actions

-- The socket that `::socket` opens for an object, and that of the connection with its peer.
pub record Connection : Type 0 where
  pub unused : ℕ
  pub so : ℕ
  pub peer : Peer

-- One round of `dispatchTCP` of server/server.cpp: `TCP_socket sock`, `accept`, the copy that the
-- thread is given, and the end of the block.
unfoldable pub dispatch_round : Connection → List Action
dispatch_round c =
    constructs (pos c.unused) true
    ∷ (accepts 0 (connection (pos c.so) c.peer) true ∷ (copies 0 ∷ (destroys 1 ∷ [])))

-- Rounds each of whose threads has ended before the next connection comes.
unfoldable pub dispatched : List Connection → List Action
unfolding dispatch_round
dispatched [] = []
dispatched (c ∷ cs) = dispatch_round c ++ (destroys 0 ∷ dispatched cs)
