-- ===== src/Sockets/Accepting.antt =====
-- The sockets that `accept` of socket.cpp is called on to write over.
use np_hw.Prelude.{
  ℕ, suc, ◌+◌, ◌*◌, ◌^◌, ◌<◌, ◌≡◌, refl, ◌∙◌, Option, some, List, [], ◌∷◌, ◌++◌, arith, ℤ, pos,
  nat_eq, if◌then◌else◌, length,
}
use np_hw.Sockets.{
  Peer, TcpSocket, Memory, Process, Action, destroys, increment, decrement, add_owner, own,
  construct, construct_from, copy, assign, disconnect, destroy, take_over, accept, act, run,
  started, is_negative, Connection, dispatch_round, dispatched,
}
use np_hw.Sockets.Counting.{decrement-positive}

-- The temporary object leaves its counter at one, for the object that was written over.
pub counter-take_over :
    (s : TcpSocket) (peer : Option Peer) (d : ℤ) (m : Memory) (k : ℕ)
    → (take_over s peer (own d m)).1.counter k ≡ (if nat_eq m.next k then 1 else m.counter k)
unfolding take_over own assign destroy add_owner increment decrement disconnect
counter-take_over s peer d m k = ground arith

pub closes-take_over :
    (s : TcpSocket) (peer : Option Peer) (d : ℤ) (m : Memory)
    → (take_over s peer (own d m)).1.closes ≡ m.closes
unfolding take_over own assign destroy add_owner increment decrement disconnect
closes-take_over s peer d m = ground arith

pub next-take_over :
    (s : TcpSocket) (peer : Option Peer) (d : ℤ) (m : Memory)
    → (take_over s peer (own d m)).1.next ≡ suc m.next
unfolding take_over own assign destroy add_owner increment decrement disconnect
next-take_over s peer d m = ground arith

length-destroy :
    (s : TcpSocket) (m : Memory) (c : ℕ)
    → m.counter s.instances ≡ suc c
    → suc c < 2 ^ 32
    → length (destroy s m).closes ≡ (if nat_eq c 0 then 1 else 0) + length m.closes
unfolding destroy disconnect
length-destroy s m c h b = ground (arith, decrement-positive (suc c) (omega arith) b)

-- The memory after a round of `dispatchTCP` whose thread has ended.
module _ (c : Connection) (m : Memory) where
  abbrev made : TcpSocket × Memory
  made = own (pos c.unused) m

  abbrev taken : TcpSocket × Memory
  taken = take_over made.0 (some c.peer) (own (pos c.so) made.1)

  abbrev shared : Memory
  shared = (copy taken.0 taken.1).1

  abbrev left : Memory
  left = destroy taken.0 shared

  abbrev ended : Memory
  ended = destroy (copy taken.0 taken.1).0 left

  run-ended :
      (actions : List Action)
      → run (dispatch_round c ++ (destroys 0 ∷ actions)) (record { live = []; memory = m })
        ≡ run actions (record { live = []; memory = ended })
  unfolding run act construct accept construct_from is_negative dispatch_round copy take_over
  run-ended actions = refl

  next-ended : ended.next ≡ suc (suc m.next)
  unfolding copy take_over assign own add_owner increment decrement destroy disconnect
  next-ended = ground arith

  length-ended : length ended.closes ≡ suc (length m.closes)
  unfolding copy take_over assign own add_owner increment decrement destroy disconnect
  length-ended = ground arith

dispatched-from :
    (cs : List Connection) (m : Memory)
    → (q : Process) × (run (dispatched cs) (record { live = []; memory = m }) ≡ some q)
      × (q.live ≡ [])
      × (q.memory.next ≡ m.next + 2 * length cs)
      × (length q.memory.closes ≡ length m.closes + length cs)
unfolding run dispatched
dispatched-from [] m = (record { live = []; memory = m }, refl, refl, omega arith, omega arith)
dispatched-from (c ∷ cs) m =
    let (q, e, gone, opened, closed) = dispatched-from cs (ended c m) in
    (
      q,
      run-ended c m (dispatched cs) ∙ e,
      gone,
      omega (arith, opened, next-ended c m),
      omega (arith, closed, length-ended c m),
    )

-- After any connections, each of whose threads has ended before the next comes, no object is alive,
-- but of the two descriptors that `dispatchTCP` had opened for each connection only one is closed.
pub dispatched-leaks :
    (cs : List Connection)
    → (q : Process) × (run (dispatched cs) started ≡ some q)
      × (q.live ≡ [])
      × (q.memory.next ≡ 2 * length cs)
      × (length q.memory.closes ≡ length cs)
unfolding started
dispatched-leaks cs =
    let (q, e, gone, opened, closed) = dispatched-from cs started.memory in
    (q, e, gone, omega (arith, opened), omega (arith, closed))
