-- ===== src/Sockets/Closing.antt =====
-- `disconnect` beside the destructor (socket.cpp), as `on_C_exit` of server/server.cpp calls it.
use np_hw.Prelude.{ℕ, suc, ◌≡◌, ◌<◌, refl, true, false, some, [], ◌∷◌, arith, get_elem?}
use np_hw.Sockets.{
  TcpSocket, Memory, Process, constructs, disconnects, destroys, decrement, own, construct,
  is_negative, disconnect, destroy, remove_at, act, run, increment, ◌>>=◌,
}
use np_hw.Sockets.Counting.{decrement-positive}

-- The object that another thread makes of the descriptor that `disconnect` gave back.
abbrev reused : TcpSocket → Memory → TcpSocket × Memory
reused s m = own s.tcp_sock (disconnect s m)

counted_down : decrement 1 ≡ 0
counted_down = decrement-positive 1 (omega arith) (omega arith)

closes-destroy_again :
    (s : TcpSocket) (m : Memory)
    → m.counter s.instances ≡ 1
    → s.instances < m.next
    → (destroy s (reused s m).1).closes ≡ s ∷ (s ∷ m.closes)
unfolding destroy own disconnect
closes-destroy_again s m at_one h = ground (arith, at_one, counted_down)

counter-destroy_again :
    (s : TcpSocket) (m : Memory)
    → s.instances < m.next
    → (destroy s (reused s m).1).counter (reused s m).0.instances ≡ 1
unfolding destroy own disconnect increment
counter-destroy_again s m h = ground arith

-- If a thread calls `disconnect` on a socket that nobody shares, another thread then opens a
-- socket and is given the number that became free, and the first socket is destroyed, the number
-- is closed a second time, while the other thread's object counts one owner of it.
pub destroy-disconnect :
    (p : Process) (i : ℕ) (s : TcpSocket)
    → get_elem? p.live i ≡ some s
    → is_negative s.tcp_sock ≡ false
    → p.memory.counter s.instances ≡ 1
    → s.instances < p.memory.next
    → (q : Process) × (u : TcpSocket) × (run
          (disconnects i ∷ (constructs s.tcp_sock true ∷ (destroys (suc i) ∷ [])))
          p
        ≡ some q)
      × (q.memory.closes ≡ s ∷ (s ∷ p.memory.closes))
      × (get_elem? q.live 0 ≡ some u)
      × (u.tcp_sock ≡ s.tcp_sock)
      × (q.memory.counter u.instances ≡ 1)
unfolding run act construct own
destroy-disconnect p i s e n at_one h = (
  record {
    live = (reused s p.memory).0 ∷ remove_at i p.live;
    memory = destroy s (reused s p.memory).1;
  },
  (reused s p.memory).0,
  rw (e, ◌>>=◌, n, ◌>>=◌, e) refl,
  closes-destroy_again s p.memory at_one h,
  refl,
  refl,
  counter-destroy_again s p.memory h,
)
