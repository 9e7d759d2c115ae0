-- ===== src/Tests/Sockets.antt =====
-- The lifetime of sockets at concrete inputs.
use np_hw.Prelude.{
  ◌≡◌, ◌≤◌, ◌⊎◌, refl, true, some, List, [], ◌∷◌, arith, pos, nat_eq, if◌then◌else◌, get_elem?,
}
use np_hw.Sockets.{
  TcpSocket, Memory, Process, Action, constructs, copies, assigns, disconnects, destroys,
  connection, run, act, started, own, copy, assign, take_over, destroy, add_owner, increment,
  decrement, disconnect, construct, accept, construct_from, is_negative, enter, put, Peer,
}
use np_hw.Sockets.Counting.{owners}
use np_hw.Sockets.Counted.{keeps_open, closes-once}
use np_hw.Sockets.Exact.{only_owns, closes-exactly}
use np_hw.Sockets.Lost.{accept-loses}
use np_hw.Sockets.Closing.{destroy-disconnect}

abbrev some_peer : Peer
some_peer = record { host = 1; port = 2 }

-- A socket, its copy, and their ends.
abbrev first : TcpSocket × Memory
first = own (pos 3) started.memory

abbrev second : TcpSocket × Memory
second = copy first.0 first.1

abbrev both_gone : Process
both_gone = record { live = []; memory = destroy first.0 (destroy second.0 second.1) }

abbrev come_and_go : List Action
come_and_go = constructs (pos 3) true ∷ (copies 0 ∷ (destroys 0 ∷ (destroys 0 ∷ [])))

run-come_and_go : run come_and_go started ≡ some both_gone
unfolding run act construct is_negative started copy
run-come_and_go = refl

closes-exactly_example :
    owners 0 both_gone.memory.closes ≡ (if nat_eq (owners 0 both_gone.live) 0 then 1 else 0)
unfolding only_owns destroy
closes-exactly_example =
    closes-exactly come_and_go both_gone 0 (refl, (refl, (refl, (refl, tt)))) (omega arith)
      run-come_and_go
      (unfold destroy copy own add_owner started increment decrement disconnect in omega arith)

-- A socket that is assigned over another, which is lost.
abbrev over : TcpSocket × Memory
over = assign (own (pos 4) first.1).0 first.0 (own (pos 4) first.1).1

abbrev overwritten : Process
overwritten = record { live = over.0 ∷ (first.0 ∷ []); memory = over.1 }

abbrev write_over : List Action
write_over = constructs (pos 3) true ∷ (constructs (pos 4) true ∷ (assigns 0 1 ∷ []))

run-write_over : run write_over started ≡ some overwritten
unfolding run act construct is_negative started own assign
run-write_over = refl

closes-once_example :
    (owners 0 overwritten.memory.closes ≤ 1)
    × ((owners 0 overwritten.memory.closes ≡ 0) ⊎ (owners 0 overwritten.live ≡ 0))
unfolding keeps_open
closes-once_example =
    closes-once write_over overwritten 0 (refl, (refl, (refl, tt))) (omega arith) run-write_over

-- A round of the server's loop up to `accept`, and after it.
abbrev waiting : Process
waiting = record {
  live = (own (pos 4) first.1).0 ∷ (first.0 ∷ []);
  memory = (own (pos 4) first.1).1;
}

abbrev taken : TcpSocket × Memory
taken = take_over (own (pos 4) first.1).0 (some some_peer) (own (pos 5) waiting.memory)

abbrev accepted : Process
accepted = put 0 waiting.live taken

abbrev handed_on : Process
handed_on = record { live = first.0 ∷ []; memory = destroy taken.0 taken.1 }

run-waiting : run (constructs (pos 3) true ∷ (constructs (pos 4) true ∷ [])) started ≡ some waiting
unfolding run act construct is_negative started
run-waiting = refl

accept-loses_example :
    (owners (own (pos 4) first.1).0.instances handed_on.live ≡ 0)
    × (owners (own (pos 4) first.1).0.instances handed_on.memory.closes ≡ 0)
unfolding keeps_open
accept-loses_example =
    accept-loses (constructs (pos 3) true ∷ (constructs (pos 4) true ∷ [])) (destroys 0 ∷ []) 0
      (connection (pos 5) some_peer) true (own (pos 4) first.1).0 waiting accepted handed_on
      (refl, (refl, tt)) (refl, tt) (omega arith) run-waiting
      (refl, unfold owners own started in refl) (unfold act accept construct_from in refl)
      (unfold run act take_over assign own in refl)

destroy-disconnect_example :
    (q : Process) × (u : TcpSocket) × (run
        (disconnects 0 ∷ (constructs (pos 3) true ∷ (destroys 1 ∷ [])))
        (enter [] first)
      ≡ some q)
    × (q.memory.closes ≡ first.0 ∷ (first.0 ∷ []))
    × (get_elem? q.live 0 ≡ some u)
    × (u.tcp_sock ≡ pos 3)
    × (q.memory.counter u.instances ≡ 1)
unfolding own is_negative started increment
destroy-disconnect_example =
    destroy-disconnect (enter [] first) 0 first.0 refl refl refl (omega arith)
