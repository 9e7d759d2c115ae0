-- ===== src/Sockets/Udp.antt =====
-- The lifetime of a `UDP_socket` (socket.h, socket.cpp).
use mathlib.Core.Option
use np_hw.Prelude.{
  ℕ, zero, suc, ◌-◌, ◌^◌, ◌<◌, ◌≤◌, ◌++◌, ◌≡◌, refl, ap, ◌∙◌, Bool, true, false, Option, none, some,
  List, [], ◌∷◌, arith, ℤ, pos, negsuc, nat_eq, if◌then◌else◌, get_elem?, map, length, AllOf,
}
use np_hw.Sockets.{
  TcpSocket, Memory, Process, Action, constructs, copies, destroys, add_owner, own, is_negative,
  construct, copy, destroy, act, run, started, remove_at, increment, update, ◌>>=◌,
}
use np_hw.Sockets.Actions.{bind-some, some_inj}
use np_hw.Sockets.Counting.{owners}
use np_hw.Sockets.Exact.{only_owns, closes-exactly}

-- `instances` and `msg_id_gen` are the places of the counter and of the generator. A copy leaves
-- `msg_queue_size` unset.
pub record UdpSocket : Type 0 where
  pub udp_sock : ℤ
  pub closed : Bool
  pub instances : ℕ
  pub msg_id_gen : ℕ
  pub msg_queue_size : Option ℕ

-- The counters, and the generators of message numbers below `next_gen`.
pub record UdpMemory : Type 0 where
  pub counters : Memory
  pub generator : ℕ → ℕ
  pub next_gen : ℕ

-- What the counter sees of a socket.
abbrev pub owner_of : UdpSocket → TcpSocket
owner_of u = record {
  tcp_sock = u.udp_sock;
  closed = u.closed;
  connect_addr = none;
  instances = u.instances;
}

-- `UDP_socket(size_t)`, where `::socket` returns `answer`; `none` where the process ends.
unfoldable pub construct_udp : ℤ → ℕ → UdpMemory → Option (UdpSocket × UdpMemory)
construct_udp answer msg_queue_size m =
    if is_negative answer
    then none
    else some (
      record {
        udp_sock = answer;
        closed = false;
        instances = m.counters.next;
        msg_id_gen = m.next_gen;
        msg_queue_size = some msg_queue_size;
      },
      record {
        counters = record m.counters {
          counter = update m.counters.counter m.counters.next (increment 0);
          next = suc m.counters.next;
        };
        generator = update m.generator m.next_gen 0;
        next_gen = suc m.next_gen;
      },
    )

-- `UDP_socket(const UDP_socket &)`
unfoldable pub copy_udp : UdpSocket → UdpMemory → UdpSocket × UdpMemory
copy_udp old m = (
  record {
    udp_sock = old.udp_sock;
    closed = old.closed;
    instances = old.instances;
    msg_id_gen = old.msg_id_gen;
    msg_queue_size = none;
  },
  record m { counters = add_owner old.instances m.counters },
)

-- `~UDP_socket()`
unfoldable pub destroy_udp : UdpSocket → UdpMemory → UdpMemory
destroy_udp u m = record m { counters = destroy (owner_of u) m.counters }

-- `(*msg_id_gen)++`, as the number that the 32 bits are without a sign.
unfoldable pub draw_id : UdpSocket → UdpMemory → ℕ × UdpMemory
draw_id u m =
    let id = m.generator u.msg_id_gen in
    (id, record m { generator = update m.generator u.msg_id_gen (increment id) })

pub data UdpAction : Type 0 where
  constructs_udp : ℤ → ℕ → UdpAction
  copies_udp : ℕ → UdpAction
  destroys_udp : ℕ → UdpAction
  draws_id : ℕ → UdpAction

pub record UdpProcess : Type 0 where
  pub sockets : List UdpSocket
  pub memory : UdpMemory

abbrev pub drop_at : ℕ → List UdpSocket → List UdpSocket
drop_at i [] = []
drop_at zero (u ∷ sockets) = sockets
drop_at (suc i) (u ∷ sockets) = u ∷ drop_at i sockets

abbrev pub enter_udp : List UdpSocket → UdpSocket × UdpMemory → UdpProcess
enter_udp sockets (u, m) = record { sockets = u ∷ sockets; memory = m }

unfoldable pub act_udp : UdpAction → UdpProcess → Option UdpProcess
unfolding construct_udp copy_udp destroy_udp draw_id
act_udp (constructs_udp answer msg_queue_size) p = do
  made ← construct_udp answer msg_queue_size p.memory
  some (enter_udp p.sockets made)
act_udp (copies_udp i) p = do
  u ← get_elem? p.sockets i
  some (enter_udp p.sockets (copy_udp u p.memory))
act_udp (destroys_udp i) p = do
  u ← get_elem? p.sockets i
  some (record { sockets = drop_at i p.sockets; memory = destroy_udp u p.memory })
act_udp (draws_id i) p = do
  u ← get_elem? p.sockets i
  some (record p { memory = (draw_id u p.memory).1 })

unfoldable pub run_udp : List UdpAction → UdpProcess → Option UdpProcess
unfolding act_udp
run_udp [] p = some p
run_udp (a ∷ actions) p = act_udp a p >>= run_udp actions

-- What the counters see of a run: a number that is drawn is no action.
abbrev seen : UdpAction → List Action
seen (constructs_udp answer msg_queue_size) = constructs answer true ∷ []
seen (copies_udp i) = copies i ∷ []
seen (destroys_udp i) = destroys i ∷ []
seen (draws_id i) = []

abbrev view : UdpProcess → Process
view p = record { live = map owner_of p.sockets; memory = p.memory.counters }

get_elem?-map :
    (sockets : List UdpSocket) (i : ℕ) (u : UdpSocket)
    → get_elem? sockets i ≡ some u
    → get_elem? (map owner_of sockets) i ≡ some (owner_of u)
get_elem?-map [] i u h = cc
get_elem?-map (v ∷ sockets) zero u h = ap (λ o. Option.map owner_of o) h
get_elem?-map (v ∷ sockets) (suc i) u h = get_elem?-map sockets i u h

remove_at-map :
    (i : ℕ) (sockets : List UdpSocket)
    → remove_at i (map owner_of sockets) ≡ map owner_of (drop_at i sockets)
remove_at-map i [] = refl
remove_at-map zero (u ∷ sockets) = refl
remove_at-map (suc i) (u ∷ sockets) = ap (◌∷◌ (owner_of u)) (remove_at-map i sockets)

run-seen :
    (a : UdpAction) (p q : UdpProcess)
    → act_udp a p ≡ some q
    → run (seen a) (view p) ≡ some (view q)
unfolding act_udp run act construct is_negative own copy
run-seen (constructs_udp (pos n) size) p q h = ap (λ r. some (view r)) (some_inj h)
run-seen (constructs_udp (negsuc n) size) p q h = cc
run-seen (copies_udp i) p q h =
    let (u, e, g) = bind-some (get_elem? p.sockets i) _ q h in
    rw (get_elem?-map p.sockets i u e, ◌>>=◌) (ap (λ r. some (view r)) (some_inj g))
run-seen (destroys_udp i) p q h =
    let (u, e, g) = bind-some (get_elem? p.sockets i) _ q h in
    rw (get_elem?-map p.sockets i u e, ◌>>=◌, remove_at-map i p.sockets)
      (ap (λ r. some (view r)) (some_inj g))
run-seen (draws_id i) p q h =
    let (u, e, g) = bind-some (get_elem? p.sockets i) _ q h in ap (λ r. some (view r)) (some_inj g)

seen_all : List UdpAction → List Action
seen_all [] = []
seen_all (a ∷ actions) = seen a ++ seen_all actions

seen_all-only_owns : (actions : List UdpAction) → AllOf only_owns (seen_all actions)
unfolding seen_all only_owns
seen_all-only_owns [] = tt
seen_all-only_owns (constructs_udp answer size ∷ actions) = (refl, seen_all-only_owns actions)
seen_all-only_owns (copies_udp i ∷ actions) = (refl, seen_all-only_owns actions)
seen_all-only_owns (destroys_udp i ∷ actions) = (refl, seen_all-only_owns actions)
seen_all-only_owns (draws_id i ∷ actions) = seen_all-only_owns actions

length-seen_all : (actions : List UdpAction) → length (seen_all actions) ≤ length actions
unfolding seen_all
length-seen_all [] = omega arith
length-seen_all (constructs_udp answer size ∷ actions) = omega (arith, length-seen_all actions)
length-seen_all (copies_udp i ∷ actions) = omega (arith, length-seen_all actions)
length-seen_all (destroys_udp i ∷ actions) = omega (arith, length-seen_all actions)
length-seen_all (draws_id i ∷ actions) = omega (arith, length-seen_all actions)

run-append :
    (first rest : List Action) (p q : Process)
    → run first p ≡ some q
    → run (first ++ rest) p ≡ run rest q
unfolding run
run-append [] rest p q h = ap (run rest) (some_inj h)
run-append (a ∷ first) rest p q h =
    let (r, e, g) = bind-some (act a p) (run first) q h in
    rw (e, ◌>>=◌) (run-append first rest r q g)

run_udp-seen :
    (actions : List UdpAction) (p q : UdpProcess)
    → run_udp actions p ≡ some q
    → run (seen_all actions) (view p) ≡ some (view q)
unfolding run_udp seen_all run
run_udp-seen [] p q h = ap (λ r. some (view r)) (some_inj h)
run_udp-seen (a ∷ actions) p q h =
    let (r, e, g) = bind-some (act_udp a p) (run_udp actions) q h in
    run-append (seen a) (seen_all actions) (view p) (view r) (run-seen a p r e)
    ∙ run_udp-seen actions r q g

unfoldable pub started_udp : UdpProcess
unfolding started
started_udp = record {
  sockets = [];
  memory = record { counters = started.memory; generator = λ k. 0; next_gen = 0 };
}

-- The counters of UDP sockets count as those of TCP sockets: after any of their actions, fewer than
-- 2^31 - 1, a descriptor was closed exactly once if no socket that shares its counter is alive, and
-- not at all while one is.
pub closes_udp-exactly :
    (actions : List UdpAction) (q : UdpProcess) (k : ℕ)
    → length actions < 2 ^ 31 - 1
    → run_udp actions started_udp ≡ some q
    → k < q.memory.counters.next
    → owners k q.memory.counters.closes
      ≡ (if nat_eq (owners k (map owner_of q.sockets)) 0 then 1 else 0)
unfolding started_udp
closes_udp-exactly actions q k b h u =
    closes-exactly (seen_all actions) (view q) k (seen_all-only_owns actions)
      (omega (arith, b, length-seen_all actions)) (run_udp-seen actions started_udp q h) u
