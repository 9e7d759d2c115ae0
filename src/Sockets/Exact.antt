-- ===== src/Sockets/Exact.antt =====
-- Sockets of socket.cpp that no assignment writes over.
use np_hw.Prelude.{
  ℕ, ◌+◌, ◌-◌, ◌*◌, ◌^◌, ◌≤◌, ◌<◌, ◌≡◌, refl, ap, subst, Bool, true, false, some, List, [], ◌∷◌,
  arith, ℤ, nat_eq, if◌then◌else◌, get_elem?, length, AllOf, AllOf-weaken, nat_eq_iff,
}
use np_hw.Sockets.Actions.{act_cases, bind-some, some_inj}
use np_hw.Sockets.{
  TcpSocket, Memory, Process, Action, constructs, copies, assigns, accepts, disconnects, destroys,
  increment, add_owner, own, copy, destroy, remove_at, act, run, started,
}
use np_hw.Sockets.Counting.{
  one, owners, owners-get, owners-remove_at, IsCounted, counter-add_owner, counter-destroy,
  closes-destroy, next-destroy, increment-small,
}
use np_hw.Sockets.Counted.{run-IsCounted, act-IsCounted, keeps_open, started-IsCounted}

-- The counter at `k` is the number of objects there, and its descriptor is closed once it is zero.
pub record IsExactAt (k : ℕ) (live : List TcpSocket) (m : Memory) : Type 0 where
  pub equal : owners k live ≡ m.counter k
  pub finished : k < m.next → m.counter k ≡ 0 → owners k m.closes ≡ 1

abbrev pub IsExact : List TcpSocket → Memory → Type 0
IsExact live m = (k : ℕ) → IsExactAt k live m

-- Constructors and destructors only.
unfoldable pub only_owns : Action → Bool
only_owns (constructs d reuses) = true
only_owns (copies i) = true
only_owns (destroys i) = true
only_owns _ = false

only_owns-keeps_open : (a : Action) → only_owns a ≡ true → keeps_open a ≡ true
unfolding only_owns keeps_open
only_owns-keeps_open (constructs d reuses) h = refl
only_owns-keeps_open (copies i) h = refl
only_owns-keeps_open (assigns i j) h = cc
only_owns-keeps_open (accepts i a reuses) h = cc
only_owns-keeps_open (disconnects i) h = cc
only_owns-keeps_open (destroys i) h = refl

module _ (n : ℕ) (live : List TcpSocket) (m : Memory) (counted : IsCounted n live m)
    (b : n + 2 < 2 ^ 32) (exact : IsExact live m) where
  own-IsExact : (d : ℤ) → IsExact ((own d m).0 ∷ live) (own d m).1
  unfolding own owners one
  own-IsExact d k =
      let before = exact k in
      let first : increment 0 ≡ 1 = increment-small 0 (omega arith) in
      record {
        equal = ground (arith, before.equal, (counted k).unused, first);
        finished = λ u z. ground (arith, before.finished, first, u, z);
      }

  copy-IsExact :
      (i : ℕ) (s : TcpSocket)
      → get_elem? live i ≡ some s
      → IsExact ((copy s m).0 ∷ live) (copy s m).1
  unfolding copy owners one add_owner
  copy-IsExact i s h k =
      let before = exact k in
      let more =
        counter-add_owner s.instances k m (omega (arith, b, (counted s.instances).bounded)) in
      record {
        equal = ground (arith, before.equal, more);
        finished = λ u z. ground (arith, before.finished, more, u, z);
      }

  destroy-IsExact :
      (i : ℕ) (s : TcpSocket) → get_elem? live i ≡ some s → IsExact (remove_at i live) (destroy s m)
  unfolding one
  destroy-IsExact i s h k =
      let before = exact k in
      let at_s = counted s.instances in
      let there = owners-remove_at k i live s h in
      let positive : 1 ≤ m.counter s.instances = omega (arith, owners-get i live s h, at_s.owned) in
      let below : m.counter s.instances < 2 ^ 32 = omega (arith, at_s.bounded, b) in
      let less = counter-destroy s k m positive below in
      let closing = closes-destroy s k m positive below in
      let same : nat_eq s.instances k ≡ true → m.counter s.instances ≡ m.counter k =
        λ e. ap m.counter ((nat_eq_iff s.instances k).0 e) in
      let next = next-destroy s m in
      record {
        equal = ground (arith, before.equal, there, less);
        finished = λ u z.
            ground
              (arith, before.finished, (counted k).still_open, same, less, closing, next, u, z);
      }

act-IsExact :
    (n : ℕ) (p : Process)
    → IsCounted n p.live p.memory
    → n + 2 < 2 ^ 32
    → IsExact p.live p.memory
    → (a : Action) (q : Process) → act a p ≡ some q
    → only_owns a ≡ true
    → IsExact q.live q.memory
unfolding only_owns
act-IsExact n p counted b exact =
    let live = p.live in
    let m = p.memory in
    act_cases (λ a q. only_owns a ≡ true → IsExact q.live q.memory) p
      (λ d reuses o. own-IsExact n live m counted b exact d)
      (λ i s h o. copy-IsExact n live m counted b exact i s h) (λ i j s t h g o. cc)
      (λ i s answer reuses d peer h o. cc) (λ i s h o. cc)
      (λ i s h o. destroy-IsExact n live m counted b exact i s h)

run-IsExact :
    (actions : List Action) (n : ℕ) (p q : Process)
    → IsCounted n p.live p.memory
    → IsExact p.live p.memory
    → AllOf only_owns actions
    → n + 2 * length actions < 2 ^ 32
    → run actions p ≡ some q
    → IsExact q.live q.memory
unfolding run
run-IsExact [] n p q counted exact o b h = subst (λ r. IsExact r.live r.memory) (some_inj h) exact
run-IsExact (a ∷ actions) n p q counted exact o b h =
    let (r, e, g) = bind-some (act a p) (run actions) q h in
    let small : n + 2 < 2 ^ 32 = omega (arith, b) in
    let after = act-IsCounted n p counted small a r e (only_owns-keeps_open a o.0) in
    let exactly = act-IsExact n p counted small exact a r e o.0 in
    run-IsExact actions (n + 2) r q after exactly o.1 (omega (arith, b)) g

started-IsExact : IsExact started.live started.memory
unfolding started owners
started-IsExact k = record { equal = refl; finished = λ u z. absurd (omega (arith, u)) }

-- If a process only constructs, copies and destroys its sockets, in any order and in fewer than
-- 2^31 - 1 actions, then for each counter that was made the descriptor was closed exactly once if
-- none of the objects that share the counter is alive, and not at all while one is.
pub closes-exactly :
    (actions : List Action) (q : Process) (k : ℕ)
    → AllOf only_owns actions
    → length actions < 2 ^ 31 - 1
    → run actions started ≡ some q
    → k < q.memory.next
    → owners k q.memory.closes ≡ (if nat_eq (owners k q.live) 0 then 1 else 0)
closes-exactly actions q k o b h u =
    let small : 0 + 2 * length actions < 2 ^ 32 = omega (arith, b) in
    let open_still = AllOf-weaken only_owns keeps_open actions only_owns-keeps_open o in
    let counted = run-IsCounted actions 0 started q started-IsCounted open_still small h in
    let exact = run-IsExact actions 0 started q started-IsCounted started-IsExact o small h in
    let at_k = exact k in
    let closed_at = counted k in ground (arith, at_k.equal, at_k.finished u, closed_at.still_open)
