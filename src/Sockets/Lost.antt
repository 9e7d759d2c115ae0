-- ===== src/Sockets/Lost.antt =====
-- Descriptors of socket.cpp that no object will close.
use np_hw.Prelude.{
  ℕ, ◌+◌, ◌-◌, ◌*◌, ◌^◌, ◌≤◌, ◌<◌, ◌≡◌, refl, sym, subst, ◌∙◌, Bool, false, Option, some, List, [],
  ◌∷◌, arith, ℤ, nat_eq, get_elem?, set, length, AllOf,
}
use np_hw.Sockets.Actions.{act_cases, bind-some, some_inj}
use np_hw.Sockets.{
  Peer, TcpSocket, Memory, Process, Action, accepts, Accepted, add_owner, own, copy, assign,
  disconnect, destroy, take_over, remove_at, act, run, started,
}
use np_hw.Sockets.Counting.{
  one, owners, owners-get, owners-remove_at, owners-set, IsCounted, counter-add_owner,
  counter-destroy, next-destroy,
}
use np_hw.Sockets.Counted.{run-IsCounted, act-IsCounted, keeps_open, started-IsCounted}
use np_hw.Sockets.Accepting.{counter-take_over, next-take_over}

-- No object counts at `k`, and yet the counter is positive.
pub record IsLost (k : ℕ) (live : List TcpSocket) (m : Memory) : Type 0 where
  pub nobody : owners k live ≡ 0
  pub positive : 1 ≤ m.counter k
  pub made_before : k < m.next

module _ (n : ℕ) (live : List TcpSocket) (m : Memory) (counted : IsCounted n live m)
    (b : n + 2 < 2 ^ 32) (k : ℕ) (lost : IsLost k live m) where
  elsewhere : (i : ℕ) (s : TcpSocket) → get_elem? live i ≡ some s → nat_eq s.instances k ≡ false
  unfolding one
  elsewhere i s h = ground (arith, owners-remove_at k i live s h, lost.nobody)

  own-IsLost : (d : ℤ) → IsLost k ((own d m).0 ∷ live) (own d m).1
  unfolding own owners one
  own-IsLost d = record {
    nobody = ground (arith, lost.nobody, lost.made_before);
    positive = ground (arith, lost.positive, lost.made_before);
    made_before = omega (arith, lost.made_before);
  }

  share-IsLost :
      (others : List TcpSocket) (i : ℕ) (s : TcpSocket)
      → get_elem? live i ≡ some s
      → owners k others ≡ 0
      → IsLost k others (add_owner s.instances m)
  unfolding add_owner
  share-IsLost others i s h e =
      let more =
        counter-add_owner s.instances k m (omega (arith, b, (counted s.instances).bounded)) in
      record {
        nobody = e;
        positive = ground (arith, lost.positive, more);
        made_before = lost.made_before;
      }

  copy-IsLost :
      (i : ℕ) (s : TcpSocket)
      → get_elem? live i ≡ some s
      → IsLost k ((copy s m).0 ∷ live) (copy s m).1
  unfolding copy owners one
  copy-IsLost i s h =
      share-IsLost ((copy s m).0 ∷ live) i s h (ground (arith, elsewhere i s h, lost.nobody))

  set-nobody :
      (i : ℕ) (s t : TcpSocket)
      → get_elem? live i ≡ some s
      → nat_eq t.instances k ≡ false
      → owners k (set live i t) ≡ 0
  unfolding one
  set-nobody i s t h e = ground (arith, owners-set k i live s t h, e, lost.nobody)

  assign-IsLost :
      (i j : ℕ) (s t : TcpSocket)
      → get_elem? live i ≡ some s
      → get_elem? live j ≡ some t
      → IsLost k (set live i (assign s t m).0) (assign s t m).1
  unfolding assign
  assign-IsLost i j s t h g =
      share-IsLost (set live i (assign s t m).0) j t g (set-nobody i s _ h (elsewhere j t g))

  take_over-IsLost :
      (i : ℕ) (s : TcpSocket) (d : ℤ) (peer : Option Peer)
      → get_elem? live i ≡ some s
      → IsLost k (set live i (take_over s peer (own d m)).0) (take_over s peer (own d m)).1
  unfolding take_over assign own
  take_over-IsLost i s d peer h =
      let other : nat_eq m.next k ≡ false = ground (arith, lost.made_before) in
      record {
        nobody = set-nobody i s _ h other;
        positive = ground (arith, counter-take_over s peer d m k, lost.positive);
        made_before = omega (arith, next-take_over s peer d m, lost.made_before);
      }

  destroy-IsLost :
      (i : ℕ) (s : TcpSocket)
      → get_elem? live i ≡ some s
      → IsLost k (remove_at i live) (destroy s m)
  unfolding one
  destroy-IsLost i s h =
      let there = owners-remove_at k i live s h in
      let at_s = counted s.instances in
      let positive : 1 ≤ m.counter s.instances = omega (arith, owners-get i live s h, at_s.owned) in
      let less = counter-destroy s k m positive (omega (arith, at_s.bounded, b)) in
      record {
        nobody = omega (arith, there, lost.nobody);
        positive = ground (arith, less, elsewhere i s h, lost.positive);
        made_before = omega (arith, next-destroy s m, lost.made_before);
      }

disconnect-IsLost :
    (live : List TcpSocket) (m : Memory) (k : ℕ)
    → IsLost k live m
    → (s : TcpSocket) → IsLost k live (disconnect s m)
unfolding disconnect
disconnect-IsLost live m k lost s = record {
  nobody = lost.nobody;
  positive = lost.positive;
  made_before = lost.made_before;
}

act-IsLost :
    (n : ℕ) (p : Process)
    → IsCounted n p.live p.memory
    → n + 2 < 2 ^ 32
    → (k : ℕ) → IsLost k p.live p.memory
    → (a : Action) (q : Process) → act a p ≡ some q
    → IsLost k q.live q.memory
act-IsLost n p counted b k lost =
    let live = p.live in
    let m = p.memory in
    act_cases (λ a q. IsLost k q.live q.memory) p
      (λ d reuses. own-IsLost n live m counted b k lost d)
      (λ i s h. copy-IsLost n live m counted b k lost i s h)
      (λ i j s t h g. assign-IsLost n live m counted b k lost i j s t h g)
      (λ i s answer reuses d peer h. take_over-IsLost n live m counted b k lost i s d peer h)
      (λ i s h. disconnect-IsLost live m k lost s)
      (λ i s h. destroy-IsLost n live m counted b k lost i s h)

run-IsLost :
    (actions : List Action) (n k : ℕ) (p q : Process)
    → IsCounted n p.live p.memory
    → IsLost k p.live p.memory
    → AllOf keeps_open actions
    → n + 2 * length actions < 2 ^ 32
    → run actions p ≡ some q
    → IsLost k q.live q.memory
unfolding run
run-IsLost [] n k p q counted lost o b h = subst (λ r. IsLost k r.live r.memory) (some_inj h) lost
run-IsLost (a ∷ actions) n k p q counted lost o b h =
    let (r, e, g) = bind-some (act a p) (run actions) q h in
    let small : n + 2 < 2 ^ 32 = omega (arith, b) in
    run-IsLost actions (n + 2) k r q (act-IsCounted n p counted small a r e o.0)
      (act-IsLost n p counted small k lost a r e) o.1 (omega (arith, b)) g

-- The socket at `i` is the only object that counts where it does.
abbrev pub IsAlone : ℕ → TcpSocket → Process → Type 0
IsAlone i s p = (get_elem? p.live i ≡ some s) × (owners s.instances p.live ≡ 1)

take_over-loses :
    (n : ℕ) (p : Process)
    → IsCounted n p.live p.memory
    → (i : ℕ) (s : TcpSocket) (d : ℤ) (peer : Option Peer) → IsAlone i s p
    → IsLost s.instances
        (set p.live i (take_over s peer (own d p.memory)).0)
        (take_over s peer (own d p.memory)).1
unfolding take_over assign own one
take_over-loses n p counted i s d peer alone =
    let at_s = counted s.instances in
    let t = (take_over s peer (own d p.memory)).0 in
    let before : s.instances < p.memory.next = ground (arith, at_s.owned, at_s.unused, alone.1) in
    let itself : one s.instances s ≡ 1 = ground arith in
    let other : one s.instances t ≡ 0 = ground (arith, before) in
    record {
      nobody = omega (arith, owners-set s.instances i p.live s t alone.0, alone.1, itself, other);
      positive =
          ground (arith, counter-take_over s peer d p.memory s.instances, at_s.owned, alone.1);
      made_before = omega (arith, next-take_over s peer d p.memory, before);
    }

abbrev Loses : Process → Action → Process → Type 0
Loses p (accepts i answer reuses) q =
    (s : TcpSocket) → IsAlone i s p → IsLost s.instances q.live q.memory
Loses p _ q = Unit

act-Loses :
    (n : ℕ) (p : Process)
    → IsCounted n p.live p.memory
    → (a : Action) (q : Process) → act a p ≡ some q
    → Loses p a q
act-Loses n p counted =
    act_cases (Loses p) p (λ d reuses. tt) (λ i s h. tt) (λ i j s t h g. tt)
      (λ i s answer reuses d peer h t alone.
        subst
          (λ u.
            IsLost t.instances (set p.live i (take_over u peer (own d p.memory)).0)
              (take_over u peer (own d p.memory)).1)
          (some_inj (sym alone.0 ∙ h)) (take_over-loses n p counted i t d peer alone))
      (λ i s h. tt) (λ i s h. tt)

-- In a process that calls `disconnect` only in destructors and does fewer than 2^31 - 1 actions
-- on its sockets, `accept` on a socket whose counter no other object shares leaves that counter
-- without an object and its descriptor open, whatever the process does afterwards.
pub accept-loses :
    (before after : List Action) (i : ℕ) (answer : Accepted) (reuses : Bool) (s : TcpSocket)
    (p q r : Process)
    → AllOf keeps_open before
    → AllOf keeps_open after
    → length before + length after < 2 ^ 31 - 2
    → run before started ≡ some p
    → IsAlone i s p
    → act (accepts i answer reuses) p ≡ some q
    → run after q ≡ some r
    → (owners s.instances r.live ≡ 0) × (owners s.instances r.memory.closes ≡ 0)
unfolding keeps_open
accept-loses before after i answer reuses s p q r o w b ran alone accepted ran_on =
    let first = run-IsCounted before 0 started p started-IsCounted o (omega (arith, b)) ran in
    let n = 0 + 2 * length before in
    let counted =
      act-IsCounted n p first (omega (arith, b)) (accepts i answer reuses) q accepted refl in
    let lost = act-Loses n p first (accepts i answer reuses) q accepted s alone in
    let small : n + 2 + 2 * length after < 2 ^ 32 = omega (arith, b) in
    let finally = run-IsCounted after (n + 2) q r counted w small ran_on in
    let still = run-IsLost after (n + 2) s.instances q r counted lost w small ran_on in
    (still.nobody, (finally s.instances).still_open still.positive)
