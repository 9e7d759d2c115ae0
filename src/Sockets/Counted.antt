-- ===== src/Sockets/Counted.antt =====
-- Whatever a process does to its sockets (socket.cpp), the counters fit the objects.
use np_hw.Prelude.{
  ℕ, zero, suc, ◌+◌, ◌-◌, ◌*◌, ◌^◌, ◌≤◌, ◌<◌, ◌≡◌, refl, ap, subst, ◌⊎◌, inl, inr, Bool, true,
  false, Option, some, List, [], ◌∷◌, arith, ℤ, nat_eq, get_elem?, set, length, AllOf,
}
use np_hw.Sockets.Actions.{act_cases, bind-some, some_inj}
use np_hw.Sockets.{
  Peer, TcpSocket, Memory, Process, Action, disconnects, own, assign, take_over, act, run, started,
}
use np_hw.Sockets.Counting.{
  one, owners, IsCounted, own-IsCounted, copy-IsCounted, assign-IsCounted, destroy-IsCounted,
  weaken-IsCounted,
}

-- The counts see no field but `instances`.
owners-set_same :
    (k i : ℕ) (live : List TcpSocket) (s t : TcpSocket)
    → s.instances ≡ t.instances
    → owners k (set live i s) ≡ owners k (set live i t)
unfolding owners one
owners-set_same k i [] s t h = refl
owners-set_same k zero (u ∷ live) s t h = ground (arith, ap (λ j. nat_eq j k) h)
owners-set_same k (suc i) (u ∷ live) s t h = omega (arith, owners-set_same k i live s t h)

recount :
    (n : ℕ) (live others : List TcpSocket) (m : Memory)
    → ((k : ℕ) → owners k live ≡ owners k others)
    → IsCounted n live m
    → IsCounted n others m
recount n live others m same counted k =
    let before = counted k in
    record {
      owned = omega (arith, same k, before.owned);
      bounded = before.bounded;
      unused = before.unused;
      unclosed = before.unclosed;
      once = before.once;
      still_open = before.still_open;
    }

take_over-IsCounted :
    (n : ℕ) (live : List TcpSocket) (m : Memory)
    → IsCounted n live m
    → (d : ℤ) (peer : Option Peer) (i : ℕ) (s : TcpSocket) → get_elem? live i ≡ some s
    → n + 2 < 2 ^ 32
    → IsCounted (n + 2) (set live i (take_over s peer (own d m)).0) (take_over s peer (own d m)).1
unfolding take_over
take_over-IsCounted n live m counted d peer i s h b =
    let made = own d m in
    let larger = weaken-IsCounted n live m counted (n + 1) (omega arith) in
    let with_temporary = own-IsCounted (n + 1) live m larger d (omega arith) in
    let shared =
      assign-IsCounted (n + 1) (made.0 ∷ live) made.1 with_temporary (suc i) 0 s made.0 h refl
        (omega (arith, b)) in
    let assigned = assign s made.0 made.1 in
    let both =
      weaken-IsCounted (n + 1 + 1) (made.0 ∷ set live i assigned.0) assigned.1 shared (n + 2)
        (omega arith) in
    let gone =
      destroy-IsCounted (n + 2) (made.0 ∷ set live i assigned.0) assigned.1 both 0 made.0 refl
        (omega (arith, b)) in
    recount (n + 2) (set live i assigned.0) (set live i (take_over s peer made).0)
      (take_over s peer made).1 (λ k. owners-set_same k i live _ _ refl) gone

-- No call of `disconnect` but those of destructors.
unfoldable pub keeps_open : Action → Bool
keeps_open (disconnects i) = false
keeps_open _ = true

pub act-IsCounted :
    (n : ℕ) (p : Process)
    → IsCounted n p.live p.memory
    → n + 2 < 2 ^ 32
    → (a : Action) (q : Process) → act a p ≡ some q
    → keeps_open a ≡ true
    → IsCounted (n + 2) q.live q.memory
unfolding keeps_open
act-IsCounted n p counted b =
    let live = p.live in
    let m = p.memory in
    let more = weaken-IsCounted n live m counted (n + 1) (omega arith) in
    act_cases (λ a q. keeps_open a ≡ true → IsCounted (n + 2) q.live q.memory) p
      (λ d reuses o.
        own-IsCounted (n + 2) live m (weaken-IsCounted n live m counted (n + 2) (omega arith)) d
          (omega arith))
      (λ i s h o.
        weaken-IsCounted (n + 1) _ _ (copy-IsCounted n live m counted i s h (omega (arith, b)))
          (n + 2) (omega arith))
      (λ i j s t h g o.
        weaken-IsCounted (n + 1) _ _
          (assign-IsCounted n live m counted i j s t h g (omega (arith, b))) (n + 2) (omega arith))
      (λ i s answer reuses d peer h o. take_over-IsCounted n live m counted d peer i s h b)
      (λ i s h o. cc)
      (λ i s h o.
        weaken-IsCounted n _ _ (destroy-IsCounted n live m counted i s h (omega (arith, b))) (n + 2)
          (omega arith))

pub run-IsCounted :
    (actions : List Action) (n : ℕ) (p q : Process)
    → IsCounted n p.live p.memory
    → AllOf keeps_open actions
    → n + 2 * length actions < 2 ^ 32
    → run actions p ≡ some q
    → IsCounted (n + 2 * length actions) q.live q.memory
unfolding run
run-IsCounted [] n p q counted o b h =
    subst (λ r. IsCounted (n + 2 * 0) r.live r.memory) (some_inj h)
      (weaken-IsCounted n p.live p.memory counted (n + 2 * 0) (omega arith))
run-IsCounted (a ∷ actions) n p q counted o b h =
    let (r, e, g) = bind-some (act a p) (run actions) q h in
    let after = act-IsCounted n p counted (omega (arith, b)) a r e o.0 in
    let rest = run-IsCounted actions (n + 2) r q after o.1 (omega (arith, b)) g in
    weaken-IsCounted _ _ _ rest (n + 2 * length (a ∷ actions)) (omega arith)

pub started-IsCounted : IsCounted 0 started.live started.memory
unfolding started owners
started-IsCounted k = record {
  owned = omega arith;
  bounded = omega arith;
  unused = λ u. refl;
  unclosed = λ u. refl;
  once = omega arith;
  still_open = λ u. refl;
}

count_cases : (n : ℕ) → (n ≡ 0) ⊎ (1 ≤ n)
count_cases zero = inl refl
count_cases (suc n) = inr (omega arith)

-- If a process does fewer than 2^31 - 1 actions on its sockets and calls `disconnect` only in
-- destructors, then a descriptor was closed at most once for the objects that share a counter, and
-- not at all while one of them is alive.
pub closes-once :
    (actions : List Action) (q : Process) (k : ℕ)
    → AllOf keeps_open actions
    → length actions < 2 ^ 31 - 1
    → run actions started ≡ some q
    → (owners k q.memory.closes ≤ 1) × ((owners k q.memory.closes ≡ 0) ⊎ (owners k q.live ≡ 0))
closes-once actions q k o b h =
    let counted = run-IsCounted actions 0 started q started-IsCounted o (omega (arith, b)) h in
    let at_k = counted k in
    (
      at_k.once,
      elim (count_cases (owners k q.live)) [
        | inl e ↦ inr e
        | inr u ↦ inl (at_k.still_open (omega (arith, u, at_k.owned)))
      ],
    )
