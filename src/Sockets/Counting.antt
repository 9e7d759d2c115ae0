-- ===== src/Sockets/Counting.antt =====
-- The counters of the sockets of socket.cpp against the objects that are alive.
use np_hw.Prelude.{
  ℕ, zero, suc, ◌+◌, ◌-◌, ◌^◌, ◌≤◌, ◌<◌, ◌≡◌, ap, subst, true, some, List, [], ◌∷◌, arith, ℤ,
  nat_eq, if◌then◌else◌, get_elem?, set, nat_eq_iff,
}
use np_hw.Sockets.{
  TcpSocket, Memory, increment, decrement, add_owner, own, copy, assign, disconnect, destroy,
  remove_at,
}

unfoldable pub one : ℕ → TcpSocket → ℕ
one k s = if nat_eq s.instances k then 1 else 0

-- How many of the objects count at `k`.
unfoldable pub owners : ℕ → List TcpSocket → ℕ
unfolding one
owners k [] = 0
owners k (s ∷ live) = one k s + owners k live

pub increment-small : (n : ℕ) → n + 1 < 2 ^ 32 → increment n ≡ n + 1
unfolding increment
increment-small n h = omega arith

pub decrement-positive : (n : ℕ) → 1 ≤ n → n < 2 ^ 32 → decrement n ≡ n - 1
unfolding decrement
decrement-positive n h k = omega arith

pub owners-remove_at :
    (k i : ℕ) (live : List TcpSocket) (s : TcpSocket)
    → get_elem? live i ≡ some s
    → owners k live ≡ one k s + owners k (remove_at i live)
unfolding owners
owners-remove_at k i [] s h = cc
owners-remove_at k zero (t ∷ live) s h = ground (arith)
owners-remove_at k (suc i) (t ∷ live) s h = omega (arith, owners-remove_at k i live s h)

pub owners-set :
    (k i : ℕ) (live : List TcpSocket) (s t : TcpSocket)
    → get_elem? live i ≡ some s
    → owners k (set live i t) + one k s ≡ owners k live + one k t
unfolding owners
owners-set k i [] s t h = cc
owners-set k zero (u ∷ live) s t h = ground arith
owners-set k (suc i) (u ∷ live) s t h = omega (arith, owners-set k i live s t h)

pub owners-get :
    (i : ℕ) (live : List TcpSocket) (s : TcpSocket)
    → get_elem? live i ≡ some s
    → 1 ≤ owners s.instances live
unfolding one
owners-get i live s h =
    let itself : one s.instances s ≡ 1 = ground arith in
    omega (arith, owners-remove_at s.instances i live s h, itself)

-- What holds of the counter at `k`, for counts up to `n`: it is no less than the objects that are
-- alive there, it is zero if it has not been made, and its descriptor is closed at most once, and
-- not while the counter is positive.
pub record IsCountedAt (n k : ℕ) (live : List TcpSocket) (m : Memory) : Type 0 where
  pub owned : owners k live ≤ m.counter k
  pub bounded : m.counter k ≤ n
  pub unused : m.next ≤ k → m.counter k ≡ 0
  pub unclosed : m.next ≤ k → owners k m.closes ≡ 0
  pub once : owners k m.closes ≤ 1
  pub still_open : 1 ≤ m.counter k → owners k m.closes ≡ 0

abbrev pub IsCounted : ℕ → List TcpSocket → Memory → Type 0
IsCounted n live m = (k : ℕ) → IsCountedAt n k live m

pub counter-add_owner :
    (j k : ℕ) (m : Memory)
    → m.counter j + 1 < 2 ^ 32
    → (add_owner j m).counter k ≡ m.counter k + (if nat_eq j k then 1 else 0)
unfolding add_owner
counter-add_owner j k m h = ground (arith, increment-small (m.counter j) h)

pub counter-destroy :
    (s : TcpSocket) (k : ℕ) (m : Memory)
    → 1 ≤ m.counter s.instances
    → m.counter s.instances < 2 ^ 32
    → (destroy s m).counter k ≡ m.counter k - one k s
unfolding destroy one disconnect
counter-destroy s k m h b = ground (arith, decrement-positive (m.counter s.instances) h b)

pub closes-destroy :
    (s : TcpSocket) (k : ℕ) (m : Memory)
    → 1 ≤ m.counter s.instances
    → m.counter s.instances < 2 ^ 32
    → owners k (destroy s m).closes
      ≡ (if nat_eq (m.counter s.instances) 1 then one k s else 0) + owners k m.closes
unfolding destroy owners disconnect
closes-destroy s k m h b = ground (arith, decrement-positive (m.counter s.instances) h b)

pub next-destroy : (s : TcpSocket) (m : Memory) → (destroy s m).next ≡ m.next
unfolding destroy disconnect
next-destroy s m = ground arith

module _ (n : ℕ) (live : List TcpSocket) (m : Memory) (counted : IsCounted n live m) where
  pub own-IsCounted : (d : ℤ) → 1 ≤ n → IsCounted n ((own d m).0 ∷ live) (own d m).1
  unfolding own owners one
  own-IsCounted d h k =
      let before = counted k in
      let first : increment 0 ≡ 1 = increment-small 0 (omega arith) in
      record {
        owned = ground (arith, before.owned, before.unused, first);
        bounded = ground (arith, before.bounded, first, h);
        unused = λ u. ground (arith, before.unused, u);
        unclosed = λ u. before.unclosed (omega (arith, u));
        once = before.once;
        still_open = λ u. ground (arith, before.still_open, before.unclosed, u);
      }

  -- One object more counts at `j`, where some object does.
  add_owner-IsCounted :
      (others : List TcpSocket) (j : ℕ)
      → 1 ≤ owners j live
      → n + 1 < 2 ^ 32
      → ((k : ℕ) → owners k others ≤ owners k live + (if nat_eq j k then 1 else 0))
      → IsCounted (n + 1) others (add_owner j m)
  unfolding add_owner
  add_owner-IsCounted others j h b fits k =
      let before = counted k in
      let there = (counted j).owned in
      let more = counter-add_owner j k m (omega (arith, (counted j).bounded)) in
      let same : nat_eq j k ≡ true → j ≡ k = (nat_eq_iff j k).0 in
      let at_k : nat_eq j k ≡ true → 1 ≤ m.counter k =
        λ e. subst (λ i. 1 ≤ m.counter i) (same e) (omega (arith, h, there)) in
      record {
        owned = ground (arith, before.owned, fits k, more);
        bounded = ground (arith, before.bounded, more);
        unused = λ u. ground (arith, before.unused u, at_k, more);
        unclosed = λ u. before.unclosed u;
        once = before.once;
        still_open = λ u. ground (arith, before.still_open, at_k, more, u);
      }

  pub copy-IsCounted :
      (i : ℕ) (s : TcpSocket)
      → get_elem? live i ≡ some s
      → n + 1 < 2 ^ 32
      → IsCounted (n + 1) ((copy s m).0 ∷ live) (copy s m).1
  unfolding copy owners one
  copy-IsCounted i s h b =
      add_owner-IsCounted ((copy s m).0 ∷ live) s.instances (owners-get i live s h) b
        (λ k. omega arith)

  pub assign-IsCounted :
      (i j : ℕ) (s t : TcpSocket)
      → get_elem? live i ≡ some s
      → get_elem? live j ≡ some t
      → n + 1 < 2 ^ 32
      → IsCounted (n + 1) (set live i (assign s t m).0) (assign s t m).1
  unfolding assign one
  assign-IsCounted i j s t h g b =
      add_owner-IsCounted (set live i (assign s t m).0) t.instances (owners-get j live t g) b
        (λ k. omega (arith, owners-set k i live s (assign s t m).0 h))

  pub destroy-IsCounted :
      (i : ℕ) (s : TcpSocket)
      → get_elem? live i ≡ some s
      → n < 2 ^ 32
      → IsCounted n (remove_at i live) (destroy s m)
  unfolding one
  destroy-IsCounted i s h b k =
      let before = counted k in
      let at_s = counted s.instances in
      let there = owners-remove_at k i live s h in
      let positive : 1 ≤ m.counter s.instances = omega (arith, owners-get i live s h, at_s.owned) in
      let below : m.counter s.instances < 2 ^ 32 = omega (arith, at_s.bounded) in
      let less = counter-destroy s k m positive below in
      let closing = closes-destroy s k m positive below in
      let same : nat_eq s.instances k ≡ true → m.counter s.instances ≡ m.counter k =
        λ e. ap m.counter ((nat_eq_iff s.instances k).0 e) in
      let next = next-destroy s m in
      record {
        owned = ground (arith, before.owned, there, less);
        bounded = ground (arith, before.bounded, less);
        unused = λ u. ground (arith, before.unused, less, next, u);
        unclosed =
            λ u. ground (arith, before.unclosed, before.unused, same, positive, closing, next, u);
        once = ground (arith, before.once, before.still_open, same, positive, closing);
        still_open = λ u. ground (arith, before.still_open, same, less, closing, u);
      }

  pub weaken-IsCounted : (larger : ℕ) → n ≤ larger → IsCounted larger live m
  weaken-IsCounted larger h k =
      let before = counted k in
      record {
        owned = before.owned;
        bounded = omega (arith, h, before.bounded);
        unused = before.unused;
        unclosed = before.unclosed;
        once = before.once;
        still_open = before.still_open;
      }
