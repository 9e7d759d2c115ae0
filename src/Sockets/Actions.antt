-- ===== src/Sockets/Actions.antt =====
-- The actions on sockets, one case for each way in which one can succeed.
use np_hw.Prelude.{
  ℕ, ◌≡◌, refl, subst, Bool, true, false, Option, none, some, ℤ, pos, negsuc, get_elem?,
}
use np_hw.Sockets.{
  Peer, TcpSocket, Process, Action, constructs, copies, assigns, accepts, disconnects, destroys,
  Accepted, connection, interrupted, failed, own, construct, construct_from, copy, assign,
  disconnect, destroy, take_over, accept, remove_at, enter, put, act, is_negative, ◌>>=◌,
}

pub some_inj : {A : Type 0} {a b : A} → some a ≡ some b → a ≡ b
some_inj h = cc

-- A chain that succeeds, in its parts.
pub bind-some :
    {A B : Type 0} (o : Option A) (f : A → Option B) (b : B)
    → (o >>= f) ≡ some b
    → (a : A) × (o ≡ some a) × (f a ≡ some b)
bind-some none f b h = cc
bind-some (some a) f b h = (a, refl, h)

-- What an action leads to, one case for each way in which it can succeed.
module _ (P : Action → Process → Type 0) (p : Process) where
  open p use {live, memory}

  pub act_cases :
      ((d : ℤ) (reuses : Bool) → P (constructs d reuses) (enter live (own d memory)))
      → ((i : ℕ) (s : TcpSocket)
          → get_elem? live i ≡ some s
          → P (copies i) (enter live (copy s memory)))
      → ((i j : ℕ) (s t : TcpSocket)
          → get_elem? live i ≡ some s
          → get_elem? live j ≡ some t
          → P (assigns i j) (put i live (assign s t memory)))
      → ((i : ℕ) (s : TcpSocket) (answer : Accepted) (reuses : Bool) (d : ℤ) (peer : Option Peer)
          → get_elem? live i ≡ some s
          → P (accepts i answer reuses) (put i live (take_over s peer (own d memory))))
      → ((i : ℕ) (s : TcpSocket)
          → get_elem? live i ≡ some s
          → P (disconnects i) (record p { memory = disconnect s memory }))
      → ((i : ℕ) (s : TcpSocket)
          → get_elem? live i ≡ some s
          → P (destroys i) (record { live = remove_at i live; memory = destroy s memory }))
      → (a : Action) (q : Process) → act a p ≡ some q
      → P a q
  unfolding act construct accept construct_from is_negative
  act_cases made copied assigned taken closed gone (constructs (pos n) true) q h =
      subst (P (constructs (pos n) true)) (some_inj h) (made (pos n) true)
  act_cases made copied assigned taken closed gone (constructs (pos n) false) q h = cc
  act_cases made copied assigned taken closed gone (constructs (negsuc n) reuses) q h = cc
  act_cases made copied assigned taken closed gone (copies i) q h =
      let (s, e, g) = bind-some (get_elem? live i) _ q h in
      subst (P (copies i)) (some_inj g) (copied i s e)
  act_cases made copied assigned taken closed gone (assigns i j) q h =
      let (s, e, g) = bind-some (get_elem? live i) _ q h in
      let (t, f, k) = bind-some (get_elem? live j) _ q g in
      subst (P (assigns i j)) (some_inj k) (assigned i j s t e f)
  act_cases made copied assigned taken closed gone (accepts i (connection d peer) true) q h =
      let (s, e, g) = bind-some (get_elem? live i) _ q h in
      subst (P (accepts i (connection d peer) true)) (some_inj g) (taken i s _ true d (some peer) e)
  act_cases made copied assigned taken closed gone (accepts i interrupted true) q h =
      let (s, e, g) = bind-some (get_elem? live i) _ q h in
      subst (P (accepts i interrupted true)) (some_inj g) (taken i s _ true (negsuc 0) none e)
  act_cases made copied assigned taken closed gone (accepts i (connection d peer) false) q h =
      let (s, e, g) = bind-some (get_elem? live i) _ q h in cc
  act_cases made copied assigned taken closed gone (accepts i interrupted false) q h =
      let (s, e, g) = bind-some (get_elem? live i) _ q h in cc
  act_cases made copied assigned taken closed gone (accepts i failed reuses) q h =
      let (s, e, g) = bind-some (get_elem? live i) _ q h in cc
  act_cases made copied assigned taken closed gone (disconnects i) q h =
      let (s, e, g) = bind-some (get_elem? live i) _ q h in
      subst (P (disconnects i)) (some_inj g) (closed i s e)
  act_cases made copied assigned taken closed gone (destroys i) q h =
      let (s, e, g) = bind-some (get_elem? live i) _ q h in
      subst (P (destroys i)) (some_inj g) (gone i s e)
