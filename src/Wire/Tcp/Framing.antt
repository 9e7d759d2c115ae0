-- ===== src/Wire/Tcp/Framing.antt =====
-- What `TCP_socket::recv` of socket.cpp reads of what `TCP_socket::send` wrote.
use mathlib.Core.List.{append_assoc}
use np_hw.Prelude.{
  ℕ, zero, suc, ◌-◌, ◌^◌, ◌≤◌, ◌<◌, ◌≡◌, refl, ap, sym, ◌∙◌, true, false, some, List, [], ◌∷◌, ◌++◌,
  arith, length, take, drop, leb, length-append, take-append_left, drop-append_left,
  take-append-drop, length-drop, take-append_within, drop-append_within, length-take_within,
}
use np_hw.Wire.Bytes.{le_bytes, of_le_bytes, length-le_bytes, of_le_bytes-le_bytes, range_of}
use np_hw.Wire.Tcp.{
  max_tcp_msg_size, send_chunks, send_calls, stream_of, smaller, given, add_chunk, recv_loop,
  recv_message,
}

stream_of-send_chunks :
    (fuel : ℕ) (rest : List ℕ) → length rest < fuel → stream_of (send_chunks fuel rest) ≡ rest
unfolding stream_of send_chunks
stream_of-send_chunks zero rest h = absurd (omega arith)
stream_of-send_chunks (suc fuel) [] h = refl
stream_of-send_chunks (suc fuel) (b ∷ rest) h =
    let some_left : leb 1 (length (b ∷ rest)) ≡ true = ground arith in
    let later : stream_of (send_chunks fuel (drop max_tcp_msg_size (b ∷ rest)))
        ≡ drop max_tcp_msg_size (b ∷ rest) =
      stream_of-send_chunks fuel (drop max_tcp_msg_size (b ∷ rest))
        (omega (arith, length-drop max_tcp_msg_size (b ∷ rest))) in
    rw (some_left, later, take-append-drop max_tcp_msg_size (b ∷ rest))

smaller-bounds :
    (a b : ℕ) → 1 ≤ a → 1 ≤ b → (1 ≤ smaller a b) × (smaller a b ≤ a) × (smaller a b ≤ b)
unfolding smaller
smaller-bounds a b h k = (ground arith, ground arith, ground arith)

given-bounds :
    (ready msg_len : ℕ)
    → 1 ≤ ready
    → 1 ≤ msg_len
    → (1 ≤ given ready msg_len) × (given ready msg_len ≤ msg_len)
unfolding given
given-bounds ready msg_len h k =
    let (low, first, second) = smaller-bounds max_tcp_msg_size msg_len (omega arith) k in
    let (positive, short, within) = smaller-bounds ready (smaller max_tcp_msg_size msg_len) h low in
    (positive, omega (arith, second, within))

add_chunk-some :
    (got message stream : List ℕ)
    → 1 ≤ length got
    → add_chunk got (some (message, stream)) ≡ some (got ++ message, stream)
unfolding add_chunk
add_chunk-some [] message stream h = absurd (omega arith)
add_chunk-some (b ∷ got) message stream h = refl

-- Each call of `::recv` could give at least one byte.
abbrev pub AreReady : List ℕ → Type 0
AreReady [] = Unit
AreReady (k ∷ ready) = (1 ≤ k) × AreReady ready

recv_loop-append :
    (ready : List ℕ) (n : ℕ) (message rest : List ℕ)
    → AreReady ready
    → length message ≡ n
    → n ≤ length ready
    → recv_loop ready n (message ++ rest) ≡ some (message, rest)
unfolding recv_loop
recv_loop-append ready zero [] rest h e w = refl
recv_loop-append ready zero (b ∷ message) rest h e w = absurd (omega arith)
recv_loop-append [] (suc n) message rest h e w = absurd (omega arith)
recv_loop-append (k ∷ ready) (suc n) message rest h e w =
    let (low, high) = given-bounds k (suc n) h.0 (omega arith) in
    let g = given k (suc n) in
    let fits : g ≤ length message = omega (arith, high, e) in
    let got = take-append_within g message rest fits in
    let size = length-take_within g message fits in
    let left = drop-append_within g message rest fits in
    let more : recv_loop ready (suc n - length (take g message)) (drop g message ++ rest)
        ≡ some (drop g message, rest) =
      recv_loop-append ready (suc n - length (take g message)) (drop g message) rest h.1
        (omega (arith, length-drop g message, size, e)) (omega (arith, size, low, w)) in
    let joined = add_chunk-some (take g message) (drop g message) rest (omega (arith, size, low)) in
    rw (got, left, more, joined, take-append-drop g message) refl

pub stream_of-send_calls :
    (message : List ℕ) → stream_of (send_calls message) ≡ le_bytes 4 (length message) ++ message
unfolding send_calls stream_of
stream_of-send_calls message =
    ap (◌++◌ (le_bytes 4 (length message)))
      (stream_of-send_chunks (suc (length message)) message (omega arith))

leb-above : (a b : ℕ) → b < a → leb a b ≡ false
leb-above a b h = ground arith

-- If a message is shorter than 2 GB, each call of `::recv` could give at least one byte, and
-- there are as many calls as bytes, `recv` reads from the stream exactly the message that `send`
-- wrote, whatever follows it, and leaves what follows.
pub recv_message-send_calls :
    (message rest ready : List ℕ)
    → length message < 2 ^ 31
    → AreReady ready
    → length message ≤ length ready
    → recv_message ready (stream_of (send_calls message) ++ rest) ≡ some (message, rest)
unfolding recv_message
recv_message-send_calls message rest ready small h w =
    let header = le_bytes 4 (length message) in
    let whole : stream_of (send_calls message) ++ rest ≡ header ++ (message ++ rest) =
      ap (λ l. l ++ rest) (stream_of-send_calls message) ∙ append_assoc header message rest in
    let four = length-le_bytes 4 (length message) in
    let enough : leb 4 (length (header ++ (message ++ rest))) ≡ true =
      ground (arith, length-append header (message ++ rest), four) in
    let size : of_le_bytes (take 4 (header ++ (message ++ rest))) ≡ length message =
      ap of_le_bytes (take-append_left 4 header (message ++ rest) (sym four))
      ∙ of_le_bytes-le_bytes 4 (length message) (unfold range_of in omega (arith, small)) in
    let body : drop 4 (header ++ (message ++ rest)) ≡ message ++ rest =
      drop-append_left 4 header (message ++ rest) (sym four) in
    let positive : leb (2 ^ 31) (length message) ≡ false =
      leb-above (2 ^ 31) (length message) small in
    rw (whole, enough, size, positive, body)
      (recv_loop-append ready (length message) message rest h refl w)
