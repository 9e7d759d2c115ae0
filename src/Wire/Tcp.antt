-- ===== src/Wire/Tcp.antt =====
-- `TCP_socket::send` and `TCP_socket::recv` of socket.cpp over a stream of bytes.
pub mod Framing
pub mod Calls
use mathlib.Core.List.{append_assoc}
use np_hw.Prelude.{
  ℕ, zero, suc, ◌+◌, ◌-◌, ◌^◌, ◌≤◌, ◌<◌, ◌≡◌, refl, ap, sym, ◌∙◌, inl, inr, Bool, true, false,
  Option, none, some, List, [], ◌∷◌, ◌++◌, arith, length, take, drop, leb, nat_eq, if◌then◌else◌,
  Bool-cases, length-append, take-append_left, drop-append_left,
}
use np_hw.Wire.Bytes.{le_bytes, of_le_bytes, length-le_bytes, of_le_bytes-le_bytes, range_of}

abbrev pub max_tcp_msg_size : ℕ
max_tcp_msg_size = 1000000

-- The loop of `send`: the buffers that it hands to `::send`, with fuel for its rounds.
unfoldable pub send_chunks : ℕ → List ℕ → List (List ℕ)
send_chunks zero rest = []
send_chunks (suc fuel) rest =
    let more = send_chunks fuel (drop max_tcp_msg_size rest) in
    if leb 1 (length rest) then take max_tcp_msg_size rest ∷ more else []

-- The size, and then the message; each round takes at least one byte, so the fuel is enough.
unfoldable pub send_calls : List ℕ → List (List ℕ)
unfolding send_chunks
send_calls message = le_bytes 4 (length message) ∷ send_chunks (suc (length message)) message

-- What stands on the stream after the calls, each of which sends its whole buffer.
unfoldable pub stream_of : List (List ℕ) → List ℕ
stream_of [] = []
stream_of (b ∷ bs) = b ++ stream_of bs

-- `std::min`
unfoldable pub smaller : ℕ → ℕ → ℕ
smaller a b = if leb a b then a else b

-- How many bytes a call of `::recv` gives that is for `msg_len` bytes and could give `ready`.
unfoldable pub given : ℕ → ℕ → ℕ
unfolding smaller
given ready msg_len = smaller ready (smaller max_tcp_msg_size msg_len)

-- The bytes that one call gave, before those that the further rounds read; none are the end of the
-- stream.
add_chunk : List ℕ → Option (List ℕ × List ℕ) → Option (List ℕ × List ℕ)
add_chunk [] more = none
add_chunk (b ∷ got) none = none
add_chunk (b ∷ got) (some (message, stream)) = some (b ∷ got ++ message, stream)

-- The loop of `recv` for `msg_len` bytes, where the calls could give as many bytes as `ready` says;
-- `none` if the stream ends first, or the calls do.
unfoldable pub recv_loop : List ℕ → ℕ → List ℕ → Option (List ℕ × List ℕ)
unfolding given add_chunk
recv_loop ready zero stream = some ([], stream)
recv_loop [] (suc n) stream = none
recv_loop (k ∷ ready) (suc n) stream =
    let rl = given k (suc n) in
    let got = take rl stream in
    add_chunk got (recv_loop ready (suc n - length got) (drop rl stream))

-- The size is read by one call that waits for all four bytes. It is an `int32_t`: there is no
-- buffer of a negative size.
unfoldable pub recv_message : List ℕ → List ℕ → Option (List ℕ × List ℕ)
unfolding recv_loop
recv_message ready stream =
    let msg_len = of_le_bytes (take 4 stream) in
    if leb 4 (length stream)
    then (if leb (2 ^ 31) msg_len then none else recv_loop ready msg_len (drop 4 stream))
    else none
