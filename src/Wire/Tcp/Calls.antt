-- ===== src/Wire/Tcp/Calls.antt =====
-- What `TCP_socket::recv` and `TCP_socket::send` of socket.cpp return, by what the calls of
-- `::recv` and `::send` do.
use mathlib.Core.List.{append_assoc, append-nil}
use np_hw.Prelude.{
  ℕ, zero, suc, ◌+◌, ◌-◌, ◌^◌, ◌≤◌, ◌<◌, ◌≡◌, refl, ap, sym, ◌∙◌, Bool, true, false, Option, none,
  some, List, [], ◌∷◌, ◌++◌, arith, ℤ, pos, negsuc, length, take, drop, map, take-whole,
  drop-append_left, leb, nat_eq, if◌then◌else◌, length-append, take-append_left,
}
use np_hw.Prelude.Ints.{to_int, to_int-small}
use np_hw.Wire.Bytes.{le_bytes, of_le_bytes, length-le_bytes, of_le_bytes-le_bytes, range_of}
use np_hw.Wire.Tcp.Framing.{stream_of-send_calls}
use np_hw.Wire.Tcp.{max_tcp_msg_size, send_calls, send_chunks, stream_of}

-- The bytes that a call of `::recv` gives, none at the end of the stream, or -1.
pub data Got : Type 0 where
  got : List ℕ → Got
  failed : Got

-- What `recv` returns, whether it sets `closed`, and what it hands to `Deserialize`.
pub record TcpReceived : Type 0 where
  pub returned : ℤ
  pub closes : Bool
  pub message : Option (List ℕ)

abbrev pub handing_nothing : ℤ → Bool → TcpReceived
handing_nothing returned closes = record { returned = returned; closes = closes; message = none }

-- The loop of `recv`; `none` while a call has not returned. The count is a `ssize_t`, and is
-- returned as an `int`.
unfoldable pub recv_rest : ℕ → List ℕ → ℕ → List Got → Option TcpReceived
unfolding to_int
recv_rest recvlen msg zero calls =
    some (record { returned = to_int (pos recvlen); closes = false; message = some msg })
recv_rest recvlen msg (suc msg_len) [] = none
recv_rest recvlen msg (suc msg_len) (failed ∷ calls) = some (handing_nothing (negsuc 0) false)
recv_rest recvlen msg (suc msg_len) (got [] ∷ calls) = some (handing_nothing (pos 0) true)
recv_rest recvlen msg (suc msg_len) (got (b ∷ bs) ∷ calls) =
    recv_rest (recvlen + suc (length bs)) (msg ++ b ∷ bs) (suc msg_len - suc (length bs)) calls

-- `none` also where the size is negative, for which `new` throws.
unfoldable pub recv_call : List Got → Option TcpReceived
unfolding recv_rest
recv_call [] = none
recv_call (failed ∷ calls) = some (handing_nothing (negsuc 0) false)
recv_call (got [] ∷ calls) = some (handing_nothing (pos 0) true)
recv_call (got (b ∷ bs) ∷ calls) =
    let header = b ∷ bs in
    let rest = recv_rest 4 [] (of_le_bytes header) calls in
    if nat_eq (length header) 4
    then (if leb (2 ^ 31) (of_le_bytes header) then none else rest)
    else some (handing_nothing (pos 0) false)

-- How many bytes each call of `::send` takes, or none for -1. What `send` returns, and the bytes
-- that were taken: it goes on behind the whole buffer, however many were.
unfoldable pub send_all : List (List ℕ) → List (Option ℕ) → Option (ℤ × List ℕ)
send_all [] answers = some (pos 0, [])
send_all (buffer ∷ buffers) [] = none
send_all (buffer ∷ buffers) (none ∷ answers) = some (negsuc 0, [])
send_all (buffer ∷ buffers) (some sendlen ∷ answers) = elim (send_all buffers answers) [
  | none ↦ none
  | some (returned, sent) ↦ some (returned, take sendlen buffer ++ sent)
]

unfoldable pub send_call : List ℕ → List (Option ℕ) → Option (ℤ × List ℕ)
unfolding send_all
send_call message answers = send_all (send_calls message) answers

abbrev pub whole : ℕ → List ℕ → TcpReceived
whole recvlen message = record {
  returned = to_int (pos recvlen);
  closes = false;
  message = some message;
}

-- A call of `::recv` that gives nothing.
abbrev pub no_bytes : Bool → Got
no_bytes fails = if fails then failed else got []

-- What `recv` should do where the calls stop with some bytes of the message left.
abbrev pub outcome : List ℕ → List ℕ → Bool → TcpReceived
outcome message [] fails = whole (4 + length message) message
outcome message (b ∷ left) true = handing_nothing (negsuc 0) false
outcome message (b ∷ left) false = handing_nothing (pos 0) true

-- Chunks of at least one byte.
abbrev pub AreChunks : List (List ℕ) → Type 0
AreChunks [] = Unit
AreChunks (c ∷ chunks) = (1 ≤ length c) × AreChunks chunks

abbrev pub given_as : List (List ℕ) → List Got
given_as [] = []
given_as (c ∷ chunks) = got c ∷ given_as chunks

-- The rounds for some chunks, and what is left to read after them.
recv_rest-chunks :
    (recvlen : ℕ) (msg : List ℕ) (chunks : List (List ℕ)) (left : ℕ) (calls : List Got)
    → AreChunks chunks
    → recv_rest recvlen msg (length (stream_of chunks) + left) (given_as chunks ++ calls)
      ≡ recv_rest (recvlen + length (stream_of chunks)) (msg ++ stream_of chunks) left calls
unfolding recv_rest stream_of
recv_rest-chunks recvlen msg [] left calls h =
    let none_read : 0 + left ≡ left = omega arith in
    let none_added : recvlen ≡ recvlen + 0 = omega arith in
    ap (λ n. recv_rest recvlen msg n calls) none_read
    ∙ ap (λ n. recv_rest n msg left calls) none_added
    ∙ ap (λ m. recv_rest (recvlen + 0) m left calls) (sym (append-nil msg))
recv_rest-chunks recvlen msg ([] ∷ chunks) left calls h = absurd (omega (arith, h.0))
recv_rest-chunks recvlen msg ((b ∷ bs) ∷ chunks) left calls h =
    let size = length-append (b ∷ bs) (stream_of chunks) in
    let rest = recv_rest-chunks (recvlen + length (b ∷ bs)) (msg ++ b ∷ bs) chunks left calls h.1 in
    let begin : length ((b ∷ bs) ++ stream_of chunks) + left
        ≡ suc (length bs + length (stream_of chunks) + left) =
      omega (arith, size) in
    ap (λ n. recv_rest recvlen msg n (got (b ∷ bs) ∷ (given_as chunks ++ calls))) begin
    ∙ ap (λ n. recv_rest (recvlen + length (b ∷ bs)) (msg ++ b ∷ bs) n (given_as chunks ++ calls))
        (omega arith)
    ∙ rest
    ∙ ap (λ n. recv_rest n (msg ++ b ∷ bs ++ stream_of chunks) left calls) (omega (arith, size))
    ∙ ap (λ m. recv_rest (recvlen + length ((b ∷ bs) ++ stream_of chunks)) m left calls)
        (append_assoc msg (b ∷ bs) (stream_of chunks))

module _ (message : List ℕ) (small : length message < 2 ^ 31) where
  recv_call-header :
      (calls : List Got)
      → recv_call (got (le_bytes 4 (length message)) ∷ calls)
        ≡ recv_rest 4 [] (length message) calls
  unfolding recv_call le_bytes
  recv_call-header calls =
      let size : of_le_bytes (le_bytes 4 (length message)) ≡ length message =
        of_le_bytes-le_bytes 4 (length message) (unfold range_of in omega (arith, small)) in
      let positive : leb (2 ^ 31) (length message) ≡ false = ground (arith, small) in
      ap (λ n. if leb (2 ^ 31) n then none else recv_rest 4 [] n calls) size ∙ rw positive refl

  recv_call-chunks :
      (chunks : List (List ℕ)) (left : List ℕ) (calls : List Got)
      → AreChunks chunks
      → stream_of chunks ++ left ≡ message
      → recv_call (got (le_bytes 4 (length message)) ∷ (given_as chunks ++ calls))
        ≡ recv_rest (4 + length (stream_of chunks)) (stream_of chunks) (length left) calls
  recv_call-chunks chunks left calls h e =
      recv_call-header (given_as chunks ++ calls)
      ∙ ap (λ n. recv_rest 4 [] n (given_as chunks ++ calls))
          (sym (ap length e) ∙ length-append (stream_of chunks) left)
      ∙ recv_rest-chunks 4 [] chunks (length left) calls h

  pub recv_call-whole :
      (chunks : List (List ℕ)) (calls : List Got)
      → AreChunks chunks
      → stream_of chunks ≡ message
      → recv_call (got (le_bytes 4 (length message)) ∷ (given_as chunks ++ calls))
        ≡ some (whole (4 + length message) message)
  unfolding recv_rest
  recv_call-whole chunks calls h e =
      recv_call-chunks chunks [] calls h (append-nil (stream_of chunks) ∙ e)
      ∙ ap (λ m. some (whole (4 + length m) m)) e

  -- If the message is shorter than 2 GB, and the calls of `::recv` give its size and then bytes
  -- of it in chunks of at least one byte, `recv` hands over the message and returns its size
  -- and four, as an `int`, once nothing is left. If the stream ends or a call fails before, it
  -- hands over nothing, and returns 0 and sets `closed`, or returns -1.
  pub recv_call-stream :
      (chunks : List (List ℕ)) (left : List ℕ) (fails : Bool) (calls : List Got)
      → AreChunks chunks
      → stream_of chunks ++ left ≡ message
      → recv_call
          (got (le_bytes 4 (length message)) ∷ (given_as chunks ++ (no_bytes fails ∷ calls)))
        ≡ some (outcome message left fails)
  unfolding recv_rest
  recv_call-stream chunks [] fails calls h e =
      recv_call-whole chunks (no_bytes fails ∷ calls) h (sym (append-nil (stream_of chunks)) ∙ e)
  recv_call-stream chunks (b ∷ left) true calls h e =
      recv_call-chunks chunks (b ∷ left) (failed ∷ calls) h e
  recv_call-stream chunks (b ∷ left) false calls h e =
      recv_call-chunks chunks (b ∷ left) (got [] ∷ calls) h e

-- Each call of `::send` takes its whole buffer.
abbrev pub all_taken : List (List ℕ) → List (Option ℕ)
all_taken buffers = map (λ b. some (length b)) buffers

send_all-taken :
    (buffers : List (List ℕ))
    → send_all buffers (all_taken buffers) ≡ some (pos 0, stream_of buffers)
unfolding send_all stream_of
send_all-taken [] = refl
send_all-taken (b ∷ buffers) =
    rw (send_all-taken buffers, take-whole (length b) b (omega arith)) refl

-- If every call of `::send` takes its whole buffer and the size of the message and four is an
-- `int`, `send` returns 0, and `recv` gets the message of what was sent and returns that number,
-- whatever the chunks in which the bytes behind the size come.
pub recv_call-send_call :
    (message : List ℕ) (chunks : List (List ℕ))
    → 4 + length message < 2 ^ 31
    → AreChunks chunks
    → stream_of chunks ≡ message
    → (sent : List ℕ) × (send_call message (all_taken (send_calls message)) ≡ some (pos 0, sent))
      × (recv_call (got (take 4 sent) ∷ given_as chunks)
          ≡ some (record {
            returned = pos (4 + length message);
            closes = false;
            message = some message;
          }))
      × (drop 4 sent ≡ message)
unfolding send_call
recv_call-send_call message chunks small h e =
    let header = le_bytes 4 (length message) in
    let four = sym (length-le_bytes 4 (length message)) in
    let first : take 4 (header ++ message) ≡ header = take-append_left 4 header message four in
    let ran =
      rw (to_int-small (4 + length message) small) at
        (recv_call-whole message (omega (arith, small)) chunks [] h e) in
    (
      header ++ message,
      send_all-taken (send_calls message)
          ∙ ap (λ l. some (pos 0, l)) (stream_of-send_calls message),
      ap (λ l. recv_call (got l ∷ given_as chunks)) first
          ∙ ap (λ l. recv_call (got header ∷ l)) (sym (append-nil (given_as chunks)))
          ∙ ran,
      drop-append_left 4 header message four,
    )

send_chunks-nil : (fuel : ℕ) → send_chunks fuel [] ≡ []
unfolding send_chunks
send_chunks-nil zero = refl
send_chunks-nil (suc fuel) = ground arith

drop-whole : (n : ℕ) (l : List ℕ) → length l ≤ n → drop n l ≡ []
drop-whole zero [] h = refl
drop-whole zero (x ∷ l) h = absurd (omega arith)
drop-whole (suc n) [] h = refl
drop-whole (suc n) (x ∷ l) h = drop-whole n l (omega arith)

send_calls-one :
    (message : List ℕ)
    → 1 ≤ length message
    → length message ≤ max_tcp_msg_size
    → send_calls message ≡ le_bytes 4 (length message) ∷ (message ∷ [])
unfolding send_calls send_chunks
send_calls-one message h b =
    let some_left : leb 1 (length message) ≡ true = ground (arith, h) in
    rw
      (
        some_left,
        take-whole max_tcp_msg_size message b,
        drop-whole max_tcp_msg_size message b,
        send_chunks-nil (length message),
      )
      refl

-- If the only buffer of a message is taken in part, `send` returns 0 as it does after the whole,
-- and what was not taken is never sent.
pub send_call-partly :
    (message : List ℕ) (sendlen : ℕ)
    → 1 ≤ length message
    → length message ≤ max_tcp_msg_size
    → send_call message (some 4 ∷ (some sendlen ∷ []))
      ≡ some (pos 0, le_bytes 4 (length message) ++ take sendlen message)
unfolding send_call send_all le_bytes
send_call-partly message sendlen h b =
    rw (send_calls-one message h b, send_all, append-nil (take sendlen message)) refl
