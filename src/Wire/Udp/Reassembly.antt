-- ===== src/Wire/Udp/Reassembly.antt =====
-- What `UDP_socket::insert_check` of socket.cpp makes of the packets that `send` makes of a
-- message.
use mathlib.Core.List.{append_assoc}
use np_hw.Prelude.{
  ◌^◌, ◌+◌, length-drop, take-whole, ℕ, zero, suc, ◌≤◌, ◌<◌, ◌≡◌, refl, ap, ◌∙◌, inl, inr, true,
  false, none, some, List, [], ◌∷◌, ◌++◌, arith, length, take, drop, leb, if◌then◌else◌, ℤ, pos,
  lookup, ◌==◌, take-append-drop, Bool-cases,
}
use np_hw.Wire.Udp.Packet.{Packet}
use np_hw.Wire.Udp.Table.{
  MsgKey, msg_key, msg_eq_iff, Unfinished, Table, packet_id_nonext, insert_check, Arrival,
  after_arrivals,
}
use np_hw.Wire.Udp.Send.{max_udp_msg_size, send_pass, packets_of, counted_bytes-small}
use np_hw.Wire.Udp.Arrivals.{
  packets_under, insert_check-other, IsAwaiting, insert_check-awaited, insert_check-same, cons-inv,
  after_arrivals-others,
}

abbrev IsAssembled : MsgKey → List ℕ → Table → Type 0
IsAssembled key bytes m =
    (u : Unfinished) × (lookup key m ≡ some u)
    × (u.next_id ≡ packet_id_nonext)
    × (u.content ≡ bytes)

-- The packet `index` of the pass that has `rest` left.
abbrev packet_at : ℤ → ℕ → ℕ → List ℕ → Packet
packet_at msgid flags index rest = record {
  msgid = msgid;
  id = pos index;
  next_id = if leb (length rest) max_udp_msg_size then packet_id_nonext else pos (suc index);
  flags = flags;
  content = take max_udp_msg_size rest;
}

pub send_pass-cons :
    (fuel : ℕ) (msgid : ℤ) (flags index : ℕ) (rest : List ℕ)
    → 1 ≤ length rest
    → send_pass (suc fuel) msgid flags index rest
      ≡ packet_at msgid flags index rest
        ∷ send_pass fuel msgid flags (suc index) (drop max_udp_msg_size rest)
unfolding send_pass
send_pass-cons fuel msgid flags index rest h =
    let some_left : leb 1 (length rest) ≡ true = ground arith in rw some_left refl

pub send_pass-empty :
    (fuel : ℕ) (msgid : ℤ) (flags index : ℕ) (rest : List ℕ)
    → length rest ≡ 0
    → send_pass fuel msgid flags index rest ≡ []
unfolding send_pass
send_pass-empty zero msgid flags index rest h = refl
send_pass-empty (suc fuel) msgid flags index rest h =
    let none_left : leb 1 (length rest) ≡ false = ground arith in rw none_left refl

leb-le : (a b : ℕ) → leb a b ≡ true → a ≤ b
leb-le a b h = ground arith

leb-gt : (a b : ℕ) → leb a b ≡ false → b < a
leb-gt a b h = ground arith

pub last_round :
    (n : ℕ) (rest : List ℕ)
    → leb (length rest) n ≡ true
    → (length (drop n rest) ≡ 0) × (take n rest ≡ rest)
last_round n rest h =
    let short = leb-le (length rest) n h in
    (omega (arith, length-drop n rest, short), take-whole n rest short)

pub further_round :
    (fuel n : ℕ) (rest : List ℕ)
    → 1 ≤ n
    → leb (length rest) n ≡ false
    → length rest < suc fuel
    → (1 ≤ length (drop n rest)) × (length (drop n rest) < fuel)
further_round fuel n rest positive h f =
    let long = leb-gt (length rest) n h in
    let left = length-drop n rest in (omega (arith, left, long), omega (arith, left, long))

send_pass-IsAssembled :
    (key : MsgKey) (flags fuel index : ℕ) (prefix rest : List ℕ) (arrived : List Arrival)
    (m : Table)
    → 1 ≤ length rest
    → length rest < fuel
    → IsAwaiting index prefix (lookup key m)
    → packets_under key arrived ≡ send_pass fuel key.msgid flags index rest
    → IsAssembled key (prefix ++ rest) (after_arrivals arrived m)
unfolding packets_under after_arrivals
send_pass-IsAssembled key flags zero index prefix rest arrived m n f h e = absurd (omega arith)
send_pass-IsAssembled key flags (suc fuel) index prefix rest [] m n f h e =
    absurd (cc (send_pass-cons fuel key.msgid flags index rest n, e))
send_pass-IsAssembled key flags (suc fuel) index prefix rest (a ∷ arrived) m n f h e =
    elim (Bool-cases (a.key == key)) [
      | inr differs ↦
          let skipped : packets_under key arrived
              ≡ send_pass (suc fuel) key.msgid flags index rest =
            rw differs at e in
          let same = insert_check-other a.key key a.packet a.now m differs in
          send_pass-IsAssembled key flags (suc fuel) index prefix rest arrived _ n f (rw same h)
            skipped
      | inl ours ↦
          let head = packet_at key.msgid flags index rest in
          let both : a.packet ∷ packets_under key arrived
              ≡ head ∷ send_pass fuel key.msgid flags (suc index) (drop max_udp_msg_size rest) =
            rw ours at e ∙ send_pass-cons fuel key.msgid flags index rest n in
          let (this, later) = cons-inv _ _ _ _ both in
          let held = prefix ++ take max_udp_msg_size rest in
          let entry : Unfinished = record {
            next_id = head.next_id;
            last_received = a.now;
            content = held;
          } in
          let stored : lookup key (insert_check a.key a.packet a.now m).0 ≡ some entry =
            insert_check-same a.key key a.packet head a.now m ((msg_eq_iff a.key key).0 ours) this
            ∙ insert_check-awaited key head a.now index prefix m refl h in
          elim (Bool-cases (leb (length rest) max_udp_msg_size)) [
            | inl last ↦
                let (emptied, taken) = last_round max_udp_msg_size rest last in
                let none_left =
                  send_pass-empty fuel key.msgid flags (suc index) (drop max_udp_msg_size rest)
                    emptied in
                (
                  entry,
                  after_arrivals-others key arrived _ (later ∙ none_left) ∙ stored,
                  rw last refl,
                  ap (◌++◌ prefix) taken,
                )
            | inr more ↦
                let (some_left, enough) =
                  further_round fuel max_udp_msg_size rest (omega arith) more f in
                let awaiting : IsAwaiting (suc index) held
                    (lookup key (insert_check a.key a.packet a.now m).0) =
                  rw stored (rw more refl, refl) in
                let found =
                  send_pass-IsAssembled key flags fuel (suc index) held (drop max_udp_msg_size rest)
                    arrived _ some_left enough awaiting later in
                let whole : held ++ drop max_udp_msg_size rest ≡ prefix ++ rest =
                  append_assoc prefix (take max_udp_msg_size rest) (drop max_udp_msg_size rest)
                  ∙ ap (◌++◌ prefix) (take-append-drop max_udp_msg_size rest) in
                rw whole at found
          ]
    ]

-- If the packets of one pass of a message that is not empty, of fewer than 2 ^ 31 - 1024 bytes,
-- arrive in order, among any packets of other messages, at a receiver without an entry for it,
-- then it has an entry at the end, which is marked complete and holds the message.
pub after_arrivals-packets_of :
    (key : MsgKey) (flags : ℕ) (bytes : List ℕ) (arrived : List Arrival) (m : Table)
    → 1 ≤ length bytes
    → length bytes + 1024 < 2 ^ 31
    → lookup key m ≡ none
    → packets_under key arrived ≡ packets_of key.msgid flags bytes
    → (u : Unfinished) × (lookup key (after_arrivals arrived m) ≡ some u)
      × (u.next_id ≡ packet_id_nonext)
      × (u.content ≡ bytes)
unfolding packets_of
after_arrivals-packets_of key flags bytes arrived m n fits h e =
    send_pass-IsAssembled key flags (suc (length bytes)) 0 [] bytes arrived m n (omega arith)
      (rw h (refl, refl)) (rw (counted_bytes-small bytes (omega (arith, fits))) at e)
