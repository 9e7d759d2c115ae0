-- ===== src/Client/Typing.antt =====
-- A typed line against the operation that the client performs.
use np_hw.Prelude.{
  out_of_range, ◌≤◌, ℕ, ◌<◌, Bool, true, false, ◌≡◌, ◌∙◌, refl, ap, sym, [], ◌∷◌, ◌++◌, Str, str_eq,
  str_key, lit, lookup, AllOf, ℤ, pos, negsuc,
}
use np_hw.Prelude.Decimal.{
  is_digit, is_space, to_string, to_decimal-AllOf, stoi, stoi-to_string, stoi-large,
}
use np_hw.Client.Requests.{Client, bbs}
use np_hw.Client.Tasks.{
  Task, opens_board, writes_post, shows_boards, shows_posts, shows_post, drops_post, edits_post,
  adds_comment, ask,
}
use np_hw.Client.Patterns.{regex_match, longest, longest_some}
use np_hw.Client.Commands.{is_command, is_any, read_line, lists_boards, broken}
use np_hw.Client.Deeds.{prints, crashes, numbered, deed}
use np_hw.Client.Lines.{option_of, line_of, IsTypable, with_breaks}
use np_hw.Client.Lines.Reading.{
  opens_board-read, shows_posts-read, reads-read, deletes-read, comments-read, updates-read,
  update_rest-match, option_lead-AllOf,
}
use np_hw.Client.Lines.Posting.{writes_post-read}

serial-cons :
    (n : ℕ)
    → (first : ℕ) × (digits : Str) × (to_string (pos n) ≡ first ∷ digits)
      × AllOf is_digit (first ∷ digits)
unfolding to_string
serial-cons n = to_decimal-AllOf n

-- The serial number of a typed task, as it is printed and parsed.
numbered-task :
    (client : Client) (n : ℕ) (digits : Str) (task : ℤ → Task)
    → n < 2147483648
    → to_string (pos n) ≡ digits
    → numbered client.login_token (stoi digits) task
      ≡ prints (ask client.login_token (task (pos n))) false
numbered-task client n digits task small e =
    ap (λ r. numbered client.login_token r task) (ap stoi (sym e) ∙ stoi-to_string (pos n) small)

option-title : (title : Bool) → str_eq (option_of title) (lit "title") ≡ title
unfolding str_eq lit
option-title true = refl
option-title false = refl

list_board-read : read_line bbs (lit "list-board") ≡ lists_boards
unfolding read_line regex_match longest longest_some lookup lit str_eq is_command is_space is_any
list_board-read = refl

edits-deed :
    (client : Client) (n : ℕ) (title : Bool) (text : Str)
    → IsTypable (edits_post (pos n) title text)
    → deed client (read_line bbs (line_of (edits_post (pos n) title text)))
      ≡ prints (ask client.login_token (edits_post (pos n) title (broken title text))) false
unfolding deed lit
edits-deed client n title text h =
    let (c, digits, e, all) = serial-cons n in
    let lead = option_lead-AllOf title text h.1 in
    rw (e) (
      ap (deed client) (
        updates-read c digits all (lit "--" ++ (option_of title ++ (lit " " ++ text)))
          (option_of title) text title lead (update_rest-match title text h.1)
          (option-title title)))
    ∙ numbered-task client n (c ∷ digits) (λ m. edits_post m title (broken title text)) h.0 e

-- A user in the BBS mode types the line of an operation on boards and posts, with names that are
-- not empty and hold no white space, texts without line breaks, a serial number that is a natural
-- `int`, a title and a content that are not empty, and no ` --content ` later than the one before
-- the content. Then the client asks the server for that operation with its token, with each
-- `<br>` of a content made a line break, and prints the reply.
pub typed-deed :
    (client : Client) (task : Task)
    → IsTypable task
    → deed client (read_line bbs (line_of task))
      ≡ prints (ask client.login_token (with_breaks task)) false
unfolding deed lit
typed-deed client (opens_board []) h = absurd h
typed-deed client (opens_board (c ∷ name)) h = ap (deed client) (opens_board-read c name h)
typed-deed client (writes_post [] title content) h = absurd (h.0)
typed-deed client (writes_post (f ∷ name) [] content) h = absurd (h.1)
typed-deed client (writes_post (f ∷ name) (t ∷ title) []) h = absurd (h.2)
typed-deed client (writes_post (f ∷ name) (t ∷ title) (c ∷ content)) h =
    ap (deed client) (writes_post-read f name t title c content h.0 h.1 h.2 h.3)
typed-deed client shows_boards h = ap (deed client) list_board-read
typed-deed client (shows_posts []) h = absurd h
typed-deed client (shows_posts (c ∷ name)) h = ap (deed client) (shows_posts-read c name h)
typed-deed client (shows_post (negsuc n)) h = absurd h
typed-deed client (shows_post (pos n)) h =
    let (c, digits, e, all) = serial-cons n in
    rw (e) (ap (deed client) (reads-read c digits all))
    ∙ numbered-task client n (c ∷ digits) shows_post h e
typed-deed client (drops_post (negsuc n)) h = absurd h
typed-deed client (drops_post (pos n)) h =
    let (c, digits, e, all) = serial-cons n in
    rw (e) (ap (deed client) (deletes-read c digits all))
    ∙ numbered-task client n (c ∷ digits) drops_post h e
typed-deed client (edits_post (negsuc n) title text) h = absurd (h.0)
typed-deed client (edits_post (pos n) true text) h = edits-deed client n true text h
typed-deed client (edits_post (pos n) false text) h = edits-deed client n false text h
typed-deed client (adds_comment (negsuc n) content) h = absurd (h.0)
typed-deed client (adds_comment (pos n) content) h =
    let (c, digits, e, all) = serial-cons n in
    rw (e) (ap (deed client) (comments-read c digits all content h.1))
    ∙ numbered-task client n (c ∷ digits) (λ m. adds_comment m content) h.0 e

-- A user in the BBS mode asks to read a post whose serial number, printed in decimal, is above the
-- range of `int`. Then `std::stoi` throws, nothing catches it, and the client's process ends.
pub large_serial-crashes :
    (client : Client) (n : ℕ)
    → 2147483648 ≤ n
    → deed client (read_line bbs (line_of (shows_post (pos n)))) ≡ crashes out_of_range
unfolding deed lit
large_serial-crashes client n large =
    let (c, digits, e, all) = serial-cons n in
    rw e (ap (deed client) (reads-read c digits all))
    ∙ ap (λ r. numbered client.login_token r shows_post) (ap stoi (sym e) ∙ stoi-large n large)
