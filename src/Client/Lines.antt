-- ===== src/Client/Lines.antt =====
-- The lines that a user of client/client.cpp types for the operations on boards and posts.
pub mod Words
pub mod Reading
pub mod Posting
use np_hw.Prelude.{
  ℕ, ◌<◌, Bool, true, false, ◌&&◌, ◌≡◌, ◌∙◌, refl, ap, sym, subst, inl, inr, Option, none, some,
  List, [], ◌∷◌, ◌++◌, arith, Str, String, str_eq, str_key, lit, lookup, AllOf, AllOf-append,
  AllOf-weaken, ℤ, pos, negsuc, ok, get_elem?,
}
use mathlib.Core.List.{append-nil, append_assoc}
use np_hw.Prelude.Decimal.{
  is_digit, is_space, to_decimal, to_string, to_decimal-AllOf, stoi, stoi-to_string,
}
use np_hw.Prelude.Search.{find}
use np_hw.Client.Requests.{Client, bbs}
use np_hw.Client.Tasks.{
  Task, opens_board, writes_post, shows_boards, shows_posts, shows_post, drops_post, edits_post,
  adds_comment, ask,
}
use np_hw.Client.Patterns.{
  Pattern, whole, any_of, some_of, literal, choice, regex_match, longest, longest_some, strip,
}
use np_hw.Client.Patterns.Exact.{
  longest-all, longest-word, longest_some-all, longest_some-word, longest_some-last, longest-none,
}
use np_hw.Client.Breaks.{break_lines}
use np_hw.Client.Commands.{
  is_command, is_solid, is_any, command_reg, create_board_reg, list_post_reg, number_reg,
  update_post_reg, comment_reg, create_post_reg, read_line, bbs_commands, group, Intent,
  creates_board, creates_post, lists_boards, lists_posts, reads, deletes, updates, comments, broken,
  with_args,
}
use np_hw.Client.Deeds.{Deed, prints, deed}

abbrev pub Filled : (ℕ → Bool) → Str → Type 0
Filled test [] = ⊥
Filled test (c ∷ s) = AllOf test (c ∷ s)

abbrev pub option_of : Bool → Str
option_of true = lit "title"
option_of false = lit "content"

-- The line that asks for a task.
abbrev pub line_of : Task → Str
line_of (opens_board name) = lit "create-board " ++ name
line_of (writes_post name title content) =
    lit "create-post " ++ (name ++ (lit " --title " ++ (title ++ (lit " --content " ++ content))))
line_of shows_boards = lit "list-board"
line_of (shows_posts name) = lit "list-post " ++ name
line_of (shows_post serial) = lit "read " ++ to_string serial
line_of (drops_post serial) = lit "delete-post " ++ to_string serial
line_of (edits_post serial title text) =
    lit "update-post "
    ++ (to_string serial ++ (lit " --" ++ (option_of title ++ (lit " " ++ text))))
line_of (adds_comment serial content) = lit "comment " ++ (to_string serial ++ (lit " " ++ content))

abbrev pub IsSerial : ℤ → Type 0
IsSerial (pos n) = n < 2147483648
IsSerial (negsuc n) = ⊥

-- Names have no white space, no text holds a line break, and nothing but a replacement or a
-- comment is empty. After its beginning a post's content does not hold what ends a title.
abbrev pub IsTypable : Task → Type 0
IsTypable (opens_board name) = Filled is_solid name
IsTypable (writes_post name title content) =
    Filled is_solid name
    × Filled is_any title
    × Filled is_any content
    × (find (lit " --content ") (lit "--content " ++ content) ≡ none)
IsTypable shows_boards = Unit
IsTypable (shows_posts name) = Filled is_solid name
IsTypable (shows_post serial) = IsSerial serial
IsTypable (drops_post serial) = IsSerial serial
IsTypable (edits_post serial title replacement) = IsSerial serial × AllOf is_any replacement
IsTypable (adds_comment serial content) = IsSerial serial × AllOf is_any content

-- The task that the server is asked for: contents have their line breaks.
abbrev pub with_breaks : Task → Task
with_breaks (writes_post name title content) = writes_post name title (break_lines content)
with_breaks (edits_post serial true title) = edits_post serial true title
with_breaks (edits_post serial false content) = edits_post serial false (break_lines content)
with_breaks task = task
