-- ===== src/Client/Lines/Reading.antt =====
-- What `read_line` makes of the lines with a name or a serial number.
use np_hw.Prelude.{
  ℕ, Bool, true, false, ◌≡◌, ◌∙◌, refl, ap, some, List, [], ◌∷◌, ◌++◌, Str, str_eq, str_key, lit,
  lookup, AllOf, AllOf-append, AllOf-weaken,
}
use mathlib.Core.List.{append-nil}
use np_hw.Prelude.Decimal.{is_digit, is_space}
use np_hw.Client.Requests.{bbs}
use np_hw.Client.Tasks.{opens_board, shows_posts}
use np_hw.Client.Patterns.{Pattern, whole, any_of, some_of, literal, choice, regex_match, strip}
use np_hw.Client.Patterns.Exact.{longest-all, longest_some-all, longest_some-word}
use np_hw.Client.Commands.{
  is_command, is_solid, is_any, command_reg, create_board_reg, list_post_reg, number_reg,
  update_post_reg, comment_reg, read_line, group, creates_board, lists_posts, reads, deletes,
  updates, comments, broken,
}
use np_hw.Client.Lines.{option_of, line_of}
use np_hw.Client.Lines.Words.{
  all_of, all_of-AllOf, is_solid→is_any, is_digit→is_any, is_digit→is_solid, is_solid→is_space,
  command-args, read_line-command, with_args-match,
}

-- A name without white space after a command, and nothing else.
module _ (first : ℕ) (name : Str) (all : AllOf is_solid (first ∷ name)) where
  name-parsed :
      (c : ℕ) (command : Str)
      → all_of is_command (c ∷ command) ≡ true
      → regex_match command_reg (c ∷ (command ++ b' ' ∷ (first ∷ name)))
        ≡ some ((c ∷ command) ∷ ((first ∷ name) ∷ []))
  name-parsed c command is_name =
      command-args c command first name is_name
        (AllOf-weaken is_solid is_any (first ∷ name) is_solid→is_any all)
        (is_solid→is_space first all.0)

  pub opens_board-read :
      read_line bbs (line_of (opens_board (first ∷ name))) ≡ creates_board (first ∷ name)
  unfolding regex_match lookup lit str_eq is_command all_of
  opens_board-read =
      read_line-command _ _ _ _ (name-parsed b'c' (lit "reate-board") refl) refl
      ∙ with_args-match create_board_reg "Usage: create-board <name>"
          (λ m. creates_board (group 0 m)) (first ∷ name) ((first ∷ name) ∷ [])
          (rw
            (longest_some-all is_solid (regex_match (any_of is_space false whole)) [] first name all
              refl)
            refl)

  pub shows_posts-read :
      read_line bbs (line_of (shows_posts (first ∷ name))) ≡ lists_posts (first ∷ name)
  unfolding regex_match lookup lit str_eq is_command all_of
  shows_posts-read =
      read_line-command _ _ _ _ (name-parsed b'l' (lit "ist-post") refl) refl
      ∙ with_args-match list_post_reg "Usage: list-post <board-name>" (λ m. lists_posts (group 0 m))
          (first ∷ name) ((first ∷ name) ∷ [])
          (rw (longest_some-all is_solid (regex_match whole) [] first name all refl) refl)

-- What follows the number in `update_post_reg`.
abbrev pub update_rest : Pattern
update_rest =
    literal (lit " --")
      (choice (lit "title") (lit "content") (literal (lit " ") (any_of is_any true whole)))

-- A serial number after a command, and more text.
module _ (first : ℕ) (digits : Str) (all : AllOf is_digit (first ∷ digits)) where
  number-parsed :
      (c : ℕ) (command rest : Str)
      → all_of is_command (c ∷ command) ≡ true
      → AllOf is_any rest
      → regex_match command_reg (c ∷ (command ++ b' ' ∷ (first ∷ (digits ++ rest))))
        ≡ some ((c ∷ command) ∷ ((first ∷ (digits ++ rest)) ∷ []))
  number-parsed c command rest is_name any =
      let more = AllOf-weaken is_digit is_any (first ∷ digits) is_digit→is_any all in
      command-args c command first (digits ++ rest) is_name
        (more.0, AllOf-append is_any digits rest more.1 any)
        (is_solid→is_space first (is_digit→is_solid first all.0))

  number-match : regex_match number_reg (first ∷ digits) ≡ some ((first ∷ digits) ∷ [])
  unfolding regex_match
  number-match = rw (longest_some-all is_digit (regex_match whole) [] first digits all refl) refl

  number-match_space :
      (p : Pattern) (rest : Str) (caps : List Str)
      → regex_match p (b' ' ∷ rest) ≡ some caps
      → regex_match (some_of is_digit true p) (first ∷ (digits ++ b' ' ∷ rest))
        ≡ some ((first ∷ digits) ∷ caps)
  unfolding regex_match is_digit
  number-match_space p rest caps h =
      rw (longest_some-word is_digit (regex_match p) caps first digits b' ' rest all refl h) refl

  pub reads-read : read_line bbs (lit "read " ++ first ∷ digits) ≡ reads (first ∷ digits)
  unfolding lookup lit str_eq is_command all_of
  reads-read =
      let parsed = rw append-nil at (number-parsed b'r' (lit "ead") [] refl tt) in
      read_line-command _ _ _ _ parsed refl
      ∙ with_args-match number_reg "Usage: read <post-S/N>" (λ m. reads (group 0 m))
          (first ∷ digits) ((first ∷ digits) ∷ []) number-match

  pub deletes-read : read_line bbs (lit "delete-post " ++ first ∷ digits) ≡ deletes (first ∷ digits)
  unfolding lookup lit str_eq is_command all_of
  deletes-read =
      let parsed = rw append-nil at (number-parsed b'd' (lit "elete-post") [] refl tt) in
      read_line-command _ _ _ _ parsed refl
      ∙ with_args-match number_reg "Usage: delete-post <post-S/N>" (λ m. deletes (group 0 m))
          (first ∷ digits) ((first ∷ digits) ∷ []) number-match

  pub comments-read :
      (content : Str)
      → AllOf is_any content
      → read_line bbs (lit "comment " ++ first ∷ (digits ++ b' ' ∷ content))
        ≡ comments (first ∷ digits) content
  unfolding regex_match lookup lit str_eq is_command is_any all_of strip
  comments-read content any =
      let rest : regex_match (literal (lit " ") (any_of is_any true whole)) (b' ' ∷ content)
          ≡ some (content ∷ []) =
        rw (longest-all is_any (regex_match whole) [] content any refl) refl in
      read_line-command _ _ _ _
        (number-parsed b'c' (lit "omment") (b' ' ∷ content) refl (refl, any)) refl
      ∙ with_args-match comment_reg "Usage: comment <post-S/N> <comment>"
          (λ m. comments (group 0 m) (group 1 m)) (first ∷ (digits ++ b' ' ∷ content))
          ((first ∷ digits) ∷ (content ∷ []))
          (number-match_space (literal (lit " ") (any_of is_any true whole)) content (content ∷ [])
            rest)

  pub updates-read :
      (rest word text : Str) (title : Bool)
      → AllOf is_any rest
      → regex_match update_rest (b' ' ∷ rest) ≡ some (word ∷ (text ∷ []))
      → str_eq word (lit "title") ≡ title
      → read_line bbs (lit "update-post " ++ (first ∷ (digits ++ b' ' ∷ rest)))
        ≡ updates (first ∷ digits) title (broken title text)
  unfolding lookup lit str_eq is_command is_any all_of
  updates-read rest word text title any h k =
      read_line-command _ _ _ _
        (number-parsed b'u' (lit "pdate-post") (b' ' ∷ rest) refl (refl, any)) refl
      ∙ with_args-match update_post_reg "Usage: update-post <post-S/N> --title/content <new>"
          (λ m.
            let istitle = str_eq (group 1 m) (lit "title") in
            updates (group 0 m) istitle (broken istitle (group 2 m)))
          (first ∷ (digits ++ b' ' ∷ rest)) ((first ∷ digits) ∷ (word ∷ (text ∷ [])))
          (number-match_space update_rest rest (word ∷ (text ∷ [])) h)
      ∙ ap (λ b. updates (first ∷ digits) b (broken b text)) k

pub update_rest-match :
    (title : Bool) (text : Str)
    → AllOf is_any text
    → regex_match update_rest (lit " --" ++ (option_of title ++ (lit " " ++ text)))
      ≡ some (option_of title ∷ (text ∷ []))
unfolding regex_match strip lit
update_rest-match true text any = rw (longest-all is_any (regex_match whole) [] text any refl) refl
update_rest-match false text any = rw (longest-all is_any (regex_match whole) [] text any refl) refl

pub option_lead-AllOf :
    (title : Bool) (text : Str)
    → AllOf is_any text
    → AllOf is_any (lit "--" ++ (option_of title ++ (lit " " ++ text)))
unfolding lit is_any all_of
option_lead-AllOf true text any =
    AllOf-append is_any (lit "--title ") text (all_of-AllOf is_any (lit "--title ") refl) any
option_lead-AllOf false text any =
    AllOf-append is_any (lit "--content ") text (all_of-AllOf is_any (lit "--content ") refl) any
