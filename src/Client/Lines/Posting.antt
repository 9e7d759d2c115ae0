-- ===== src/Client/Lines/Posting.antt =====
-- What `read_line` makes of the line of a new post.
use np_hw.Prelude.{
  ℕ, true, false, ◌≡◌, ◌∙◌, refl, none, some, [], ◌∷◌, ◌++◌, Str, str_eq, str_key, lit, lookup,
  AllOf, AllOf-append, AllOf-weaken,
}
use np_hw.Prelude.Decimal.{is_space}
use np_hw.Prelude.Search.{find}
use np_hw.Client.Requests.{bbs}
use np_hw.Client.Tasks.{writes_post}
use np_hw.Client.Patterns.{Pattern, whole, any_of, some_of, literal, regex_match, strip}
use np_hw.Client.Patterns.Exact.{
  longest_some-all, longest_some-word, longest_some-last, longest-none,
}
use np_hw.Client.Breaks.{break_lines}
use np_hw.Client.Commands.{
  is_command, is_solid, is_any, create_post_reg, read_line, group, creates_post,
}
use np_hw.Client.Lines.{line_of}
use np_hw.Client.Lines.Words.{
  all_of, all_of-AllOf, is_solid→is_any, is_solid→is_space, command-args, read_line-command,
  with_args-match,
}

-- The texts of a new post, which end at the separators of `create_post_reg`.
module _ (f : ℕ) (name : Str) (t : ℕ) (title : Str) (c : ℕ) (content : Str)
    (solid : AllOf is_solid (f ∷ name)) (any_title : AllOf is_any (t ∷ title))
    (any_content : AllOf is_any (c ∷ content))
    (once : find (lit " --content ") (lit "--content " ++ (c ∷ content)) ≡ none) where
  abbrev content_part : Pattern
  content_part = some_of is_any true (any_of is_space false whole)

  abbrev title_part : Pattern
  title_part = some_of is_any true (literal (lit " --content ") content_part)

  abbrev post_args : Str
  post_args =
      f
      ∷ (name
          ++ b' ' ∷ (lit "--title " ++ (t ∷ (title ++ b' ' ∷ (lit "--content " ++ (c ∷ content))))))

  content-match : regex_match content_part (c ∷ content) ≡ some ((c ∷ content) ∷ [])
  unfolding regex_match
  content-match =
      rw
        (longest_some-all is_any (regex_match (any_of is_space false whole)) [] c content
          any_content refl)
        refl

  title-match :
      regex_match title_part (t ∷ (title ++ b' ' ∷ (lit "--content " ++ (c ∷ content))))
      ≡ some ((t ∷ title) ∷ ((c ∷ content) ∷ []))
  unfolding regex_match strip lit
  title-match =
      let sep : regex_match (literal (lit " --content ") content_part)
            (b' ' ∷ (lit "--content " ++ (c ∷ content)))
          ≡ some ((c ∷ content) ∷ []) =
        content-match in
      rw
        (longest_some-last is_any (regex_match (literal (lit " --content ") content_part))
          ((c ∷ content) ∷ []) t title b' ' (lit "--content " ++ (c ∷ content)) any_title
          (longest-none is_any (lit " --content ") (regex_match content_part)
            (lit "--content " ++ (c ∷ content)) once)
          sep)
        refl

  post-match :
      regex_match create_post_reg post_args
      ≡ some ((f ∷ name) ∷ ((t ∷ title) ∷ ((c ∷ content) ∷ [])))
  unfolding regex_match strip lit is_space is_solid
  post-match =
      let option : regex_match (literal (lit "--title ") title_part)
            (lit "--title " ++ (t ∷ (title ++ b' ' ∷ (lit "--content " ++ (c ∷ content)))))
          ≡ some ((t ∷ title) ∷ ((c ∷ content) ∷ [])) =
        title-match in
      let gap : regex_match (some_of is_space false (literal (lit "--title ") title_part))
            (b' ' ∷ (lit "--title " ++ (t ∷ (title ++ b' ' ∷ (lit "--content " ++ (c ∷ content))))))
          ≡ some ((t ∷ title) ∷ ((c ∷ content) ∷ [])) =
        rw
          (longest_some-word is_space (regex_match (literal (lit "--title ") title_part))
            ((t ∷ title) ∷ ((c ∷ content) ∷ [])) b' ' [] b'-'
            (lit "-title " ++ (t ∷ (title ++ b' ' ∷ (lit "--content " ++ (c ∷ content)))))
            (refl, tt) refl option)
          refl in
      rw
        (longest_some-word is_solid
          (regex_match (some_of is_space false (literal (lit "--title ") title_part)))
          ((t ∷ title) ∷ ((c ∷ content) ∷ [])) f name b' '
          (lit "--title " ++ (t ∷ (title ++ b' ' ∷ (lit "--content " ++ (c ∷ content))))) solid refl
          gap)
        refl

  post_args-AllOf : AllOf is_any post_args
  unfolding lit is_any all_of
  post_args-AllOf =
      let names = AllOf-weaken is_solid is_any (f ∷ name) is_solid→is_any solid in
      let last =
        AllOf-append is_any (lit " --content ") (c ∷ content)
          (all_of-AllOf is_any (lit " --content ") refl) any_content in
      let titles =
        AllOf-append is_any (t ∷ title) (lit " --content " ++ (c ∷ content)) any_title last in
      let after_name =
        AllOf-append is_any (lit " --title ") ((t ∷ title) ++ (lit " --content " ++ (c ∷ content)))
          (all_of-AllOf is_any (lit " --title ") refl) titles in
      (names.0, AllOf-append is_any name _ names.1 after_name)

  pub writes_post-read :
      read_line bbs (line_of (writes_post (f ∷ name) (t ∷ title) (c ∷ content)))
      ≡ creates_post (f ∷ name) (t ∷ title) (break_lines (c ∷ content))
  unfolding lookup lit str_eq is_command all_of
  writes_post-read =
      let all = post_args-AllOf in
      read_line-command _ _ _ _
        (command-args b'c' (lit "reate-post") f
          (name
            ++ b' '
              ∷ (lit "--title " ++ (t ∷ (title ++ b' ' ∷ (lit "--content " ++ (c ∷ content))))))
          refl all (is_solid→is_space f solid.0))
        refl
      ∙ with_args-match create_post_reg
          "Usage: create-post <board-name> --title <title> --content <content>"
          (λ m. creates_post (group 0 m) (group 1 m) (break_lines (group 2 m))) post_args
          ((f ∷ name) ∷ ((t ∷ title) ∷ ((c ∷ content) ∷ []))) post-match
