-- ===== src/Client/Lines/Words.antt =====
-- How `read_line` cuts a command off a line, and the classes of characters.
use np_hw.Prelude.{
  ℕ, Bool, true, false, ◌&&◌, ◌≡◌, refl, Option, some, List, [], ◌∷◌, ◌++◌, arith, Str, String,
  str_key, lookup, AllOf,
}
use np_hw.Prelude.Decimal.{is_digit, is_space}
use np_hw.Client.Requests.{bbs}
use np_hw.Client.Patterns.{Pattern, whole, any_of, regex_match}
use np_hw.Client.Patterns.Exact.{longest-all, longest-word, longest_some-word}
use np_hw.Client.Commands.{
  is_command, is_solid, is_any, command_reg, read_line, bbs_commands, Intent, with_args,
}

unfoldable pub all_of : (ℕ → Bool) → Str → Bool
all_of test [] = true
all_of test (c ∷ s) = let rest = all_of test s in test c && rest

pub all_of-AllOf : (test : ℕ → Bool) (s : Str) → all_of test s ≡ true → AllOf test s
unfolding all_of
all_of-AllOf test [] h = tt
all_of-AllOf test (c ∷ s) h = (ground arith, all_of-AllOf test s (ground arith))

pub is_solid→is_any : (c : ℕ) → is_solid c ≡ true → is_any c ≡ true
unfolding is_solid is_space is_any
is_solid→is_any c h = ground arith

pub is_digit→is_any : (c : ℕ) → is_digit c ≡ true → is_any c ≡ true
unfolding is_digit is_any
is_digit→is_any c h = ground arith

pub is_digit→is_solid : (c : ℕ) → is_digit c ≡ true → is_solid c ≡ true
unfolding is_digit is_solid is_space
is_digit→is_solid c h = ground arith

pub is_solid→is_space : (c : ℕ) → is_solid c ≡ true → is_space c ≡ false
unfolding is_solid
is_solid→is_space c h = ground arith

-- A command and its arguments, with one space between them.
pub command-args :
    (first : ℕ) (more : Str) (c : ℕ) (args : Str)
    → all_of is_command (first ∷ more) ≡ true
    → AllOf is_any (c ∷ args)
    → is_space c ≡ false
    → regex_match command_reg (first ∷ (more ++ b' ' ∷ (c ∷ args)))
      ≡ some ((first ∷ more) ∷ ((c ∷ args) ∷ []))
unfolding regex_match is_space is_command
command-args first more c args name all start =
    let rest : regex_match (any_of is_any true whole) (c ∷ args) ≡ some ((c ∷ args) ∷ []) =
      rw (longest-all is_any (regex_match whole) [] (c ∷ args) all refl) refl in
    let gap : regex_match (any_of is_space false (any_of is_any true whole)) (b' ' ∷ (c ∷ args))
        ≡ some ((c ∷ args) ∷ []) =
      rw
        (longest-word is_space (regex_match (any_of is_any true whole)) ((c ∷ args) ∷ [])
          (b' ' ∷ []) c args (refl, tt) start rest)
        refl in
    rw
      (longest_some-word is_command (regex_match (any_of is_space false (any_of is_any true whole)))
        ((c ∷ args) ∷ []) first more b' ' (c ∷ args) (all_of-AllOf is_command (first ∷ more) name)
        refl gap)
      refl

pub read_line-command :
    (line command args : Str) (intent : Str → Intent)
    → regex_match command_reg line ≡ some (command ∷ (args ∷ []))
    → lookup command bbs_commands ≡ some intent
    → read_line bbs line ≡ intent args
unfolding read_line
read_line-command line command args intent h k = rw (read_line, h, k, h) refl

pub with_args-match :
    (args_reg : Pattern) (usage : String) (intent : Option (List Str) → Intent) (args : Str)
    (caps : List Str)
    → regex_match args_reg args ≡ some caps
    → with_args args_reg usage intent args ≡ intent (some caps)
with_args-match args_reg usage intent args caps h = rw (with_args, h) refl
