-- ===== src/Client/Commands.antt =====
-- The command line of `startClient` of client/client.cpp: what a line that the user types asks
-- for, and what the client does about it.
use np_hw.Prelude.{
  ℕ, Bool, true, false, not, ◌&&◌, ◌||◌, Option, none, some, List, [], ◌∷◌, Str, String, str_key,
  lit, nat_eq, leb, Map, lookup, get_elem?, str_eq,
}
use np_hw.Client.Requests.{Mode, bbs, chat}
use np_hw.Prelude.Decimal.{is_digit, is_space}
use np_hw.Client.Patterns.{Pattern, whole, literal, choice, any_of, some_of, regex_match}
use np_hw.Client.Breaks.{break_lines}

-- What a line asks for. A serial number and a port are still text.
pub data Intent : Type 0 where
  registers : Str → Str → Str → Intent
  logs_in : Str → Str → Intent
  logs_out asks_name lists_users exits : Intent
  creates_board : Str → Intent
  creates_post : Str → Str → Str → Intent
  lists_boards : Intent
  lists_posts : Str → Intent
  reads deletes : Str → Intent
  updates : Str → Bool → Str → Intent
  comments : Str → Str → Intent
  creates_room : Str → Intent
  lists_rooms : Intent
  joins_room : Str → Intent
  restarts_room attaches : Intent
  leaves_room detaches : Intent
  says : Str → Intent
  hints : Str → Intent

between : ℕ → ℕ → ℕ → Bool
between low high c = leb low c && leb c high

-- `\w` and `.`, and the classes that the patterns build of them, of `[0-9]` and of `\s`.
unfoldable pub is_word : ℕ → Bool
unfolding between is_digit
is_word c = is_digit c || (between b'A' b'Z' c || (between b'a' b'z' c || nat_eq c b'_'))

unfoldable pub is_solid : ℕ → Bool
unfolding is_space
is_solid c = not (is_space c)

unfoldable pub is_any : ℕ → Bool
is_any c = not (nat_eq c 10) && not (nat_eq c 13)

unfoldable pub is_command : ℕ → Bool
unfolding is_word
is_command c = is_word c || nat_eq c b'-'

unfoldable pub is_user : ℕ → Bool
unfolding is_word
is_user c = is_word c || (nat_eq c b'-' || nat_eq c b'.')

unfoldable pub is_mail : ℕ → Bool
unfolding is_word
is_mail c = is_word c || (nat_eq c b'@' || nat_eq c b'.')

-- `^([\w-]+)\s*(.*)$`
abbrev pub command_reg : Pattern
command_reg = some_of is_command true (any_of is_space false (any_of is_any true whole))

-- `^([\w\-.]+)\s+([\w@.]+)\s+(\S+)$`
abbrev pub register_reg : Pattern
register_reg = some_of is_user true (
    some_of is_space false
      (some_of is_mail true (some_of is_space false (some_of is_solid true whole))))

-- `^([\w\-.]+)\s+(\S+)$`
abbrev pub login_reg : Pattern
login_reg = some_of is_user true (some_of is_space false (some_of is_solid true whole))

-- `^([^\s]+)\s*$`
abbrev pub create_board_reg : Pattern
create_board_reg = some_of is_solid true (any_of is_space false whole)

-- `^([^\s]+)\s+--title (.+) --content (.+)\s*$`
abbrev pub create_post_reg : Pattern
create_post_reg = some_of is_solid true (
    some_of is_space false (
      literal (lit "--title ") (
        some_of is_any true
          (literal (lit " --content ") (some_of is_any true (any_of is_space false whole))))))

-- `^([^\s]+)$`
abbrev pub list_post_reg : Pattern
list_post_reg = some_of is_solid true whole

-- `^([0-9]+)$`
abbrev pub number_reg : Pattern
number_reg = some_of is_digit true whole

-- `^([0-9]+) --(title|content) (.*)$`
abbrev pub update_post_reg : Pattern
update_post_reg = some_of is_digit true (
    literal (lit " --")
      (choice (lit "title") (lit "content") (literal (lit " ") (any_of is_any true whole))))

-- `^([0-9]+) (.*)$`
abbrev pub comment_reg : Pattern
comment_reg = some_of is_digit true (literal (lit " ") (any_of is_any true whole))

-- `^(.+)$`
abbrev pub join_reg : Pattern
join_reg = some_of is_any true whole

-- `ma[n + 1].str()`, which is empty where there was no match.
abbrev pub group : ℕ → Option (List Str) → Str
group n none = []
group n (some caps) = elim (get_elem? caps n) [ none ↦ [] | some text ↦ text ]

abbrev pub with_args : Pattern → String → (Option (List Str) → Intent) → Str → Intent
with_args args_reg usage intent args = elim (regex_match args_reg args) [
  | none ↦ hints (lit usage)
  | some caps ↦ intent (some caps)
]

abbrev pub without_args : String → Intent → Str → Intent
without_args usage intent [] = intent
without_args usage intent (c ∷ args) = hints (lit usage)

-- `while` replaces line breaks in a content, not in a title.
abbrev pub broken : Bool → Str → Str
broken true text = text
broken false text = break_lines text

-- The commands of the BBS mode from `comment` on.
abbrev pub later_commands : Map Str (Str → Intent)
later_commands =
    (
      lit "comment",
      with_args comment_reg "Usage: comment <post-S/N> <comment>"
          λ m. comments (group 0 m) (group 1 m),
    )
    ∷ (
      lit "create-chatroom",
      with_args number_reg "Usage: create-chatroom <port>" λ m. creates_room (group 0 m),
    )
    ∷ (lit "list-chatroom", without_args "Usage: list-chatroom" lists_rooms)
    ∷ (
      lit "join-chatroom",
      with_args join_reg "Usage: join-chatroom <chatroom_name>" λ m. joins_room (group 0 m),
    )
    ∷ (lit "restart-chatroom", without_args "Usage: restart-chatroom" restarts_room)
    ∷ (lit "attach", without_args "Usage: attach" attaches)
    ∷ []

-- The commands of the BBS mode, in the order in which the names are tested.
abbrev pub bbs_commands : Map Str (Str → Intent)
bbs_commands =
    (
      lit "register",
      with_args register_reg "Usage: register <username> <email> <password>"
          λ m. registers (group 0 m) (group 1 m) (group 2 m),
    )
    ∷ (
      lit "login",
      with_args login_reg "Usage: login <username> <password>" λ m. logs_in (group 0 m) (group 1 m),
    )
    ∷ (lit "logout", without_args "Usage: logout" logs_out)
    ∷ (lit "whoami", without_args "Usage: whoami" asks_name)
    ∷ (lit "list-user", without_args "Usage: list-user" lists_users)
    ∷ (lit "exit", without_args "Usage: exit" exits)
    ∷ (
      lit "create-board",
      with_args create_board_reg "Usage: create-board <name>" λ m. creates_board (group 0 m),
    )
    ∷ (
      lit "create-post",
      with_args create_post_reg
          "Usage: create-post <board-name> --title <title> --content <content>"
          λ m. creates_post (group 0 m) (group 1 m) (break_lines (group 2 m)),
    )
    ∷ (lit "list-board", without_args "Usage: list-board" lists_boards)
    ∷ (
      lit "list-post",
      with_args list_post_reg "Usage: list-post <board-name>" λ m. lists_posts (group 0 m),
    )
    ∷ (lit "read", with_args number_reg "Usage: read <post-S/N>" λ m. reads (group 0 m))
    ∷ (
      lit "delete-post",
      with_args number_reg "Usage: delete-post <post-S/N>" λ m. deletes (group 0 m),
    )
    ∷ (
      lit "update-post",
      with_args update_post_reg "Usage: update-post <post-S/N> --title/content <new>" λ m.
          let istitle = str_eq (group 1 m) (lit "title") in
          updates (group 0 m) istitle (broken istitle (group 2 m)),
    )
    ∷ later_commands

-- Those of the chat mode, `detach` with whatever follows it.
abbrev pub chat_commands : Map Str (Str → Intent)
chat_commands =
    (lit "leave-chatroom", without_args "Usage: leave-chatroom" leaves_room)
    ∷ (lit "detach", λ args. detaches)
    ∷ []

-- What a line asks for in a mode. Other lines are said in the room, or are no command.
unfoldable pub read_line : Mode → Str → Intent
unfolding regex_match break_lines
read_line bbs inputstr =
    let ma = regex_match command_reg inputstr in
    elim (lookup (group 0 ma) bbs_commands) [
      | none ↦ hints (lit "Invalid command")
      | some intent ↦ intent (group 1 ma)
    ]
read_line chat inputstr =
    let ma = regex_match command_reg inputstr in
    elim (lookup (group 0 ma) chat_commands) [
      | none ↦ says inputstr
      | some intent ↦ intent (group 1 ma)
    ]
