-- ===== src/Database/Pages.antt =====
-- The page that `listPosts` should show for a board, without the lists that `boardInfos` keeps.
use mathlib.Core.List.{append-nil, append_assoc}
use np_hw.Prelude.{
  ℕ, zero, suc, ◌≡◌, refl, ap, ap₂, sym, ◌∙◌, inl, inr, Option, none, some, List, [], ◌∷◌, ◌++◌,
  Str, str_eq, ℤ, pos, int_key, Map, lookup, keep, keep-append, Result, ok, throws, if◌then◌else◌,
  Bool-cases,
}
use np_hw.Database.Types.{Post}
use np_hw.Database.Boards.{post_row, post_rows, add_row}
use np_hw.Database.Listing.{issued, posted_on, listing}

abbrev page_row : Str → ℤ → Option Post → Str
page_row name s none = []
page_row name s (some p) = if str_eq p.board name then post_row s p else []

-- One row for each post on the board, in the order of the serials below `n`.
unfoldable pub board_page : Map ℤ Post → Str → ℕ → Str
board_page posts name zero = []
board_page posts name (suc n) =
    board_page posts name n ++ page_row name (pos n) (lookup (pos n) posts)

abbrev joined : Result Str → Result Str → Result Str
joined (ok r) (ok q) = ok (r ++ q)
joined (ok r) (throws e) = throws e
joined (throws e) q = throws e

add_row-joined :
    (x : ℤ) (o : Option Post) (r q : Result Str)
    → add_row x o (joined r q) ≡ joined (add_row x o r) q
add_row-joined x none r q = refl
add_row-joined x (some p) (ok r) (ok q) = ap ok (sym (append_assoc (post_row x p) r q))
add_row-joined x (some p) (ok r) (throws e) = refl
add_row-joined x (some p) (throws e) q = refl

post_rows-append :
    (posts : Map ℤ Post) (xs ys : List ℤ)
    → post_rows posts (xs ++ ys) ≡ joined (post_rows posts xs) (post_rows posts ys)
unfolding post_rows
post_rows-append posts [] ys = elim (post_rows posts ys) as (λ r. r ≡ joined (ok []) r) [
  | ok q ↦ refl
  | throws e ↦ refl
]
post_rows-append posts (x ∷ xs) ys =
    ap (add_row x (lookup x posts)) (post_rows-append posts xs ys)
    ∙ add_row-joined x (lookup x posts) (post_rows posts xs) (post_rows posts ys)

-- The loop of `listPosts` over the right list returns the page.
pub post_rows-listing :
    (posts : Map ℤ Post) (name : Str) (n : ℕ)
    → post_rows posts (listing posts name n) ≡ ok (board_page posts name n)
unfolding post_rows listing issued board_page
post_rows-listing posts name zero = refl
post_rows-listing posts name (suc n) =
    ap (post_rows posts) (keep-append _ (issued n) (pos n ∷ []))
    ∙ post_rows-append posts (listing posts name n) _
    ∙ ap₂ joined (post_rows-listing posts name n) (last_row (lookup (pos n) posts) refl)
  where
    last_row :
        (o : Option Post)
        → lookup (pos n) posts ≡ o
        → post_rows posts (keep (λ s. posted_on name (lookup s posts)) (pos n ∷ []))
          ≡ ok (page_row name (pos n) (lookup (pos n) posts))
    last_row none e = rw e
    last_row (some p) e = elim (Bool-cases (str_eq p.board name)) [
      | inl on ↦ rw (e, on, e) (ap ok (append-nil (post_row (pos n) p)))
      | inr off ↦ rw (e, off)
    ]
