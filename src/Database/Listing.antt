-- ===== src/Database/Listing.antt =====
-- What a board should list: the posts on it, in the order of their serials.
use np_hw.Prelude.{
  ℕ, zero, suc, ◌<◌, ◌≡◌, refl, ap, ap₂, sym, ◌∙◌, inl, inr, Bool, false, Option, none, some, List,
  [], ◌∷◌, ◌++◌, arith, Str, str_eq, ℤ, pos, negsuc, int_key, int_eq, int_eq_iff, ◌==◌, Map, lookup,
  insert, lookup-insert, keep, keep-append, erase_first, contains, erase_first-append_left,
  erase_first-append_right, contains-append, if◌then◌else◌, Bool-cases, same_refl,
}
use np_hw.Database.Types.{Post}

-- The serials that have been given out when the counter stands at `n` (and 0, which never is).
unfoldable pub issued : ℕ → List ℤ
issued zero = []
issued (suc n) = issued n ++ pos n ∷ []

abbrev pub IsIssued : ℕ → ℤ → Type 0
IsIssued n (pos m) = m < n
IsIssued n (negsuc m) = ⊥

abbrev pub posted_on : Str → Option Post → Bool
posted_on name none = false
posted_on name (some p) = str_eq p.board name

unfoldable pub listing : Map ℤ Post → Str → ℕ → List ℤ
listing posts name n = keep (λ s. posted_on name (lookup s posts)) (issued n)

IsIssued-suc : (n : ℕ) (s : ℤ) → IsIssued n s → IsIssued (suc n) s
IsIssued-suc n (pos m) h = omega arith
IsIssued-suc n (negsuc m) h = h

pub IsIssued-ne : (n : ℕ) (s : ℤ) → IsIssued n s → (pos n == s) ≡ false
unfolding int_eq
IsIssued-ne n (pos m) h = ground arith
IsIssued-ne n (negsuc m) h = refl

pub keep-issued_congr :
    (p q : ℤ → Bool) (n : ℕ)
    → ((s : ℤ) → IsIssued n s → p s ≡ q s)
    → keep p (issued n) ≡ keep q (issued n)
unfolding issued
keep-issued_congr p q zero h = refl
keep-issued_congr p q (suc n) h =
    let rest = keep-issued_congr p q n (λ s i. h s (IsIssued-suc n s i)) in
    let last = h (pos n) (omega arith) in
    keep-append p (issued n) (pos n ∷ [])
    ∙ rw (rest, last) (sym (keep-append q (issued n) (pos n ∷ [])))

-- A new post enters the list of its own board, at the end, and no other.
pub listing-insert :
    (posts : Map ℤ Post) (name : Str) (n : ℕ) (p : Post)
    → listing (insert (pos n) p posts) name (suc n)
      ≡ listing posts name n ++ (if str_eq p.board name then pos n ∷ [] else [])
unfolding listing issued
listing-insert posts name n p =
    keep-append (λ s. posted_on name (lookup s (insert (pos n) p posts))) (issued n) (pos n ∷ [])
    ∙ ap₂ ◌++◌ old new
  where
    old :
        keep (λ s. posted_on name (lookup s (insert (pos n) p posts))) (issued n)
        ≡ keep (λ s. posted_on name (lookup s posts)) (issued n)
    old = keep-issued_congr _ _ n λ s i. rw (lookup-insert, IsIssued-ne n s i)

    new :
        keep (λ s. posted_on name (lookup s (insert (pos n) p posts))) (pos n ∷ [])
        ≡ (if str_eq p.board name then pos n ∷ [] else [])
    new = rw (lookup-insert, same_refl (pos n))

-- A change that leaves a post on its board changes no list.
pub listing-update :
    (posts : Map ℤ Post) (name : Str) (n : ℕ) (s : ℤ) (p q : Post)
    → lookup s posts ≡ some p
    → q.board ≡ p.board
    → listing (insert s q posts) name n ≡ listing posts name n
unfolding listing
listing-update posts name n s p q h e =
    keep-issued_congr _ _ n λ t i. rw lookup-insert (ground (arith, int_eq_iff s t))

contains-keep-issued :
    (p : ℤ → Bool) (m n : ℕ) → n < suc m → contains (pos m) (keep p (issued n)) ≡ false
unfolding contains issued int_eq
contains-keep-issued p m zero h = refl
contains-keep-issued p m (suc n) h = rw keep-append (
    contains-append (pos m) (keep p (issued n)) (keep p (pos n ∷ []))
      (contains-keep-issued p m n (omega arith)) (ground arith))

abbrev except : ℤ → (ℤ → Bool) → ℤ → Bool
except t p s = if t == s then false else p s

erase_last :
    (p : ℤ → Bool) (n : ℕ)
    → erase_first (pos n) (keep p (issued n ++ pos n ∷ []))
      ≡ keep (except (pos n) p) (issued n ++ pos n ∷ [])
unfolding erase_first
erase_last p n =
    ap (erase_first (pos n)) (keep-append p (issued n) (pos n ∷ []))
    ∙ erase_first-append_right (pos n) (keep p (issued n)) (keep p (pos n ∷ []))
        (contains-keep-issued p n n (omega arith))
    ∙ ap₂ ◌++◌ (keep-issued_congr p (except (pos n) p) n (λ s i. rw (IsIssued-ne n s i)))
        (ground (arith, same_refl (pos n)))
    ∙ sym (keep-append (except (pos n) p) (issued n) (pos n ∷ []))

-- The erasing loop of `deletePost` takes exactly its serial out of the list.
pub erase_first-keep-issued :
    (p : ℤ → Bool) (t : ℤ) (n : ℕ)
    → erase_first t (keep p (issued n)) ≡ keep (λ s. if t == s then false else p s) (issued n)
unfolding erase_first issued contains
erase_first-keep-issued p t zero = refl
erase_first-keep-issued p t (suc n) = elim (Bool-cases (int_eq t (pos n))) [
  | inl e ↦ rw ((int_eq_iff t (pos n)).0 e) (erase_last p n)
  | inr e ↦
      ap (erase_first t) (keep-append p (issued n) (pos n ∷ []))
      ∙ erase_first-append_left t (keep p (issued n)) (keep p (pos n ∷ []))
          (ground (arith, int_eq_iff t (pos n), int_eq_iff (pos n) t))
      ∙ ap₂ ◌++◌ (erase_first-keep-issued p t n) (ground arith)
      ∙ sym (keep-append (except t p) (issued n) (pos n ∷ []))
]
