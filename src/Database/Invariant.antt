-- ===== src/Database/Invariant.antt =====
-- What holds of the database of server/database.cpp between two calls.
use np_hw.Prelude.{
  ℕ, ◌≡◌, sym, ◌∙◌, inl, inr, some, Str, str_key, ℤ, int_key, lookup, insert, lookup-insert_inv,
  subst, get_elem?,
}
use np_hw.Database.Types.{Database, BoardInfo, Post, fresh}
use np_hw.Database.Listing.{IsIssued, listing, listing-update}

-- `boards` and `boardInfos` describe the same boards, each board lists exactly the posts on it, in
-- the order of their serials, and each post is on a board and has a serial that was given out.
pub record IsValid (db : Database) : Type 0 where
  pub sound :
      (name : Str) (i : ℕ)
      → lookup name db.boards ≡ some i
      → (info : BoardInfo) × (get_elem? db.board_infos i ≡ some info) × (info.name ≡ name)
  pub indexed :
      (i : ℕ) (info : BoardInfo)
      → get_elem? db.board_infos i ≡ some info
      → lookup info.name db.boards ≡ some i
  pub listed :
      (i : ℕ) (info : BoardInfo)
      → get_elem? db.board_infos i ≡ some info
      → info.serials ≡ listing db.posts info.name db.post_serial
  pub housed :
      (s : ℤ) (p : Post)
      → lookup s db.posts ≡ some p
      → (i : ℕ) × (lookup p.board db.boards ≡ some i)
  pub numbered : (s : ℤ) (p : Post) → lookup s db.posts ≡ some p → IsIssued db.post_serial s

pub fresh-IsValid : IsValid fresh
unfolding lookup
fresh-IsValid = record {
  sound = λ name i h. cc;
  indexed = λ i info h. cc;
  listed = λ i info h. cc;
  housed = λ s p h. cc;
  numbered = λ s p h. cc;
}

-- Replacing a post by one on the same board.
pub replace-IsValid :
    (db : Database) (s : ℤ) (p q : Post)
    → IsValid db
    → lookup s db.posts ≡ some p
    → q.board ≡ p.board
    → IsValid (record db { posts = insert s q db.posts })
replace-IsValid db s p q v h e = record {
  sound = v.sound;
  indexed = v.indexed;
  listed = λ i info g.
      v.listed i info g ∙ sym (listing-update db.posts info.name db.post_serial s p q h e);
  housed = λ t r g. elim (lookup-insert_inv s t q r db.posts g) [
    | inl (k, w) ↦ let (i, old) = v.housed s p h in (i, cc)
    | inr old ↦ v.housed t r old
  ];
  numbered = λ t r g. elim (lookup-insert_inv s t q r db.posts g) [
    | inl (k, w) ↦ subst (IsIssued db.post_serial) k (v.numbered s p h)
    | inr old ↦ v.numbered t r old
  ];
}
