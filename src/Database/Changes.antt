-- ===== src/Database/Changes.antt =====
-- Posting, deleting and opening a board, as server/database.cpp does, keep the database valid.
use mathlib.Core.List.{append-nil}
use np_hw.Prelude.Ints.{to_int, to_int-small, int_suc, int_suc-small}
use np_hw.Prelude.{
  ◌+◌, ◌^◌, ◌<◌, ℕ, suc, ◌≡◌, sym, ◌∙◌, inl, inr, false, none, some, List, [], ◌∷◌, ◌++◌, arith,
  Str, str_eq_iff, str_key, ℤ, pos, negsuc, int_key, int_eq_iff, Map, lookup, insert, remove,
  lookup-insert, lookup-remove, lookup-insert_inv, lookup-remove_inv, get_elem?-set_inv,
  get_elem?-append_left, get_elem?-append_end, get_elem?-append_inv, keep_nothing, subst,
  erase_first, Bool-cases, Option-cases, get_elem?, set, length, get_elem?-set, same_refl, nat_eq,
  nat_eq_iff,
}
use np_hw.Database.Types.{Database, BoardInfo, Post}
use np_hw.Database.Listing.{
  IsIssued, posted_on, listing, keep-issued_congr, listing-insert, erase_first-keep-issued,
}
use np_hw.Database.Invariant.{IsValid}

-- Replacing the serials of a board keeps the boards' names and places.
module _ (db : Database) (v : IsValid db) (i : ℕ) (info : BoardInfo) (l : List ℤ)
    (g : get_elem? db.board_infos i ≡ some info) where
  abbrev relisted : List BoardInfo
  relisted = set db.board_infos i (record info { serials = l })

  relisted_sound :
      (name : Str) (j : ℕ)
      → lookup name db.boards ≡ some j
      → (new : BoardInfo) × (get_elem? relisted j ≡ some new) × (new.name ≡ name)
  relisted_sound name j h =
      let (old, at_j, e) = v.sound name j h in
      elim (Bool-cases (nat_eq i j)) [
        | inl same ↦ (
          record info { serials = l },
          rw (get_elem?-set db.board_infos i j (record info { serials = l }) info g, same),
          ground (arith, v.indexed i info g, v.indexed j old at_j, nat_eq_iff i j),
        )
        | inr other ↦ (
          old,
          rw (get_elem?-set db.board_infos i j (record info { serials = l }) info g, other) at_j,
          e,
        )
      ]

  relisted-indexed :
      (j : ℕ) (new : BoardInfo)
      → get_elem? relisted j ≡ some new
      → lookup new.name db.boards ≡ some j
  relisted-indexed j new h =
      elim (get_elem?-set_inv db.board_infos i j (record info { serials = l }) new info g h) [
        | inl (same, e) ↦ rw (← e, ← same) (v.indexed i info g)
        | inr (other, old) ↦ v.indexed j new old
      ]

-- A post at the board with index `i`, under the serial `s`; `next` is the next one.
abbrev posted_as : Database → ℕ → BoardInfo → Post → ℤ → ℕ → Database
posted_as db i info p s next = record db {
  post_serial = next;
  board_infos = set db.board_infos i (record info { serials = info.serials ++ s ∷ [] });
  posts = insert s p db.posts;
}

-- `createPost` at the board with index `i`.
abbrev pub posted : Database → ℕ → BoardInfo → Post → Database
posted db i info p = posted_as db i info p (to_int (pos db.post_serial)) (int_suc db.post_serial)

IsIssued-grow : (n : ℕ) (s : ℤ) → IsIssued n s → IsIssued (suc n) s
IsIssued-grow n (pos m) h = omega arith
IsIssued-grow n (negsuc m) h = h

posted_as-IsValid :
    (db : Database) (i : ℕ) (info : BoardInfo) (p : Post)
    → IsValid db
    → get_elem? db.board_infos i ≡ some info
    → info.name ≡ p.board
    → IsValid (posted_as db i info p (pos db.post_serial) (suc db.post_serial))
posted_as-IsValid db i info p v g e = record {
  sound = relisted_sound db v i info _ g;
  indexed = relisted-indexed db v i info _ g;
  listed = λ j new h. elim (get_elem?-set_inv db.board_infos i j _ new info g h) [
    | inl (same, k) ↦ ground (
      arith,
      v.listed i info g,
      listing-insert db.posts info.name db.post_serial p,
      str_eq_iff p.board info.name,
    )
    | inr (other, old) ↦ ground (
      arith,
      v.listed j new old,
      v.indexed j new old,
      v.indexed i info g,
      listing-insert db.posts new.name db.post_serial p,
      str_eq_iff p.board new.name,
      nat_eq_iff i j,
      append-nil (listing db.posts new.name db.post_serial),
    )
  ];
  housed = λ t r h. elim (lookup-insert_inv (pos db.post_serial) t p r db.posts h) [
    | inl (k, w) ↦ (i, ground (arith, v.indexed i info g))
    | inr old ↦ v.housed t r old
  ];
  numbered = λ t r h. elim (lookup-insert_inv (pos db.post_serial) t p r db.posts h) [
    | inl (k, w) ↦ subst (IsIssued (suc db.post_serial)) k (omega arith)
    | inr old ↦ IsIssued-grow db.post_serial t (v.numbered t r old)
  ];
}

-- While the counter is no more than the largest `int` but one.
pub posted-IsValid :
    (db : Database) (i : ℕ) (info : BoardInfo) (p : Post)
    → IsValid db
    → db.post_serial + 1 < 2 ^ 31
    → get_elem? db.board_infos i ≡ some info
    → info.name ≡ p.board
    → IsValid (posted db i info p)
posted-IsValid db i info p v room g e =
    rw (to_int-small db.post_serial (omega arith), int_suc-small db.post_serial room)
      (posted_as-IsValid db i info p v g e)

-- `deletePost` of a post on the board with index `i`.
abbrev pub dropped : Database → ℕ → BoardInfo → ℤ → Database
dropped db i info s = record db {
  board_infos = set db.board_infos i (record info { serials = erase_first s info.serials });
  posts = remove s db.posts;
}

listing-remove :
    (posts : Map ℤ Post) (name : Str) (n : ℕ) (s : ℤ)
    → listing (remove s posts) name n ≡ erase_first s (listing posts name n)
unfolding listing
listing-remove posts name n s =
    keep-issued_congr _ _ n (λ t i. rw lookup-remove (ground arith))
    ∙ sym (erase_first-keep-issued (λ t. posted_on name (lookup t posts)) s n)

-- The list of another board loses nothing.
listing-remove_other :
    (posts : Map ℤ Post) (name : Str) (n : ℕ) (s : ℤ) (p : Post)
    → lookup s posts ≡ some p
    → ¬ (p.board ≡ name)
    → listing (remove s posts) name n ≡ listing posts name n
unfolding listing
listing-remove_other posts name n s p h k =
    keep-issued_congr _ _ n
      λ t i. rw lookup-remove (ground (arith, int_eq_iff s t, str_eq_iff p.board name))

pub dropped-IsValid :
    (db : Database) (i : ℕ) (info : BoardInfo) (s : ℤ) (p : Post)
    → IsValid db
    → lookup s db.posts ≡ some p
    → get_elem? db.board_infos i ≡ some info
    → info.name ≡ p.board
    → IsValid (dropped db i info s)
dropped-IsValid db i info s p v q g e = record {
  sound = relisted_sound db v i info _ g;
  indexed = relisted-indexed db v i info _ g;
  listed = λ j new h. elim (get_elem?-set_inv db.board_infos i j _ new info g h) [
    | inl (same, k) ↦
        ground (arith, v.listed i info g, listing-remove db.posts info.name db.post_serial s)
    | inr (other, old) ↦
        v.listed j new old
        ∙ sym (
            listing-remove_other db.posts new.name db.post_serial s p q
              (λ b. ground (arith, v.indexed j new old, v.indexed i info g, nat_eq_iff i j)))
  ];
  housed = λ t r h. v.housed t r (lookup-remove_inv s t r db.posts h).1;
  numbered = λ t r h. v.numbered t r (lookup-remove_inv s t r db.posts h).1;
}

-- `createBoard` with a new name.
abbrev pub boarded : Database → Str → Str → Database
boarded db name moderator = record db {
  boards = insert name (length db.board_infos) db.boards;
  board_infos = db.board_infos ++ record { name = name; moderator = moderator; serials = [] } ∷ [];
}

pub boarded-IsValid :
    (db : Database) (name moderator : Str)
    → IsValid db
    → lookup name db.boards ≡ none
    → IsValid (boarded db name moderator)
boarded-IsValid db name moderator v absent = record {
  sound = λ other j h. elim (lookup-insert_inv name other (length db.board_infos) j db.boards h) [
    | inl (k, w) ↦ (
      record { name = name; moderator = moderator; serials = [] },
      get_elem?-append_end db.board_infos _ j (sym w),
      k,
    )
    | inr old ↦
        let (info, g, e) = v.sound other j old in
        (info, get_elem?-append_left db.board_infos _ j info g, e)
  ];
  indexed = λ j info h. elim (get_elem?-append_inv db.board_infos _ info j h) [
    | inl (k, w) ↦ rw (← w, lookup-insert, same_refl name, k)
    | inr old ↦ ground (
      arith,
      lookup-insert name info.name (length db.board_infos) db.boards,
      v.indexed j info old,
      str_eq_iff name info.name,
    )
  ];
  listed = λ j info h. elim (get_elem?-append_inv db.board_infos _ info j h) [
    | inl (k, w) ↦ rw (← w) (sym (unfold listing in keep_nothing _ _ nothing_posted))
    | inr old ↦ v.listed j info old
  ];
  housed = λ t r h.
      let (i, at_i) = v.housed t r h in
      (
        i,
        ground (
          arith,
          lookup-insert name r.board (length db.board_infos) db.boards,
          str_eq_iff name r.board,
        ),
      );
  numbered = v.numbered;
}
  where
    nothing_posted : (s : ℤ) → posted_on name (lookup s db.posts) ≡ false
    nothing_posted s = elim (Option-cases (lookup s db.posts)) [
      | inl e ↦ rw e
      | inr (r, e) ↦
          let (i, at_i) = v.housed s r e in rw e (ground (arith, str_eq_iff r.board name))
    ]
