-- ===== src/Adapters/Database/Books/Bulk.antt =====
-- `save_bulk_books` of library/adapters/database/storages/book.py: what a bulk insert leaves in the
-- table.
use example_litestar_service.Prelude.{
  ℕ, eq_iff, eq_ℤ_iff, ◌≡◌, refl, ap, sym, subst, ◌∙◌, Bool, true, false, none, List, [], ◌∷◌, ◌++◌,
  map, append_assoc, append-nil, any, any-append, all, arith, All, inl, inr, Bool-cases,
}
use example_litestar_service.Domains.Entities.Book.{CreateBook}
use example_litestar_service.Application.Result.{ok}
use example_litestar_service.Adapters.Database.Books.{
  save_bulk_books, values_of, BookRow, BookSession,
}
use example_litestar_service.Adapters.Database.Books.Engine.{
  IsBookDatabase, same_key, key_of, live_keys, novel, fits, fits_integer,
}
use example_litestar_service.Adapters.Database.Books.Writing.{fits-values_of}

abbrev pub has_key : CreateBook → List CreateBook → Bool
has_key book keys = any (same_key book) keys

-- No two of the keys are the same.
abbrev pub IsUnique : List CreateBook → Type 0
IsUnique [] = Unit
IsUnique (key ∷ keys) = (has_key key keys ≡ false) × IsUnique keys

same_key_self : (a : CreateBook) → same_key a a ≡ true
same_key_self a =
    ground (arith, eq_iff a.title a.title, eq_ℤ_iff a.year a.year, eq_iff a.author a.author)

same_key_sym : (a b : CreateBook) → same_key a b ≡ false → same_key b a ≡ false
same_key_sym a b h = ground (
  arith,
  eq_iff a.title b.title,
  eq_ℤ_iff a.year b.year,
  eq_iff a.author b.author,
  eq_iff b.title a.title,
  eq_ℤ_iff b.year a.year,
  eq_iff b.author a.author,
)

IsUnique-append :
    (keys : List CreateBook) (book : CreateBook)
    → IsUnique keys
    → has_key book keys ≡ false
    → IsUnique (keys ++ book ∷ [])
IsUnique-append [] book unique new = (refl, tt)
IsUnique-append (key ∷ keys) book (first, unique) new = (
  ground (arith, any-append (same_key key) keys (book ∷ []), same_key_sym book key),
  IsUnique-append keys book unique (ground arith),
)

-- What is not among `seen` is not among `keys`.
abbrev Within : List CreateBook → List CreateBook → Type 0
Within keys seen = (b : CreateBook) → has_key b seen ≡ has_key b keys

Within-append :
    (keys seen : List CreateBook) (book : CreateBook)
    → Within keys seen
    → Within (keys ++ book ∷ []) (book ∷ seen)
Within-append keys seen book within b =
    ground (arith, within b, any-append (same_key b) keys (book ∷ []))

regroup :
    (keys : List CreateBook) (book : CreateBook) (rest : List CreateBook)
    → (keys ++ book ∷ []) ++ rest ≡ keys ++ book ∷ rest
regroup keys book rest = append_assoc keys (book ∷ []) rest

IsUnique-novel :
    (keys seen books : List CreateBook)
    → IsUnique keys
    → Within keys seen
    → IsUnique (keys ++ novel seen books)
IsUnique-novel keys seen [] unique within = rw (append-nil keys) unique
IsUnique-novel keys seen (book ∷ books) unique within = elim (Bool-cases (has_key book seen)) [
  | inl old ↦ rw old (IsUnique-novel keys seen books unique within)
  | inr new ↦
      rw (new, ← regroup keys book (novel (book ∷ seen) books))
        (IsUnique-novel (keys ++ book ∷ []) (book ∷ seen) books
          (IsUnique-append keys book unique (ground (arith, within book)))
          (Within-append keys seen book within))
]

-- All these books are among the old keys and the new ones.
abbrev AllCovered : List CreateBook → List CreateBook → List CreateBook → Type 0
AllCovered keys books new = All (λ b. has_key b (keys ++ new) ≡ true) books

-- Every book is there afterwards.
novel-covers :
    (keys seen books : List CreateBook)
    → Within keys seen
    → All (λ b. has_key b (keys ++ novel seen books) ≡ true) books
novel-covers keys seen [] within = tt
novel-covers keys seen (book ∷ books) within = elim (Bool-cases (has_key book seen)) [
  | inl old ↦
      let step : novel seen (book ∷ books) ≡ novel seen books = rw old refl in
      subst (AllCovered keys (book ∷ books)) (sym step) (
        ground (arith, within book, any-append (same_key book) keys (novel seen books)),
        novel-covers keys seen books within,
      )
  | inr new ↦
      let rest = novel (book ∷ seen) books in
      let step : novel seen (book ∷ books) ≡ book ∷ rest = rw new refl in
      let covered : AllCovered (keys ++ book ∷ []) books rest =
        novel-covers (keys ++ book ∷ []) (book ∷ seen) books
          (Within-append keys seen book within) in
      subst (AllCovered keys (book ∷ books)) (sym step) (
        ground (arith, any-append (same_key book) keys (book ∷ rest), same_key_self book),
        subst (λ l. All (λ b. has_key b l ≡ true) books) (regroup keys book rest) covered,
      )
]

pub live_keys-append :
    (rows added : List BookRow)
    → All (λ row. row.deleted_at ≡ none) added
    → live_keys (rows ++ added) ≡ live_keys rows ++ map key_of added
live_keys-append [] [] live = refl
live_keys-append [] (row ∷ added) (first, live) = ground (arith, live_keys-append [] added live)
live_keys-append (row ∷ rows) added live = ground (arith, live_keys-append rows added live)

all-fits :
    (books : List CreateBook)
    → All (λ b. fits_integer b.year ≡ true) books
    → all fits (map values_of books) ≡ true
all-fits [] h = refl
all-fits (book ∷ books) (first, h) = ground (arith, fits-values_of book first, all-fits books h)

All-map :
    (books keys : List CreateBook)
    → All (λ b. has_key b keys ≡ true) (map values_of books)
    → All (λ b. has_key (values_of b) keys ≡ true) books
All-map [] keys h = tt
All-map (book ∷ books) keys (first, h) = (first, All-map books keys h)

module _ {X : Type 0} (session : BookSession X) (rows : X → List BookRow) (now : ℕ)
    (db : IsBookDatabase session rows) where
  -- A bulk insert of at least one book, with years that fit, succeeds; it keeps all rows, leaves
  -- no two live rows for one book where there were none, and afterwards each of its books, with
  -- its texts cut, is there, whether it was new or not.
  pub save_bulk_books_lem :
      (book : CreateBook) (books : List CreateBook) (x : X)
      → All (λ b. fits_integer b.year ≡ true) (book ∷ books)
      → IsUnique (live_keys (rows x))
      → let (r, x') = save_bulk_books session now (book ∷ books) x in
        (r ≡ ok tt)
        × ((added : List BookRow) × (rows x' ≡ rows x ++ added))
        × IsUnique (live_keys (rows x'))
        × All (λ b. has_key (values_of b) (live_keys (rows x')) ≡ true) (book ∷ books)
  unfolding save_bulk_books
  save_bulk_books_lem book books x small unique =
      let keys = live_keys (rows x) in
      let values = map values_of (book ∷ books) in
      let (added, returned, after, new_keys, live) =
        db.insert_or_ignore_lem (values_of book) (map values_of books) x
          (all-fits (book ∷ books) small) in
      let known : live_keys (rows (session.insert_or_ignore values x).1)
          ≡ keys ++ novel keys values =
        ap live_keys after
        ∙ live_keys-append (rows x) added live
        ∙ ap (λ (l : List CreateBook). keys ++ l) new_keys in
      (
        returned,
        (added, after),
        rw known (IsUnique-novel keys keys values unique (λ b. refl)),
        subst (λ l. All (λ b. has_key (values_of b) l ≡ true) (book ∷ books)) (sym known)
            (All-map (book ∷ books) (keys ++ novel keys values)
              (novel-covers keys keys values (λ b. refl))),
      )
