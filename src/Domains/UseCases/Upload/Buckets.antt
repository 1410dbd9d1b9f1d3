-- ===== src/Domains/UseCases/Upload/Buckets.antt =====
-- The buckets in which library/domains/use_cases/commands/book/upload_books.py saves its books.
use example_litestar_service.Prelude.{
  ℕ, zero, suc, ◌+◌, ◌*◌, ◌≤◌, ◌<◌, ◌≡◌, refl, List, [], ◌∷◌, ◌++◌, drop, length, ltb, arith, All,
  length-take, length-drop, take-append-drop, drop-drop, drop_of_long, Bool-cases, inl, inr, ltb→lt,
  ltb-le, sym,
}
use example_litestar_service.Domains.Entities.Book.{CreateBook}
use example_litestar_service.Domains.UseCases.Upload.{bucket_size, buckets_from, book_buckets}

abbrev pub concat : List (List CreateBook) → List CreateBook
concat [] = []
concat (bucket ∷ buckets) = bucket ++ concat buckets

concat-buckets_from :
    (fuel i : ℕ) (books : List CreateBook)
    → length books ≤ i + fuel * bucket_size
    → concat (buckets_from fuel i books) ≡ drop i books
unfolding buckets_from
concat-buckets_from zero i books enough = sym (drop_of_long i books (omega arith))
concat-buckets_from (suc fuel) i books enough = elim (Bool-cases (ltb i (length books))) [
  | inl more ↦
      rw
        (
          more,
          concat-buckets_from fuel (i + bucket_size) books (omega arith),
          ← drop-drop i bucket_size books,
          take-append-drop bucket_size (drop i books),
        )
        refl
  | inr done ↦ rw done (sym (drop_of_long i books (ltb-le _ _ done)))
]

buckets_from-sizes :
    (fuel i : ℕ) (books : List CreateBook)
    → All
        (λ bucket. (0 < length bucket) × (length bucket ≤ bucket_size))
        (buckets_from fuel i books)
unfolding buckets_from
buckets_from-sizes zero i books = tt
buckets_from-sizes (suc fuel) i books = elim (Bool-cases (ltb i (length books))) [
  | inl more ↦
      let below : i < length books = ltb→lt _ _ more in
      rw more (
        (
          omega (arith, length-take bucket_size (drop i books), length-drop i books),
          omega (arith, length-take bucket_size (drop i books), length-drop i books),
        ),
        buckets_from-sizes fuel (i + bucket_size) books,
      )
  | inr done ↦ rw done tt
]

-- The buckets hold all books in their order, and each holds at least one and at most 100.
pub book_buckets_lem :
    (books : List CreateBook)
    → (concat (book_buckets books) ≡ books)
      × All (λ bucket. (0 < length bucket) × (length bucket ≤ bucket_size)) (book_buckets books)
unfolding book_buckets
book_buckets_lem books = (
  concat-buckets_from (length books) 0 books (omega arith),
  buckets_from-sizes (length books) 0 books,
)
