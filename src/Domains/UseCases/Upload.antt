-- ===== src/Domains/UseCases/Upload.antt =====
-- library/domains/use_cases/commands/book/upload_books.py. The loop over the pages takes fuel:
-- `none` means that it ran out.
pub mod Paging
pub mod Buckets
pub mod Whole
mod Tests
use example_litestar_service.Prelude.{
  ℕ, zero, suc, ◌+◌, String, Bool, true, false, Option, none, some, List, [], ◌∷◌, ◌++◌, map, take,
  drop, length, ltb, join, pos, if◌then◌else◌,
}
use example_litestar_service.Domains.Entities.Book.{CreateBook, UploadBooks}
use example_litestar_service.Domains.Entities.OpenLibrary.{OpenLibraryBook, OpenLibrarySearchResult}
use example_litestar_service.Domains.Services.{save_bulk_books}
use example_litestar_service.Domains.Storages.{IBookStorage}
use example_litestar_service.Domains.Uow.{AbstractUow, with_uow}
use example_litestar_service.Application.Result.{Action, pure, ◌>>=◌, ◌>>◌}

abbrev pub bucket_size : ℕ
bucket_size = 100

-- `IOpenLibraryClient.search`
abbrev pub Search : Type 0 → Type 0
Search S = String → (limit offset : ℕ) → Action S OpenLibrarySearchResult

unfoldable pub create_book_of : OpenLibraryBook → CreateBook
unfolding join
create_book_of book = record { title = book.title; year = pos 0; author = join "," book.authors }

-- `if len(result.books) < BUCKET_SIZE: break`, with the rest of the loop.
abbrev pub unless_last :
    {S : Type 0}
    → Bool
    → List CreateBook
    → Action S (Option (List CreateBook))
    → Action S (Option (List CreateBook))
unless_last true books rest = pure (some books)
unless_last false books rest = rest

-- The rounds of `while True` in `_get_all_books_by_query`.
unfoldable pub get_pages :
    {S : Type 0}
    → Search S
    → String
    → (fuel offset : ℕ) → List CreateBook
    → Action S (Option (List CreateBook))
unfolding create_book_of
get_pages search query zero offset books = pure none
get_pages search query (suc fuel) offset books = do
  result ← search query bucket_size offset
  let books' = books ++ map create_book_of result.books
  unless_last (ltb (length result.books) bucket_size) books'
      (get_pages search query fuel (offset + bucket_size) books')

-- `_get_all_books_by_query`
unfoldable pub get_all_books_by_query :
    {S : Type 0} → Search S → (fuel : ℕ) → String → Action S (Option (List CreateBook))
unfolding get_pages
get_all_books_by_query search fuel query = get_pages search query fuel 0 []

-- The loop over the queries; `none` where a query ran out of fuel.
unfoldable pub collect :
    {S : Type 0}
    → Search S
    → (fuel : ℕ) → List String
    → List CreateBook
    → Action S (Option (List CreateBook))
unfolding get_all_books_by_query
collect search fuel [] books = pure (some books)
collect search fuel (query ∷ queries) books = do
  found ← get_all_books_by_query search fuel query
  elim found [ none ↦ pure none | some more ↦ collect search fuel queries (books ++ more) ]

-- `[books[i : i + BUCKET_SIZE] for i in range(i, len(books), BUCKET_SIZE)]`, with fuel.
unfoldable pub buckets_from : ℕ → ℕ → List CreateBook → List (List CreateBook)
buckets_from zero i books = []
buckets_from (suc fuel) i books =
    let rest = buckets_from fuel (i + bucket_size) books in
    if ltb i (length books) then take bucket_size (drop i books) ∷ rest else []

unfoldable pub book_buckets : List CreateBook → List (List CreateBook)
unfolding buckets_from
book_buckets books = buckets_from (length books) 0 books

-- `for book_bucket in book_buckets: save_bulk_books(book_bucket)`
unfoldable pub save_buckets :
    {S : Type 0} → IBookStorage S → List (List CreateBook) → Action S (Unit {0})
unfolding save_bulk_books
save_buckets storage [] = pure tt
save_buckets storage (bucket ∷ buckets) = do
  save_bulk_books storage bucket
  save_buckets storage buckets

-- `UploadBooksCommand.execute`; `none` where a query ran out of fuel.
unfoldable pub upload_books :
    {S : Type 0}
    → AbstractUow S
    → IBookStorage S
    → Search S
    → (fuel : ℕ) → UploadBooks
    → Action S (Option (Unit {0}))
unfolding collect book_buckets save_buckets with_uow
upload_books uow storage search fuel input_dto = do
  collected ← collect search fuel input_dto.queries []
  elim collected [
    | none ↦ pure none
    | some books ↦ do with_uow uow (save_buckets storage (book_buckets books)); pure (some tt)
  ]
