-- ===== src/Domains/UseCases/Upload/Whole.antt =====
-- The whole of `UploadBooksCommand` (library/domains/use_cases/commands/book/upload_books.py), over a
-- client that pages through its books.
use example_litestar_service.Prelude.{
  ℕ, ◌*◌, ◌<◌, ◌≡◌, refl, ap, ◌∙◌, sym, String, some, List, [], ◌∷◌, ◌++◌, map, length, append-nil,
  append_assoc, All,
}
use example_litestar_service.Domains.Entities.Book.{CreateBook, UploadBooks}
use example_litestar_service.Domains.Entities.OpenLibrary.{OpenLibraryBook}
use example_litestar_service.Domains.Storages.{IBookStorage}
use example_litestar_service.Domains.Uow.{AbstractUow, with_uow}
use example_litestar_service.Application.Result.{ok, pure, ◌>>◌}
use example_litestar_service.Domains.UseCases.Upload.{
  bucket_size, Search, create_book_of, collect, book_buckets, save_buckets, upload_books,
}
use example_litestar_service.Domains.UseCases.Upload.Paging.{Answers, get_all_books_by_query_lem}

-- The books of all queries, in their order.
abbrev pub books_of_queries : (String → List OpenLibraryBook) → List String → List CreateBook
books_of_queries found [] = []
books_of_queries found (query ∷ queries) =
    map create_book_of (found query) ++ books_of_queries found queries

module _ {S : Type 0} (search : Search S) (found : String → List OpenLibraryBook)
    (answers : (query : String) → Answers search query (found query)) where
  collect_lem :
      (fuel : ℕ) (queries : List String) (books : List CreateBook) (s : S)
      → All (λ query. length (found query) < fuel * bucket_size) queries
      → collect search fuel queries books s
        ≡ (ok (some (books ++ books_of_queries found queries)), s)
  unfolding collect
  collect_lem fuel [] books s enough =
      ap (λ (l : List CreateBook). (ok (some l), s)) (sym (append-nil books))
  collect_lem fuel (query ∷ queries) books s (first, enough) =
      rw (get_all_books_by_query_lem search query (found query) (answers query) fuel s first) (
        collect_lem fuel queries (books ++ map create_book_of (found query)) s enough
        ∙ ap (λ (l : List CreateBook). (ok (some l), s))
            (append_assoc books (map create_book_of (found query))
              (books_of_queries found queries)))

  -- With fuel for every query, an upload over a client that pages through its books first gets all
  -- books of all queries, in order, and then saves them in buckets in one unit of work: it comes
  -- to exactly that, whatever the unit of work and the storage do.
  pub upload_books_lem :
      (uow : AbstractUow S) (storage : IBookStorage S) (fuel : ℕ) (input_dto : UploadBooks) (s : S)
      → All (λ query. length (found query) < fuel * bucket_size) input_dto.queries
      → upload_books uow storage search fuel input_dto s
        ≡ (with_uow uow
                (save_buckets storage (book_buckets (books_of_queries found input_dto.queries)))
              >> pure (some tt))
            s
  unfolding upload_books
  upload_books_lem uow storage fuel input_dto s enough =
      rw (collect_lem fuel input_dto.queries [] s enough) refl
