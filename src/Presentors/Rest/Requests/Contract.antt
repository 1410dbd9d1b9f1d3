-- ===== src/Presentors/Rest/Requests/Contract.antt =====
-- What a client of `BooksController`
-- (library/presentors/rest/routers/api/v1/endpoints/books.py) is promised: which change of the
-- committed rows of the table each response stands for.
use example_litestar_service.Prelude.{ℕ, ◌≡◌, String, true, false, List, [], ◌∷◌}
use example_litestar_service.Domains.Entities.Book.{Book, BookPagination, CreateBook, UpdateBook}
use example_litestar_service.Application.Result.{Result, ok, raise}
use example_litestar_service.Adapters.Database.Books.{BookRow}
use example_litestar_service.Adapters.Database.Books.Contract.{
  Fetched, Listed, Created, Deleted, Updated,
}
use example_litestar_service.Presentors.Rest.Params.{check_window, is_positive}
use example_litestar_service.Presentors.Rest.Books.{
  CreateBookSchema, UpdateBookSchema, book_schema, book_pagination_schema, gives_nothing,
}
use example_litestar_service.Presentors.Rest.Requests.{
  BookRequest, get_books, post_book, get_book, patch_book, delete_book, BookResponse, page, book,
  no_content,
}

abbrev pub new_book : CreateBookSchema → CreateBook
new_book payload = record { title = payload.title; year = payload.year; author = payload.author }

abbrev pub change_of : String → UpdateBookSchema → UpdateBook
change_of id payload = record {
  id = id;
  title = payload.title;
  year = payload.year;
  author = payload.author;
}

-- The response says what was read, or what was written: of a page, that the window was valid; of
-- a book that was created, that its year was positive; of one that was changed, that something was
-- given.
abbrev pub Accepts : String → BookRequest → BookResponse → List BookRow → List BookRow → Type 0
Accepts detail (get_books limit offset) (page schema) rows rows' =
    (window : ℕ × ℕ) × (books : BookPagination) × (check_window detail limit offset ≡ ok window)
    × (schema ≡ book_pagination_schema books)
    × Listed (record { limit = window.0; offset = window.1 }) books rows rows'
Accepts detail (post_book payload) (book schema) rows rows' =
    (created : Book) × (is_positive payload.year ≡ true)
    × (schema ≡ book_schema created)
    × Created (new_book payload) created rows rows'
Accepts detail (get_book book_id) (book schema) rows rows' =
    (found : Book) × (schema ≡ book_schema found) × Fetched book_id found rows rows'
Accepts detail (patch_book book_id payload) (book schema) rows rows' =
    (changed : Book) × (gives_nothing payload ≡ false)
    × (schema ≡ book_schema changed)
    × Updated (change_of book_id payload) changed rows rows'
Accepts detail (delete_book book_id) no_content rows rows' = Deleted book_id rows rows'
Accepts detail _ _ rows rows' = ⊥

-- What returned did what `P` says, and what raised changed nothing.
abbrev pub Outcome :
    {A : Type 0}
    → (A → List BookRow → List BookRow → Type 0)
    → Result A
    → List BookRow
    → List BookRow
    → Type 0
Outcome P (ok a) rows rows' = P a rows rows'
Outcome P (raise e) rows rows' = rows' ≡ rows

-- The results of requests, one after the other, with the rows in between.
abbrev pub Explained :
    String → List BookRequest → List (Result BookResponse) → List BookRow → List BookRow → Type 0
Explained detail [] [] rows rows' = rows' ≡ rows
Explained detail (request ∷ requests) (r ∷ results) rows rows' =
    (between : List BookRow) × Outcome (Accepts detail request) r rows between
    × Explained detail requests results between rows'
Explained detail _ _ rows rows' = ⊥
