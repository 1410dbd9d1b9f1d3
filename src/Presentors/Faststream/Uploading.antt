-- ===== src/Presentors/Faststream/Uploading.antt =====
-- A message of the subject `books.upload_open_library`, through the middleware of
-- library/adapters/nats/middlewares/log.py, the handler of
-- library/presentors/faststream/handlers/books.py, the upload and the book storage.
use example_litestar_service.Prelude.{
  ℕ, ◌*◌, ◌<◌, ◌≡◌, refl, ap, ◌∙◌, sym, subst, String, true, Option, some, List, [], ◌∷◌, ◌++◌, map,
  length, All, inl, inr, ◌⊎◌,
}
use example_litestar_service.Domains.Entities.Book.{CreateBook}
use example_litestar_service.Domains.Entities.OpenLibrary.{OpenLibraryBook}
use example_litestar_service.Domains.Uow.{with_uow}
use example_litestar_service.Domains.UseCases.Upload.{
  bucket_size, Search, create_book_of, book_buckets, save_buckets,
}
use example_litestar_service.Domains.UseCases.Upload.Paging.{Answers}
use example_litestar_service.Domains.UseCases.Upload.Buckets.{book_buckets_lem}
use example_litestar_service.Domains.UseCases.Upload.Whole.{books_of_queries, upload_books_lem}
use example_litestar_service.Application.Exceptions.{Exception}
use example_litestar_service.Application.Result.{Result, ok, raise, continue, pure}
use example_litestar_service.Adapters.Database.Uow.{SessionApi, State, closed, sqlalchemy_uow}
use example_litestar_service.Adapters.Database.Uow.Atomic.{IsTransactional}
use example_litestar_service.Adapters.Database.Uow.Inside.{with_uow_committed, with_uow_undone}
use example_litestar_service.Adapters.Database.Books.{BookRow, BookSession, book_storage}
use example_litestar_service.Adapters.Database.Books.Engine.{
  IsBookDatabase, live_keys, fits_integer,
}
use example_litestar_service.Adapters.Database.Books.Bulk.{IsUnique}
use example_litestar_service.Adapters.Database.Books.Session.{session_of_uow, KeepsDurable}
use example_litestar_service.Adapters.Database.Books.Saving.{
  All-append, Holds, Extends, save_buckets_lem, save_buckets-RunsInside,
}
use example_litestar_service.Adapters.Nats.{
  StreamMessage, LogEntry, BaseMiddleware, consume_scope, received_entry, failure_entry,
}
use example_litestar_service.Adapters.Nats.Consuming.{IsBase, handled, consume_scope_lem}
use example_litestar_service.Presentors.Faststream.{
  UploadBooksEvent, upload_open_library_books, beside, beside_log,
}

-- The year of an uploaded book is 0.
small_years :
    (books : List OpenLibraryBook)
    → All (λ b. fits_integer b.year ≡ true) (map create_book_of books)
unfolding create_book_of
small_years [] = tt
small_years (book ∷ books) = (refl, small_years books)

years_small :
    (found : String → List OpenLibraryBook) (queries : List String)
    → All (λ b. fits_integer b.year ≡ true) (books_of_queries found queries)
years_small found [] = tt
years_small found (query ∷ queries) =
    All-append _ (map create_book_of (found query)) (books_of_queries found queries)
      (small_years (found query)) (years_small found queries)

All-firsts :
    (P Q : List CreateBook → Type 0) (l : List (List CreateBook)) → All (λ b. P b × Q b) l → All P l
All-firsts P Q [] h = tt
All-firsts P Q (b ∷ l) ((p, _), h) = (p, All-firsts P Q l h)

-- The rows hold the books, and all that was there before.
abbrev pub Uploaded : List CreateBook → List BookRow → List BookRow → Type 0
Uploaded books rows rows' = Extends rows rows' × Holds books rows'

Uploaded-along :
    {books books' : List CreateBook} {before before' after after' : List BookRow}
    → books ≡ books'
    → before ≡ before'
    → after' ≡ after
    → Uploaded books before after
    → Uploaded books' before' after'
Uploaded-along same same_before same_after = rw (← same, ← same_before, same_after) (λ u. u)

module _ {W Session Transaction : Type 0} (api : SessionApi W Session Transaction)
    (sql : Session → BookSession W) (now : ℕ) (durable : W → List BookRow)
    (view : Session → W → List BookRow) (laws : IsTransactional api durable view)
    (keeps : (s : Session) → KeepsDurable (sql s) durable)
    (db : (s : Session) → IsBookDatabase (sql s) (view s)) where
  -- The saving of an upload, as one transaction: of any books whose years fit.
  saved_or_not :
      (books : List CreateBook) (w : W)
      → All (λ b. fits_integer b.year ≡ true) books
      → IsUnique (live_keys (durable w))
      → let body = save_buckets (book_storage (session_of_uow api sql) now) (book_buckets books) in
        let (r, (_, w')) = with_uow (sqlalchemy_uow api) body (closed, w) in
        (r ≡ ok tt → Uploaded books (durable w) (durable w'))
        × ((e : Exception) → r ≡ raise e → durable w' ≡ durable w)
  saved_or_not books w small unique =
      let buckets = book_buckets books in
      let run = save_buckets-RunsInside api durable sql now keeps buckets in
      let (all_books, full) = book_buckets_lem books in
      (
        λ returned.
            let (s, w₂, seen, done, kept) =
              with_uow_committed api durable view laws run w tt returned in
            let (_, extends, held) =
              save_buckets_lem (sql s) (view s) now (db s) buckets w₂ (All-firsts _ _ buckets full)
                (rw all_books small) (rw seen unique) in
            Uploaded-along all_books seen kept (extends, held),
        λ e raised. with_uow_undone api durable view laws run w e raised,
      )

  -- How the handling of a message has ended: with all its books in the committed rows, or with an
  -- exception, its entry in the log, and the committed rows as they were.
  unfoldable pub Delivered :
      StreamMessage
      → List CreateBook
      → List LogEntry
      → List BookRow
      → Result (Option (Option (Unit {0}))) × (List LogEntry × State api)
      → Type 0
  Delivered msg books entries before (r, (entries', (_, w'))) =
      ((r ≡ ok (some (some tt)))
        × Uploaded books before (durable w')
        × (entries' ≡ entries ++ received_entry msg ∷ []))
      ⊎ ((e : Exception) × (r ≡ raise e)
          × (durable w' ≡ before)
          × (entries' ≡ (entries ++ received_entry msg ∷ []) ++ failure_entry msg e ∷ []))

  delivered :
      (msg : StreamMessage) (books : List CreateBook) (entries : List LogEntry)
      (before : List BookRow) (p : Result (Unit {0}) × State api)
      → (p.0 ≡ ok tt → Uploaded books before (durable p.1.1))
      → ((e : Exception) → p.0 ≡ raise e → durable p.1.1 ≡ before)
      → Delivered msg books entries before (
          handled msg
            (beside (entries ++ received_entry msg ∷ []) (continue (λ _. pure (some tt)) p)))
  unfolding Delivered
  delivered msg books entries before (ok tt, x) saved undone = inl (refl, saved refl, refl)
  delivered msg books entries before (raise e, x) saved undone = inr (e, refl, undone e refl, refl)

  module _ (search : Search (State api)) (found : String → List OpenLibraryBook)
      (answers : (query : String) → Answers search query (found query))
      (base : BaseMiddleware (State api)) (base_laws : IsBase base) where
    -- A message with queries, where the client pages through the books of each and the fuel
    -- is enough for them, is handled completely or not at all, through the middleware, the handler,
    -- the upload, the unit of work and the storage: either it returns, and the committed rows hold
    -- each of the books, with its texts cut, and no two live rows for one book, behind all rows
    -- that were there; or it raises, the failure is logged, and the committed rows are as before.
    pub upload_message_lem :
        (event : UploadBooksEvent) (fuel : ℕ) (msg : StreamMessage) (entries : List LogEntry)
        (w : W)
        → All (λ query. length (found query) < fuel * bucket_size) event.queries
        → IsUnique (live_keys (durable w))
        → Delivered msg (books_of_queries found event.queries) entries (durable w) (
            consume_scope base
              (λ _. beside_log (
                upload_open_library_books
                  (sqlalchemy_uow api)
                  (book_storage (session_of_uow api sql) now)
                  search
                  fuel
                  event))
              msg
              (entries, (closed, w)))
    unfolding upload_open_library_books
    upload_message_lem event fuel msg entries w enough unique =
        let uow = sqlalchemy_uow api in
        let storage = book_storage (session_of_uow api sql) now in
        let books = books_of_queries found event.queries in
        let handler = upload_open_library_books uow storage search fuel event in
        let (scope, _, _) =
          consume_scope_lem base base_laws (λ _. beside_log handler) msg entries (closed, w) in
        let uploads =
          upload_books_lem search found answers uow storage fuel
            (record { queries = event.queries }) (closed, w) enough in
        let (saved, undone) = saved_or_not books w (years_small found event.queries) unique in
        subst (Delivered msg books entries (durable w))
          (sym
            (scope ∙ ap (λ p. handled msg (beside (entries ++ received_entry msg ∷ []) p)) uploads))
          (delivered msg books entries (durable w)
            (with_uow uow (save_buckets storage (book_buckets books)) (closed, w)) saved undone)
