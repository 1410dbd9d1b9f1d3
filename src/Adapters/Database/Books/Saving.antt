-- ===== src/Adapters/Database/Books/Saving.antt =====
-- `save_bulk_books` of library/adapters/database/storages/book.py, bucket after bucket, as the
-- upload of library/domains/use_cases/commands/book/upload_books.py calls it.
use example_litestar_service.Prelude.{
  ℕ, ◌<◌, ◌≡◌, refl, ap, ◌∙◌, sym, subst, true, List, [], ◌∷◌, ◌++◌, append_assoc, append-nil,
  length, arith, All,
}
use example_litestar_service.Domains.Entities.Book.{CreateBook}
use example_litestar_service.Domains.Services
use example_litestar_service.Domains.UseCases.Upload.{save_buckets}
use example_litestar_service.Domains.UseCases.Upload.Buckets.{concat}
use example_litestar_service.Application.Result.{Result, ok, continue}
use example_litestar_service.Adapters.Database.Uow.{SessionApi}
use example_litestar_service.Adapters.Database.Uow.Inside.{
  RunsInside, RunsInside-with_session, RunsInside-pure, RunsInside-bind,
}
use example_litestar_service.Adapters.Database.Books.{
  BookRow, BookSession, book_storage, save_bulk_books, values_of,
}
use example_litestar_service.Adapters.Database.Books.Engine.{
  IsBookDatabase, live_keys, fits_integer,
}
use example_litestar_service.Adapters.Database.Books.Bulk.{IsUnique, has_key, save_bulk_books_lem}
use example_litestar_service.Adapters.Database.Books.Session.{session_of_uow, KeepsDurable}

-- The live rows have no two for one book, and one for each of these books, with its texts cut.
abbrev pub Holds : List CreateBook → List BookRow → Type 0
Holds books rows =
    IsUnique (live_keys rows) × All (λ b. has_key (values_of b) (live_keys rows) ≡ true) books

-- Rows that were added are behind those that were there.
abbrev pub Extends : List BookRow → List BookRow → Type 0
Extends rows rows' = (added : List BookRow) × (rows' ≡ rows ++ added)

has_key-extended :
    (key : CreateBook) (rows added : List BookRow)
    → has_key key (live_keys rows) ≡ true
    → has_key key (live_keys (rows ++ added)) ≡ true
has_key-extended key [] added h = absurd (ground (arith, h))
has_key-extended key (row ∷ rows) added h = ground (arith, has_key-extended key rows added)

All-extended :
    (books : List CreateBook) (rows rows' : List BookRow)
    → Extends rows rows'
    → All (λ b. has_key (values_of b) (live_keys rows) ≡ true) books
    → All (λ b. has_key (values_of b) (live_keys rows') ≡ true) books
All-extended [] rows rows' extends h = tt
All-extended (book ∷ books) rows rows' (added, e) (first, h) = (
  rw e (has_key-extended (values_of book) rows added first),
  All-extended books rows rows' (added, e) h,
)

pub All-append :
    (P : CreateBook → Type 0) (a b : List CreateBook) → All P a → All P b → All P (a ++ b)
All-append P [] b h k = k
All-append P (x ∷ a) b (first, h) k = (first, All-append P a b h k)

All-prefix : (P : CreateBook → Type 0) (a b : List CreateBook) → All P (a ++ b) → All P a
All-prefix P [] b h = tt
All-prefix P (x ∷ a) b (first, h) = (first, All-prefix P a b h)

All-suffix : (P : CreateBook → Type 0) (a b : List CreateBook) → All P (a ++ b) → All P b
All-suffix P [] b h = h
All-suffix P (x ∷ a) b (first, h) = All-suffix P a b h

abbrev SmallYear : CreateBook → Type 0
SmallYear b = fits_integer b.year ≡ true

module _ {X : Type 0} (session : BookSession X) (rows : X → List BookRow) (now : ℕ)
    (db : IsBookDatabase session rows) where
  save_bucket :
      (bucket : List CreateBook) (x : X)
      → 0 < length bucket
      → All SmallYear bucket
      → IsUnique (live_keys (rows x))
      → let (r, x') = save_bulk_books session now bucket x in
        (r ≡ ok tt) × Extends (rows x) (rows x') × Holds bucket (rows x')
  save_bucket [] x full small unique = absurd (omega arith)
  save_bucket (book ∷ books) x full small unique =
      let (returned, extends, unique', held) =
        save_bulk_books_lem session rows now db book books x small unique in
      (returned, extends, (unique', held))

  -- What a saving of these books, from the rows `before`, has returned and left.
  abbrev Saved : List CreateBook → List BookRow → Result (Unit {0}) × X → Type 0
  Saved books before (r, x') = (r ≡ ok tt) × Extends before (rows x') × Holds books (rows x')

  pub save_buckets_lem :
      (buckets : List (List CreateBook)) (x : X)
      → All (λ bucket. 0 < length bucket) buckets
      → All SmallYear (concat buckets)
      → IsUnique (live_keys (rows x))
      → let (r, x') = save_buckets (book_storage session now) buckets x in
        (r ≡ ok tt) × Extends (rows x) (rows x') × Holds (concat buckets) (rows x')
  unfolding save_buckets Services.save_bulk_books
  save_buckets_lem [] x full small unique = (refl, ([], sym (append-nil (rows x))), (unique, tt))
  save_buckets_lem (bucket ∷ buckets) x (here, full) small unique =
      let (returned, (added, extends), (unique', held)) =
        save_bucket bucket x here (All-prefix SmallYear bucket (concat buckets) small) unique in
      let x₁ = (save_bulk_books session now bucket x).1 in
      let (returned', (added', extends'), (unique'', held')) =
        save_buckets_lem buckets x₁ full (All-suffix SmallYear bucket (concat buckets) small)
          unique' in
      let step =
        ap (λ r. continue (λ _. save_buckets (book_storage session now) buckets) (r, x₁))
          returned in
      subst (Saved (bucket ++ concat buckets) (rows x)) (sym step) (
        returned',
        (
          added ++ added',
          extends' ∙ ap (λ l. l ++ added') extends ∙ append_assoc (rows x) added added',
        ),
        (
          unique'',
          All-append _ bucket (concat buckets)
              (All-extended bucket (rows x₁) _ (added', extends') held) held',
        ),
      )

module _ {W Session Transaction Db : Type 0} (api : SessionApi W Session Transaction)
    (durable : W → Db) (sql : Session → BookSession W) (now : ℕ)
    (keeps : (s : Session) → KeepsDurable (sql s) durable) where
  pub save_buckets-RunsInside :
      (buckets : List (List CreateBook))
      → RunsInside api durable
          (save_buckets (book_storage (session_of_uow api sql) now) buckets)
          (λ s. save_buckets (book_storage (sql s) now) buckets)
  unfolding save_buckets Services.save_bulk_books save_bulk_books
  save_buckets-RunsInside [] = RunsInside-pure api durable _
  save_buckets-RunsInside (bucket ∷ buckets) =
      RunsInside-bind api durable _ _ (λ _. save_buckets-RunsInside buckets)
        (RunsInside-with_session api durable _ (λ s. (keeps s).insert_or_ignore_keeps _))
