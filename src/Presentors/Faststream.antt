-- ===== src/Presentors/Faststream.antt =====
-- library/presentors/faststream: the event of handlers/books.py and its handler.
pub mod Uploading
mod Tests
use example_litestar_service.Prelude.{ℕ, String, Option, some, List}
use example_litestar_service.Domains.Entities.Book.{UploadBooks}
use example_litestar_service.Domains.Storages.{IBookStorage}
use example_litestar_service.Domains.Uow.{AbstractUow}
use example_litestar_service.Domains.UseCases.Upload.{Search, upload_books}
use example_litestar_service.Application.Result.{Result, ok, raise, Action}
use example_litestar_service.Adapters.Nats.{LogEntry}

pub record UploadBooksEvent : Type 0 where
  pub queries : List String

-- `upload_open_library_books`; `none` where a query ran out of fuel.
unfoldable pub upload_open_library_books :
    {S : Type 0}
    → AbstractUow S
    → IBookStorage S
    → Search S
    → (fuel : ℕ) → UploadBooksEvent
    → Action S (Option (Unit {0}))
unfolding upload_books
upload_open_library_books uow storage search fuel event =
    upload_books uow storage search fuel (record { queries = event.queries })

-- A handler beside the log, which it does not touch.
abbrev pub beside :
    {S A : Type 0} → List LogEntry → Result A × S → Result (Option A) × (List LogEntry × S)
beside entries (ok a, s) = (ok (some a), (entries, s))
beside entries (raise e, s) = (raise e, (entries, s))

abbrev pub beside_log : {S A : Type 0} → Action S A → Action (List LogEntry × S) (Option A)
beside_log action (entries, s) = beside entries (action s)
