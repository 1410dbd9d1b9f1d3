-- ===== src/Presentors/Faststream/Tests.antt =====
-- Messages of library/presentors/faststream/handlers/books.py, on a table in memory and a small site.
use example_litestar_service.Prelude.{
  refl, String, pos, none, some, List, [], ◌∷◌, take, drop, arith,
}
use example_litestar_service.Domains.Entities.OpenLibrary.{OpenLibraryBook}
use example_litestar_service.Domains.UseCases.Upload.{bucket_size, Search}
use example_litestar_service.Domains.UseCases.Upload.Paging.{Answers}
use example_litestar_service.Domains.UseCases.Upload.Whole.{books_of_queries}
use example_litestar_service.Application.Result.{ok, raise}
use example_litestar_service.Adapters.Database.Uow.{State, closed, sqlalchemy_uow}
use example_litestar_service.Adapters.Database.Books.{BookRow, BookSession, book_storage}
use example_litestar_service.Adapters.Database.Books.Memory.{memory, memory-IsBookDatabase}
use example_litestar_service.Adapters.Database.Books.Session.{session_of_uow}
use example_litestar_service.Adapters.Database.Books.Lifted.{
  World, world_api, world_api-IsTransactional, durable, view, lifted, lifted-KeepsDurable,
  lifted-IsBookDatabase,
}
use example_litestar_service.Adapters.Nats.{StreamMessage, Metadata, BaseMiddleware, consume_scope}
use example_litestar_service.Adapters.Nats.Consuming.{IsBase}
use example_litestar_service.Presentors.Faststream.{
  UploadBooksEvent, upload_open_library_books, beside_log,
}
use example_litestar_service.Presentors.Faststream.Uploading.{Delivered, upload_message_lem}

abbrev emma : BookRow
emma = record {
  id = "b1";
  title = "Emma";
  year = pos 1815;
  author = "Austen";
  created_at = 3;
  updated_at = 4;
  deleted_at = none;
}

abbrev found : String → List OpenLibraryBook
found query =
    record { key = "/works/OL1W"; title = "Emma"; authors = "Jane Austen" ∷ [] }
    ∷ record { key = "/works/OL2W"; title = "Sanditon"; authors = "Jane Austen" ∷ [] }
    ∷ []

abbrev site : Search (State world_api)
site query limit offset s = (
  ok (record {
    books = take limit (drop offset (found query));
    total = 2;
    start = offset;
    offset = offset;
  }),
  s,
)

site-Answers : (query : String) → Answers site query (found query)
site-Answers query offset s = (
  record {
    books = take bucket_size (drop offset (found query));
    total = 2;
    start = offset;
    offset = offset;
  },
  refl,
  refl,
)

abbrev base : BaseMiddleware (State world_api)
base = record {
  on_consume = λ msg t. (ok msg, t);
  after_consume = λ err t. elim err [ none ↦ (ok tt, t) | some e ↦ (raise e, t) ];
}

base-IsBase : IsBase base
base-IsBase = record {
  on_consume_lem = λ msg t. refl;
  after_consume_returned = λ t. refl;
  after_consume_raised = λ e t. refl;
}

abbrev sql : Unit {0} → BookSession World
sql s = lifted memory

abbrev event : UploadBooksEvent
event = record { queries = "austen" ∷ "novel" ∷ [] }

-- A message that is delivered for the second time.
abbrev message : StreamMessage
message =
    let metadata : Metadata = record { consumer = some "library"; num_delivered = some 2 } in
    record { message_id = "m1"; metadata = some metadata; body = "" }

upload_message_lem_example :
    Delivered world_api sql 9 durable view world_api-IsTransactional
      (λ s. lifted-KeepsDurable memory)
      (λ s. lifted-IsBookDatabase memory memory-IsBookDatabase)
      message
      (books_of_queries found ("austen" ∷ "novel" ∷ []))
      []
      (emma ∷ [])
      (consume_scope base
        (λ _. beside_log (
          upload_open_library_books
            (sqlalchemy_uow world_api)
            (book_storage (session_of_uow world_api sql) 9)
            site
            1
            event))
        message
        ([], (closed, (emma ∷ [], []))))
upload_message_lem_example =
    upload_message_lem world_api sql 9 durable view world_api-IsTransactional
      (λ s. lifted-KeepsDurable memory) (λ s. lifted-IsBookDatabase memory memory-IsBookDatabase)
      site found site-Answers base base-IsBase event 1 message [] (emma ∷ [], [])
      (omega arith, (omega arith, tt)) (refl, tt)
