-- ===== src/Presentors/Rest/Requests/Tests.antt =====
-- Requests to library/presentors/rest/routers/api/v1/endpoints/books.py, on a table in memory.
use example_litestar_service.Prelude.{◌≡◌, ◌≢◌, refl, arith, pos, none, List, [], ◌∷◌, eq_iff}
use example_litestar_service.Domains.Services
use example_litestar_service.Domains.Uow.{with_uow}
use example_litestar_service.Domains.UseCases.{create_book_command}
use example_litestar_service.Adapters.Database.Books
use example_litestar_service.Adapters.Database.Uow.{
  create_transaction, commit, rollback, close_transaction,
}
use example_litestar_service.Domains.Entities.Book.{unset, given}
use example_litestar_service.Application.Exceptions.{
  entity_not_found, empty_payload, exception_message,
}
use example_litestar_service.Application.Result.{ok, raise}
use example_litestar_service.Adapters.Database.Books.{BookRow, BookSession}
use example_litestar_service.Adapters.Database.Books.Memory.{memory, memory-IsBookDatabase}
use example_litestar_service.Presentors.Rest.Books.{
  BookSchema, CreateBookSchema, UpdateBookSchema, create_book,
}
use example_litestar_service.Presentors.Rest.Handlers.{
  Litestar, error_response, exception_json_response, json, first_registered,
}
use example_litestar_service.Application.Exceptions.{mro}
use example_litestar_service.Presentors.Rest.Requests.{
  BookRequest, get_books, post_book, get_book, patch_book, delete_book, book, answer, serve,
  dispatch,
}
use example_litestar_service.Presentors.Rest.Requests.Contract.{Explained}
use example_litestar_service.Presentors.Rest.Requests.Refinement.{serve-Explained}
use example_litestar_service.Presentors.Rest.Requests.Lasting.{post_book-get_book}
use example_litestar_service.Presentors.Rest.Requests.Absent.{absent_book_responses}
use example_litestar_service.Adapters.Database.Books.Lifted.{
  World, world_api, world_api-IsTransactional, durable, view, lifted, lifted-KeepsDurable,
  lifted-IsBookDatabase,
}

abbrev emma : BookRow
emma = record {
  id = "b1";
  title = "Emma";
  year = pos 1815;
  author = "Austen";
  created_at = 3;
  updated_at = 4;
  deleted_at = none;
}

abbrev sql : Unit {0} → BookSession World
sql s = lifted memory

-- One book is committed, and the last transaction saw none.
abbrev world : World
world = (emma ∷ [], [])

abbrev persuasion : CreateBookSchema
persuasion = record { title = "Persuasion"; year = pos 1817; author = "Austen" }

abbrev new_title : UpdateBookSchema
new_title = record { title = given "Emma, a Novel"; year = unset; author = unset }

abbrev nothing_given : UpdateBookSchema
nothing_given = record { title = unset; year = unset; author = unset }

-- A change, a book that is not there, and a deletion.
abbrev requests : List BookRequest
requests =
    patch_book "b1" new_title
    ∷ get_book "b9"
    ∷ post_book persuasion
    ∷ get_books none none
    ∷ delete_book "b1"
    ∷ []

serve-Explained_example :
    let (results, w') = serve world_api sql 9 "invalid" requests world in
    Explained "invalid" requests results (emma ∷ []) (durable w')
serve-Explained_example =
    serve-Explained world_api sql 9 "invalid" durable view world_api-IsTransactional
      (λ s. lifted-KeepsDurable memory) (λ s. lifted-IsBookDatabase memory memory-IsBookDatabase)
      requests world

abbrev created : BookSchema
created = record {
  id = "b1x";
  title = "Persuasion";
  year = pos 1817;
  author = "Austen";
  created_at = 0;
  updated_at = 0;
}

answered_created :
    (answer world_api sql 9 "invalid" (post_book persuasion) world).0 ≡ ok (book created)
unfolding dispatch create_book create_book_command Services.create_book Books.create_book with_uow
    create_transaction commit rollback close_transaction
answered_created = refl

other : created.id ≢ "b1"
other = λ e. ground (arith, (eq_iff "b1x" "b1").1 e)

post_book-get_book_example :
    let w₁ = (answer world_api sql 9 "invalid" (post_book persuasion) world).1 in
    let w₂ = (serve world_api sql 9 "invalid" (get_books none none ∷ delete_book "b1" ∷ []) w₁).1 in
    (answer world_api sql 9 "invalid" (get_book "b1x") w₂).0 ≡ ok (book created)
post_book-get_book_example =
    post_book-get_book world_api sql 9 "invalid" durable view world_api-IsTransactional
      (λ s. lifted-KeepsDurable memory) (λ s. lifted-IsBookDatabase memory memory-IsBookDatabase)
      persuasion created (get_books none none ∷ delete_book "b1" ∷ []) world (λ s v. (tt, refl))
      (λ s v. refl) answered_created (tt, (other, tt))

abbrev litestar : Litestar
litestar = record {
  find_handler = λ table e. first_registered table (mro e);
  find_handler_lem = λ table e. refl;
}

absent_book_responses_example :
    let e = entity_not_found "Book" "b9" in
    let nothing = empty_payload "No values to update" in
    ((answer world_api sql 9 "invalid" (get_book "b9") world).0 ≡ raise e)
    × ((answer world_api sql 9 "invalid" (delete_book "b9") world).0 ≡ raise e)
    × ((answer world_api sql 9 "invalid" (patch_book "b9" new_title) world).0 ≡ raise e)
    × (error_response litestar e ≡ json (exception_json_response 404 (exception_message e)))
    × (answer world_api sql 9 "invalid" (patch_book "b9" nothing_given) world
        ≡ (raise nothing, world))
    × (error_response litestar nothing ≡ json (exception_json_response 400 "No values to update"))
absent_book_responses_example =
    absent_book_responses world_api sql 9 "invalid" durable view world_api-IsTransactional
      (λ s. lifted-KeepsDurable memory) (λ s. lifted-IsBookDatabase memory memory-IsBookDatabase)
      "b9" world (λ s v. (tt, refl)) (λ s v. refl) refl litestar new_title nothing_given refl refl
