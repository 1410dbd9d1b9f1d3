-- ===== src/Presentors/Rest/Requests/Absent.antt =====
-- How requests for a book that is not there are answered, by the endpoints of
-- library/presentors/rest/routers/api/v1/endpoints/books.py and the handlers of
-- library/presentors/rest/routers/api/v1/exception_handlers.py.
use example_litestar_service.Prelude.{ℕ, ◌≡◌, refl, String, true, false, none, List, arith}
use example_litestar_service.Domains.Entities.Book.{BookId}
use example_litestar_service.Domains.Services
use example_litestar_service.Domains.UseCases.{
  fetch_book_by_id_query, update_book_by_id_command, delete_book_by_id_command,
}
use example_litestar_service.Domains.Storages.{IBookStorage}
use example_litestar_service.Domains.Uow.{with_uow}
use example_litestar_service.Application.Exceptions.{
  Exception, entity_not_found, empty_payload, exception_message,
}
use example_litestar_service.Application.Result.{Result, ok, raise, continue}
use example_litestar_service.Adapters.Database.Uow.{SessionApi, State, closed, sqlalchemy_uow}
use example_litestar_service.Adapters.Database.Uow.Atomic.{IsTransactional}
use example_litestar_service.Adapters.Database.Uow.Inside.{with_uow_refuses}
use example_litestar_service.Adapters.Database.Books.{BookRow, BookSession, book_storage}
use example_litestar_service.Adapters.Database.Books.Engine.{IsBookDatabase}
use example_litestar_service.Adapters.Database.Books.Reading.{find_live, fetch_book_by_id_lem}
use example_litestar_service.Adapters.Database.Books.Contract.{exists_lem}
use example_litestar_service.Adapters.Database.Books.Session.{
  session_of_uow, KeepsDurable, fetch_book_by_id-RunsInside, update_book_by_id-RunsInside,
  delete_book_by_id-RunsInside,
}
use example_litestar_service.Presentors.Rest.Books.{
  UpdateBookSchema, fetch_book, update_book_by_id, delete_book_by_id, gives_nothing,
}
use example_litestar_service.Presentors.Rest.Handlers.{
  Litestar, error_response, exception_json_response, json,
}
use example_litestar_service.Presentors.Rest.Handlers.Statuses.{error_response-status}
use example_litestar_service.Presentors.Rest.Requests.{
  get_book, patch_book, delete_book, dispatch, answer,
}
use example_litestar_service.Presentors.Rest.Requests.Contract.{change_of}

-- What raised goes through a body's remaining lines.
raised_through :
    {S A B : Type 0} (f : A → S → Result B × S) (p : Result A × S) (e : Exception)
    → p.0 ≡ raise e
    → (continue f p).0 ≡ raise e
raised_through f (ok a, s) e h = absurd (ground (arith, h))
raised_through f (raise error, s) e h = ground (arith, h)

module _ {W Session Transaction : Type 0} (api : SessionApi W Session Transaction)
    (sql : Session → BookSession W) (now : ℕ) (detail : String) (durable : W → List BookRow)
    (view : Session → W → List BookRow) (laws : IsTransactional api durable view)
    (keeps : (s : Session) → KeepsDurable (sql s) durable)
    (db : (s : Session) → IsBookDatabase (sql s) (view s)) (id : BookId) (w : W)
    (begins : (s : Session) (v : W) → (t : Transaction) × ((api.begin s v).0 ≡ ok t))
    (rolls_back : (s : Session) (v : W) → (api.rollback s v).0 ≡ ok tt)
    (absent : find_live id (durable w) ≡ none) where
  abbrev storage : IBookStorage (State api)
  storage = book_storage (session_of_uow api sql) now

  get_refused : (answer api sql now detail (get_book id) w).0 ≡ raise (entity_not_found "Book" id)
  unfolding dispatch fetch_book fetch_book_by_id_query Services.fetch_book_by_id
  get_refused = raised_through _ _ _ (
      raised_through _
        (with_uow (sqlalchemy_uow api) (Services.fetch_book_by_id storage id) (closed, w)) _
        (with_uow_refuses api durable view laws
          (fetch_book_by_id-RunsInside api durable sql now keeps id) w (entity_not_found "Book" id)
          begins rolls_back
          (λ s v seen.
            rw (fetch_book_by_id_lem (sql s) (view s) now (db s) id v, seen, absent) refl)))

  delete_refused :
      (answer api sql now detail (delete_book id) w).0 ≡ raise (entity_not_found "Book" id)
  unfolding dispatch delete_book_by_id delete_book_by_id_command Services.delete_book_by_id
  delete_refused =
      raised_through _
        (with_uow (sqlalchemy_uow api) (Services.delete_book_by_id storage id) (closed, w)) _
        (with_uow_refuses api durable view laws
          (delete_book_by_id-RunsInside api durable sql now keeps id) w (entity_not_found "Book" id)
          begins rolls_back
          (λ s v seen. rw (exists_lem (sql s) (view s) now (db s) id v, seen, absent) refl))

  patch_refused :
      (payload : UpdateBookSchema)
      → gives_nothing payload ≡ false
      → (answer api sql now detail (patch_book id payload) w).0 ≡ raise (entity_not_found "Book" id)
  unfolding dispatch update_book_by_id update_book_by_id_command Services.update_book_by_id
  patch_refused payload something =
      let u = change_of id payload in
      rw something (
        raised_through _ _ _ (
          raised_through _
            (with_uow (sqlalchemy_uow api) (Services.update_book_by_id storage u) (closed, w)) _
            (with_uow_refuses api durable view laws
              (update_book_by_id-RunsInside api durable sql now keeps u) w
              (entity_not_found "Book" id) begins rolls_back
              (λ s v seen. rw (exists_lem (sql s) (view s) now (db s) id v, seen, absent) refl))))

  -- To get, to change or to delete a book that is not there, or that is deleted, raises the
  -- exception that is answered with 404 and its message, as long as the database begins and rolls
  -- back its transactions and a change gives something. An empty change of any identifier is
  -- answered with 400 before the table is looked at.
  pub absent_book_responses :
      (litestar : Litestar) (payload empty : UpdateBookSchema)
      → gives_nothing payload ≡ false
      → gives_nothing empty ≡ true
      → let e = entity_not_found "Book" id in
        let nothing = empty_payload "No values to update" in
        ((answer api sql now detail (get_book id) w).0 ≡ raise e)
        × ((answer api sql now detail (delete_book id) w).0 ≡ raise e)
        × ((answer api sql now detail (patch_book id payload) w).0 ≡ raise e)
        × (error_response litestar e ≡ json (exception_json_response 404 (exception_message e)))
        × (answer api sql now detail (patch_book id empty) w ≡ (raise nothing, w))
        × (error_response litestar nothing
            ≡ json (exception_json_response 400 "No values to update"))
  unfolding dispatch update_book_by_id
  absent_book_responses litestar payload empty something nothing = (
    get_refused,
    delete_refused,
    patch_refused payload something,
    error_response-status litestar (entity_not_found "Book" id),
    rw nothing refl,
    error_response-status litestar (empty_payload "No values to update"),
  )
