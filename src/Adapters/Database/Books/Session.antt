-- ===== src/Adapters/Database/Books/Session.antt =====
-- BookStorage (library/adapters/database/storages/book.py) on the session of its unit of work:
-- its property `_session`. What each method does there is what it does on that session itself.
use example_litestar_service.Prelude.{ℕ, ◌≡◌, Bool, true, false, Option, none, some, List, [], ◌∷◌}
use example_litestar_service.Domains.Entities.Book.{
  Book, BookId, BookPaginationParams, CreateBook, UpdateBook,
}
use example_litestar_service.Domains.Services
use example_litestar_service.Domains.Storages.{IBookStorage}
use example_litestar_service.Adapters.Database.Uow.{SessionApi, State, with_session}
use example_litestar_service.Adapters.Database.Uow.Inside.{
  RunsInside, RunsInside-with_session, RunsInside-pure, RunsInside-bind, RunsInside-convert,
}
use example_litestar_service.Adapters.Database.Books.{
  BookRow, convert, one_or_not_found, BookSession, Condition, Assignment, book_storage,
  fetch_book_by_id, exists_book_by_id, count_books, fetch_book_list, create_book, delete_book_by_id,
  update_book_by_id,
}

module _ {W Session Transaction : Type 0} (api : SessionApi W Session Transaction)
    (sql : Session → BookSession W) where
  -- `self._session` of the storage is `self._uow.session`.
  abbrev pub session_of_uow : BookSession (State api)
  session_of_uow = record {
    select = λ conditions. with_session api (λ s. (sql s).select conditions);
    select_page_by_id = λ conditions limit offset.
        with_session api (λ s. (sql s).select_page_by_id conditions limit offset);
    exists = λ conditions. with_session api (λ s. (sql s).exists conditions);
    count = λ conditions. with_session api (λ s. (sql s).count conditions);
    insert = λ values. with_session api (λ s. (sql s).insert values);
    update =
        λ conditions assignments. with_session api (λ s. (sql s).update conditions assignments);
    insert_or_ignore = λ books. with_session api (λ s. (sql s).insert_or_ignore books);
  }

-- No statement of a session commits.
pub record KeepsDurable {W Db : Type 0} (session : BookSession W) (durable : W → Db) : Type 0 where
  pub select_keeps :
      (conditions : List Condition) (w : W) → durable (session.select conditions w).1 ≡ durable w
  pub select_page_by_id_keeps :
      (conditions : List Condition) (limit offset : ℕ) (w : W)
      → durable (session.select_page_by_id conditions limit offset w).1 ≡ durable w
  pub exists_keeps :
      (conditions : List Condition) (w : W) → durable (session.exists conditions w).1 ≡ durable w
  pub count_keeps :
      (conditions : List Condition) (w : W) → durable (session.count conditions w).1 ≡ durable w
  pub insert_keeps : (values : CreateBook) (w : W) → durable (session.insert values w).1 ≡ durable w
  pub update_keeps :
      (conditions : List Condition) (assignments : List Assignment) (w : W)
      → durable (session.update conditions assignments w).1 ≡ durable w
  pub insert_or_ignore_keeps :
      (books : List CreateBook) (w : W) → durable (session.insert_or_ignore books w).1 ≡ durable w

module _ {W Session Transaction Db : Type 0} (api : SessionApi W Session Transaction)
    (durable : W → Db) (sql : Session → BookSession W) (now : ℕ)
    (keeps : (s : Session) → KeepsDurable (sql s) durable) where
  -- A statement of the storage, and what is computed of its result.
  abbrev storage : IBookStorage (State api)
  storage = book_storage (session_of_uow api sql) now

  abbrev on : Session → IBookStorage W
  on s = book_storage (sql s) now

  fetch-RunsInside :
      (id : BookId)
      → RunsInside api durable (storage.fetch_book_by_id id) (λ s. (on s).fetch_book_by_id id)
  unfolding fetch_book_by_id
  fetch-RunsInside id =
      RunsInside-bind api durable _ _ (λ rows. RunsInside-pure api durable _)
        (RunsInside-with_session api durable _ (λ s. (keeps s).select_keeps _))

  exists-RunsInside :
      (id : BookId)
      → RunsInside api durable (storage.exists_book_by_id id) (λ s. (on s).exists_book_by_id id)
  unfolding exists_book_by_id
  exists-RunsInside id =
      RunsInside-bind api durable _ _ (λ found. RunsInside-pure api durable _)
        (RunsInside-with_session api durable _ (λ s. (keeps s).exists_keeps _))

  count-RunsInside :
      (params : BookPaginationParams)
      → RunsInside api durable (storage.count_books params) (λ s. (on s).count_books params)
  unfolding count_books
  count-RunsInside params =
      RunsInside-bind api durable _ _ (λ n. RunsInside-pure api durable _)
        (RunsInside-with_session api durable _ (λ s. (keeps s).count_keeps _))

  list-RunsInside :
      (params : BookPaginationParams)
      → RunsInside api durable (storage.fetch_book_list params) (λ s. (on s).fetch_book_list params)
  unfolding fetch_book_list
  list-RunsInside params =
      RunsInside-bind api durable _ _ (λ rows. RunsInside-pure api durable _)
        (RunsInside-with_session api durable _ (λ s. (keeps s).select_page_by_id_keeps _ _ _))

  delete-RunsInside :
      (id : BookId)
      → RunsInside api durable (storage.delete_book_by_id id) (λ s. (on s).delete_book_by_id id)
  unfolding delete_book_by_id
  delete-RunsInside id =
      RunsInside-bind api durable _ _ (λ rows. RunsInside-pure api durable _)
        (RunsInside-with_session api durable _ (λ s. (keeps s).update_keeps _ _))

  one-RunsInside :
      (id : BookId) (rows : List BookRow)
      → RunsInside api durable (one_or_not_found id rows) (λ _. one_or_not_found id rows)
  one-RunsInside id [] = RunsInside-pure api durable _
  one-RunsInside id (row ∷ []) = RunsInside-pure api durable _
  one-RunsInside id (_ ∷ _ ∷ _) = RunsInside-pure api durable _

  update-RunsInside :
      (u : UpdateBook)
      → RunsInside api durable (storage.update_book_by_id u) (λ s. (on s).update_book_by_id u)
  unfolding update_book_by_id
  update-RunsInside u =
      RunsInside-bind api durable _ _ (λ row. RunsInside-pure api durable _)
        (RunsInside-convert api durable convert (
          RunsInside-bind api durable _ _ (one-RunsInside u.id)
            (RunsInside-with_session api durable _ (λ s. (keeps s).update_keeps _ _))))

  check-RunsInside :
      (id : BookId) (exists : Bool)
      → RunsInside api durable
          (Services.check_exists "Book" id exists)
          (λ _. Services.check_exists "Book" id exists)
  check-RunsInside id true = RunsInside-pure api durable _
  check-RunsInside id false = RunsInside-pure api durable _

  or_not_found-RunsInside :
      (id : BookId) (found : Option Book)
      → RunsInside api durable
          (Services.or_not_found "Book" id found)
          (λ _. Services.or_not_found "Book" id found)
  or_not_found-RunsInside id none = RunsInside-pure api durable _
  or_not_found-RunsInside id (some book) = RunsInside-pure api durable _

  -- The services over the storage do on the session of the unit of work what they do on a session.
  pub create_book-RunsInside :
      (book : CreateBook)
      → RunsInside api durable
          (Services.create_book storage book)
          (λ s. Services.create_book (on s) book)
  unfolding create_book Services.create_book
  create_book-RunsInside book =
      RunsInside-bind api durable _ _ (λ row. RunsInside-pure api durable _)
        (RunsInside-convert api durable convert
          (RunsInside-with_session api durable _ (λ s. (keeps s).insert_keeps _)))

  pub fetch_book_by_id-RunsInside :
      (id : BookId)
      → RunsInside api durable
          (Services.fetch_book_by_id storage id)
          (λ s. Services.fetch_book_by_id (on s) id)
  unfolding Services.fetch_book_by_id
  fetch_book_by_id-RunsInside id =
      RunsInside-bind api durable _ _ (or_not_found-RunsInside id) (fetch-RunsInside id)

  pub fetch_book_list-RunsInside :
      (params : BookPaginationParams)
      → RunsInside api durable
          (Services.fetch_book_list storage params)
          (λ s. Services.fetch_book_list (on s) params)
  unfolding Services.fetch_book_list
  fetch_book_list-RunsInside params =
      RunsInside-bind api durable _ _
        (λ total.
          RunsInside-bind api durable _ _ (λ items. RunsInside-pure api durable _)
            (list-RunsInside params))
        (count-RunsInside params)

  pub delete_book_by_id-RunsInside :
      (id : BookId)
      → RunsInside api durable
          (Services.delete_book_by_id storage id)
          (λ s. Services.delete_book_by_id (on s) id)
  unfolding Services.delete_book_by_id
  delete_book_by_id-RunsInside id =
      RunsInside-bind api durable _ _
        (λ exists.
          RunsInside-bind api durable _ _ (λ _. delete-RunsInside id) (check-RunsInside id exists))
        (exists-RunsInside id)

  pub update_book_by_id-RunsInside :
      (u : UpdateBook)
      → RunsInside api durable
          (Services.update_book_by_id storage u)
          (λ s. Services.update_book_by_id (on s) u)
  unfolding Services.update_book_by_id
  update_book_by_id-RunsInside u =
      RunsInside-bind api durable _ _
        (λ exists.
          RunsInside-bind api durable _ _ (λ _. update-RunsInside u) (check-RunsInside u.id exists))
        (exists-RunsInside u.id)
