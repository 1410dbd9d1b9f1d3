-- ===== src/Presentors/Rest/Requests/Refinement.antt =====
-- That the endpoints of library/presentors/rest/routers/api/v1/endpoints/books.py, through the use
-- cases, services, storage and unit of work, keep what a client is promised.
use example_litestar_service.Prelude.{
  ℕ, ℤ, ◌≡◌, refl, sym, subst, String, Bool, true, false, not, Option, List, [], ◌∷◌, inl, inr,
  arith,
}
use example_litestar_service.Domains.Entities.Book.{BookId, BookPaginationParams}
use example_litestar_service.Domains.Services
use example_litestar_service.Domains.Storages.{IBookStorage}
use example_litestar_service.Domains.Uow.{with_uow}
use example_litestar_service.Domains.UseCases.{
  create_book_command, delete_book_by_id_command, update_book_by_id_command, fetch_book_by_id_query,
  fetch_book_list_query,
}
use example_litestar_service.Application.Exceptions.{Exception}
use example_litestar_service.Application.Result.{
  Result, ok, raise, Action, pure, require, continue, Result-cases,
}
use example_litestar_service.Adapters.Database.Uow.{SessionApi, State, closed, sqlalchemy_uow}
use example_litestar_service.Adapters.Database.Uow.Atomic.{IsTransactional}
use example_litestar_service.Adapters.Database.Uow.Inside.{
  RunsInside, with_uow_committed, with_uow_undone,
}
use example_litestar_service.Adapters.Database.Books.{BookRow, BookSession, book_storage}
use example_litestar_service.Adapters.Database.Books.Engine.{IsBookDatabase}
use example_litestar_service.Adapters.Database.Books.Session.{
  session_of_uow, KeepsDurable, create_book-RunsInside, fetch_book_by_id-RunsInside,
  fetch_book_list-RunsInside, delete_book_by_id-RunsInside, update_book_by_id-RunsInside,
}
use example_litestar_service.Adapters.Database.Books.Contract.{
  Fetched, Listed, Created, Deleted, Updated, fetch_book_by_id-Fetched, fetch_book_list-Listed,
  create_book-Created, delete_book_by_id-Deleted,
}
use example_litestar_service.Adapters.Database.Books.Replacing.{update_book_by_id-Updated}
use example_litestar_service.Presentors.Rest.Params.{check_window, is_positive}
use example_litestar_service.Presentors.Rest.Books.{
  CreateBookSchema, UpdateBookSchema, book_schema, book_pagination_schema, gives_nothing,
  fetch_books, create_book, fetch_book, update_book_by_id, delete_book_by_id,
}
use example_litestar_service.Presentors.Rest.Requests.{
  BookRequest, get_books, post_book, get_book, patch_book, delete_book, BookResponse, page, book,
  no_content, dispatch, answer, serve,
}
use example_litestar_service.Presentors.Rest.Requests.Contract.{
  new_book, change_of, Accepts, Outcome, Explained,
}

module _ {W Session Transaction : Type 0} (api : SessionApi W Session Transaction)
    (sql : Session → BookSession W) (now : ℕ) (detail : String) (durable : W → List BookRow)
    (view : Session → W → List BookRow) (laws : IsTransactional api durable view)
    (keeps : (s : Session) → KeepsDurable (sql s) durable)
    (db : (s : Session) → IsBookDatabase (sql s) (view s)) where
  abbrev storage : IBookStorage (State api)
  storage = book_storage (session_of_uow api sql) now

  abbrev on : Session → IBookStorage W
  on s = book_storage (sql s) now

  -- A service inside `async with uow` does to the committed rows what it does to those of its
  -- session, or nothing where it raises.
  with_uow-Outcome :
      {A : Type 0} (P : A → List BookRow → List BookRow → Type 0) (body : Action (State api) A)
      (raw : Session → Action W A)
      → RunsInside api durable body raw
      → ((s : Session) (w : W) (a : A) → (raw s w).0 ≡ ok a → P a (view s w) (view s (raw s w).1))
      → (w : W)
      → let (r, x) = with_uow (sqlalchemy_uow api) body (closed, w) in
        Outcome P r (durable w) (durable x.1)
  with_uow-Outcome P body raw run promise w =
      let after = durable (with_uow (sqlalchemy_uow api) body (closed, w)).1.1 in
      elim (Result-cases (with_uow (sqlalchemy_uow api) body (closed, w)).0) [
        | inl (a, returned) ↦
            let (s, w₂, seen, done, kept) =
              with_uow_committed api durable view laws run w a returned in
            subst (λ r. Outcome P r (durable w) after) (sym returned)
              (rw (← seen, kept) (promise s w₂ a done))
        | inr (e, raised) ↦
            subst (λ r. Outcome P r (durable w) after) (sym raised)
              (with_uow_undone api durable view laws run w e raised)
      ]

  -- A result that is only wrapped, twice.
  wrapped :
      {A B : Type 0} (g : A → B) (h : B → BookResponse)
      (P : A → List BookRow → List BookRow → Type 0)
      (Q : BookResponse → List BookRow → List BookRow → Type 0) (rows : List BookRow)
      → ((a : A) (rows' : List BookRow) → P a rows rows' → Q (h (g a)) rows rows')
      → (p : Result A × State api) → Outcome P p.0 rows (durable p.1.1)
      → let (r, x) = continue (λ b. pure (h b)) (continue (λ a. pure (g a)) p) in
        Outcome Q r rows (durable x.1)
  wrapped g h P Q rows implies (ok a, x) o = implies a (durable x.1) o
  wrapped g h P Q rows implies (raise e, x) o = o

  wrapped_once :
      {A : Type 0} (h : A → BookResponse) (P : A → List BookRow → List BookRow → Type 0)
      (Q : BookResponse → List BookRow → List BookRow → Type 0) (rows : List BookRow)
      → ((a : A) (rows' : List BookRow) → P a rows rows' → Q (h a) rows rows')
      → (p : Result A × State api) → Outcome P p.0 rows (durable p.1.1)
      → let (r, x) = continue (λ a. pure (h a)) p in Outcome Q r rows (durable x.1)
  wrapped_once h P Q rows implies (ok a, x) o = implies a (durable x.1) o
  wrapped_once h P Q rows implies (raise e, x) o = o

  -- What `answer` does to the committed rows.
  abbrev Answers : BookRequest → W → Type 0
  Answers request w =
      let (r, w') = answer api sql now detail request w in
      Outcome (Accepts detail request) r (durable w) (durable w')

  get_book_lem : (id : BookId) (w : W) → Answers (get_book id) w
  unfolding dispatch fetch_book fetch_book_by_id_query
  get_book_lem id w =
      wrapped book_schema book (Fetched id) (Accepts detail (get_book id)) (durable w)
        (λ found rows' fetched. (found, refl, fetched))
        (with_uow (sqlalchemy_uow api) (Services.fetch_book_by_id storage id) (closed, w))
        (with_uow-Outcome (Fetched id) (Services.fetch_book_by_id storage id)
          (λ s. Services.fetch_book_by_id (on s) id)
          (fetch_book_by_id-RunsInside api durable sql now keeps id)
          (λ s w₂ a. fetch_book_by_id-Fetched (sql s) (view s) now (db s) id w₂ a) w)

  -- A check before the body: `lift` and, through it, `require`.
  checked :
      {C B : Type 0} (h : B → BookResponse)
      (Q : BookResponse → List BookRow → List BookRow → Type 0) (check : Result C)
      (m : C → Action (State api) B) (w : W)
      → ((c : C)
          → check ≡ ok c
          → let (r, x) = continue (λ b. pure (h b)) (m c (closed, w)) in
            Outcome Q r (durable w) (durable x.1))
      → let (r, x) = continue (λ b. pure (h b)) (continue m (check, (closed, w))) in
        Outcome Q r (durable w) (durable x.1)
  checked h Q (ok c) m w k = k c refl
  checked h Q (raise e) m w k = refl

  required :
      {B : Type 0} (h : B → BookResponse) (Q : BookResponse → List BookRow → List BookRow → Type 0)
      (test : Bool) (e : Exception) (m : Action (State api) B) (w : W)
      → (test ≡ true
          → let (r, x) = continue (λ b. pure (h b)) (m (closed, w)) in
            Outcome Q r (durable w) (durable x.1))
      → let (r, x) = continue (λ b. pure (h b)) (continue (λ _. m) (require test e (closed, w))) in
        Outcome Q r (durable w) (durable x.1)
  required h Q true e m w k = k refl
  required h Q false e m w k = refl

  delete_book_lem : (id : BookId) (w : W) → Answers (delete_book id) w
  unfolding dispatch delete_book_by_id delete_book_by_id_command
  delete_book_lem id w =
      wrapped_once (λ _. no_content) (λ _. Deleted id) (Accepts detail (delete_book id)) (durable w)
        (λ _ rows' deleted. deleted)
        (with_uow (sqlalchemy_uow api) (Services.delete_book_by_id storage id) (closed, w))
        (with_uow-Outcome (λ _. Deleted id) (Services.delete_book_by_id storage id)
          (λ s. Services.delete_book_by_id (on s) id)
          (delete_book_by_id-RunsInside api durable sql now keeps id)
          (λ s w₂ _. delete_book_by_id-Deleted (sql s) (view s) now (db s) id w₂) w)

  post_book_lem : (payload : CreateBookSchema) (w : W) → Answers (post_book payload) w
  unfolding dispatch create_book create_book_command
  post_book_lem payload w =
      required book (Accepts detail (post_book payload)) (is_positive payload.year) _ _ w
        λ positive.
          wrapped book_schema book (Created (new_book payload)) (Accepts detail (post_book payload))
            (durable w) (λ created rows' new. (created, positive, refl, new))
            (with_uow (sqlalchemy_uow api) (Services.create_book storage (new_book payload))
              (closed, w))
            (with_uow-Outcome (Created (new_book payload))
              (Services.create_book storage (new_book payload))
              (λ s. Services.create_book (on s) (new_book payload))
              (create_book-RunsInside api durable sql now keeps (new_book payload))
              (λ s w₂ a. create_book-Created (sql s) (view s) now (db s) (new_book payload) w₂ a) w)

  patch_book_lem :
      (id : BookId) (payload : UpdateBookSchema) (w : W) → Answers (patch_book id payload) w
  unfolding dispatch update_book_by_id update_book_by_id_command
  patch_book_lem id payload w =
      required book (Accepts detail (patch_book id payload)) (not (gives_nothing payload)) _ _ w
        λ given.
          let u = change_of id payload in
          let something : gives_nothing payload ≡ false = ground (arith, given) in
          wrapped book_schema book (Updated u) (Accepts detail (patch_book id payload)) (durable w)
            (λ changed rows' updated. (changed, something, refl, updated))
            (with_uow (sqlalchemy_uow api) (Services.update_book_by_id storage u) (closed, w))
            (with_uow-Outcome (Updated u) (Services.update_book_by_id storage u)
              (λ s. Services.update_book_by_id (on s) u)
              (update_book_by_id-RunsInside api durable sql now keeps u)
              (λ s w₂ a. update_book_by_id-Updated (sql s) (view s) now (db s) u w₂ a) w)

  get_books_lem : (limit offset : Option ℤ) (w : W) → Answers (get_books limit offset) w
  unfolding dispatch fetch_books fetch_book_list_query
  get_books_lem limit offset w =
      checked page (Accepts detail (get_books limit offset)) (check_window detail limit offset) _ w
        λ window valid.
          let params : BookPaginationParams = record { limit = window.0; offset = window.1 } in
          wrapped book_pagination_schema page (Listed params)
            (Accepts detail (get_books limit offset)) (durable w)
            (λ books rows' listed. (window, books, valid, refl, listed))
            (with_uow (sqlalchemy_uow api) (Services.fetch_book_list storage params) (closed, w))
            (with_uow-Outcome (Listed params) (Services.fetch_book_list storage params)
              (λ s. Services.fetch_book_list (on s) params)
              (fetch_book_list-RunsInside api durable sql now keeps params)
              (λ s w₂ a. fetch_book_list-Listed (sql s) (view s) now (db s) params w₂ a) w)

  pub answer_lem : (request : BookRequest) (w : W) → Answers request w
  answer_lem (get_books limit offset) w = get_books_lem limit offset w
  answer_lem (post_book payload) w = post_book_lem payload w
  answer_lem (get_book id) w = get_book_lem id w
  answer_lem (patch_book id payload) w = patch_book_lem id payload w
  answer_lem (delete_book id) w = delete_book_lem id w

  -- Any requests, one after the other, each on its own unit of work, refine the contract on the
  -- committed rows: each response stands for the change that the contract says, from the rows that
  -- the request before has left, and each exception, wherever it was raised, for no change at all.
  pub serve-Explained :
      (requests : List BookRequest) (w : W)
      → let (results, w') = serve api sql now detail requests w in
        Explained detail requests results (durable w) (durable w')
  unfolding serve
  serve-Explained [] w = refl
  serve-Explained (request ∷ requests) w =
      let w' = (answer api sql now detail request w).1 in
      (durable w', answer_lem request w, serve-Explained requests w')
