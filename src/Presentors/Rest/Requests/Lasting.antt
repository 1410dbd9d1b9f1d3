-- ===== src/Presentors/Rest/Requests/Lasting.antt =====
-- What a client of `BooksController`
-- (library/presentors/rest/routers/api/v1/endpoints/books.py) can rely on over many requests.
use example_litestar_service.Prelude.{
  ℕ, ◌≡◌, ◌≢◌, refl, ap, ◌∙◌, sym, subst, String, arith, some, List, [], ◌∷◌, All,
}
use example_litestar_service.Domains.Entities.Book.{Book, BookId}
use example_litestar_service.Domains.Services
use example_litestar_service.Domains.UseCases.{fetch_book_by_id_query}
use example_litestar_service.Domains.Uow.{with_uow}
use example_litestar_service.Application.Result.{Result, ok, raise, continue, pure, ok-injective}
use example_litestar_service.Adapters.Database.Uow.{SessionApi, closed, sqlalchemy_uow}
use example_litestar_service.Adapters.Database.Uow.Atomic.{IsTransactional}
use example_litestar_service.Adapters.Database.Uow.Inside.{with_uow_completes}
use example_litestar_service.Adapters.Database.Books.{BookRow, BookSession, book_storage}
use example_litestar_service.Adapters.Database.Books.Engine.{IsBookDatabase}
use example_litestar_service.Adapters.Database.Books.Reading.{find_live, fetch_book_by_id_lem}
use example_litestar_service.Adapters.Database.Books.Session.{
  session_of_uow, KeepsDurable, fetch_book_by_id-RunsInside,
}
use example_litestar_service.Presentors.Rest.Books.{
  BookSchema, CreateBookSchema, book_schema, fetch_book,
}
use example_litestar_service.Presentors.Rest.Requests.{
  BookRequest, get_books, post_book, get_book, patch_book, delete_book, BookResponse, page, book,
  no_content, dispatch, answer, serve,
}
use example_litestar_service.Presentors.Rest.Requests.Contract.{Accepts, Outcome, Explained}
use example_litestar_service.Presentors.Rest.Requests.Refinement.{answer_lem, serve-Explained}

-- The request neither changes nor deletes the book.
abbrev pub Leaves : BookId → BookRequest → Type 0
Leaves id (get_books _ _) = Unit
Leaves id (post_book _) = Unit
Leaves id (get_book _) = Unit
Leaves id (patch_book other _) = id ≢ other
Leaves id (delete_book other) = id ≢ other

-- A book that is there is there after such a request.
Accepts-keeps :
    (detail : String) (id : BookId) (b : Book) (request : BookRequest) (response : BookResponse)
    (rows rows' : List BookRow)
    → Accepts detail request response rows rows'
    → Leaves id request
    → find_live id rows ≡ some b
    → find_live id rows' ≡ some b
Accepts-keeps detail id b (get_books _ _) (page _) rows rows' (_, _, _, _, (_, _, same)) leaves
      there =
    rw same there
Accepts-keeps detail id b (get_books _ _) (book _) rows rows' a leaves there = absurd a
Accepts-keeps detail id b (get_books _ _) no_content rows rows' a leaves there = absurd a
Accepts-keeps detail id b (post_book _) (page _) rows rows' a leaves there = absurd a
Accepts-keeps detail id b (post_book _) (book _) rows rows'
      (created, _, _, (_, _, _, _, new, _, elsewhere)) leaves there =
    elsewhere id (λ same. absurd (ground (arith, rw (← same) at new))) ∙ there
Accepts-keeps detail id b (post_book _) no_content rows rows' a leaves there = absurd a
Accepts-keeps detail id b (get_book _) (page _) rows rows' a leaves there = absurd a
Accepts-keeps detail id b (get_book _) (book _) rows rows' (_, _, (_, same)) leaves there =
    rw same there
Accepts-keeps detail id b (get_book _) no_content rows rows' a leaves there = absurd a
Accepts-keeps detail id b (patch_book _ _) (page _) rows rows' a leaves there = absurd a
Accepts-keeps detail id b (patch_book other _) (book _) rows rows'
      (_, _, _, (_, _, _, _, _, _, _, elsewhere)) leaves there =
    elsewhere id leaves ∙ there
Accepts-keeps detail id b (patch_book _ _) no_content rows rows' a leaves there = absurd a
Accepts-keeps detail id b (delete_book _) (page _) rows rows' a leaves there = absurd a
Accepts-keeps detail id b (delete_book _) (book _) rows rows' a leaves there = absurd a
Accepts-keeps detail id b (delete_book other) no_content rows rows' (_, _, elsewhere) leaves there =
    elsewhere id leaves ∙ there

Explained-keeps :
    (detail : String) (id : BookId) (b : Book) (requests : List BookRequest)
    (results : List (Result BookResponse)) (rows rows' : List BookRow)
    → Explained detail requests results rows rows'
    → All (Leaves id) requests
    → find_live id rows ≡ some b
    → find_live id rows' ≡ some b
Explained-keeps detail id b [] [] rows rows' same leaves there = rw same there
Explained-keeps detail id b [] (_ ∷ _) rows rows' e leaves there = absurd e
Explained-keeps detail id b (_ ∷ _) [] rows rows' e leaves there = absurd e
Explained-keeps detail id b (request ∷ requests) (ok response ∷ results) rows rows'
      (between, first, rest) (here, leaves) there =
    Explained-keeps detail id b requests results between rows' rest leaves
      (Accepts-keeps detail id b request response rows between first here there)
Explained-keeps detail id b (request ∷ requests) (raise e ∷ results) rows rows'
      (between, same, rest) (here, leaves) there =
    Explained-keeps detail id b requests results between rows' rest leaves (rw same there)

-- A result that is only wrapped, twice.
wrapped_ok :
    {S A B C : Type 0} (g : A → B) (h : B → C) (p : Result A × S) (a : A)
    → p.0 ≡ ok a
    → (continue (λ b. pure (h b)) (continue (λ c. pure (g c)) p)).0 ≡ ok (h (g a))
wrapped_ok g h (ok c, s) a e = ap (λ x. ok (h (g x))) (ok-injective e)
wrapped_ok g h (raise error, s) a e = absurd (ground (arith, e))

module _ {W Session Transaction : Type 0} (api : SessionApi W Session Transaction)
    (sql : Session → BookSession W) (now : ℕ) (detail : String) (durable : W → List BookRow)
    (view : Session → W → List BookRow) (laws : IsTransactional api durable view)
    (keeps : (s : Session) → KeepsDurable (sql s) durable)
    (db : (s : Session) → IsBookDatabase (sql s) (view s)) where
  -- What a creation answered is there afterwards.
  post_book-find_live :
      (payload : CreateBookSchema) (schema : BookSchema) (w : W)
      → (answer api sql now detail (post_book payload) w).0 ≡ ok (book schema)
      → (b : Book) × (schema ≡ book_schema b)
        × (find_live schema.id (durable (answer api sql now detail (post_book payload) w).1)
            ≡ some b)
  post_book-find_live payload schema w answered =
      let after = durable (answer api sql now detail (post_book payload) w).1 in
      let outcome : Accepts detail (post_book payload) (book schema) (durable w) after =
        subst (λ r. Outcome (Accepts detail (post_book payload)) r (durable w) after) answered
          (answer_lem api sql now detail durable view laws keeps db (post_book payload) w) in
      let (b, _, same, (_, _, _, _, _, there, _)) = outcome in
      (
        b,
        same,
        subst (λ id. find_live id after ≡ some b) (ap (λ (x : BookSchema). x.id) (sym same)) there,
      )

  -- A book that is there is answered, where the database begins and commits its transaction.
  get_book-find_live :
      (id : BookId) (b : Book) (w : W)
      → ((s : Session) (v : W) → (t : Transaction) × ((api.begin s v).0 ≡ ok t))
      → ((s : Session) (v : W) → (api.commit s v).0 ≡ ok tt)
      → find_live id (durable w) ≡ some b
      → (answer api sql now detail (get_book id) w).0 ≡ ok (book (book_schema b))
  unfolding dispatch fetch_book fetch_book_by_id_query Services.fetch_book_by_id
  get_book-find_live id b w begins commits there =
      let body = Services.fetch_book_by_id (book_storage (session_of_uow api sql) now) id in
      let completes =
        with_uow_completes api durable view laws
          (fetch_book_by_id-RunsInside api durable sql now keeps id) w b begins commits
          (λ s v seen.
            rw (fetch_book_by_id_lem (sql s) (view s) now (db s) id v, seen, there) refl) in
      wrapped_ok book_schema book (with_uow (sqlalchemy_uow api) body (closed, w)) b completes

  -- A book that a request created is what a later request for its identifier gets, after any
  -- requests in between that do not change or delete that book, whether they succeed or fail, as
  -- long as the database begins and commits its transactions.
  pub post_book-get_book :
      (payload : CreateBookSchema) (created : BookSchema) (requests : List BookRequest) (w : W)
      → ((s : Session) (v : W) → (t : Transaction) × ((api.begin s v).0 ≡ ok t))
      → ((s : Session) (v : W) → (api.commit s v).0 ≡ ok tt)
      → (answer api sql now detail (post_book payload) w).0 ≡ ok (book created)
      → All (Leaves created.id) requests
      → let w₁ = (answer api sql now detail (post_book payload) w).1 in
        let w₂ = (serve api sql now detail requests w₁).1 in
        (answer api sql now detail (get_book created.id) w₂).0 ≡ ok (book created)
  post_book-get_book payload created requests w begins commits answered leaves =
      let w₁ = (answer api sql now detail (post_book payload) w).1 in
      let (results, w₂) = serve api sql now detail requests w₁ in
      let (b, same, there) = post_book-find_live payload created w answered in
      let there' =
        Explained-keeps detail created.id b requests results (durable w₁) (durable w₂)
          (serve-Explained api sql now detail durable view laws keeps db requests w₁) leaves
          there in
      get_book-find_live created.id b w₂ begins commits there' ∙ ap (λ s. ok (book s)) (sym same)
