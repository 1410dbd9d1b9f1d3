-- ===== src/Domains/UseCases/Upload/Paging.antt =====
-- The paging of library/domains/use_cases/commands/book/upload_books.py over a client, and over
-- the client of library/adapters/open_library/client.py.
use example_litestar_service.Prelude.{
  ℕ, zero, suc, ◌+◌, ◌*◌, ◌≤◌, ◌<◌, ◌≡◌, refl, ap, ◌∙◌, String, true, false, none, some, List, [],
  ◌∷◌, ◌++◌, map, map-append, append_assoc, take, drop, length, min, ltb, lt→ltb, arith, Any, inl,
  inr, length-take, length-drop, take-append-drop, drop-drop, take_of_long, Bool-cases, ltb→lt,
  ltb-le, join,
}
use example_litestar_service.Domains.Entities.Book.{CreateBook}
use example_litestar_service.Domains.Entities.OpenLibrary.{OpenLibraryBook, OpenLibrarySearchResult}
use example_litestar_service.Application.Result.{ok, Action}
use example_litestar_service.Adapters.OpenLibrary.{
  OpenLibraryDocStruct, OpenLibrarySearchStruct, SearchRequest, books_of_docs, client_search,
}
use example_litestar_service.Domains.UseCases.Upload.{
  bucket_size, Search, create_book_of, get_pages, get_all_books_by_query,
}

-- The client answers a query page by page from the list `found`, and does not change the state.
abbrev pub Answers : {S : Type 0} → Search S → String → List OpenLibraryBook → Type 0
Answers {S} search query found =
    (offset : ℕ) (s : S)
    → (result : OpenLibrarySearchResult) × (search query bucket_size offset s ≡ (ok result, s))
      × (result.books ≡ take bucket_size (drop offset found))

module _ {S : Type 0} (search : Search S) (query : String) (fuel offset : ℕ)
    (books : List CreateBook) {result : OpenLibrarySearchResult} {s s' : S}
    (answered : search query bucket_size offset s ≡ (ok result, s')) where
  -- A round that gets fewer than 100 books is the last.
  get_pages_last :
      ltb (length result.books) bucket_size ≡ true
      → get_pages search query (suc fuel) offset books s
        ≡ (ok (some (books ++ map create_book_of result.books)), s')
  unfolding get_pages
  get_pages_last last = rw (answered, last) refl

  get_pages_more :
      ltb (length result.books) bucket_size ≡ false
      → get_pages search query (suc fuel) offset books s
        ≡ get_pages search query fuel
            (offset + bucket_size)
            (books ++ map create_book_of result.books)
            s'
  unfolding get_pages
  get_pages_more more = rw (answered, more) refl

regroup :
    (books : List CreateBook) (page rest found : List OpenLibraryBook)
    → page ++ rest ≡ found
    → (books ++ map create_book_of page) ++ map create_book_of rest
      ≡ books ++ map create_book_of found
regroup books page rest found e = rw (← e) (simp (map-append, append_assoc))

module _ {S : Type 0} (search : Search S) (query : String) (found : List OpenLibraryBook)
    (answers : Answers search query found) where
  get_pages_lem :
      (fuel offset : ℕ) (books : List CreateBook) (s : S)
      → length (drop offset found) < fuel * bucket_size
      → get_pages search query fuel offset books s
        ≡ (ok (some (books ++ map create_book_of (drop offset found))), s)
  get_pages_lem zero offset books s enough = absurd (omega arith)
  get_pages_lem (suc fuel) offset books s enough =
      let (result, answered, page) = answers offset s in
      let remaining = drop offset found in
      let size : length result.books ≡ min bucket_size (length remaining) =
        ap length page ∙ length-take bucket_size remaining in
      elim (Bool-cases (ltb (length result.books) bucket_size)) [
        | inl last ↦
            let whole : result.books ≡ remaining =
              page
              ∙ take_of_long bucket_size remaining
                  (omega (arith, ltb→lt (length result.books) bucket_size last)) in
            get_pages_last search query fuel offset books answered last
            ∙ ap (λ (l : List OpenLibraryBook). (ok (some (books ++ map create_book_of l)), s))
                whole
        | inr more ↦
            let rest : length (drop (offset + bucket_size) found) < fuel * bucket_size = omega (
              arith,
              length-drop (offset + bucket_size) found,
              length-drop offset found,
              ltb-le (length result.books) bucket_size more,
            ) in
            get_pages_more search query fuel offset books answered more
            ∙ get_pages_lem fuel (offset + bucket_size) (books ++ map create_book_of result.books) s
                rest
            ∙ ap (λ (l : List CreateBook). (ok (some l), s))
                (regroup books result.books (drop (offset + bucket_size) found) remaining (
                  rw (page, ← drop-drop offset bucket_size found)
                    (take-append-drop bucket_size remaining)))
      ]

  -- With fuel for more rounds than the books of the query fill pages, the loop over the pages of a
  -- client ends, and gets every book that the client has for the query, once and in order.
  pub get_all_books_by_query_lem :
      (fuel : ℕ) (s : S)
      → length found < fuel * bucket_size
      → get_all_books_by_query search fuel query s ≡ (ok (some (map create_book_of found)), s)
  unfolding get_all_books_by_query
  get_all_books_by_query_lem fuel s enough = get_pages_lem fuel 0 [] s enough

length-books_of_docs-le :
    (docs : List OpenLibraryDocStruct) → length (books_of_docs docs) ≤ length docs
length-books_of_docs-le [] = omega arith
length-books_of_docs-le (doc ∷ docs) = ground (arith, length-books_of_docs-le docs)

length-books_of_docs-lt :
    (docs : List OpenLibraryDocStruct)
    → Any (λ doc. doc.author_name ≡ none) docs
    → length (books_of_docs docs) < length docs
length-books_of_docs-lt [] h = elim h [ ]
length-books_of_docs-lt (doc ∷ docs) (inl authorless) =
    rw authorless (omega (arith, length-books_of_docs-le docs))
length-books_of_docs-lt (doc ∷ docs) (inr later) =
    ground (arith, length-books_of_docs-lt docs later)

abbrev request_for : String → ℕ → SearchRequest
request_for query offset = record {
  q = query;
  limit = bucket_size;
  offset = offset;
  fields = join "," ("key" ∷ "title" ∷ "author_name" ∷ "editions" ∷ []);
}

abbrev result_of_answer : OpenLibrarySearchStruct → OpenLibrarySearchResult
result_of_answer answer = record {
  books = books_of_docs answer.docs;
  total = answer.num_found;
  start = answer.start;
  offset = answer.offset;
}

-- Against a site that answers the request for a page from the list `docs`: a page on which any
-- document has no author ends the loop, however many pages follow, since the client leaves that
-- document out before the loop counts the books.
pub get_pages_stops_at_authorless :
    {S : Type 0} (make_req : SearchRequest → Action S OpenLibrarySearchStruct) (query : String)
    (docs : List OpenLibraryDocStruct) (fuel offset : ℕ) (books : List CreateBook) (s : S)
    (answer : OpenLibrarySearchStruct)
    → ((request : SearchRequest)
        → request.q ≡ query
        → request.offset ≡ offset
        → make_req request s ≡ (ok answer, s))
    → answer.docs ≡ take bucket_size (drop offset docs)
    → Any (λ doc. doc.author_name ≡ none) (take bucket_size (drop offset docs))
    → get_pages (client_search make_req) query (suc fuel) offset books s ≡ (
      ok (some (books ++ map create_book_of (books_of_docs (take bucket_size (drop offset docs))))),
      s,
    )
unfolding client_search
get_pages_stops_at_authorless make_req query docs fuel offset books s answer answers page
      authorless =
    let few : length (books_of_docs answer.docs) < bucket_size = omega (
      arith,
      length-books_of_docs-lt answer.docs (rw page authorless),
      ap length page,
      length-take bucket_size (drop offset docs),
    ) in
    let answered : client_search make_req query bucket_size offset s
        ≡ (ok (result_of_answer answer), s) =
      rw (answers (request_for query offset) refl refl) refl in
    get_pages_last (client_search make_req) query fuel offset books answered
      (lt→ltb _ bucket_size few)
    ∙ ap
        (λ (l : List OpenLibraryDocStruct).
          (ok (some (books ++ map create_book_of (books_of_docs l))), s))
        page
