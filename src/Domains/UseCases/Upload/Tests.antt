-- ===== src/Domains/UseCases/Upload/Tests.antt =====
-- Uploads of library/domains/use_cases/commands/book/upload_books.py against small clients.
use example_litestar_service.Prelude.{
  String, true, ℕ, zero, suc, ◌≡◌, ◌≤◌, ◌<◌, refl, none, some, List, [], ◌∷◌, map, take, drop,
  length, All, inl, pos, arith,
}
use example_litestar_service.Domains.Entities.Book.{CreateBook, Book}
use example_litestar_service.Domains.Entities.OpenLibrary.{OpenLibraryBook}
use example_litestar_service.Application.Result.{ok, Action, pure}
use example_litestar_service.Adapters.OpenLibrary.{
  OpenLibraryDocStruct, OpenLibrarySearchStruct, SearchRequest, books_of_docs, client_search,
}
use example_litestar_service.Domains.UseCases.Upload.{
  bucket_size, Search, create_book_of, get_pages, get_all_books_by_query, book_buckets,
}
use example_litestar_service.Domains.UseCases.Upload.Buckets.{concat, book_buckets_lem}
use example_litestar_service.Domains.UseCases.Upload.Paging.{
  Answers, get_all_books_by_query_lem, get_pages_stops_at_authorless,
}
use example_litestar_service.Domains.Storages.{IBookStorage}
use example_litestar_service.Domains.Uow.{AbstractUow}

abbrev copies : {A : Type 0} → ℕ → A → List A
copies zero a = []
copies (suc n) a = a ∷ copies n a

abbrev emma : CreateBook
emma = record { title = "Emma"; year = pos 0; author = "Jane Austen" }

book_buckets_lem_example :
    (concat (book_buckets (copies 101 emma)) ≡ copies 101 emma)
    × All
        (λ bucket. (0 < length bucket) × (length bucket ≤ bucket_size))
        (book_buckets (copies 101 emma))
book_buckets_lem_example = book_buckets_lem (copies 101 emma)

abbrev emma_found : OpenLibraryBook
emma_found = record { key = "/works/OL1W"; title = "Emma"; authors = "Jane Austen" ∷ [] }

abbrev site_books : List OpenLibraryBook
site_books = copies 101 emma_found

-- A site with 101 books for every query.
abbrev site : Search (Unit {0})
site query limit offset s = (
  ok (record {
    books = take limit (drop offset site_books);
    total = 101;
    start = offset;
    offset = offset;
  }),
  s,
)

site-Answers : (query : String) → Answers site query site_books
site-Answers query offset s = (
  record {
    books = take bucket_size (drop offset site_books);
    total = 101;
    start = offset;
    offset = offset;
  },
  refl,
  refl,
)

get_all_books_by_query_lem_example :
    get_all_books_by_query site 2 "emma" tt ≡ (ok (some (map create_book_of site_books)), tt)
get_all_books_by_query_lem_example =
    get_all_books_by_query_lem site "emma" site_books (site-Answers "emma") 2 tt (ground arith)

abbrev anonymous : OpenLibraryDocStruct
anonymous = record { title = "Beowulf"; key = "/works/OL2W"; author_name = none }

abbrev emma_doc : OpenLibraryDocStruct
emma_doc = record { title = "Emma"; key = "/works/OL1W"; author_name = some ("Jane Austen" ∷ []) }

-- The first of two pages has a document without author.
abbrev site_docs : List OpenLibraryDocStruct
site_docs = anonymous ∷ copies 101 emma_doc

abbrev first_page : OpenLibrarySearchStruct
first_page = record { num_found = 102; start = 0; offset = 0; docs = take bucket_size site_docs }

abbrev answer_first : SearchRequest → Action (Unit {0}) OpenLibrarySearchStruct
answer_first request s = (ok first_page, s)

get_pages_stops_at_authorless_example :
    get_pages (client_search answer_first) "emma" 5 0 [] tt
    ≡ (ok (some (map create_book_of (books_of_docs (take bucket_size site_docs)))), tt)
get_pages_stops_at_authorless_example =
    get_pages_stops_at_authorless answer_first "emma" site_docs 4 0 [] tt first_page
      (λ request q offset. refl) refl (inl refl)

abbrev no_transactions : AbstractUow (Unit {0})
no_transactions = record {
  create_transaction = pure tt;
  commit = pure tt;
  rollback = pure tt;
  close_transaction = pure tt;
}

abbrev stored_emma : Book
stored_emma = record {
  id = "b1";
  title = "Emma";
  year = pos 0;
  author = "Jane Austen";
  created_at = 1;
  updated_at = 1;
}

abbrev storage : IBookStorage (Unit {0})
storage = record {
  fetch_book_by_id = λ id. pure (some stored_emma);
  count_books = λ params. pure 1;
  fetch_book_list = λ params. pure (stored_emma ∷ []);
  create_book = λ book. pure stored_emma;
  delete_book_by_id = λ id. pure tt;
  update_book_by_id = λ book. pure stored_emma;
  exists_book_by_id = λ id. pure true;
  save_bulk_books = λ books. pure tt;
}
