-- ===== src/Presentors/Rest/OpenLibrary.antt =====
-- library/presentors/rest/routers/api/v1/endpoints/open_library.py and schemas/open_library.py.
use example_litestar_service.Prelude.{ℕ, ℤ, String, Option, List, map}
use example_litestar_service.Domains.Entities.OpenLibrary.{OpenLibraryBook, OpenLibrarySearchResult}
use example_litestar_service.Domains.UseCases.{open_library_search_query}
use example_litestar_service.Domains.UseCases.Upload.{Search}
use example_litestar_service.Application.Result.{Action, pure, lift, ◌>>=◌}
use example_litestar_service.Presentors.Rest.Params.{check_window, text_field, valid}

pub record OpenLibraryBookSchema : Type 0 where
  pub key : String
  pub title : String
  pub authors : List String

pub record OpenLibrarySearchSchema : Type 0 where
  pub books : List OpenLibraryBookSchema
  pub total : ℕ
  pub start : ℕ
  pub offset : ℕ

abbrev pub open_library_book_schema : OpenLibraryBook → OpenLibraryBookSchema
open_library_book_schema book = record {
  key = book.key;
  title = book.title;
  authors = book.authors;
}

-- `OpenLibrarySearchSchema.model_validate`
abbrev pub open_library_search_schema : OpenLibrarySearchResult → OpenLibrarySearchSchema
open_library_search_schema result = record {
  books = map open_library_book_schema result.books;
  total = result.total;
  start = result.start;
  offset = result.offset;
}

-- `OpenLibraryController.search`
unfoldable pub search :
    {S : Type 0}
    → Search S
    → (detail : String) → (search_query : String) (limit offset : Option ℤ)
    → Action S OpenLibrarySearchSchema
unfolding check_window open_library_search_query
search client detail search_query limit offset = do
  query ← valid detail (text_field 3 127 search_query)
  (l, o) ← lift (check_window detail limit offset)
  result ← open_library_search_query client (record { query = query; limit = l; offset = o })
  pure (open_library_search_schema result)
