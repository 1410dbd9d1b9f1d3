-- ===== src/Adapters/OpenLibrary.antt =====
-- library/adapters/open_library/client.py and schemas/search.py. The request itself, with its
-- decoding, is a parameter over a world `W`.
pub mod Clients
pub mod Transparent
pub mod Shared
mod Tests
use example_litestar_service.Prelude.{ℕ, String, Option, none, some, List, [], ◌∷◌, join}
use example_litestar_service.Domains.Entities.OpenLibrary.{OpenLibraryBook, OpenLibrarySearchResult}
use example_litestar_service.Application.Result.{Action, pure, ◌>>=◌}

pub record OpenLibraryDocStruct : Type 0 where
  pub title : String
  pub key : String
  pub author_name : Option (List String)

pub record OpenLibrarySearchStruct : Type 0 where
  pub num_found : ℕ
  pub start : ℕ
  pub offset : ℕ
  pub docs : List OpenLibraryDocStruct

-- The `params` of the request.
pub record SearchRequest : Type 0 where
  pub q : String
  pub limit : ℕ
  pub offset : ℕ
  pub fields : String

-- The books of the documents that have an author.
abbrev pub books_of_docs : List OpenLibraryDocStruct → List OpenLibraryBook
books_of_docs [] = []
books_of_docs (doc ∷ docs) = elim doc.author_name [
  | none ↦ books_of_docs docs
  | some authors ↦
      record { key = doc.key; title = doc.title; authors = authors } ∷ books_of_docs docs
]

-- `OpenLibraryClient.search`
unfoldable pub client_search :
    {W : Type 0}
    → (SearchRequest → Action W OpenLibrarySearchStruct)
    → (query : String) → (limit offset : ℕ) → Action W OpenLibrarySearchResult
unfolding join
client_search make_req query limit offset = do
  result ← make_req (record {
    q = query;
    limit = limit;
    offset = offset;
    fields = join "," ("key" ∷ "title" ∷ "author_name" ∷ "editions" ∷ []);
  })
  pure (record {
    books = books_of_docs result.docs;
    total = result.num_found;
    start = result.start;
    offset = result.offset;
  })
