-- ===== src/Domains/Entities/OpenLibrary.antt =====
-- library/domains/entities/open_library.py.
use Prim.Native.Nat.{ℕ}
use example_litestar_service.Prelude.{String, List}

pub record OpenLibrarySearchParams : Type 0 where
  pub query : String
  pub limit : ℕ
  pub offset : ℕ

pub record OpenLibraryBook : Type 0 where
  pub key : String
  pub title : String
  pub authors : List String

pub record OpenLibrarySearchResult : Type 0 where
  pub books : List OpenLibraryBook
  pub total : ℕ
  pub start : ℕ
  pub offset : ℕ
