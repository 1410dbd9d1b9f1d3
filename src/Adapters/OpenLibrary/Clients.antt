-- ===== src/Adapters/OpenLibrary/Clients.antt =====
-- library/adapters/open_library/cached.py and reduced.py: the clients that stand before the one that
-- asks Open Library. How Python prints the keyword arguments of a search is a parameter.
use example_litestar_service.Prelude.{ℕ, String}
use example_litestar_service.Domains.Entities.OpenLibrary.{OpenLibrarySearchResult}
use example_litestar_service.Domains.UseCases.Upload.{Search}
use example_litestar_service.Application.Keys.{default_key}
use example_litestar_service.Application.Cached.{BaseCache, cached}
use example_litestar_service.Application.Reduced.{AsyncReducer, call}

module _ (repr_kwargs : (query : String) (limit offset : ℕ) → String) where
  -- The key under which `CachedOpenLibraryClient.search` keeps a result.
  abbrev pub cached_key : (query : String) (limit offset : ℕ) → String
  cached_key query limit offset =
      default_key "CachedOpenLibraryClient" "search" "()" (repr_kwargs query limit offset)

  -- `CachedOpenLibraryClient.search`, at an instant.
  unfoldable pub cached_search :
      {C W : Type 0} → BaseCache C OpenLibrarySearchResult → Search W → (now : ℕ) → Search (C × W)
  unfolding cached
  cached_search cache client now query limit offset =
      cached cache 3600 (cached_key query limit offset) (client query limit offset) now

  abbrev pub reduced_key : (query : String) (limit offset : ℕ) → String
  reduced_key query limit offset =
      default_key "ReducedOpenLibraryClient" "search" "()" (repr_kwargs query limit offset)

  -- `ReducedOpenLibraryClient.search`, with the number of its coroutine.
  unfoldable pub reduced_search :
      {V : Type 0} (query : String) (limit offset coro : ℕ) → AsyncReducer V → AsyncReducer V
  reduced_search query limit offset coro = call (reduced_key query limit offset) coro
