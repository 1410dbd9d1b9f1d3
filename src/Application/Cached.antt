-- ===== src/Application/Cached.antt =====
-- library/application/cached.py: `cached`. The cache of aiocache is a parameter, over its own state;
-- the decorated method runs over a world `W`.
pub mod Hits
mod Tests
use example_litestar_service.Prelude.{ℕ, ◌+◌, ◌<◌, ◌≡◌, String, Option, none, some}
use example_litestar_service.Application.Result.{Result, ok, Action, pure, ◌>>=◌, ◌>>◌}

-- `get` and `set` of `BaseCache`, at an instant, and what aiocache documents: a value stays until
-- its time to live is over.
pub record BaseCache (C R : Type 0) : Type 0 where
  pub get : (now : ℕ) (key : String) → Action C (Option R)
  pub set : (now : ℕ) (key : String) (value : R) (ttl : ℕ) → Action C (Unit {0})
  pub get-set :
      (now later : ℕ) (key : String) (value : R) (ttl : ℕ) (c : C)
      → (set now key value ttl c).0 ≡ ok tt
      → later < now + ttl
      → get later key (set now key value ttl c).1 ≡ (ok (some value), (set now key value ttl c).1)

module _ {C W : Type 0} where
  -- A call of the cache, and one of the decorated method.
  abbrev on_cache : {A : Type 0} → Action C A → Action (C × W) A
  on_cache m (c, w) = let (r, c') = m c in (r, (c', w))

  abbrev on_world : {A : Type 0} → Action W A → Action (C × W) A
  on_world m (c, w) = let (r, w') = m w in (r, (c, w'))

module _ {C W R : Type 0} where
  abbrev or_call : Option R → Action (C × W) R → Action (C × W) R
  or_call (some result) call = pure result
  or_call none call = call

  -- `wrapped`, with the key of its arguments.
  unfoldable pub cached :
      BaseCache C R → (ttl : ℕ) (key : String) → Action W R → (now : ℕ) → Action (C × W) R
  cached cache ttl key func now = do
    cached_result ← on_cache (cache.get now key)
    or_call cached_result
        do result ← on_world func; on_cache (cache.set now key result ttl); pure result
