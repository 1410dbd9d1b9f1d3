-- ===== src/Application/Cached/Hits.antt =====
-- What a caller of a method decorated by `cached` (library/application/cached.py) can rely on.
use example_litestar_service.Prelude.{ℕ, ◌+◌, ◌<◌, ◌≡◌, String, none, arith, inl, inr}
use example_litestar_service.Application.Result.{ok, Action, Result-cases}
use example_litestar_service.Application.Cached.{BaseCache, cached}

module _ {C W R : Type 0} (cache : BaseCache C R) (ttl : ℕ) (key : String) where
  -- A call that finds nothing in the cache and returns is repeated from the cache until its time
  -- to live is over: the same result, with the decorated method not run.
  pub cached_twice :
      (func again : Action W R) (now later : ℕ) (c : C) (w : W) (r : R)
      → (cache.get now key c).0 ≡ ok none
      → (cached cache ttl key func now (c, w)).0 ≡ ok r
      → later < now + ttl
      → let s = (cached cache ttl key func now (c, w)).1 in
        cached cache ttl key again later s ≡ (ok r, s)
  unfolding cached
  cached_twice func again now later c w r missed returned fresh =
      let c₁ = (cache.get now key c).1 in
      elim (Result-cases (func w).0) [
        | inr (error, raised) ↦ absurd (ground (arith, missed, raised))
        | inl (a, called) ↦ elim (Result-cases (cache.set now key a ttl c₁).0) [
          | inr (error, raised) ↦ absurd (ground (arith, missed, called, raised))
          | inl (_, stored) ↦
              let same : a ≡ r = ground (arith, missed, called, stored) in
              ground (
                arith,
                missed,
                called,
                stored,
                same,
                cache.get-set now later key a ttl c₁ stored fresh,
              )
        ]
      ]
