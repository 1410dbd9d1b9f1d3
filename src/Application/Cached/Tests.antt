-- ===== src/Application/Cached/Tests.antt =====
-- The decorator of library/application/cached.py over a cache in memory.
use example_litestar_service.Prelude.{
  ℕ, ◌+◌, ◌<◌, ◌≡◌, refl, String, str_eq, eq_refl, Option, none, some, ltb, arith, if◌then◌else◌,
}
use example_litestar_service.Application.Result.{ok, Action}
use example_litestar_service.Application.Cached.{BaseCache, cached}
use example_litestar_service.Application.Cached.Hits.{cached_twice}

-- Values with the instants at which they expire.
abbrev Store : Type 0
Store = String → Option (ℕ × ℕ)

abbrev unless_expired : ℕ → Option (ℕ × ℕ) → Option ℕ
unless_expired now none = none
unless_expired now (some (value, expires)) = if ltb now expires then some value else none

abbrev store_value : String → ℕ × ℕ → Store → Store
store_value key entry store k = if str_eq key k then some entry else store k

get-store_value :
    (later expires : ℕ) (key : String) (value : ℕ) (c : Store)
    → later < expires
    → unless_expired later (store_value key (value, expires) c key) ≡ some value
get-store_value later expires key value c fresh = ground (arith, eq_refl key)

abbrev memory : BaseCache Store ℕ
memory = record {
  get = λ now key c. (ok (unless_expired now (c key)), c);
  set = λ now key value ttl c. (ok tt, store_value key (value, now + ttl) c);
  get-set = λ now later key value ttl c stored fresh.
      rw (get-store_value later (now + ttl) key value c fresh) refl;
}

-- A method that counts its calls.
abbrev count_up : Action ℕ ℕ
count_up n = (ok n, n + 1)

abbrev empty : Store
empty key = none

cached_twice_example :
    let s = (cached memory 3600 "search:emma" count_up 10 (empty, 4)).1 in
    cached memory 3600 "search:emma" count_up 20 s ≡ (ok 4, s)
unfolding cached
cached_twice_example =
    cached_twice memory 3600 "search:emma" count_up count_up 10 20 empty 4 4 refl refl (omega arith)
