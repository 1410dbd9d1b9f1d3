-- ===== src/Adapters/OpenLibrary/Tests.antt =====
-- The clients of library/adapters/open_library/cached.py and reduced.py over a small site and a cache
-- that forgets nothing.
use example_litestar_service.Prelude.{
  ℕ, ◌≡◌, ◌↔◌, refl, ap, String, str_eq, eq_iff, eq_refl, text_len, Bool-cases, inl, inr, ◌⊎◌,
  Option, none, some, List, [], ◌∷◌, arith, if◌then◌else◌,
}
use example_litestar_service.Domains.Entities.OpenLibrary.{OpenLibrarySearchResult}
use example_litestar_service.Domains.UseCases.Upload.{Search}
use example_litestar_service.Application.Result.{ok}
use example_litestar_service.Application.Cached.{BaseCache}
use example_litestar_service.Application.Reduced.{
  AsyncReducer, Event, called, waiting, init, run, step, call, get_or_create_future, add_waiter,
  start_task,
}
use example_litestar_service.Adapters.OpenLibrary.Clients.{reduced_key, reduced_search}
use example_litestar_service.Adapters.OpenLibrary.Transparent.{
  IsStore, searches, Answered, searches-Answered,
}
use example_litestar_service.Adapters.OpenLibrary.Shared.{reduced_search-shares_iff}

-- What the cache keeps of each key.
abbrev Store : Type 0
Store = String → Option OpenLibrarySearchResult

abbrev stored : String → OpenLibrarySearchResult → Store → Store
stored key value store k = if str_eq key k then some value else store k

stored-same :
    (key : String) (value : OpenLibrarySearchResult) (store : Store)
    → stored key value store key ≡ some value
stored-same key value store = ground (arith, eq_refl key)

stored-cases :
    (key other : String) (value r : OpenLibrarySearchResult) (store : Store)
    → stored key value store other ≡ some r
    → ((other ≡ key) × (r ≡ value)) ⊎ (store other ≡ some r)
stored-cases key other value r store e = elim (Bool-cases (str_eq key other)) [
  | inl same ↦ inl (ground (arith, eq_iff key other, same), ground (arith, same, e))
  | inr different ↦ inr (ground (arith, different, e))
]

abbrev memory : BaseCache Store OpenLibrarySearchResult
memory = record {
  get = λ now key c. (ok (c key), c);
  set = λ now key value ttl c. (ok tt, stored key value c);
  get-set = λ now later key value ttl c done fresh. rw (stored-same key value c) refl;
}

memory-IsStore : IsStore memory (λ c. c)
memory-IsStore = record {
  get_sound = λ now key c r e. ground (arith, e);
  get_keeps = λ now key other c r e. e;
  set_keeps = λ now key value ttl other c r e. stored-cases key other value r c e;
}

-- A site whose answer depends on the query alone, as does the text of the arguments.
abbrev repr_query : (query : String) (limit offset : ℕ) → String
repr_query query limit offset = query

abbrev answer : (query : String) (limit offset : ℕ) → OpenLibrarySearchResult
answer query limit offset = record { books = []; total = text_len query; start = 0; offset = 0 }

abbrev site : Search (Unit {0})
site query limit offset s = (ok (answer query limit offset), s)

abbrev asked : List (ℕ × String × ℕ × ℕ)
asked = (1, "austen", 10, 0) ∷ (2, "bronte", 10, 0) ∷ (3, "austen", 10, 0) ∷ []

same_site :
    (q q' : String) (l l' o o' : ℕ)
    → repr_query q l o ≡ repr_query q' l' o'
    → answer q l o ≡ answer q' l' o'
same_site q q' l l' o o' same = ap (λ t. answer t 0 0) same

site_sound :
    (q : String) (l o : ℕ) (w : Unit {0}) (r : OpenLibrarySearchResult)
    → (site q l o w).0 ≡ ok r
    → r ≡ answer q l o
site_sound q l o w r e = ground (arith, e)

searches-Answered_example :
    Answered repr_query memory
      (λ c. c)
      memory-IsStore
      site
      answer
      same_site
      site_sound
      asked
      (searches repr_query memory
        (λ c. c)
        memory-IsStore
        site
        answer
        same_site
        site_sound
        asked
        ((λ _. none), tt)).0
searches-Answered_example =
    searches-Answered repr_query memory (λ c. c) memory-IsStore site answer same_site site_sound
      asked (λ _. none) tt (λ key. refl)

-- The reducer after one search for "austen".
abbrev events : List (Event ℕ)
events = called (reduced_key repr_query "austen" 10 0) 7 ∷ []

abbrev busy : AsyncReducer ℕ
busy = call (reduced_key repr_query "austen" 10 0) 7 init

run-events : run events init ≡ some busy
unfolding run step
run-events = refl

busy-task : busy.tasks 0 ≡ some (record { ident = reduced_key repr_query "austen" 10 0; coro = 7 })
unfolding call get_or_create_future add_waiter start_task
busy-task = refl

reduced_search-shares_iff_example :
    ((reduced_search repr_query "bronte" 10 0 8 busy).waiters busy.next_waiter
      ≡ some (record { future = 0; state = waiting }))
    ↔ (repr_query "bronte" 10 0 ≡ repr_query "austen" 10 0)
reduced_search-shares_iff_example =
    reduced_search-shares_iff repr_query events busy 0 7 8 "austen" "bronte" 10 10 0 0 run-events
      busy-task
