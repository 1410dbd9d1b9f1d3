-- ===== src/Adapters/OpenLibrary/Shared.antt =====
-- Which searches through the client of library/adapters/open_library/reduced.py share one request.
use example_litestar_service.Prelude.{
  ℕ, ◌≡◌, ◌↔◌, ap, ◌∙◌, sym, String, some, List, arith, inl, inr, Option-cases,
}
use example_litestar_service.Application.Keys.{default_key, default_key-injective}
use example_litestar_service.Application.Reduced.{
  AsyncReducer, Event, waiting, init, run, add_waiter,
}
use example_litestar_service.Application.Reduced.Invariant.{call_busy, call_idle}
use example_litestar_service.Application.Reduced.Sharing.{run-IsConsistent}
use example_litestar_service.Adapters.OpenLibrary.Clients.{reduced_key, reduced_search}

module _ {V : Type 0} (repr_kwargs : (query : String) (limit offset : ℕ) → String) where
  -- After any events of the loop, while the request of an earlier search is running, another
  -- search waits for that request exactly if its arguments are printed in the same way.
  pub reduced_search-shares_iff :
      (events : List (Event V)) (r : AsyncReducer V) (f coro coro' : ℕ) (q q' : String)
      (l l' o o' : ℕ)
      → run events init ≡ some r
      → r.tasks f ≡ some (record { ident = reduced_key repr_kwargs q l o; coro = coro })
      → ((reduced_search repr_kwargs q' l' o' coro' r).waiters r.next_waiter
          ≡ some (record { future = f; state = waiting }))
        ↔ (repr_kwargs q' l' o' ≡ repr_kwargs q l o)
  unfolding reduced_search add_waiter
  reduced_search-shares_iff events r f coro coro' q q' l l' o o' e running =
      let c = run-IsConsistent events r e in
      let key = reduced_key repr_kwargs q l o in
      let key' = reduced_key repr_kwargs q' l' o' in
      let busy : r.running key ≡ some f = c.owned f (record { ident = key; coro = coro }) running in
      (
        λ waits. elim (Option-cases (r.running key')) [
          | inl idle ↦
              let alone = rw (call_idle key' coro' r idle) at waits in
              absurd (ground (arith, alone, running, c.fresh_task r.next_future (omega arith)))
          | inr (g, other) ↦
              let joined = rw (call_busy key' coro' g r other) at waits in
              let same : g ≡ f = ground (arith, joined) in
              let (t, task, owner) = c.linked key' g other in
              let key_same : key ≡ key' = ground (arith, same, task, running, owner) in
              default_key-injective "ReducedOpenLibraryClient" "search" "()" (repr_kwargs q' l' o')
                (repr_kwargs q l o) (sym key_same)
        ],
        λ same.
            let there : r.running key' ≡ some f =
              ap (λ s. r.running (default_key "ReducedOpenLibraryClient" "search" "()" s)) same
              ∙ busy in
            rw (call_busy key' coro' f r there) (ground arith),
      )
