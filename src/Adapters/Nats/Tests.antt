-- ===== src/Adapters/Nats/Tests.antt =====
-- Messages of library/adapters/nats/middlewares/log.py whose handling fails.
use example_litestar_service.Prelude.{ℕ, ◌≡◌, refl, ◌↔◌, ◌<◌, Option, none, some, List, [], ◌∷◌}
use example_litestar_service.Application.Exceptions.{library_error}
use example_litestar_service.Application.Result.{Action, ok, raise}
use example_litestar_service.Adapters.Nats.{
  StreamMessage, Metadata, LogEntry, warning, BaseMiddleware, consume_scope, get_metadata,
  received_entry,
}
use example_litestar_service.Adapters.Nats.Consuming.{IsBase, handled, consume_scope_lem}

abbrev base : BaseMiddleware (Unit {0})
base = record {
  on_consume = λ msg t. (ok msg, t);
  after_consume = λ err t. elim err [ none ↦ (ok tt, t) | some e ↦ (raise e, t) ];
}

base-IsBase : IsBase base
base-IsBase = record {
  on_consume_lem = λ msg t. refl;
  after_consume_returned = λ t. refl;
  after_consume_raised = λ e t. refl;
}

abbrev message : StreamMessage
message =
    let metadata : Metadata = record { consumer = some "library"; num_delivered = some 2 } in
    record { message_id = "m1"; metadata = some metadata; body = "" }

abbrev failing : StreamMessage → Action (List LogEntry × Unit {0}) (Option ℕ)
failing msg t = (raise (library_error "no"), t)

consume_scope_lem_example :
    (consume_scope base failing message ([], tt)
      ≡ handled message (raise (library_error "no"), (received_entry message ∷ [], tt)))
    × ((received_entry message).message_id ≡ "m1")
    × (((received_entry message).level ≡ warning)
        ↔ ((n : ℕ) × ((get_metadata message).1 ≡ some n) × (1 < n)))
consume_scope_lem_example = consume_scope_lem base base-IsBase failing message [] tt
