-- ===== src/Adapters/Nats/Consuming.antt =====
-- What `LogMessageMetaMiddleware` (library/adapters/nats/middlewares/log.py) makes of a message
-- whose handling returns or raises.
use example_litestar_service.Prelude.{
  ◌≡◌, refl, ap, ◌∙◌, ◌↔◌, ◌<◌, ℕ, some, none, Option, List, [], ◌∷◌, ◌++◌, arith, if◌then◌else◌,
}
use example_litestar_service.Application.Exceptions.{Exception}
use example_litestar_service.Application.Result.{Result, ok, raise, Action, continue, ◌>>=◌}
use example_litestar_service.Adapters.Nats.{
  StreamMessage, LogEntry, info, warning, error, is_redelivered, BaseMiddleware, on_consume,
  after_consume_with_message, consume_scope, finish, get_metadata, received_entry, failure_entry,
}

-- faststream documents that the methods do nothing but raise what the handling has raised.
pub record IsBase {S : Type 0} (base : BaseMiddleware S) : Type 0 where
  pub on_consume_lem :
      (msg : StreamMessage) (t : List LogEntry × S) → base.on_consume msg t ≡ (ok msg, t)
  pub after_consume_returned : (t : List LogEntry × S) → base.after_consume none t ≡ (ok tt, t)
  pub after_consume_raised :
      (e : Exception) (t : List LogEntry × S) → base.after_consume (some e) t ≡ (raise e, t)

-- What came of a message: where its handling raised, one more entry, an error with the exception.
abbrev pub handled :
    {S A : Type 0} → StreamMessage → Result A × (List LogEntry × S) → Result A × (List LogEntry × S)
handled msg (ok result, t) = (ok result, t)
handled msg (raise e, (entries, s)) =
    let (consumer, num_delivered) = get_metadata msg in
    let entry : LogEntry = record {
      level = error;
      message_id = msg.message_id;
      num_delivered = num_delivered;
      consumer = consumer;
      exc_info = some e;
    } in
    (raise e, (entries ++ entry ∷ [], s))

warned_iff :
    (delivered : Option ℕ)
    → ((if is_redelivered delivered then warning else info) ≡ warning)
      ↔ ((n : ℕ) × (delivered ≡ some n) × (1 < n))
warned_iff none = (λ e. cc, λ (n, e, _). cc)
warned_iff (some n) = (λ e. (n, refl, ground arith), λ (m, e, more). ground (arith, e, more))

module _ {S A : Type 0} (base : BaseMiddleware S) (laws : IsBase base)
    (call_next : StreamMessage → Action (List LogEntry × S) (Option A)) (msg : StreamMessage) where
  finish_lem : (p : Result (Option A) × (List LogEntry × S)) → finish base msg p ≡ handled msg p
  unfolding after_consume_with_message
  finish_lem (ok result, t) = rw (laws.after_consume_returned t) refl
  finish_lem (raise e, (entries, s)) =
      rw (laws.after_consume_raised e (entries ++ failure_entry msg e ∷ [], s)) refl

  consumed :
      (entries : List LogEntry) (s : S)
      → (on_consume base msg >>= call_next) (entries, s)
        ≡ call_next msg (entries ++ received_entry msg ∷ [], s)
  unfolding on_consume
  consumed entries s =
      ap (continue call_next) (laws.on_consume_lem msg (entries ++ received_entry msg ∷ [], s))

  -- Each message writes one entry with its identifier before it is handled, a warning exactly if
  -- its metadata count more than one delivery. What its handling returns is returned. What it
  -- raises is not lost though `consume_scope` catches it: it is raised again by faststream's
  -- `after_consume`, after one more entry has been written, an error with the identifier and the
  -- exception.
  pub consume_scope_lem :
      (entries : List LogEntry) (s : S)
      → (consume_scope base call_next msg (entries, s)
          ≡ handled msg (call_next msg (entries ++ received_entry msg ∷ [], s)))
        × ((received_entry msg).message_id ≡ msg.message_id)
        × (((received_entry msg).level ≡ warning)
            ↔ ((n : ℕ) × ((get_metadata msg).1 ≡ some n) × (1 < n)))
  unfolding consume_scope
  consume_scope_lem entries s = (
    ap (finish base msg) (consumed entries s)
        ∙ finish_lem (call_next msg (entries ++ received_entry msg ∷ [], s)),
    refl,
    warned_iff (get_metadata msg).1,
  )
