-- ===== src/Adapters/Nats.antt =====
-- library/adapters/nats/middlewares/log.py: `LogMessageMetaMiddleware`. The methods of faststream's
-- `BaseMiddleware` that it calls are a parameter, and so is the state `S` that messages work on.
pub mod Consuming
mod Tests
use example_litestar_service.Prelude.{
  ℕ, String, Bool, true, false, ltb, Option, none, some, List, [], ◌∷◌, ◌++◌, if◌then◌else◌,
}
use example_litestar_service.Application.Exceptions.{Exception}
use example_litestar_service.Application.Result.{Result, ok, raise, Action, pure, ◌>>=◌, ◌>>◌}

-- `raw_message.metadata`, whose attributes may be missing.
pub record Metadata : Type 0 where
  pub consumer : Option String
  pub num_delivered : Option ℕ

-- `StreamMessage`: `metadata` is `none` where the raw message has none.
pub record StreamMessage : Type 0 where
  pub message_id : String
  pub metadata : Option Metadata
  pub body : String

pub data LogLevel : Type 0 where
  info warning error : LogLevel

pub record LogEntry : Type 0 where
  pub level : LogLevel
  pub message_id : String
  pub num_delivered : Option ℕ
  pub consumer : Option String
  pub exc_info : Option Exception

-- `_get_metadata`, the consumer and the number of deliveries.
abbrev pub get_metadata : StreamMessage → Option String × Option ℕ
get_metadata message = elim message.metadata [
  | none ↦ (none, none)
  | some metadata ↦ (metadata.consumer, metadata.num_delivered)
]

-- `num_delivered and num_delivered > 1`
abbrev pub is_redelivered : Option ℕ → Bool
is_redelivered none = false
is_redelivered (some n) = ltb 1 n

-- The methods of `BaseMiddleware`, on the entries that are written already and a state.
pub record BaseMiddleware (S : Type 0) : Type 0 where
  pub on_consume : StreamMessage → Action (List LogEntry × S) StreamMessage
  pub after_consume : Option Exception → Action (List LogEntry × S) (Unit {0})

-- `log.log` and `log.error`
abbrev write : {S : Type 0} → LogEntry → Action (List LogEntry × S) (Unit {0})
write entry (entries, s) = (ok tt, (entries ++ entry ∷ [], s))

-- The entry of `on_consume`.
abbrev pub received_entry : StreamMessage → LogEntry
received_entry msg =
    let (consumer, num_delivered) = get_metadata msg in
    record {
      level = if is_redelivered num_delivered then warning else info;
      message_id = msg.message_id;
      num_delivered = num_delivered;
      consumer = consumer;
      exc_info = none;
    }

-- The entry of `after_consume_with_message`.
abbrev pub failure_entry : StreamMessage → Exception → LogEntry
failure_entry message err =
    let (consumer, num_delivered) = get_metadata message in
    record {
      level = error;
      message_id = message.message_id;
      num_delivered = num_delivered;
      consumer = consumer;
      exc_info = some err;
    }

module _ {S : Type 0} (base : BaseMiddleware S) where
  unfoldable pub on_consume : StreamMessage → Action (List LogEntry × S) StreamMessage
  on_consume msg = do write (received_entry msg); base.on_consume msg

  unfoldable pub after_consume_with_message :
      StreamMessage → Option Exception → Action (List LogEntry × S) (Unit {0})
  after_consume_with_message message none = base.after_consume none
  after_consume_with_message message (some err) = do
    write (failure_entry message err)
    base.after_consume (some err)

  -- What comes after `call_next`: `else`, or `except` and the end of the function, each behind
  -- `finally`.
  abbrev pub finish :
      {A : Type 0}
      → StreamMessage
      → Result (Option A) × (List LogEntry × S)
      → Result (Option A) × (List LogEntry × S)
  unfolding after_consume_with_message
  finish msg (ok result, t) = (do after_consume_with_message msg none; pure result) t
  finish msg (raise err, t) = (do after_consume_with_message msg (some err); pure none) t

  -- The result is `none` for Python's `None`, which is also that of a call whose exception was
  -- caught and not raised again.
  unfoldable pub consume_scope :
      {A : Type 0}
      → (StreamMessage → Action (List LogEntry × S) (Option A))
      → StreamMessage
      → Action (List LogEntry × S) (Option A)
  unfolding on_consume after_consume_with_message
  consume_scope call_next msg t = finish msg ((on_consume msg >>= call_next) t)
