-- ===== src/Presentors/Rest/RequestId.antt =====
-- library/presentors/rest/middleware/request_id.py. A header's name and value are texts; `uuid4`
-- is an argument.
pub mod Echo
use example_litestar_service.Prelude.{
  str_eq, String, Bool, true, false, Option, none, some, List, [], ◌∷◌, ◌++◌, map, if◌then◌else◌,
}

abbrev pub request_id_header : String
request_id_header = "x-request-id"

abbrev pub Headers : Type 0
Headers = List (String × String)

-- `dict(headers).get(name)`: of several headers with one name, the last counts.
abbrev pub or_later : Option String → Option String → Option String
or_later (some later) first = some later
or_later none first = first

unfoldable pub get_header : String → Headers → Option String
get_header name [] = none
get_header name ((k, v) ∷ headers) =
    or_later (get_header name headers) (if str_eq k name then some v else none)

-- `incoming.decode() if incoming else uuid.uuid4().hex`
abbrev pub or_fresh : (fresh : String) → Option String → String
or_fresh fresh none = fresh
or_fresh fresh (some incoming) = if str_eq incoming "" then fresh else incoming

-- A message of an ASGI application.
pub data Message : Type 0 where
  response_start : Headers → Message
  other_message : (type : String) → Message

-- `send_with_header`
unfoldable pub send_with_header : (request_id : String) → Message → Message
send_with_header request_id (response_start headers) =
    response_start (headers ++ (request_id_header, request_id) ∷ [])
send_with_header request_id (other_message type) = other_message type

-- A connection: its type, and its headers where it has any.
pub record Scope : Type 0 where
  pub type : String
  pub headers : Option Headers

abbrev pub headers_of : Option Headers → Headers
headers_of none = []
headers_of (some headers) = headers

-- `RequestIdMiddleware.__call__`: what is sent of what the application sends.
unfoldable pub request_id_middleware : (fresh : String) → Scope → List Message → List Message
unfolding get_header send_with_header
request_id_middleware fresh scope sent =
    if str_eq scope.type "http"
    then map
        (send_with_header
          (or_fresh fresh (get_header request_id_header (headers_of scope.headers))))
        sent
    else sent
