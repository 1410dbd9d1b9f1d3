-- ===== src/Presentors/Rest/RequestId/Echo.antt =====
-- The identifier that library/presentors/rest/middleware/request_id.py puts on a response.
use example_litestar_service.Prelude.{
  eq_refl, ◌≡◌, refl, String, some, List, [], ◌∷◌, ◌++◌, map, All,
}
use example_litestar_service.Presentors.Rest.RequestId.{
  Message, response_start, other_message, Scope, headers_of, get_header, or_fresh, Headers,
  send_with_header, request_id_middleware, request_id_header,
}

get_header_last :
    (name value : String) (headers : Headers)
    → get_header name (headers ++ (name, value) ∷ []) ≡ some value
unfolding get_header
get_header_last name value [] = rw (eq_refl name) refl
get_header_last name value ((k, v) ∷ headers) = rw (get_header_last name value headers) refl

-- A message that starts a response carries the identifier.
abbrev Carries : String → Message → Type 0
Carries request_id (response_start headers) = get_header request_id_header headers ≡ some request_id
Carries request_id (other_message type) = Unit

send_with_header-Carries :
    (request_id : String) (m : Message) → Carries request_id (send_with_header request_id m)
unfolding send_with_header
send_with_header-Carries request_id (response_start headers) =
    get_header_last request_id_header request_id headers
send_with_header-Carries request_id (other_message type) = tt

map-Carries :
    (request_id : String) (sent : List Message)
    → All (Carries request_id) (map (send_with_header request_id) sent)
map-Carries request_id [] = tt
map-Carries request_id (m ∷ sent) =
    (send_with_header-Carries request_id m, map-Carries request_id sent)

-- Every response to an HTTP request carries the identifier that the request sent, or the new one
-- if it sent none or an empty one, whatever identifiers the application put on it.
request_id_middleware-Carries :
    (fresh : String) (scope : Scope) (sent : List Message)
    → scope.type ≡ "http"
    → All
        (Carries (or_fresh fresh (get_header request_id_header (headers_of scope.headers))))
        (request_id_middleware fresh scope sent)
unfolding request_id_middleware
request_id_middleware-Carries fresh scope sent http =
    rw http
      (map-Carries (or_fresh fresh (get_header request_id_header (headers_of scope.headers))) sent)
