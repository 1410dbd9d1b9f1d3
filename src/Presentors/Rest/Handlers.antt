-- ===== src/Presentors/Rest/Handlers.antt =====
-- library/presentors/rest/routers/api/v1/exception_handlers.py, with the table `exception_handlers`
-- of library/presentors/rest/service.py. litestar's choice of a handler is a parameter.
pub mod Statuses
use example_litestar_service.Prelude.{
  ℕ, ◌≡◌, String, Bool, true, false, Option, none, some, List, [], ◌∷◌, if◌then◌else◌,
}
use example_litestar_service.Application.Exceptions.{
  Exception, exception_message, mro, ExceptionClass, entity_not_found, empty_payload,
  entity_already_exists, invalid_credentials, library_error, not_authorized, permission_denied,
  validation_error, http_error, integrity_error, database_error, unknown_hash, other_error,
  entity_not_found_class, empty_payload_class, entity_already_exists_class,
  invalid_credentials_class, library_class, not_authorized_class, permission_denied_class,
  validation_class, http_class, other_class,
}
use example_litestar_service.Application.Result.{Result, ok, raise}

-- `StatusResponseSchema`
pub record StatusResponse : Type 0 where
  pub is_ok : Bool
  pub status_code : ℕ
  pub message : String

-- `exception_json_response`
abbrev pub exception_json_response : ℕ → String → StatusResponse
exception_json_response status_code message = record {
  is_ok = false;
  status_code = status_code;
  message = message;
}

-- `status_code` of litestar's `HTTPException` classes.
abbrev pub http_status : Exception → ℕ
http_status (not_authorized _) = 401
http_status (permission_denied _) = 403
http_status (validation_error _) = 400
http_status (http_error status_code _) = status_code
http_status _ = 500

pub data Handler : Type 0 where
  validation_exception_handler http_exception_handler library_exception_handler : Handler
  entity_not_found_exception_handler empty_payload_exception_handler : Handler
  entity_already_exists_exception_handler invalid_credentials_exception_handler : Handler

-- The handlers, each on the exception that it is given.
unfoldable pub run_handler : Handler → Exception → StatusResponse
unfolding exception_message
run_handler validation_exception_handler e = exception_json_response 422 (exception_message e)
run_handler http_exception_handler e = exception_json_response (http_status e) (exception_message e)
run_handler library_exception_handler e = exception_json_response 500 (exception_message e)
run_handler entity_not_found_exception_handler e = exception_json_response 404 (exception_message e)
run_handler empty_payload_exception_handler e = exception_json_response 400 (exception_message e)
run_handler entity_already_exists_exception_handler e =
    exception_json_response 409 (exception_message e)
run_handler invalid_credentials_exception_handler e =
    exception_json_response 401 (exception_message e)

-- The entries of `exception_handlers` in `get_litestar_app`, in their order.
abbrev pub exception_handlers : List (ExceptionClass × Handler)
exception_handlers =
    (validation_class, validation_exception_handler)
    ∷ (http_class, http_exception_handler)
    ∷ (library_class, library_exception_handler)
    ∷ (entity_not_found_class, entity_not_found_exception_handler)
    ∷ (empty_payload_class, empty_payload_exception_handler)
    ∷ (entity_already_exists_class, entity_already_exists_exception_handler)
    ∷ (invalid_credentials_class, invalid_credentials_exception_handler)
    ∷ []

-- What the client gets: the JSON of a handler, or litestar's own response with status 500.
pub data ErrorResponse : Type 0 where
  json : StatusResponse → ErrorResponse
  internal_server_error : ErrorResponse

-- The response of the handler that litestar chose, if any.
unfoldable pub respond : Option Handler → Exception → ErrorResponse
unfolding run_handler
respond none e = internal_server_error
respond (some handler) e = json (run_handler handler e)

abbrev pub same_class : ExceptionClass → ExceptionClass → Bool
same_class entity_not_found_class entity_not_found_class = true
same_class empty_payload_class empty_payload_class = true
same_class entity_already_exists_class entity_already_exists_class = true
same_class invalid_credentials_class invalid_credentials_class = true
same_class library_class library_class = true
same_class not_authorized_class not_authorized_class = true
same_class permission_denied_class permission_denied_class = true
same_class validation_class validation_class = true
same_class http_class http_class = true
same_class other_class other_class = true
same_class _ _ = false

unfoldable pub lookup_class : List (ExceptionClass × Handler) → ExceptionClass → Option Handler
lookup_class [] c = none
lookup_class ((k, handler) ∷ table) c =
    if same_class k c then some handler else lookup_class table c

-- The handler of the first class that has one.
unfoldable pub first_registered :
    List (ExceptionClass × Handler) → List ExceptionClass → Option Handler
unfolding lookup_class
first_registered table [] = none
first_registered table (c ∷ classes) =
    let later = first_registered table classes in
    elim (lookup_class table c) [ some handler ↦ some handler | none ↦ later ]

-- litestar documents that it takes the handler of the most specific class of an exception that is
-- registered.
pub record Litestar : Type 0 where
  pub find_handler : List (ExceptionClass × Handler) → Exception → Option Handler
  pub find_handler_lem :
      (table : List (ExceptionClass × Handler)) (e : Exception)
      → find_handler table e ≡ first_registered table (mro e)

-- The response to a request whose handling raised.
abbrev pub error_response : Litestar → Exception → ErrorResponse
error_response litestar e = respond (litestar.find_handler exception_handlers e) e
