-- ===== src/Presentors/Rest/Handlers/Statuses.antt =====
-- Which status each exception gets from library/presentors/rest/routers/api/v1/exception_handlers.py.
use example_litestar_service.Prelude.{◌≡◌, refl}
use example_litestar_service.Application.Exceptions.{
  Exception, exception_message, mro, entity_not_found, empty_payload, entity_already_exists,
  invalid_credentials, library_error, not_authorized, permission_denied, validation_error,
  http_error, integrity_error, database_error, unknown_hash, other_error,
}
use example_litestar_service.Presentors.Rest.Handlers.{
  Litestar, error_response, exception_handlers, exception_json_response, respond, first_registered,
  ErrorResponse, json, internal_server_error,
}

-- The response that the API promises for an exception.
abbrev pub promised_response : Exception → ErrorResponse
promised_response (entity_not_found entity id) =
    json (exception_json_response 404 (exception_message (entity_not_found entity id)))
promised_response (empty_payload message) = json (exception_json_response 400 message)
promised_response (entity_already_exists message) = json (exception_json_response 409 message)
promised_response (invalid_credentials message) = json (exception_json_response 401 message)
promised_response (library_error message) = json (exception_json_response 500 message)
promised_response (not_authorized detail) = json (exception_json_response 401 detail)
promised_response (permission_denied detail) = json (exception_json_response 403 detail)
promised_response (validation_error detail) = json (exception_json_response 422 detail)
promised_response (http_error status_code detail) =
    json (exception_json_response status_code detail)
promised_response _ = internal_server_error

pub error_response-status :
    (litestar : Litestar) (e : Exception) → error_response litestar e ≡ promised_response e
unfolding respond first_registered mro exception_message
error_response-status litestar e = rw (litestar.find_handler_lem exception_handlers e) (at e)
  where
    at :
        (e : Exception)
        → respond (first_registered exception_handlers (mro e)) e ≡ promised_response e
    at (entity_not_found _ _) = refl
    at (empty_payload _) = refl
    at (entity_already_exists _) = refl
    at (invalid_credentials _) = refl
    at (library_error _) = refl
    at (not_authorized _) = refl
    at (permission_denied _) = refl
    at (validation_error _) = refl
    at (http_error _ _) = refl
    at (integrity_error _) = refl
    at (database_error _) = refl
    at unknown_hash = refl
    at (other_error _) = refl
