-- ===== src/Application/Exceptions.antt =====
-- library/application/exceptions.py, with the exceptions of the libraries that the program
-- raises or catches, as one data type.
use example_litestar_service.Prelude.{ℕ, String, Option, List, [], ◌∷◌}
use Prim.Native.String

pub data Exception : Type 0 where
  -- `EntityNotFoundException(entity, entity_id)`, by the class's name and the printed id
  entity_not_found : (entity entity_id : String) → Exception
  empty_payload : (message : String) → Exception
  entity_already_exists : (message : String) → Exception
  invalid_credentials : (message : String) → Exception
  library_error : (message : String) → Exception
  -- litestar's `NotAuthorizedException`, `PermissionDeniedException`, `ValidationException`
  not_authorized : (detail : String) → Exception
  permission_denied : (detail : String) → Exception
  validation_error : (detail : String) → Exception
  -- litestar's other `HTTPException` classes, by the status and the detail of the exception
  http_error : (status_code : ℕ) (detail : String) → Exception
  -- sqlalchemy's `IntegrityError`, by the name of the constraint that the driver reports
  integrity_error : (constraint : Option String) → Exception
  -- sqlalchemy's other `DBAPIError`s
  database_error : (detail : String) → Exception
  -- passlib's `UnknownHashError`
  unknown_hash : Exception
  -- any other class, such as `ValueError`, by its name
  other_error : (name : String) → Exception

infixr 66 ◌+++◌
abbrev ◌+++◌ : String → String → String
a +++ b = String.◌++◌ a b

-- `str(e)` as the constructors of the classes compute it.
unfoldable pub exception_message : Exception → String
exception_message (entity_not_found entity entity_id) =
    entity +++ " with id " +++ entity_id +++ " not found"
exception_message (empty_payload message) = message
exception_message (entity_already_exists message) = message
exception_message (invalid_credentials message) = message
exception_message (library_error message) = message
exception_message (not_authorized detail) = detail
exception_message (permission_denied detail) = detail
exception_message (validation_error detail) = detail
exception_message (http_error status_code detail) = detail
exception_message (integrity_error constraint) = "IntegrityError"
exception_message (database_error detail) = detail
exception_message unknown_hash = "hash could not be identified"
exception_message (other_error name) = name

-- The classes that `class … (…)` lines of the program, and of the libraries, put above one
-- another; `getmro` without `object` and the mixins.
pub data ExceptionClass : Type 0 where
  entity_not_found_class empty_payload_class entity_already_exists_class : ExceptionClass
  invalid_credentials_class library_class : ExceptionClass
  not_authorized_class permission_denied_class validation_class http_class : ExceptionClass
  other_class : ExceptionClass

unfoldable pub mro : Exception → List ExceptionClass
mro (entity_not_found _ _) = entity_not_found_class ∷ library_class ∷ other_class ∷ []
mro (empty_payload _) = empty_payload_class ∷ library_class ∷ other_class ∷ []
mro (entity_already_exists _) = entity_already_exists_class ∷ library_class ∷ other_class ∷ []
mro (invalid_credentials _) = invalid_credentials_class ∷ library_class ∷ other_class ∷ []
mro (library_error _) = library_class ∷ other_class ∷ []
mro (not_authorized _) = not_authorized_class ∷ http_class ∷ other_class ∷ []
mro (permission_denied _) = permission_denied_class ∷ http_class ∷ other_class ∷ []
mro (validation_error _) = validation_class ∷ http_class ∷ other_class ∷ []
mro (http_error _ _) = http_class ∷ other_class ∷ []
mro (integrity_error _) = other_class ∷ []
mro (database_error _) = other_class ∷ []
mro unknown_hash = other_class ∷ []
mro (other_error _) = other_class ∷ []
