-- ===== src/Application/Config.antt =====
-- library/config.py with the configurations that it puts together: library/application/config.py,
-- logging.py and sentry.py, and the files config.py under library/adapters. Python's `int`, `float`,
-- `str.lower` and `str.upper` are parameters.
pub mod Settings
pub mod Loading
pub mod Required
mod Tests
use example_litestar_service.Prelude.{
  str_eq, String, ℤ, pos, Bool, true, false, Option, none, some, if◌then◌else◌,
}
use example_litestar_service.Application.Exceptions.{other_error}
use example_litestar_service.Application.Result.{Result, ok, raise, bind_result}

-- `os.environ`
abbrev pub Environ : Type 0
Environ = String → Option String

pub record Conversions (Float : Type 0) : Type 0 where
  pub parse_int : String → Option ℤ
  pub parse_float : String → Option Float
  pub lower : String → String
  pub upper : String → String

-- `environ[name]`
abbrev pub get_item : Environ → String → Result String
get_item environ name = elim (environ name) [
  | none ↦ raise (other_error "KeyError")
  | some s ↦ ok s
]

-- `environ.get(name, default)`
abbrev pub get : Environ → String → String → String
get environ name default = elim (environ name) [ none ↦ default | some s ↦ s ]

abbrev pub or_value_error : {A : Type 0} → Option A → Result A
or_value_error none = raise (other_error "ValueError")
or_value_error (some a) = ok a

module _ {Float : Type 0} (conversions : Conversions Float) (environ : Environ) where
  -- `int(environ[name])`
  abbrev pub int_item : String → Result ℤ
  int_item name = bind_result (get_item environ name) λ s. or_value_error (conversions.parse_int s)

  -- `int(environ.get(name, default))` for a text and for a number.
  abbrev pub int_text : String → String → Result ℤ
  int_text name default = or_value_error (conversions.parse_int (get environ name default))

  abbrev pub int_or : String → ℤ → Result ℤ
  int_or name default = elim (environ name) [
    | none ↦ ok default
    | some s ↦ or_value_error (conversions.parse_int s)
  ]

  -- `environ.get(name, default).lower() == "true"`
  abbrev pub flag : String → String → Bool
  flag name default = str_eq (conversions.lower (get environ name default)) "true"

  -- `float(environ.get(name, default))`
  abbrev pub float_text : String → String → Result Float
  float_text name default = or_value_error (conversions.parse_float (get environ name default))
