-- ===== src/Presentors/Rest/Params.antt =====
-- The constraints that library/presentors/rest/routers/api/v1 declares on query parameters and on
-- the fields of a payload. The text of a validation error is litestar's: a parameter.
pub mod Windows
use example_litestar_service.Prelude.{
  ℕ, ℤ, pos, negsuc, leb_ℤ, leb, ltb, String, text_len, Bool, false, ◌&&◌, Option, none, some,
  if◌then◌else◌,
}
use example_litestar_service.Application.Exceptions.{validation_error}
use example_litestar_service.Application.Result.{Result, ok, raise, Action, pure, throw}

abbrev pub or_default : {A : Type 0} → A → Option A → A
or_default default none = default
or_default default (some a) = a

-- A number that was checked to be non-negative.
abbrev pub to_ℕ : ℤ → ℕ
to_ℕ (pos n) = n
to_ℕ (negsuc n) = 0

-- `limit: Annotated[int, Parameter(ge=1, le=100)] = 10` and
-- `offset: Annotated[int, Parameter(ge=0)] = 0`, where a parameter that is not sent is `none`.
unfoldable pub check_window : (detail : String) → (limit offset : Option ℤ) → Result (ℕ × ℕ)
check_window detail limit offset =
    let l = or_default (pos 10) limit in
    let o = or_default (pos 0) offset in
    if leb_ℤ (pos 1) l && (leb_ℤ l (pos 100) && leb_ℤ (pos 0) o)
    then ok (to_ℕ l, to_ℕ o)
    else raise (validation_error detail)

-- `Field(min_length=…, max_length=…)`
abbrev pub has_length : (least most : ℕ) → String → Bool
has_length least most s = leb least (text_len s) && leb (text_len s) most

abbrev pub text_field : (least most : ℕ) → String → Option String
text_field least most s = if has_length least most s then some s else none

-- `EmailStr = Field(min_length=3, max_length=255)`, with the address that pydantic makes of a text.
abbrev pub email_field : (String → Option String) → String → Option String
email_field parse_email s = elim (parse_email s) [
  | none ↦ none
  | some email ↦ text_field 3 255 email
]

-- A field whose check failed makes the request invalid.
abbrev pub valid : {S A : Type 0} → String → Option A → Action S A
valid detail none = throw (validation_error detail)
valid detail (some a) = pure a

-- `PositiveInt`
abbrev pub is_positive : ℤ → Bool
is_positive (pos n) = ltb 0 n
is_positive (negsuc n) = false
