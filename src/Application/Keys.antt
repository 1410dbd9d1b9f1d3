-- ===== src/Application/Keys.antt =====
-- The keys that `cached` of library/application/cached.py and `reduced` of
-- library/application/reduced.py make of a call. The texts of the arguments are parameters.
use Prim.Native.String
use text.Mathlib.TextLemmas.{append_cancel_left}
use example_litestar_service.Prelude.{◌≡◌, String}

infixr 66 ◌+++◌
abbrev ◌+++◌ : String → String → String
a +++ b = String.◌++◌ a b

-- `f"{self.__class__.__name__}:{func.__name__}:{args}:{kwargs}"`
unfoldable pub default_key : (class_name func_name args kwargs : String) → String
default_key class_name func_name args kwargs =
    class_name +++ ":" +++ func_name +++ ":" +++ args +++ ":" +++ kwargs

-- Calls of one method without positional arguments have one key only if their keyword arguments
-- have one text.
pub default_key-injective :
    (class_name func_name args kwargs kwargs' : String)
    → default_key class_name func_name args kwargs ≡ default_key class_name func_name args kwargs'
    → kwargs ≡ kwargs'
unfolding default_key
default_key-injective class_name func_name args kwargs kwargs' e =
    append_cancel_left ":" kwargs kwargs' (
      append_cancel_left args _ _ (
        append_cancel_left ":" _ _ (
          append_cancel_left func_name _ _
            (append_cancel_left ":" _ _ (append_cancel_left class_name _ _ e)))))
