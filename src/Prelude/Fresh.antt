-- ===== src/Prelude/Fresh.antt =====
-- A text that is longer than every text of a list, and so none of them.
use Prim.Native.String
use Prim.Native.String.{String}
use Prim.Native.Nat.{◌+◌, ◌≤◌, ◌<◌}
use mathlib.Core.Path.{◌≡◌, ap}
use mathlib.Core.Logic.{◌≢◌}
use mathlib.Core.List.{List, [], ◌∷◌}
use native.Mathlib.Omega.{arith}
use text.Mathlib.TextLemmas.{nil-append, cons-append}
use example_litestar_service.Prelude.Lists.{All}
use example_litestar_service.Prelude.Texts.{text_len}

text_len-append : (s t : String) → text_len (String.◌++◌ s t) ≡ text_len s + text_len t
text_len-append String.[] t = omega (arith, ap text_len (nil-append t))
text_len-append (String.◌∷◌ c s) t =
    omega (arith, ap text_len (cons-append c s t), text_len-append s t)

module _ {A : Type 0} (key : A → String) where
  abbrev pub fresh_id : List A → String
  fresh_id [] = "x"
  fresh_id (a ∷ l) = String.◌++◌ (key a) (fresh_id l)

  fresh_id-positive : (l : List A) → 0 < text_len (fresh_id l)
  fresh_id-positive [] = omega arith
  fresh_id-positive (a ∷ l) =
      omega (arith, text_len-append (key a) (fresh_id l), fresh_id-positive l)

  longer-fresh :
      (l : List A) (s : String) → text_len (fresh_id l) ≤ text_len s → All (λ a. key a ≢ s) l
  longer-fresh [] s h = tt
  longer-fresh (a ∷ l) s h =
      let size = text_len-append (key a) (fresh_id l) in
      (
        λ same. omega (arith, size, fresh_id-positive l, ap text_len same),
        longer-fresh l s (omega (arith, size)),
      )

  pub fresh_id-fresh : (l : List A) → All (λ a. key a ≢ fresh_id l) l
  fresh_id-fresh l = longer-fresh l (fresh_id l) (omega arith)
