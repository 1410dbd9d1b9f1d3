-- ===== src/Prelude/Sort.antt =====
-- The order of texts, and insertion sort by a text.
use Prim.Native.String
use Prim.Native.String.{String}
use Prim.Native.Nat.{suc}
use mathlib.Core.Path.{◌≡◌, refl, ap, ◌∙◌}
use mathlib.Core.List.{List, [], ◌∷◌}
use native.Mathlib.Omega.{arith}
use text.Mathlib.Text.{is_le}
use example_litestar_service.Prelude.Tests.{if◌then◌else◌}
use mathlib.Core.Bool.{Bool, ◌||◌}
use example_litestar_service.Prelude.Lists.{length, any}

module _ {A : Type 0} (key : A → String) where
  abbrev pub insert_by : A → List A → List A
  insert_by a [] = a ∷ []
  insert_by a (b ∷ l) =
      if is_le (String.compare (key a) (key b)) then a ∷ b ∷ l else b ∷ insert_by a l

  unfoldable pub sort_by : List A → List A
  sort_by [] = []
  sort_by (a ∷ l) = insert_by a (sort_by l)

  any-insert_by : (p : A → Bool) (a : A) (l : List A) → any p (insert_by a l) ≡ any p (a ∷ l)
  any-insert_by p a [] = refl
  any-insert_by p a (b ∷ l) = ground (arith, any-insert_by p a l)

  -- Sorting neither loses nor adds anything.
  pub any-sort_by : (p : A → Bool) (l : List A) → any p (sort_by l) ≡ any p l
  unfolding sort_by
  any-sort_by p [] = refl
  any-sort_by p (a ∷ l) = any-insert_by p a (sort_by l) ∙ ap (λ b. p a || b) (any-sort_by p l)

  length-insert_by : (a : A) (l : List A) → length (insert_by a l) ≡ suc (length l)
  length-insert_by a [] = refl
  length-insert_by a (b ∷ l) = ground (arith, length-insert_by a l)

  pub length-sort_by : (l : List A) → length (sort_by l) ≡ length l
  unfolding sort_by
  length-sort_by [] = refl
  length-sort_by (a ∷ l) = length-insert_by a (sort_by l) ∙ ap suc (length-sort_by l)
