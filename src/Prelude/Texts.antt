-- ===== src/Prelude/Texts.antt =====
-- Python's `s[:n]`, `len` and `sep.join` on native texts, whose elements are code points.
use Prim.Native.Nat.{ℕ, zero, suc, ◌≤◌}
use Prim.Native.String
use Prim.Native.String.{String}
use mathlib.Core.Path.{◌≡◌, refl, ap}
use mathlib.Core.List.{List, [], ◌∷◌, map}
use native.Mathlib.Omega.{arith}
use text.Mathlib.Text.{is_le}
use example_litestar_service.Prelude.Tests.{if◌then◌else◌}

-- `len(s)`
abbrev pub text_len : String → ℕ
text_len String.[] = 0
text_len (String.◌∷◌ c s) = suc (text_len s)

-- `s[:n]`
abbrev pub prefix : ℕ → String → String
prefix zero s = ""
prefix (suc n) String.[] = ""
prefix (suc n) (String.◌∷◌ c s) = String.◌∷◌ c (prefix n s)

-- `sep.join(parts)`
unfoldable pub join : String → List String → String
join sep [] = ""
join sep (s ∷ []) = s
join sep (s ∷ t ∷ parts) = String.◌++◌ s (String.◌++◌ sep (join sep (t ∷ parts)))

pub text_len-prefix-le : (n : ℕ) (s : String) → text_len (prefix n s) ≤ n
text_len-prefix-le zero s = omega arith
text_len-prefix-le (suc n) String.[] = omega arith
text_len-prefix-le (suc n) (String.◌∷◌ c s) = omega (arith, text_len-prefix-le n s)

pub prefix_of_short : (n : ℕ) (s : String) → text_len s ≤ n → prefix n s ≡ s
prefix_of_short zero String.[] h = refl
prefix_of_short zero (String.◌∷◌ c s) h = absurd (omega arith)
prefix_of_short (suc n) String.[] h = refl
prefix_of_short (suc n) (String.◌∷◌ c s) h = ap (String.◌∷◌ c) (prefix_of_short n s (omega arith))

-- `sorted(texts)`
abbrev insert_text : String → List String → List String
insert_text s [] = s ∷ []
insert_text s (t ∷ texts) =
    if is_le (String.compare s t) then s ∷ t ∷ texts else t ∷ insert_text s texts

unfoldable pub sort_texts : List String → List String
sort_texts [] = []
sort_texts (s ∷ texts) = insert_text s (sort_texts texts)

-- `str(texts)` of a list, of texts that hold no quote or backslash.
unfoldable pub repr_texts : List String → String
unfolding join
repr_texts texts =
    String.◌++◌ "["
      (String.◌++◌ (join ", " (map (λ s. String.◌++◌ "'" (String.◌++◌ s "'")) texts)) "]")
