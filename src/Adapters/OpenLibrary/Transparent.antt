-- ===== src/Adapters/OpenLibrary/Transparent.antt =====
-- That callers of the clients of library/adapters/open_library/cached.py and reduced.py get what they
-- asked for.
use example_litestar_service.Prelude.{
  ℕ, ◌≡◌, ◌∙◌, sym, subst, String, Option, none, some, List, [], ◌∷◌, arith, inl, inr, ◌⊎◌,
}
use example_litestar_service.Domains.Entities.OpenLibrary.{OpenLibrarySearchResult}
use example_litestar_service.Domains.UseCases.Upload.{Search}
use example_litestar_service.Application.Result.{Result, ok, raise, Result-cases, ok-injective}
use example_litestar_service.Application.Keys.{default_key-injective}
use example_litestar_service.Application.Cached.{BaseCache, cached}
use example_litestar_service.Adapters.OpenLibrary.Clients.{cached_key, cached_search}

-- What a cache holds: only what was set, under the key under which it was.
pub record IsStore {C R : Type 0} (cache : BaseCache C R) (entries : C → String → Option R)
    : Type 0 where
  pub get_sound :
      (now : ℕ) (key : String) (c : C) (r : R)
      → (cache.get now key c).0 ≡ ok (some r)
      → entries c key ≡ some r
  pub get_keeps :
      (now : ℕ) (key other : String) (c : C) (r : R)
      → entries (cache.get now key c).1 other ≡ some r
      → entries c other ≡ some r
  pub set_keeps :
      (now : ℕ) (key : String) (value : R) (ttl : ℕ) (other : String) (c : C) (r : R)
      → entries (cache.set now key value ttl c).1 other ≡ some r
      → ((other ≡ key) × (r ≡ value)) ⊎ (entries c other ≡ some r)

module _ {C W : Type 0} (repr_kwargs : (query : String) (limit offset : ℕ) → String)
    (cache : BaseCache C OpenLibrarySearchResult)
    (entries : C → String → Option OpenLibrarySearchResult) (store : IsStore cache entries)
    (client : Search W) (site : (query : String) (limit offset : ℕ) → OpenLibrarySearchResult)
    (same_site : (q q' : String) (l l' o o' : ℕ)
      → repr_kwargs q l o ≡ repr_kwargs q' l' o'
      → site q l o ≡ site q' l' o')
    (asks : (q : String) (l o : ℕ) (w : W) (r : OpenLibrarySearchResult)
      → (client q l o w).0 ≡ ok r
      → r ≡ site q l o) where
  -- Everything in the cache is what the site says.
  abbrev pub Right : C → Type 0
  Right c =
      (q : String) (l o : ℕ) (r : OpenLibrarySearchResult)
      → entries c (cached_key repr_kwargs q l o) ≡ some r
      → r ≡ site q l o

  Right-get : (now : ℕ) (key : String) (c : C) → Right c → Right (cache.get now key c).1
  Right-get now key c right q l o r e =
      right q l o r (store.get_keeps now key (cached_key repr_kwargs q l o) c r e)

  Right-set :
      (now ttl : ℕ) (q : String) (l o : ℕ) (c : C)
      → Right c
      → Right (cache.set now (cached_key repr_kwargs q l o) (site q l o) ttl c).1
  Right-set now ttl q l o c right q' l' o' r e =
      elim (store.set_keeps now (cached_key repr_kwargs q l o) (site q l o) ttl
        (cached_key repr_kwargs q' l' o') c r e) [
          | inl (same_key, same) ↦
              same
              ∙ same_site q q' l l' o o' (
                  default_key-injective "CachedOpenLibraryClient" "search" "()" (repr_kwargs q l o)
                    (repr_kwargs q' l' o') (sym same_key))
          | inr old ↦ right q' l' o' r old
        ]

  -- The outcome of a search.
  abbrev Searched : String → ℕ → ℕ → Result OpenLibrarySearchResult × (C × W) → Type 0
  Searched q l o (r, (c, _)) = Right c × ((a : OpenLibrarySearchResult) → r ≡ ok a → a ≡ site q l o)

  cached_search_lem :
      (now : ℕ) (q : String) (l o : ℕ) (c : C) (w : W)
      → Right c
      → Searched q l o (cached_search repr_kwargs cache client now q l o (c, w))
  unfolding cached_search cached
  cached_search_lem now q l o c w right =
      let key = cached_key repr_kwargs q l o in
      let whole = cached_search repr_kwargs cache client now q l o (c, w) in
      let c₁ = (cache.get now key c).1 in
      let w₁ = (client q l o w).1 in
      let right₁ = Right-get now key c right in
      elim (Result-cases (cache.get now key c).0) [
        | inr (e, failed) ↦
            let step : whole ≡ (raise e, (c₁, w)) = ground (arith, failed) in
            subst (Searched q l o) (sym step) (right₁, λ a h. absurd (ground (arith, h)))
        | inl (some r, hit) ↦
            let step : whole ≡ (ok r, (c₁, w)) = ground (arith, hit) in
            subst (Searched q l o) (sym step) (
              right₁,
              λ a h. sym (ok-injective h) ∙ right q l o r (store.get_sound now key c r hit),
            )
        | inl (none, missed) ↦ elim (Result-cases (client q l o w).0) [
          | inr (e, failed) ↦
              let step : whole ≡ (raise e, (c₁, w₁)) = ground (arith, missed, failed) in
              subst (Searched q l o) (sym step) (right₁, λ a h. absurd (ground (arith, h)))
          | inl (r, returned) ↦
              let same = asks q l o w r returned in
              let c₂ = (cache.set now key r 3600 c₁).1 in
              let right₂ : Right c₂ =
                subst (λ v. Right (cache.set now key v 3600 c₁).1) (sym same)
                  (Right-set now 3600 q l o c₁ right₁) in
              elim (Result-cases (cache.set now key r 3600 c₁).0) [
                | inr (e, failed) ↦
                    let step : whole ≡ (raise e, (c₂, w₁)) =
                      ground (arith, missed, returned, failed) in
                    subst (Searched q l o) (sym step) (right₂, λ a h. absurd (ground (arith, h)))
                | inl (_, stored) ↦
                    let step : whole ≡ (ok r, (c₂, w₁)) =
                      ground (arith, missed, returned, stored) in
                    subst (Searched q l o) (sym step) (right₂, λ a h. sym (ok-injective h) ∙ same)
              ]
        ]
      ]

  -- Searches through the cached client, one after the other, each at its instant.
  abbrev pub searches :
      List (ℕ × String × ℕ × ℕ) → C × W → List (Result OpenLibrarySearchResult) × (C × W)
  searches [] s = ([], s)
  searches ((now, q, l, o) ∷ rest) s =
      let (r, s₁) = cached_search repr_kwargs cache client now q l o s in
      let (results, s₂) = searches rest s₁ in (r ∷ results, s₂)

  -- Each result that is returned is the site's answer to its own search.
  abbrev pub Answered : List (ℕ × String × ℕ × ℕ) → List (Result OpenLibrarySearchResult) → Type 0
  Answered [] [] = Unit
  Answered ((_, q, l, o) ∷ rest) (r ∷ results) =
      ((a : OpenLibrarySearchResult) → r ≡ ok a → a ≡ site q l o) × Answered rest results
  Answered _ _ = ⊥

  searches-Right :
      (asked : List (ℕ × String × ℕ × ℕ)) (s : C × W)
      → Right s.0
      → Answered asked (searches asked s).0
  searches-Right [] s right = tt
  searches-Right ((now, q, l, o) ∷ rest) (c, w) right =
      let (right₁, found) = cached_search_lem now q l o c w right in
      let s₁ = (cached_search repr_kwargs cache client now q l o (c, w)).1 in
      (found, searches-Right rest s₁ right₁)

  -- Any searches through the cached client, at any instants, from an empty cache that keeps only
  -- what is set: whatever of them fails, and whatever the cache forgets, each that returns gives
  -- what the site answers to its own arguments, where the site tells apart only arguments that are
  -- printed differently, and the client returns nothing but the site's answers.
  pub searches-Answered :
      (asked : List (ℕ × String × ℕ × ℕ)) (c : C) (w : W)
      → ((key : String) → entries c key ≡ none)
      → Answered asked (searches asked (c, w)).0
  searches-Answered asked c w empty =
      searches-Right asked (c, w)
        (λ q l o r e. absurd (ground (arith, e, empty (cached_key repr_kwargs q l o))))
