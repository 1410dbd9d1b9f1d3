-- ===== src/Presentors/Auth/Routes/Matching.antt =====
-- How litestar matches paths, and which requests the guards of a route of
-- library/presentors/rest let pass.
use Prim.Native.String
use text.Mathlib.Text.{starts_with}
use example_litestar_service.Prelude.{
  ◌≡◌, refl, sym, ◌↔◌, ◌⊎◌, inl, inr, String, str_eq, Bool, true, false, ◌||◌, Option, some, List,
  [], ◌∷◌, any, All, arith,
}
use example_litestar_service.Domains.Entities.Permission.{AuthUser}
use example_litestar_service.Application.Result.{
  Result, ok, raise, bind_result, Result-cases, ok-injective,
}
use example_litestar_service.Presentors.Auth.Routes.{Route, exclude, run_guards}

-- `t in s`
abbrev pub contains : String → String → Bool
contains String.[] t = starts_with String.[] t
contains (String.◌∷◌ c s) t = starts_with (String.◌∷◌ c s) t || contains s t

-- What litestar does with paths: `Takes parts path` where it gives a request for the path to the
-- handler with these parts, and `bypasses` where a middleware with these patterns is skipped.
pub record IsRouting (Takes : List String → String → Type 0)
    (bypasses : List String → String → Bool) : Type 0 where
  pub takes_from :
      (part : String) (parts : List String) (path : String)
      → contains part "{" ≡ false
      → Takes (part ∷ parts) path
      → (rest : String) × (path ≡ String.◌++◌ part rest)
  -- A handler without path parameters is found at its path, with or without a slash at its end.
  pub takes_plain :
      (a b path : String)
      → contains a "{" || contains b "{" ≡ false
      → str_eq b "/" ≡ false
      → Takes (a ∷ b ∷ []) path
      → (path ≡ String.◌++◌ a b) ⊎ (path ≡ String.◌++◌ (String.◌++◌ a b) "/")
  -- The program's patterns have no special characters: each stands for its own text.
  pub bypasses_under :
      (p rest : String)
      → any (str_eq p) exclude ≡ true
      → bypasses exclude (String.◌++◌ p rest) ≡ true
  pub bypasses_only :
      (path : String) → any (contains path) exclude ≡ false → bypasses exclude path ≡ false

abbrev is_guarded : List (AuthUser → Result (Unit {0})) → Bool
is_guarded [] = false
is_guarded (_ ∷ _) = true

-- Whether a guard or the handler asks for the user.
abbrev pub asks_user : Route → Bool
asks_user route = route.reads_user || is_guarded route.guards

run_guards_iff :
    (guards : List (AuthUser → Result (Unit {0}))) (user : AuthUser)
    → (run_guards guards user ≡ ok tt) ↔ All (λ guard. guard user ≡ ok tt) guards
unfolding run_guards
run_guards_iff [] user = (λ _. tt, λ _. refl)
run_guards_iff (guard ∷ guards) user = (
  λ e. elim (Result-cases (guard user)) [
    | inl (tt, passed) ↦ (passed, (run_guards_iff guards user).0 (rw passed at e))
    | inr (error, refused) ↦ absurd (cc (rw refused at e))
  ],
  λ h. rw (h.0) ((run_guards_iff guards user).1 (h.1)),
)

pub accepted_iff :
    (guards : List (AuthUser → Result (Unit {0}))) (r : Result AuthUser) (found : Option AuthUser)
    → ((bind_result r λ user. bind_result (run_guards guards user) λ _. ok (some user)) ≡ ok found)
      ↔ ((user : AuthUser) × (found ≡ some user)
          × (r ≡ ok user)
          × All (λ guard. guard user ≡ ok tt) guards)
accepted_iff guards (raise error) found =
    (λ e. absurd (ground (arith, e)), λ (user, same, known, passed). absurd (ground (arith, known)))
accepted_iff guards (ok user) found = elim (Result-cases (run_guards guards user)) [
  | inl (tt, passed) ↦ (
    λ e. (user, sym (ok-injective (rw passed at e)), refl, (run_guards_iff guards user).0 passed),
    λ (user', same, known, _). rw (passed, same, ok-injective known) refl,
  )
  | inr (error, refused) ↦ (
    λ e. absurd (ground (arith, refused, e)),
    λ (user', same, known, passed).
        absurd
          (ground (arith, refused, (run_guards_iff guards user').1 passed, ok-injective known)),
  )
]
