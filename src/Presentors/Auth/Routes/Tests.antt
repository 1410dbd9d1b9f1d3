-- ===== src/Presentors/Auth/Routes/Tests.antt =====
-- The routes of library/presentors/rest/service.py under paths that are joined as they stand, and a
-- middleware that is skipped where one of its patterns is found in the path.
use Prim.Native.String
use text.Mathlib.Text.{starts_with}
use text.Mathlib.TextLemmas.{append-nil}
use text.Mathlib.TextPositions.{starts_with-append}
use example_litestar_service.Prelude.{
  ◌≡◌, ap, ◌∙◌, inl, String, str_eq, eq_iff, Bool, true, List, [], ◌∷◌, any, All, arith, Bool-cases,
  inr,
}
use example_litestar_service.Presentors.Auth.Fixtures.{sealing}
use example_litestar_service.Presentors.Auth.Routes.{route_handlers, exclude}
use example_litestar_service.Presentors.Auth.Routes.Matching.{contains, IsRouting}
use example_litestar_service.Presentors.Auth.Routes.Protected.{Admits, route_handlers_lem}

abbrev concat : List String → String
concat [] = ""
concat (part ∷ parts) = String.◌++◌ part (concat parts)

abbrev Joined : List String → String → Type 0
Joined parts path = path ≡ concat parts

abbrev search_any : List String → String → Bool
search_any patterns path = any (contains path) patterns

contains_of_start : (s t : String) → starts_with s t ≡ true → contains s t ≡ true
contains_of_start String.[] t h = h
contains_of_start (String.◌∷◌ c s) t h = ground (arith, h)

any_of_listed :
    (f : String → Bool) (p : String) (patterns : List String)
    → any (str_eq p) patterns ≡ true
    → f p ≡ true
    → any f patterns ≡ true
any_of_listed f p [] listed h = absurd (ground (arith, listed))
any_of_listed f p (q ∷ patterns) listed h = elim (Bool-cases (str_eq p q)) [
  | inl same ↦ let there : f q ≡ true = rw ((eq_iff p q).0 same) at h in ground (arith, there)
  | inr other ↦
      let rest = any_of_listed f p patterns (ground (arith, listed, other)) h in
      ground (arith, rest)
]

joining : IsRouting Joined search_any
joining = record {
  takes_from = λ part parts path plain taken. (concat parts, taken);
  takes_plain =
      λ a b path plain named taken. inl (taken ∙ ap (λ t. String.◌++◌ a t) (append-nil b));
  bypasses_under = λ p rest listed.
      any_of_listed (contains (String.◌++◌ p rest)) p exclude listed
        (contains_of_start (String.◌++◌ p rest) p (starts_with-append p rest));
  bypasses_only = λ path apart. apart;
}

route_handlers_lem_example :
    All (Admits sealing "secret" 1800 search_any Joined joining "no user") route_handlers
route_handlers_lem_example =
    route_handlers_lem sealing "secret" 1800 search_any Joined joining "no user"
