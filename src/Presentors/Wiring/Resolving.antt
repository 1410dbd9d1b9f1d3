-- ===== src/Presentors/Wiring/Resolving.antt =====
-- That the containers of library/presentors/rest/service.py and
-- library/presentors/faststream/app_factory.py can give what is asked of them.
use example_litestar_service.Prelude.{
  str_eq, ℕ, zero, suc, ◌≡◌, String, Bool, true, false, ◌&&◌, List, [], ◌∷◌, any, all, select, All,
  not,
}
use example_litestar_service.Presentors.Wiring.{Scope, app, request, Factory, Container}

-- An object of the one scope lives as long as one of the other.
abbrev pub Outlives : Scope → Scope → Type 0
Outlives app _ = Unit
Outlives request request = Unit
Outlives request app = ⊥

abbrev pub gives : String → Factory → Bool
gives name f = any (str_eq name) f.provides

mutual
  -- What can be made in a scope: an object of the context, or one whose factory, the only one for
  -- its name, finds all that it requires in its own scope. A cycle of factories makes nothing.
  pub data Made (c : Container) : Scope → String → Type 0 where
    from_context :
        (scope : Scope) (name : String)
        → any (str_eq name) c.context ≡ true
        → select (gives name) c.factories ≡ []
        → Made c scope name
    by_factory :
        (scope : Scope) (name : String) (f : Factory)
        → any (str_eq name) c.context ≡ false
        → select (gives name) c.factories ≡ f ∷ []
        → Outlives f.scope scope
        → AllMade c f.scope f.requires
        → Made c scope name

  pub data AllMade (c : Container) : Scope → List String → Type 0 where
    none_left : (scope : Scope) → AllMade c scope []
    one_more :
        (scope : Scope) (name : String) (names : List String)
        → Made c scope name
        → AllMade c scope names
        → AllMade c scope (name ∷ names)

abbrev outlives : Scope → Scope → Bool
outlives app _ = true
outlives request request = true
outlives request app = false

-- A test for it, with fuel for the depth of the factories.
abbrev can_make_from : (Scope → String → Bool) → Scope → Bool → List Factory → Bool
can_make_from test scope true [] = true
can_make_from test scope true (_ ∷ _) = false
can_make_from test scope false [] = false
can_make_from test scope false (f ∷ []) = outlives f.scope scope && all (test f.scope) f.requires
can_make_from test scope false (_ ∷ _ ∷ _) = false

abbrev can_make : ℕ → Container → Scope → String → Bool
can_make zero c scope name = false
can_make (suc n) c scope name =
    can_make_from (can_make n c) scope (any (str_eq name) c.context)
      (select (gives name) c.factories)

-- The only factory for the name makes one object for each request, and asks for the other name.
abbrev pub Asks : Container → (wanted name : String) → Type 0
Asks c wanted name =
    (f : Factory) × (select (gives name) c.factories ≡ f ∷ [])
    × (f.scope ≡ request)
    × (any (str_eq wanted) f.requires ≡ true)

-- Both the storages, the services over them and the use cases work on the unit of work of their
-- request.
pub record SharesUow (c : Container) (use_cases : List String) : Type 0 where
  pub one_uow :
      (uow : Factory) × (uow.scope ≡ request)
      × (select (gives "SqlalchemyUow") c.factories ≡ uow ∷ [])
      × (select (gives "AbstractUow") c.factories ≡ uow ∷ [])
  pub storages_ask : All (Asks c "SqlalchemyUow") ("IBookStorage" ∷ "IUserStorage" ∷ [])
  pub book_service_asks : Asks c "IBookStorage" "BookService"
  pub user_service_asks : Asks c "IUserStorage" "UserService"
  pub use_cases_ask : All (Asks c "AbstractUow") use_cases

-- The use cases that work on the database.
abbrev pub litestar_use_cases : List String
litestar_use_cases =
    "FetchBookListQuery" ∷ "CreateBookCommand" ∷ "FetchBookByIdQuery" ∷ "UpdateBookByIdCommand"
    ∷ "DeleteBookByIdCommand" ∷ "FetchUserListQuery" ∷ "CreateUserCommand" ∷ "FetchUserByIdQuery"
    ∷ "UpdateUserByIdCommand" ∷ "DeleteUserByIdCommand" ∷ "RegisterUserCommand" ∷ "LoginUserCommand"
    ∷ []

-- `Asks`, as a test on the factory that is found.
abbrev asks_from : String → List Factory → Bool
asks_from wanted [] = false
asks_from wanted (f ∷ []) = not (outlives f.scope app) && any (str_eq wanted) f.requires
asks_from wanted (_ ∷ _ ∷ _) = false
