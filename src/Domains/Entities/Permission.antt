-- ===== src/Domains/Entities/Permission.antt =====
-- library/domains/entities/permission.py and auth_user.py. A `frozenset[Permission]` is its
-- membership test. Python leaves the order in which a frozenset is walked open: here it is that
-- of the declaration.
use example_litestar_service.Prelude.{
  str_eq, String, Bool, true, false, not, ◌&&◌, List, [], ◌∷◌, ◌≡◌, refl, fun_ext, if◌then◌else◌,
  select, any, map, arith,
}
use example_litestar_service.Application.Exceptions.{other_error}
use example_litestar_service.Application.Result.{Result, ok, raise, bind_result}

pub data Permission : Type 0 where
  manage_books read_books manage_users read_users : Permission

-- `p.value`
abbrev pub permission_value : Permission → String
permission_value manage_books = "manage_books"
permission_value read_books = "read_books"
permission_value manage_users = "manage_users"
permission_value read_users = "read_users"

abbrev pub all_permissions : List Permission
all_permissions = manage_books ∷ read_books ∷ manage_users ∷ read_users ∷ []

-- `Permission(value)`, which raises for a text that is no member's value.
unfoldable pub parse_permission : String → Result Permission
parse_permission value =
    if str_eq value "manage_books"
    then ok manage_books
    else if str_eq value "read_books"
    then ok read_books
    else if str_eq value "manage_users"
    then ok manage_users
    else if str_eq value "read_users"
    then ok read_users
    else raise (other_error "ValueError")

abbrev pub same_permission : Permission → Permission → Bool
same_permission manage_books manage_books = true
same_permission read_books read_books = true
same_permission manage_users manage_users = true
same_permission read_users read_users = true
same_permission _ _ = false

abbrev pub PermissionSet : Type 0
PermissionSet = Permission → Bool

-- `frozenset(permissions)`
abbrev pub frozenset : List Permission → PermissionSet
frozenset permissions p = any (same_permission p) permissions

-- Walking a set.
abbrev pub elements : PermissionSet → List Permission
elements s = select s all_permissions

-- `a - b`
abbrev pub difference : PermissionSet → PermissionSet → PermissionSet
difference a b p = a p && not (b p)

-- The truth of a set: that it has a member.
abbrev pub is_nonempty : PermissionSet → Bool
is_nonempty s = any s all_permissions

abbrev pub is_disjoint : PermissionSet → PermissionSet → Bool
is_disjoint a b = not (any (λ p. a p && b p) all_permissions)

-- `[p.value for p in permissions]`
abbrev pub permission_values : PermissionSet → List String
permission_values s = map permission_value (elements s)

-- `(Permission(p) for p in values)`
unfoldable pub parse_permissions : List String → Result (List Permission)
unfolding parse_permission
parse_permissions [] = ok []
parse_permissions (v ∷ values) =
    bind_result (parse_permission v)
      λ p. bind_result (parse_permissions values) λ permissions. ok (p ∷ permissions)

pub record AuthUser : Type 0 where
  pub id : String
  pub is_superuser : Bool
  pub permissions : PermissionSet

pub parse_permission-permission_value :
    (p : Permission) → parse_permission (permission_value p) ≡ ok p
unfolding parse_permission
parse_permission-permission_value manage_books = refl
parse_permission-permission_value read_books = refl
parse_permission-permission_value manage_users = refl
parse_permission-permission_value read_users = refl

pub parse_permissions-map :
    (permissions : List Permission)
    → parse_permissions (map permission_value permissions) ≡ ok permissions
unfolding parse_permissions
parse_permissions-map [] = refl
parse_permissions-map (p ∷ permissions) =
    rw (parse_permission-permission_value p, parse_permissions-map permissions)

pub frozenset-elements : (s : PermissionSet) → frozenset (elements s) ≡ s
frozenset-elements s = fun_ext λ p. at p
  where
    at : (p : Permission) → frozenset (elements s) p ≡ s p
    at manage_books = ground arith
    at read_books = ground arith
    at manage_users = ground arith
    at read_users = ground arith
