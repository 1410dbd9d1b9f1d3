-- ===== src/Presentors/Auth/Guards.antt =====
-- library/presentors/rest/routers/auth/guards.py. The connection is its authenticated user.
pub mod Laws
use Prim.Native.String
use example_litestar_service.Prelude.{List, sort_texts, repr_texts, if◌then◌else◌}
use example_litestar_service.Domains.Entities.Permission.{
  Permission, AuthUser, frozenset, difference, is_nonempty, is_disjoint, permission_values,
}
use example_litestar_service.Application.Exceptions.{permission_denied}
use example_litestar_service.Application.Result.{Result, ok, raise}

-- `permission_guard(permissions)`, applied to a connection.
unfoldable pub permission_guard : List Permission → AuthUser → Result (Unit {0})
unfolding sort_texts repr_texts
permission_guard permissions user =
    let required = frozenset permissions in
    let missing = difference required user.permissions in
    if user.is_superuser
    then ok tt
    else if is_nonempty missing
    then raise (
        permission_denied (
          String.◌++◌ "Missing permissions: "
            (repr_texts (sort_texts (permission_values missing)))))
    else ok tt

-- `any_permission_guard(permissions)`, applied to a connection.
unfoldable pub any_permission_guard : List Permission → AuthUser → Result (Unit {0})
unfolding sort_texts repr_texts
any_permission_guard permissions user =
    let candidates = frozenset permissions in
    if user.is_superuser
    then ok tt
    else if is_disjoint user.permissions candidates
    then raise (
        permission_denied (
          String.◌++◌ "Need at least one of: "
            (repr_texts (sort_texts (permission_values candidates)))))
    else ok tt
