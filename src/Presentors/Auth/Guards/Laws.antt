-- ===== src/Presentors/Auth/Guards/Laws.antt =====
-- Whom the guards of library/presentors/rest/routers/auth/guards.py let pass.
use example_litestar_service.Prelude.{
  ◌≡◌, refl, ◌↔◌, ◌⊎◌, inl, inr, true, false, List, [], ◌∷◌, All, Any, arith, Bool-cases, Bool,
  ◌&&◌,
}
use example_litestar_service.Domains.Entities.Permission.{
  Permission, manage_books, read_books, manage_users, read_users, AuthUser, PermissionSet,
  frozenset, difference, is_nonempty, same_permission,
}
use example_litestar_service.Application.Result.{ok}
use example_litestar_service.Presentors.Auth.Guards.{permission_guard, any_permission_guard}

-- No member of the enumeration is in a set whose truth is false.
is_nonempty-at : (s : PermissionSet) → is_nonempty s ≡ false → (p : Permission) → s p ≡ false
is_nonempty-at s h manage_books = ground arith
is_nonempty-at s h read_books = ground arith
is_nonempty-at s h manage_users = ground arith
is_nonempty-at s h read_users = ground arith

is_nonempty_of : (s : PermissionSet) → ((p : Permission) → s p ≡ false) → is_nonempty s ≡ false
is_nonempty_of s h = rw (h manage_books, h read_books, h manage_users, h read_users) refl

same_permission_self : (p : Permission) → same_permission p p ≡ true
same_permission_self manage_books = refl
same_permission_self read_books = refl
same_permission_self manage_users = refl
same_permission_self read_users = refl

same_permission-eq : (p q : Permission) → same_permission p q ≡ true → p ≡ q
same_permission-eq manage_books manage_books h = refl
same_permission-eq read_books read_books h = refl
same_permission-eq manage_users manage_users h = refl
same_permission-eq read_users read_users h = refl
same_permission-eq _ _ h = cc

module _ (granted : PermissionSet) where
  All-of_difference :
      (permissions : List Permission)
      → ((p : Permission) → difference (frozenset permissions) granted p ≡ false)
      → All (λ p. granted p ≡ true) permissions
  All-of_difference [] h = tt
  All-of_difference (q ∷ permissions) h = (
    ground (arith, h q, same_permission_self q),
    All-of_difference permissions λ p. ground (arith, h p),
  )

  difference-of_All :
      (permissions : List Permission)
      → All (λ p. granted p ≡ true) permissions
      → (p : Permission) → difference (frozenset permissions) granted p ≡ false
  difference-of_All [] h p = refl
  difference-of_All (q ∷ permissions) (g, h) p = elim (Bool-cases (same_permission p q)) [
    | inl same ↦ let e : granted p ≡ true = rw (same_permission-eq p q same) g in ground arith
    | inr other ↦ rw other (difference-of_All permissions h p)
  ]

module _ (granted : PermissionSet) where
  abbrev meets : List Permission → Permission → Bool
  meets permissions p = granted p && frozenset permissions p

  -- A member of both sets is one of the list's.
  Any-of_meets :
      (permissions : List Permission) (p : Permission)
      → meets permissions p ≡ true
      → Any (λ q. granted q ≡ true) permissions
  Any-of_meets [] p h = ground arith
  Any-of_meets (q ∷ permissions) p h = elim (Bool-cases (same_permission p q)) [
    | inl same ↦ inl (rw (← same_permission-eq p q same) (ground arith))
    | inr other ↦ inr (Any-of_meets permissions p (rw other at h))
  ]

  not-meets-of_Any :
      (permissions : List Permission)
      → ((p : Permission) → meets permissions p ≡ false)
      → Any (λ q. granted q ≡ true) permissions
      → ⊥
  not-meets-of_Any [] none_meets h = elim h [ ]
  not-meets-of_Any (q ∷ permissions) none_meets (inl g) =
      ground (arith, none_meets q, same_permission_self q)
  not-meets-of_Any (q ∷ permissions) none_meets (inr later) =
      not-meets-of_Any permissions (λ p. ground (arith, none_meets p)) later

is_nonempty-witness : (s : PermissionSet) → is_nonempty s ≡ true → (p : Permission) × (s p ≡ true)
is_nonempty-witness s h = elim (Bool-cases (s manage_books)) [
  | inl a ↦ (manage_books, a)
  | inr na ↦ elim (Bool-cases (s read_books)) [
    | inl b ↦ (read_books, b)
    | inr nb ↦ elim (Bool-cases (s manage_users)) [
      | inl c ↦ (manage_users, c)
      | inr nc ↦ (read_users, ground arith)
    ]
  ]
]

-- `permission_guard` lets a user pass exactly when the user is a superuser or holds every
-- permission that the guard was built with.
pub permission_guard_iff :
    (permissions : List Permission) (user : AuthUser)
    → (permission_guard permissions user ≡ ok tt)
      ↔ ((user.is_superuser ≡ true) ⊎ All (λ p. user.permissions p ≡ true) permissions)
unfolding permission_guard
permission_guard_iff permissions user = (to, from)
  where
    missing : PermissionSet
    missing = difference (frozenset permissions) user.permissions

    to :
        permission_guard permissions user ≡ ok tt
        → (user.is_superuser ≡ true) ⊎ All (λ p. user.permissions p ≡ true) permissions
    to e = elim (Bool-cases user.is_superuser) [
      | inl super ↦ inl super
      | inr plain ↦
          inr
            (All-of_difference user.permissions permissions (is_nonempty-at missing (ground arith)))
    ]

    from :
        (user.is_superuser ≡ true) ⊎ All (λ p. user.permissions p ≡ true) permissions
        → permission_guard permissions user ≡ ok tt
    from (inl super) = rw super refl
    from (inr held) =
        ground (arith, is_nonempty_of missing (difference-of_All user.permissions permissions held))

-- `any_permission_guard` lets a user pass exactly when the user is a superuser or holds one of
-- the permissions that the guard was built with.
any_permission_guard_iff :
    (permissions : List Permission) (user : AuthUser)
    → (any_permission_guard permissions user ≡ ok tt)
      ↔ ((user.is_superuser ≡ true) ⊎ Any (λ p. user.permissions p ≡ true) permissions)
unfolding any_permission_guard
any_permission_guard_iff permissions user = (to, from)
  where
    both : PermissionSet
    both = meets user.permissions permissions

    to :
        any_permission_guard permissions user ≡ ok tt
        → (user.is_superuser ≡ true) ⊎ Any (λ p. user.permissions p ≡ true) permissions
    to e = elim (Bool-cases user.is_superuser) [
      | inl super ↦ inl super
      | inr plain ↦
          let (p, held) = is_nonempty-witness both (ground arith) in
          inr (Any-of_meets user.permissions permissions p held)
    ]

    from :
        (user.is_superuser ≡ true) ⊎ Any (λ p. user.permissions p ≡ true) permissions
        → any_permission_guard permissions user ≡ ok tt
    from (inl super) = rw super refl
    from (inr held) = elim (Bool-cases (is_nonempty both)) [
      | inl some_held ↦ ground arith
      | inr none_held ↦
          absurd
            (not-meets-of_Any user.permissions permissions (is_nonempty-at both none_held) held)
    ]
