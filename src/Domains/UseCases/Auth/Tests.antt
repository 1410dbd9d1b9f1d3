-- ===== src/Domains/UseCases/Auth/Tests.antt =====
-- Logins through library/domains/use_cases/commands/auth, over one stored user.
use example_litestar_service.Prelude.{◌≡◌, refl, String, true, false, some}
use example_litestar_service.Domains.Entities.Permission.{AuthUser}
use example_litestar_service.Domains.Entities.User.{UserCredentials, LoginUser}
use example_litestar_service.Domains.Uow.{with_uow, aenter, aexit_returned}
use example_litestar_service.Application.Result.{ok}
use example_litestar_service.Domains.UseCases.Auth.{bad_login, check_credentials, login_user}
use example_litestar_service.Domains.UseCases.Auth.Fixtures.{
  plain_text, no_transactions, one_user, jane,
}
use example_litestar_service.Domains.UseCases.Auth.Laws.{
  IsUserOf, fetched, login_user_sound, Refusal, login_user-refused,
}

abbrev login : String → LoginUser
login password = record { username = "jane"; password = password }

abbrev logged_in : AuthUser
logged_in = record { id = "u1"; is_superuser = false; permissions = λ _. true }

login_user_sound_example :
    (credentials : UserCredentials) × ((fetched no_transactions one_user plain_text
        (login "pride")
        tt).0
      ≡ ok (some credentials))
    × (plain_text.verify "pride" credentials.password_hash ≡ ok true)
    × IsUserOf credentials logged_in
unfolding login_user check_credentials with_uow aenter aexit_returned
login_user_sound_example =
    login_user_sound no_transactions one_user plain_text (login "pride") tt logged_in refl

login_user-refused_example : Refusal plain_text "prejudice" (some jane) bad_login
unfolding login_user check_credentials with_uow aenter aexit_returned
login_user-refused_example =
    login_user-refused no_transactions one_user plain_text (login "prejudice") tt (some jane)
      bad_login refl refl
