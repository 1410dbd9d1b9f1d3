-- ===== src/Presentors/Rest/Users/Conflicts.antt =====
-- How a name that is taken is answered: the endpoints of
-- library/presentors/rest/routers/api/v1/endpoints/users.py, through the use cases and a unit of work
-- down to the rows, and back through the handlers of v1/exception_handlers.py.
use example_litestar_service.Prelude.{
  ℕ, ◌≡◌, refl, ap, ◌∙◌, sym, subst, String, true, false, Option, some, none, List, [], ◌∷◌, any,
  arith, leb, text_len, inl,
}
use example_litestar_service.Domains.Entities.Book.{given, unset}
use example_litestar_service.Domains.Entities.User.{CreateUser, UpdateUser, UserId, user_to_dict}
use example_litestar_service.Domains.Services
use example_litestar_service.Domains.Storages.{IUserStorage}
use example_litestar_service.Domains.Uow.{AbstractUow, with_uow}
use example_litestar_service.Domains.UseCases.{create_user_command, update_user_by_id_command}
use example_litestar_service.Application.Exceptions.{
  Exception, integrity_error, entity_already_exists,
}
use example_litestar_service.Application.Result.{
  Result, ok, raise, raise-injective, Action, continue, pure, ◌>>=◌,
}
use example_litestar_service.Adapters.Database.Uow.{SessionApi, State, closed, sqlalchemy_uow}
use example_litestar_service.Adapters.Database.Uow.Atomic.{IsTransactional}
use example_litestar_service.Adapters.Database.Uow.Inside.{with_uow_refuses, with_uow_undone}
use example_litestar_service.Adapters.Database.Users.{
  UserRow, UserSession, id_is, not_deleted, values_of, update_user_by_id, exists_user_by_id,
  user_storage,
}
use example_litestar_service.Adapters.Database.Users.Engine.{
  IsUserDatabase, matches, fits, username_taken, held_by_other,
}
use example_litestar_service.Adapters.Database.Users.Session.{
  session_of_uow, KeepsDurable, create_user-RunsInside, update_user_by_id-RunsInside,
}
use example_litestar_service.Adapters.Database.Users.Credentials.{create_user_taken}
use example_litestar_service.Presentors.Rest.Handlers.{
  Litestar, ErrorResponse, error_response, exception_json_response, json, internal_server_error,
}
use example_litestar_service.Presentors.Rest.Handlers.Statuses.{error_response-status}
use example_litestar_service.Presentors.Rest.Params.{has_length, text_field, email_field}
use example_litestar_service.Presentors.Rest.Users

username_taken_by_other :
    (id : UserId) (name : String) (rows : List UserRow)
    → held_by_other id name rows ≡ true
    → username_taken name rows ≡ true
username_taken_by_other id name [] h = absurd (ground (arith, h))
username_taken_by_other id name (row ∷ rows) h =
    ground (arith, h, username_taken_by_other id name rows)

any-live :
    (id : UserId) (rows : List UserRow)
    → any (matches (id_is id ∷ not_deleted ∷ [])) rows ≡ true
    → any (matches (id_is id ∷ [])) rows ≡ true
any-live id [] h = h
any-live id (row ∷ rows) h = ground (arith, h, any-live id rows)

text_field-fits : (s t : String) → text_field 3 255 s ≡ some t → leb (text_len t) 255 ≡ true
text_field-fits s t e = ground (arith, e)

email_field-fits :
    (parsed : Option String) (t : String)
    → (elim parsed [ none ↦ none | some email ↦ text_field 3 255 email ]) ≡ some t
    → leb (text_len t) 255 ≡ true
email_field-fits none t e = absurd (ground (arith, e))
email_field-fits (some email) t e = text_field-fits email t e

continue_raised :
    {S A B : Type 0} (f : A → Action S B) (p : Result A × S) (e : Exception)
    → p.0 ≡ raise e
    → continue f p ≡ (raise e, p.1)
continue_raised f (ok a, s) e h = absurd (ground (arith, h))
continue_raised f (raise error, s) e h = ap (λ r. (raise r, s)) (raise-injective h)

module _ {X : Type 0} (session : UserSession X) (rows : X → List UserRow) (now : ℕ)
    (db : IsUserDatabase session rows) where
  update_conflicts :
      (id : UserId) (name : String) (x : X)
      → leb (text_len name) 255 ≡ true
      → any (matches (id_is id ∷ not_deleted ∷ [])) (rows x) ≡ true
      → held_by_other id name (rows x) ≡ true
      → (Services.update_user_by_id
          (user_storage session now)
          (record { id = id; username = given name; email = unset })
          x).0
        ≡ raise (integrity_error (some "uq__users__username"))
  unfolding Services.update_user_by_id exists_user_by_id update_user_by_id user_to_dict
  update_conflicts id name x small there other =
      rw
        (
          db.exists_lem (id_is id ∷ not_deleted ∷ []) x,
          there,
          db.update_taken_username id name x small (any-live id (rows x) there) other,
        )
        refl

module _ {W Session Transaction : Type 0} (api : SessionApi W Session Transaction)
    (sql : Session → UserSession W) (now : ℕ) (durable : W → List UserRow)
    (view : Session → W → List UserRow) (laws : IsTransactional api durable view)
    (keeps : (s : Session) → KeepsDurable (sql s) durable)
    (db : (s : Session) → IsUserDatabase (sql s) (view s)) (litestar : Litestar)
    (parse_email : String → Option String) (detail : String)
    (begins : (s : Session) (v : W) → (t : Transaction) × ((api.begin s v).0 ≡ ok t))
    (rolls_back : (s : Session) (v : W) → (api.rollback s v).0 ≡ ok tt) where
  abbrev storage : IUserStorage (State api)
  storage = user_storage (session_of_uow api sql) now

  abbrev uow : AbstractUow (State api)
  uow = sqlalchemy_uow api

  -- `POST /users/` and `PATCH /users/{user_id}/` with a name alone, on new units of work.
  abbrev pub post_user : (name email : String) → Action (State api) Users.UserSchema
  post_user name email =
      Users.create_user uow storage parse_email detail (record { username = name; email = email })

  abbrev pub patch_username : UserId → (name : String) → Action (State api) Users.UserSchema
  patch_username id name =
      Users.update_user_by_id uow storage parse_email detail id
        (record { username = given name; email = unset })

  -- The request raises, the client gets this response, and no committed row has changed.
  abbrev pub Refused : {A : Type 0} → (endpoint : Action (State api) A) → W → ErrorResponse → Type 0
  Refused endpoint w response =
      (e : Exception) × ((endpoint (closed, w)).0 ≡ raise e)
      × (error_response litestar e ≡ response)
      × (durable (endpoint (closed, w)).1.1 ≡ durable w)

  Refused-of :
      {A B : Type 0} (body : Action (State api) A) (endpoint : Action (State api) B)
      (f : A → Action (State api) B) (w : W) (e : Exception)
      → endpoint (closed, w) ≡ (with_uow uow body >>= f) (closed, w)
      → (with_uow uow body (closed, w)).0 ≡ raise e
      → durable (with_uow uow body (closed, w)).1.1 ≡ durable w
      → Refused endpoint w (error_response litestar e)
  Refused-of body endpoint f w e same raised kept =
      let whole = same ∙ continue_raised f (with_uow uow body (closed, w)) e raised in
      (e, ap (λ p. p.0) whole, refl, ap (λ p. durable p.1.1) whole ∙ kept)

  -- Where a name of 3 to 255 characters is taken, in the committed rows, by another user than the
  -- one with the identifier, who is not deleted: creating a user of that name, with a valid e-mail
  -- address, is answered with 409 and a message, but changing the one's name to it is answered with
  -- litestar's own 500. Neither changes a row, as long as transactions begin and roll back.
  pub user_conflict_responses :
      (id : UserId) (name email address : String) (w : W)
      → has_length 3 255 name ≡ true
      → email_field parse_email email ≡ some address
      → any (matches (id_is id ∷ not_deleted ∷ [])) (durable w) ≡ true
      → held_by_other id name (durable w) ≡ true
      → Refused (post_user name email) w (json (exception_json_response 409 "User already exists"))
        × Refused (patch_username id name) w internal_server_error
  unfolding Users.create_user Users.update_user_by_id create_user_command update_user_by_id_command
      Services.create_user
  user_conflict_responses id name email address w long parsed there other =
      let new : CreateUser = record {
        username = name;
        email = address;
        password_hash = none;
        is_superuser = false;
        permissions = λ _. false;
      } in
      let change : UpdateUser = record { id = id; username = given name; email = unset } in
      let small : leb (text_len name) 255 ≡ true = ground (arith, long) in
      let fit : fits (values_of new) ≡ true =
        ground (arith, small, email_field-fits (parse_email email) address parsed) in
      let taken : username_taken name (durable w) ≡ true =
        username_taken_by_other id name (durable w) other in
      let creating = create_user-RunsInside api durable sql now keeps new in
      let updating = update_user_by_id-RunsInside api durable sql now keeps change in
      let not_created =
        with_uow_refuses api durable view laws creating w
          (entity_already_exists "User already exists") begins rolls_back
          (λ s v seen.
            ap (λ p. p.0)
              (create_user_taken (sql s) (view s) now (db s) new v fit
                (inl (subst (λ l. username_taken name l ≡ true) (sym seen) taken)))) in
      let not_updated =
        with_uow_refuses api durable view laws updating w
          (integrity_error (some "uq__users__username")) begins rolls_back
          (λ s v seen.
            update_conflicts (sql s) (view s) now (db s) id name v small (rw seen there)
              (rw seen other)) in
      (
        subst (Refused (post_user name email) w)
            (error_response-status litestar (entity_already_exists "User already exists"))
            (Refused-of (Services.create_user storage new) (post_user name email)
              (λ user. pure (Users.user_schema user)) w _ (rw (long, parsed) refl) not_created
              (with_uow_undone api durable view laws creating w _ not_created)),
        subst (Refused (patch_username id name) w)
            (error_response-status litestar (integrity_error (some "uq__users__username")))
            (Refused-of (Services.update_user_by_id storage change) (patch_username id name)
              (λ user. pure (Users.user_schema user)) w _ (ground (arith, long)) not_updated
              (with_uow_undone api durable view laws updating w _ not_updated)),
      )
