-- ===== src/Security/Types.antt =====
-- What tokens of the two types are good for (app/core/security.py).
use order_run_be.Base.{◌+◌, ◌*◌, ◌<◌, ◌≡◌, some, UserId, Moment, ok, err}
use order_run_be.Errors.{api, AppError}
use order_run_be.Models.User.{User}
use order_run_be.Db.{Db}
use order_run_be.Security.{
  Payload, access_payload, refresh_payload, Jwt, Lifetimes, create_access_token,
  create_refresh_token, verify_token, find_active_user, subject, get_current_user, refreshed_user,
}

module _ {Token : Type 0} (jwt : Jwt Token) (settings : Lifetimes)
    (decodes : (now : Moment) (p : Payload)
      → now < p.exp
      → jwt.decode now (jwt.encode p) ≡ some p) where
  -- If the library decodes what it encoded until it expires, then within its lifetime an access
  -- token names its active user, and is refused as a refresh token with INVALID_TOKEN_TYPE.
  pub access_token-names :
      (issued now : Moment) (u : UserId) (db : Db) (user : User)
      → now < issued + settings.access_minutes * 60000000
      → find_active_user u db ≡ some user
      → (get_current_user jwt now (some (create_access_token jwt settings issued u)) db ≡ ok user)
        × (refreshed_user jwt now (create_access_token jwt settings issued u) db
            ≡ err (api AppError.invalid_token_type))
  unfolding create_access_token get_current_user refreshed_user verify_token
  access_token-names issued now u db user lives found =
      let read = decodes now (access_payload settings issued u) lives in
      (rw (read, subject, found), rw read)

  -- If the library decodes what it encoded until it expires, then within its lifetime a refresh
  -- token names its active user for a refresh, and is refused as an access token with
  -- INVALID_TOKEN_TYPE.
  pub refresh_token-names :
      (issued now : Moment) (u : UserId) (db : Db) (user : User)
      → now < issued + settings.refresh_days * 86400000000
      → find_active_user u db ≡ some user
      → (refreshed_user jwt now (create_refresh_token jwt settings issued u) db ≡ ok user)
        × (get_current_user jwt now (some (create_refresh_token jwt settings issued u)) db
            ≡ err (api AppError.invalid_token_type))
  unfolding create_refresh_token get_current_user refreshed_user verify_token
  refresh_token-names issued now u db user lives found =
      let read = decodes now (refresh_payload settings issued u) lives in
      (rw (read, subject, found), rw read)
