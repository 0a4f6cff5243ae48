-- ===== src/Lifecycle/Forgetting.antt =====
-- What a withdrawal leaves of the user
-- (app/services/user_auth/user_withdrawal_service.py, `User.withdraw` in app/models/user.py).
use order_run_be.Base.{
  ◌≡◌, ◌≢◌, refl, sym, ◌∙◌, ap, inl, inr, true, Memᴰ, arith, ok, err, Result-cases, Bool-cases,
  Option-cases, ◌==◌, UserId, Moment, some, none, first-mem, mem-delete_where, mem-update_where,
  change,
}
use order_run_be.Errors.{api, AppError}
use order_run_be.Models.User
use order_run_be.Models.User.{User, UserFcmToken}
use order_run_be.Models.Notification.{Notification}
use order_run_be.Models.Account.{SettlementAccount}
use order_run_be.Security.{find_active_user}
use order_run_be.Auth.Sessions.{save_user}
use order_run_be.Db.{Db}
use order_run_be.Withdrawal.{
  auto_cancel, withdraw_work, withdraw_user, has_blocking_activity, forget,
}

-- The withdrawal of an active user with a proposal or an offer in execution raises
-- USER_WITHDRAWAL_BLOCKED and leaves the database as it was.
withdraw_user-blocked :
    (now : Moment) (u : UserId) (db : Db) (user : User)
    → find_active_user u db ≡ some user
    → has_blocking_activity u db ≡ true
    → withdraw_user now u db ≡ (err (api AppError.user_withdrawal_blocked), db)
unfolding withdraw_user withdraw_work
withdraw_user-blocked now u db user e blocked = rw (e, blocked) refl

withdraw_user-db :
    (now : Moment) (u : UserId) (db : Db)
    → (withdraw_user now u db).0 ≡ ok tt
    → (user : User) × (mid : Db) × (user.id ≡ u)
      × ((withdraw_user now u db).1 ≡ save_user (User.withdraw now user) (forget user mid))
unfolding withdraw_user withdraw_work
withdraw_user-db now u db h = elim (Option-cases (find_active_user u db)) [
  | inl e ↦ absurd (cc (rw e at h))
  | inr (user, e) ↦ elim (Bool-cases (has_blocking_activity u db)) [
    | inl blocked ↦ absurd (cc (rw (e, blocked) at h))
    | inr free ↦ elim (Result-cases (auto_cancel u db)) [
      | inr (x, bad) ↦ absurd (cc (rw (e, free, bad) at h))
      | inl ((v, mid), good) ↦
          let key = (first-mem _ db.users e).1 in
          (user, mid, ground (arith, key), rw (e, free, good) refl)
    ]
  ]
]

-- Nothing personal is left in the row.
pub record IsErased (user : User) : Type 0 where
  pub deleted : user.deleted ≡ true
  pub no_name : user.name ≡ none
  pub no_phone : user.phone ≡ none
  pub no_password : user.password_hash ≡ none

IsErased-row :
    (now : Moment) (w user : User) {x : User}
    → x ≡ change (λ v. v.id == (User.withdraw now w).id) (λ _. User.withdraw now w) user
    → x.id ≡ w.id
    → IsErased x
unfolding User.withdraw
IsErased-row now w user e k = record {
  deleted = ground arith;
  no_name = ground arith;
  no_phone = ground arith;
  no_password = ground arith;
}

-- After a successful withdrawal no device token, settlement account or notification of the user is
-- stored, and the user's row is deleted, without name, phone and password.
pub withdraw_user-forgets :
    (now : Moment) (u : UserId) (db : Db)
    → (withdraw_user now u db).0 ≡ ok tt
    → ((t : UserFcmToken) → Memᴰ t (withdraw_user now u db).1.fcm_tokens → t.user_id ≢ u)
      × ((a : SettlementAccount)
          → Memᴰ a (withdraw_user now u db).1.settlement_accounts
          → a.user_id ≢ u)
      × ((n : Notification) → Memᴰ n (withdraw_user now u db).1.notifications.rows → n.user_id ≢ u)
      × ((x : User) → Memᴰ x (withdraw_user now u db).1.users → x.id ≡ u → IsErased x)
unfolding forget
withdraw_user-forgets now u db h =
    let (user, mid, key, written) = withdraw_user-db now u db h in
    (
      λ t m e.
          let (m', gone) =
            mem-delete_where (λ (x : UserFcmToken). x.user_id == user.id) mid.fcm_tokens
              (rw (ap (λ (d : Db). d.fcm_tokens) written) at m) in
          ground (arith, gone),
      λ a m e.
          let (m', gone) =
            mem-delete_where (λ (x : SettlementAccount). x.user_id == user.id)
              mid.settlement_accounts (rw (ap (λ (d : Db). d.settlement_accounts) written) at m) in
          ground (arith, gone),
      λ n m e.
          let (m', gone) =
            mem-delete_where (λ (x : Notification). x.user_id == user.id) mid.notifications.rows
              (rw (ap (λ (d : Db). d.notifications.rows) written) at m) in
          ground (arith, gone),
      λ x m e.
          let (y, my, k) =
            mem-update_where (λ (v : User). v.id == (User.withdraw now user).id)
              (λ _. User.withdraw now user) mid.users
              (rw (ap (λ (d : Db). d.users) written) at m) in
          IsErased-row now user y k (e ∙ sym key),
    )
