-- ===== src/Profiles.antt =====
-- The display name and level of users in responses: `_user_profiles` and `_user_profile`
-- (app/services/proposal/proposal_service.py, app/services/offer/offer_service.py).
use order_run_be.Base.{
  ℕ, Bool, false, String, List, [], ◌∷◌, map, none, some, ◌==◌, ◌||◌, if◌then◌else◌, UserId,
  where_all,
}
use order_run_be.Models.User.{User}
use order_run_be.Db.{Db, find_user}

-- `"탈퇴한 사용자" if deleted else name or ""`
unfoldable pub display_name : User → String
display_name u = if u.deleted then "탈퇴한 사용자" else elim u.name [ none ↦ "" | some n ↦ n ]

-- `user_id in user_ids`
abbrev pub one_of : UserId → List UserId → Bool
one_of i [] = false
one_of i (j ∷ js) = i == j || one_of i js

abbrev pub Profiles : Type 0
Profiles = List (UserId × (String × ℕ))

-- `_user_profiles`: one query for the users with the ids.
unfoldable pub user_profiles : Db → List UserId → Profiles
unfolding display_name
user_profiles db user_ids =
    map (λ u. (u.id, (display_name u, u.level))) (where_all (λ u. one_of u.id user_ids) db.users)

-- `user_profiles.get(user_id, ("", 0))`
unfoldable pub profile : Profiles → UserId → String × ℕ
profile [] user_id = ("", 0)
profile ((i, p) ∷ rest) user_id = if i == user_id then p else profile rest user_id

-- `_user_profile`: one query for one user.
unfoldable pub user_profile : Db → UserId → String × ℕ
unfolding display_name
user_profile db user_id = elim (find_user user_id db) [
  | none ↦ ("", 0)
  | some u ↦ (display_name u, u.level)
]
