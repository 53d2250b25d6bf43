-- ===== src/Accounts/ChangePassword.antt =====
-- The change of a password (src/auth/changePassword: changePasswordService.ts, changePasswordHandler.ts).
use implement_offering_valid.Common.{
  ℕ, String, not, Option, none, some, List, [], ◌∷◌, if◌then◌else◌, is_missing, is_empty,
}
use implement_offering_valid.Accounts.{
  User, Crypto, find_user_by_id, update_password_hash, hash_password, compare_password, or_blank,
}
use implement_offering_valid.Accounts.Strength.{Weakness, validate_password_strength}

pub data ChangePasswordResult : Type 0 where
  changed current_required user_not_found wrong_password : ChangePasswordResult
  too_weak : List Weakness → ChangePasswordResult

module _ (crypto : Crypto) where
  -- The part after the inputs are validated.
  unfoldable pub change_hash :
      (salt : String) → String → String → String → List User → List User × ChangePasswordResult
  change_hash salt user_id current_password new_password users =
      elim (find_user_by_id user_id users) [
        | none ↦ (users, user_not_found)
        | some u ↦
            if not (compare_password crypto current_password u.password_hash)
            then (users, wrong_password)
            else (
              update_password_hash user_id (hash_password crypto salt new_password) users,
              changed,
            )
      ]

  unfoldable pub execute :
      (salt : String) → String → String → String → List User → List User × ChangePasswordResult
  execute salt user_id current_password new_password users =
      if is_empty current_password
      then (users, current_required)
      else elim (validate_password_strength new_password) [
        | e ∷ es ↦ (users, too_weak (e ∷ es))
        | [] ↦ change_hash salt user_id current_password new_password users
      ]

  abbrev status_of : ChangePasswordResult → ℕ
  status_of changed = 200
  status_of current_required = 400
  status_of (too_weak es) = 400
  status_of wrong_password = 401
  status_of user_not_found = 404

  -- The status of the answer; `sub` and `id` are those of `req.user`.
  unfoldable pub handle_change_password :
      (salt : String)
      → (sub id current_password new_password : Option String) → List User
      → List User × ℕ
  handle_change_password salt sub id current_password new_password users =
      let user_id : Option String = elim (sub) [ none ↦ id | some s ↦ some s ] in
      if is_missing user_id then (users, 401) else elim (current_password) [
        | none ↦ (users, 400)
        | some current ↦ elim (new_password) [
          | none ↦ (users, 400)
          | some new ↦
              let (users', result) = execute salt (or_blank user_id) current new users in
              (users', status_of result)
        ]
      ]
