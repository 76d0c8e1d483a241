-- ===== src/Users/Passwords.antt =====
-- `change_password` of apps/users/services.py.
use saas_backend_api.Prelude.{
  ℕ, ◌≡◌, refl, true, false, String, some, ◌==◌, ◌⊎◌, inl, inr, Bool-cases, first-update_where_hit,
  ==_self,
}
use saas_backend_api.Common.Errors.{authentication_failed}
use saas_backend_api.Users.Models.{User}
use saas_backend_api.Users.Selectors.{user_by_id}
use saas_backend_api.Users.Services.{with_password, change_password}
use saas_backend_api.Store.{Env, State, ok, err, error}

-- A user who gives the current password gets the new one: the user's row has a password that the
-- new text matches, and is otherwise as before. Any other text in place of the current password is
-- refused with a 401 that changes nothing. A password matches its own hash, and the user is in the
-- table.
pub change_password-by_current :
    (e : Env) (user : User) (current new : String) (s : State)
    → ((salt : ℕ) (raw : String) → e.check_password raw (e.make_password salt raw) ≡ true)
    → user_by_id user.id s.db ≡ some user
    → let (r, s') = change_password e user current new s in
      ((e.check_password current user.password ≡ true)
        × (r ≡ ok tt)
        × ((v : User) × (user_by_id user.id s'.db ≡ some v)
            × (e.check_password new v.password ≡ true)
            × (v ≡ record user { password = v.password })))
      ⊎ ((e.check_password current user.password ≡ false)
          × (r
              ≡ err
                  (error authentication_failed "Current password is incorrect." "invalid_password"))
          × (s' ≡ s))
unfolding change_password
change_password-by_current e user current new s matches there =
    elim (Bool-cases (e.check_password current user.password)) [
      | inl right ↦ rw right (
          inl (
            refl,
            refl,
            (
              with_password e s.draws new user,
              first-update_where_hit (λ u. u.id == user.id) (λ u. u.id == user.id)
                  (with_password e s.draws new) (λ y. refl) s.db.users user there (==_self user.id),
              matches s.draws new,
              refl,
            ),
          ))
      | inr wrong ↦ rw wrong (inr (refl, refl, refl))
    ]
