-- ===== src/Users/Unique/Reach.antt =====
-- The sessions that the services can reach, and what their unique emails mean for a login.
use makoto_lite_llm.Auth.{authenticate_user, reset_password_with_token}
use makoto_lite_llm.Base.{ℕ, String, ◌≡◌, ◌⊎◌, Bool, inl, inr, Option, List}
use makoto_lite_llm.Config.{Settings}
use makoto_lite_llm.Float.{Float}
use makoto_lite_llm.Jwt.{Crypto}
use makoto_lite_llm.Models.{User}
use makoto_lite_llm.Sso.{Claimed, provision_sso_user}
use makoto_lite_llm.Store.{Session, open_session}
use makoto_lite_llm.Users.{
  UserRequest, ProfileUpdate, create_user, update_user_profile, update_user_budget, block_user,
  delete_user,
}
use makoto_lite_llm.Users.Unique.{IsUnique, IsUniqueIn}
use makoto_lite_llm.Users.Unique.Services.{
  create_user-IsUniqueIn, update_user_profile-IsUniqueIn, update_user_budget-IsUniqueIn,
  block_user-IsUniqueIn, delete_user-IsUniqueIn, authenticate_user-IsUniqueIn,
  reset_password_with_token-IsUniqueIn, provision_sso_user-IsUniqueIn,
}

module _ (float : Float) (crypto : Crypto) (settings : Settings) where
  open float use {Carrier}

  -- One call of a service that changes users, whether it returns or raises; the end of a request, which drops what is
  -- pending; or anything else, which at most commits or rolls back users.
  pub data Step (s : Session Carrier) : Session Carrier → Type 0 where
    created :
        (row_id : ℕ) (r : UserRequest Carrier) → Step s (create_user float crypto row_id r s).1
    profiled : (user_id : ℕ) (p : ProfileUpdate) → Step s (update_user_profile user_id p s).1
    budgeted :
        (user_id : ℕ) (max_budget : Option Carrier)
        → Step s (update_user_budget user_id max_budget s).1
    blocked : (user_id : ℕ) (b : Bool) → Step s (block_user user_id b s).1
    deleted : (user_id : ℕ) → Step s (delete_user user_id s).1
    logged_in :
        (now now' : ℕ) (email password : String)
        → Step s (authenticate_user crypto settings now now' email password s).1
    password_reset :
        (now : ℕ) (token new_password : String)
        → Step s (reset_password_with_token crypto settings now token new_password s).1
    provisioned :
        (nothing : Carrier) (user_id row_id : ℕ) (c : Claimed)
        → Step s (provision_sso_user nothing user_id row_id c s).1
    ended : Step s (open_session s.committed)
    elsewhere :
        (t : Session Carrier)
        → (t.current.users ≡ s.current.users) ⊎ (t.current.users ≡ s.committed.users)
        → (t.committed.users ≡ s.committed.users) ⊎ (t.committed.users ≡ s.current.users)
        → Step s t

  pub data Reach (s : Session Carrier) : Session Carrier → Type 0 where
    here : Reach s s
    next : {t u : Session Carrier} → Reach s t → Step t u → Reach s u

  either : {a b c : List (User Carrier)} → (c ≡ a) ⊎ (c ≡ b) → IsUnique a → IsUnique b → IsUnique c
  either (inl e) h k = rw e h
  either (inr e) h k = rw e k

  Step-IsUniqueIn : {s t : Session Carrier} → Step s t → IsUniqueIn s → IsUniqueIn t
  Step-IsUniqueIn {s} (created row_id r) h = create_user-IsUniqueIn float crypto row_id r s h
  Step-IsUniqueIn {s} (profiled user_id p) h = update_user_profile-IsUniqueIn user_id p s h
  Step-IsUniqueIn {s} (budgeted user_id max_budget) h =
      update_user_budget-IsUniqueIn user_id max_budget s h
  Step-IsUniqueIn {s} (blocked user_id b) h = block_user-IsUniqueIn user_id b s h
  Step-IsUniqueIn {s} (deleted user_id) h = delete_user-IsUniqueIn user_id s h
  Step-IsUniqueIn {s} (logged_in now now' email password) h =
      authenticate_user-IsUniqueIn crypto settings now now' email password s h
  Step-IsUniqueIn {s} (password_reset now token new_password) h =
      reset_password_with_token-IsUniqueIn crypto settings now token new_password s h
  Step-IsUniqueIn {s} (provisioned nothing user_id row_id c) h =
      provision_sso_user-IsUniqueIn nothing user_id row_id c s h
  Step-IsUniqueIn ended h = (h.1, h.1)
  Step-IsUniqueIn (elsewhere t e k) h = (either e h.0 h.1, either k h.1 h.0)

  pub Reach-IsUniqueIn : {s t : Session Carrier} → IsUniqueIn s → Reach s t → IsUniqueIn t
  Reach-IsUniqueIn h here = h
  Reach-IsUniqueIn h (next r step) = Step-IsUniqueIn step (Reach-IsUniqueIn h r)
