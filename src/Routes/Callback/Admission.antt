-- ===== src/Routes/Callback/Admission.antt =====
-- Whom the callback logs in.
use makoto_lite_llm.Auth as Auth
use makoto_lite_llm.Auth.{new_pair, create_tokens}
use makoto_lite_llm.Base.{
  String, ◌≡◌, refl, sym, ap, inl, inr, false, Bool-cases, Option, Option-cases, none, some, [],
  ◌∷◌, ok, any, keep, ◌==◌, nat_eq, string_eq,
}
use makoto_lite_llm.Base.Outcomes.{Outcome-cases, ok_injective}
use makoto_lite_llm.Base.Text.{is_empty}
use makoto_lite_llm.Cache.{TtlCache}
use makoto_lite_llm.Config.{Settings}
use makoto_lite_llm.Json.{str, Fields, get}
use makoto_lite_llm.Jwt.{Crypto, create_refresh_token}
use makoto_lite_llm.Models.{User, SsoConfig}
use makoto_lite_llm.Routes.Callback.{
  Outside, CallbackDraw, redirect_url, exchange, join_groups, issue, log_in, callback,
}
use makoto_lite_llm.Routes.Callback.Claims.{identify}
use makoto_lite_llm.Store.{scalar_one_or_none}
use makoto_lite_llm.Store.Queries.{scalar_one_or_none-some}
use makoto_lite_llm.Routes.Callback.Claims.Identified.{Allows, identify-ok}
use makoto_lite_llm.Sso.{Claimed, LoginState, provision_sso_user}
use makoto_lite_llm.Sso.Authorize.{SsoState}
use makoto_lite_llm.Sso.Provision.{IsUserOf, provision_sso_user-email, provision_sso_user-IsUserOf}
use makoto_lite_llm.Routes.Callback.Stored.{join_groups-HasUsers, issue-HasUsers}

module _ {F : Type 0} (crypto : Crypto) (settings : Settings) (states : TtlCache String LoginState)
    (o : Outside F) where
  issue-ok :
      (draw : Auth.Draw) (user : User F) (s : SsoState F states) (url : String)
      → (issue crypto settings states o draw user s).0 ≡ ok url
      → url ≡ redirect_url settings (new_pair crypto settings draw user)
  unfolding issue create_tokens
  issue-ok draw user s url h =
      let hash =
        crypto.sha256_hex (create_refresh_token crypto settings draw.now draw.jti user.id) in
      elim (Bool-cases (any (λ t. t.token_hash == hash) s.session.current.refresh_tokens)) [
        | inl taken ↦ cc (rw taken at h)
        | inr free ↦ sym (ok_injective (rw free at h))
      ]

  -- The user who was provisioned for the claims, and the answer with a new pair of tokens for this user.
  log_in-ok :
      (draw : CallbackDraw) (config : SsoConfig) (claims : Fields) (s : SsoState F states)
      (url : String)
      → (log_in crypto settings states o draw config claims s).0 ≡ ok url
      → (claimed : Claimed) × (user : User F) × (identify config claims ≡ ok claimed)
        × (user.email ≡ claimed.email)
        × IsUserOf claimed.email user
            (log_in crypto settings states o draw config claims s).1.session.committed.users
        × (url ≡ redirect_url settings (new_pair crypto settings draw.tokens user))
  unfolding log_in
  log_in-ok draw config claims s url h = elim (Outcome-cases (identify config claims)) [
    | inl (e, p) ↦ cc (rw p at h)
    | inr (claimed, p) ↦
        let provided = provision_sso_user o.nothing draw.user_id draw.member_id claimed s.session in
        elim (Outcome-cases provided.0) [
          | inl (e, q) ↦ cc (rw (p, q) at h)
          | inr (user, q) ↦
              let before = record s { session = provided.1 } in
              let joined =
                join_groups crypto settings states o draw.group_ids user claims
                  config.group_to_team_mapping before in
              elim (Outcome-cases joined.0) [
                | inl (e, r) ↦ cc (rw (p, q, r) at h)
                | inr (t, r) ↦
                    let (only, saved) =
                      provision_sso_user-IsUserOf o.nothing draw.user_id draw.member_id claimed
                        s.session user q in
                    let users = provided.1.current.users in
                    let kept =
                      issue-HasUsers crypto settings states o users draw.tokens user joined.1 (
                        join_groups-HasUsers crypto settings states o users draw.group_ids user
                          claims config.group_to_team_mapping before
                          (refl, ap (λ db. db.users) saved)) in
                    (
                      claimed,
                      user,
                      p,
                      provision_sso_user-email o.nothing draw.user_id draw.member_id claimed
                          s.session user q,
                      rw (p, q, r, kept.1) only,
                      issue-ok draw.tokens user joined.1 url (rw (p, q, r) at h),
                    )
              ]
        ]
  ]

  -- what a callback that returned has established
  pub record IsAdmitted (draw : CallbackDraw) (code state : String) (s : SsoState F states)
      (url : String) : Type 0 where
    pub login_state : LoginState
    pub config : SsoConfig
    pub claims : Fields
    pub user : User F
    pub stored : states.get draw.now state s.logins ≡ some login_state
    pub configured :
        keep (λ c. c.org_id == login_state.org_id) s.session.current.sso_configs ≡ config ∷ []
    pub answered :
        (exchange crypto settings states o config login_state.verifier code
          (record s { logins = states.remove state s.logins })).0
        ≡ ok claims
    pub claimed : get "email" claims ≡ some (str user.email)
    pub filled : is_empty user.email ≡ false
    pub allowed : Allows config.allowed_domains user.email
    pub known :
        keep
          (λ u. u.email == user.email)
          (callback crypto settings states o draw code state s).1.session.committed.users
        ≡ user ∷ []
    pub redirected : url ≡ redirect_url settings (new_pair crypto settings draw.tokens user)

  -- A callback that returns had a live state, stored with the organization, whose only configuration it used; the
  -- provider returned claims with an email that is not empty, of an allowed domain if there are any; and the answer has a
  -- new pair of tokens for a user who afterwards is the only row of this email among the committed users.
  pub callback-IsAdmitted :
      (draw : CallbackDraw) (code state : String) (s : SsoState F states) (url : String)
      → (callback crypto settings states o draw code state s).0 ≡ ok url
      → IsAdmitted draw code state s url
  unfolding callback
  callback-IsAdmitted draw code state s url h =
      elim (Option-cases (states.get draw.now state s.logins)) [
        | inl gone ↦ cc (rw gone at h)
        | inr (login, stored) ↦
            elim (Outcome-cases (
              scalar_one_or_none
                (keep (λ c. c.org_id == login.org_id) s.session.current.sso_configs))) [
                  | inl (e, p) ↦ cc (rw (stored, p) at h)
                  | inr (found, p) ↦ with_config login stored found p
                ]
      ]
    where
      with_config :
          (login : LoginState)
          → states.get draw.now state s.logins ≡ some login
          → (found : Option SsoConfig)
          → scalar_one_or_none (keep (λ c. c.org_id == login.org_id) s.session.current.sso_configs)
            ≡ ok found
          → IsAdmitted draw code state s url
      with_config login stored none p = cc (rw (stored, p) at h)
      with_config login stored (some config) p =
          let taken = record s { logins = states.remove state s.logins } in
          let asked = exchange crypto settings states o config login.verifier code taken in
          elim (Outcome-cases asked.0) [
            | inl (e, q) ↦ cc (rw (stored, p, q) at h)
            | inr (claims, q) ↦
                let (claimed, user, identified, same, known, redirected) =
                  log_in-ok draw config claims asked.1 url (rw (stored, p, q) at h) in
                let (present, filled, allowed, org) =
                  identify-ok config claims claimed identified in
                record {
                  login_state = login;
                  config = config;
                  claims = claims;
                  user = user;
                  stored = stored;
                  configured = scalar_one_or_none-some _ config p;
                  answered = q;
                  claimed = rw same present;
                  filled = rw same filled;
                  allowed = rw same allowed;
                  known = rw (stored, p, q, same) known;
                  redirected = redirected;
                }
          ]
