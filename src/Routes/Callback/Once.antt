-- ===== src/Routes/Callback/Once.antt =====
-- A state of a login is good for one callback.
use makoto_lite_llm.Base.{
  ℕ, String, ◌≡◌, ap, refl, Option, none, some, List, [], ◌∷◌, err, keeps_bind, keeps_continue,
  lift, ◌>>=◌, ◌>>◌, arith,
}
use makoto_lite_llm.Auth as Auth
use makoto_lite_llm.Cache.{TtlCache}
use makoto_lite_llm.Config.{Settings}
use makoto_lite_llm.Failure.{http_error}
use makoto_lite_llm.Json.{Fields, get}
use makoto_lite_llm.Jwt.{Crypto}
use makoto_lite_llm.Models.{User, SsoConfig}
use makoto_lite_llm.Routes.Callback.Claims.{identify, groups_of}
use makoto_lite_llm.Oidc.{Connection}
use makoto_lite_llm.Routes.Callback.{
  Outside, CallbackDraw, exchange, join_groups, provision, issue, log_in, callback,
}
use makoto_lite_llm.Sso.{LoginState, Claimed}
use makoto_lite_llm.Sso.Authorize.{SsoState}

module _ {F : Type 0} (crypto : Crypto) (settings : Settings) (states : TtlCache String LoginState)
    (o : Outside F) where
  -- what the database does not hold
  abbrev pub outside : SsoState F states → states.Store × Connection
  outside s = (s.logins, s.connection)

  abbrev logins_of : SsoState F states → states.Store
  logins_of s = s.logins

  exchange_logins :
      (config : SsoConfig) (verifier code : String) (s : SsoState F states)
      → (exchange crypto settings states o config verifier code s).1.logins ≡ s.logins
  unfolding exchange
  exchange_logins config verifier code s = ground arith

  outside-issue :
      (draw : Auth.Draw) (user : User F) (s : SsoState F states)
      → outside (issue crypto settings states o draw user s).1 ≡ outside s
  unfolding issue
  outside-issue draw user s = ground arith

  outside-join_groups :
      (row_id : ℕ → ℕ) (user : User F) (claims : Fields) (mapping : Option (List (String × String)))
      (s : SsoState F states)
      → outside (join_groups crypto settings states o row_id user claims mapping s).1 ≡ outside s
  outside-join_groups row_id user claims none s = refl
  outside-join_groups row_id user claims (some []) s = refl
  outside-join_groups row_id user claims (some (p ∷ mapping)) s =
      keeps_continue outside (groups_of (get "groups" claims)) s _ (λ groups s. refl)

  pub outside-log_in :
      (draw : CallbackDraw) (config : SsoConfig) (claims : Fields) (s : SsoState F states)
      → outside (log_in crypto settings states o draw config claims s).1 ≡ outside s
  unfolding log_in
  outside-log_in draw config claims =
      let join = λ (user : User F).
        join_groups crypto settings states o draw.group_ids user claims
          config.group_to_team_mapping in
      let after = λ (user : User F). join user >> issue crypto settings states o draw.tokens user in
      let provisioned = λ (c : Claimed). provision crypto settings states o draw c in
      keeps_bind outside (lift (identify config claims)) (λ c. provisioned c >>= after) (λ s. refl)
        (λ c.
          keeps_bind outside (provisioned c) after (λ s. refl)
            (λ user.
              keeps_bind outside (join user) (λ _. issue crypto settings states o draw.tokens user)
                (outside-join_groups draw.group_ids user claims config.group_to_team_mapping)
                (λ _. outside-issue draw.tokens user)))

  log_in_logins :
      (draw : CallbackDraw) (config : SsoConfig) (claims : Fields) (s : SsoState F states)
      → (log_in crypto settings states o draw config claims s).1.logins ≡ s.logins
  log_in_logins draw config claims s = ap (λ p. p.0) (outside-log_in draw config claims s)

  callback_logins :
      (draw : CallbackDraw) (code state : String) (s : SsoState F states)
      → (callback crypto settings states o draw code state s).1.logins
        ≡ states.remove state s.logins
  unfolding callback
  callback_logins draw code state s = grind (arith, exchange_logins, log_in_logins)

  -- After a callback with a state, whether it returned or raised, any other callback with the state is answered with
  -- 400, and the database and the connection to the provider stay as they are.
  pub callback_once :
      (draw draw' : CallbackDraw) (code code' state : String) (s : SsoState F states)
      → let after = (callback crypto settings states o draw code state s).1 in
        let (result, last) = callback crypto settings states o draw' code' state after in
        (result ≡ err (http_error 400 "Invalid or expired state parameter"))
        × (last.session ≡ after.session)
        × (last.connection ≡ after.connection)
  callback_once draw draw' code code' state s =
      let after = (callback crypto settings states o draw code state s).1 in
      let gone : states.get draw'.now state after.logins ≡ none =
        rw (callback_logins draw code state s) (states.get-remove_self draw'.now state s.logins) in
      unfold callback in rw gone (refl, refl, refl)
