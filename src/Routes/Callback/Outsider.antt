-- ===== src/Routes/Callback/Outsider.antt =====
-- Which user the email of the claims selects.
use makoto_lite_llm.Auth.{new_pair, create_tokens}
use makoto_lite_llm.Base.{
  String, ◌≡◌, refl, false, none, some, [], ◌∷◌, ok, any, keep, ◌==◌, nat_eq, string_eq, arith,
}
use makoto_lite_llm.Cache.{TtlCache}
use makoto_lite_llm.Config.{Settings}
use makoto_lite_llm.Json.{Fields}
use makoto_lite_llm.Jwt.{Crypto, create_refresh_token}
use makoto_lite_llm.Models.{User, SsoConfig}
use makoto_lite_llm.Routes.Callback.{
  Outside, CallbackDraw, redirect_url, exchange, issue, log_in, callback,
}
use makoto_lite_llm.Routes.Callback.Claims.{identify}
use makoto_lite_llm.Sso.{Claimed, LoginState, provision_sso_user, in_org}
use makoto_lite_llm.Sso.Authorize.{SsoState}
use makoto_lite_llm.Sso.Provision.{IsUserOf}

module _ {F : Type 0} (crypto : Crypto) (settings : Settings) (states : TtlCache String LoginState)
    (o : Outside F) where
  log_in_outsider :
      (draw : CallbackDraw) (config : SsoConfig) (claims : Fields) (c : Claimed)
      (s : SsoState F states) (user : User F)
      → identify config claims ≡ ok c
      → config.group_to_team_mapping ≡ none
      → IsUserOf c.email user s.session.current.users
      → any (in_org user.id c.org_id) s.session.current.org_memberships ≡ false
      → any
          (λ t.
            t.token_hash
            == crypto.sha256_hex
                (create_refresh_token crypto settings draw.tokens.now draw.tokens.jti user.id))
          s.session.current.refresh_tokens
        ≡ false
      → (log_in crypto settings states o draw config claims s).0
        ≡ ok (redirect_url settings (new_pair crypto settings draw.tokens user))
  unfolding log_in provision_sso_user issue create_tokens
  log_in_outsider draw config claims c s user identified unmapped found outsider fresh =
      rw (identified, found, outsider, unmapped, fresh) refl

  exchange_session :
      (config : SsoConfig) (verifier code : String) (s : SsoState F states)
      → (exchange crypto settings states o config verifier code s).1.session ≡ s.session
  unfolding exchange
  exchange_session config verifier code s = ground arith

  -- If the state is live, the organization has one configuration, without a mapping of groups, and the provider's claims
  -- are accepted, then the callback answers with new tokens for the only user who has the email of the claims, though
  -- this user is no member of the organization: whatever role the user has, blocked or not, and whether or not the
  -- configuration is active or creates users. The refresh token drawn is new.
  pub callback_outsider :
      (draw : CallbackDraw) (code state : String) (s : SsoState F states) (login : LoginState)
      (config : SsoConfig) (claims : Fields) (c : Claimed) (user : User F)
      → states.get draw.now state s.logins ≡ some login
      → keep (λ r. r.org_id == login.org_id) s.session.current.sso_configs ≡ config ∷ []
      → config.group_to_team_mapping ≡ none
      → (exchange crypto settings states o config login.verifier code
          (record s { logins = states.remove state s.logins })).0
        ≡ ok claims
      → identify config claims ≡ ok c
      → IsUserOf c.email user s.session.current.users
      → any (in_org user.id c.org_id) s.session.current.org_memberships ≡ false
      → any
          (λ t.
            t.token_hash
            == crypto.sha256_hex
                (create_refresh_token crypto settings draw.tokens.now draw.tokens.jti user.id))
          s.session.current.refresh_tokens
        ≡ false
      → (callback crypto settings states o draw code state s).0
        ≡ ok (redirect_url settings (new_pair crypto settings draw.tokens user))
  unfolding callback
  callback_outsider draw code state s login config claims c user stored found unmapped answered
        identified known outsider fresh =
      let taken = record s { logins = states.remove state s.logins } in
      let same = exchange_session config login.verifier code taken in
      let after = (exchange crypto settings states o config login.verifier code taken).1 in
      rw (stored, found, answered)
        (log_in_outsider draw config claims c after user identified unmapped (rw same known)
          (rw same outsider) (rw same fresh))
