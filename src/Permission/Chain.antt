-- ===== src/Permission/Chain.antt =====
-- The chain of allowlists against its description: the first level that has a list decides.
use makoto_lite_llm.Base.{
  String, ◌≡◌, ◌↔◌, ◌⊎◌, inl, inr, refl, Bool, true, false, ◌||◌, Option, none, some, List, [], ◌∷◌,
  any,
}
use makoto_lite_llm.Permission.{model_matches_pattern, model_is_allowed, resolve_model_access}
use makoto_lite_llm.Permission.Glob.{WildcardMatch, LiteralMatch, model_matches_pattern_iff}

-- some pattern of the list describes the model
abbrev pub Lists : List String → String → Type 0
Lists [] model = ⊥
Lists (pattern ∷ patterns) model =
    (WildcardMatch model pattern ⊎ LiteralMatch model pattern) ⊎ Lists patterns model

-- the list of the first level that has one; with no list every model is allowed
abbrev pub Allows :
    Option (List String) → Option (List String) → Option (List String) → String → Type 0
Allows (some key) team org model = Lists key model
Allows none (some team) org model = Lists team model
Allows none none (some org) model = Lists org model
Allows none none none model = Unit

or_iff : {P Q : Type 0} (a b : Bool) → (a ≡ true) ↔ P → (b ≡ true) ↔ Q → ((a || b) ≡ true) ↔ (P ⊎ Q)
or_iff true b p q = (λ _. inl (p.0 refl), λ _. refl)
or_iff false b p q =
    (λ h. inr (q.0 h), λ h. elim h [ inl x ↦ absurd (not_both (p.1 x)) | inr y ↦ q.1 y ])
  where
    not_both : ◌≡◌ {A = Bool} false true → ⊥
    not_both e = cc

any_iff :
    (model : String) (patterns : List String)
    → (any (λ pattern. model_matches_pattern model pattern) patterns ≡ true) ↔ Lists patterns model
any_iff model [] = (λ h. cc, λ h. elim h [ ])
any_iff model (pattern ∷ patterns) =
    or_iff _ _ (model_matches_pattern_iff model pattern) (any_iff model patterns)

-- A model is accessible exactly when the first of the key's, the team's and the organization's
-- allowlists that is present holds a pattern for it, or when none of the three is present.
pub resolve_model_access_iff :
    (model : String) (key team org : Option (List String))
    → (resolve_model_access model key team org ≡ true) ↔ Allows key team org model
unfolding resolve_model_access model_is_allowed
resolve_model_access_iff model (some key) team org = any_iff model key
resolve_model_access_iff model none (some team) org = any_iff model team
resolve_model_access_iff model none none (some org) = any_iff model org
resolve_model_access_iff model none none none = (λ _. tt, λ _. refl)
