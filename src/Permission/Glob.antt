-- ===== src/Permission/Glob.antt =====
-- The pattern test against a description of the patterns that does not mention it.
use Prim.Native.String.{◌++◌}
use text.Mathlib.Text.{starts_with}
use text.Mathlib.TextBridge.{IsPrefix}
use text.Mathlib.TextEquality.{starts_with_iff}
use text.Mathlib.TextLemmas.{nil-append}
use makoto_lite_llm.Base.{
  String, ◌≡◌, ◌==◌, string_eq, if◌then◌else◌, false, ◌↔◌, ◌⊎◌, inl, inr, refl, sym, true, false,
  Bool-cases, eq_iff,
}
use makoto_lite_llm.Base.Text.{
  ends_with, drop_last, ends_with-append, drop_last-append, append-drop_last,
}
use makoto_lite_llm.Permission.{model_matches_pattern}

-- the pattern is some text and a star, and the model begins with that text
abbrev pub WildcardMatch : String → String → Type 0
WildcardMatch model pattern = (stem : String) × (pattern ≡ stem ++ "*") × IsPrefix stem model

-- the pattern does not end in a star, and is the model itself
abbrev pub LiteralMatch : String → String → Type 0
LiteralMatch model pattern = ¬ ((stem : String) × (pattern ≡ stem ++ "*")) × (model ≡ pattern)

star_parts : (pattern stem : String) → pattern ≡ stem ++ "*" → ends_with b'*' pattern ≡ true
star_parts pattern stem e = rw e (ends_with-append b'*' _ stem)

no_star :
    (pattern : String)
    → ends_with b'*' pattern ≡ false
    → ¬ ((stem : String) × (pattern ≡ stem ++ "*"))
no_star pattern h (stem, e) = cc (h, star_parts pattern stem e)

-- the two tests below the first one
tests_iff :
    (model pattern : String)
    → ((if ends_with b'*' pattern then starts_with model (drop_last pattern) else model == pattern)
        ≡ true)
      ↔ (WildcardMatch model pattern ⊎ LiteralMatch model pattern)
tests_iff model pattern = elim (Bool-cases (ends_with b'*' pattern)) [
  | inl star ↦ rw star (
    λ h. inl (
      drop_last pattern,
      sym (append-drop_last _ pattern star),
      (starts_with_iff model (drop_last pattern)).0 h,
    ),
    λ h. elim h [
      | inl (stem, e, p) ↦
          (starts_with_iff model (drop_last pattern)).1 (rw (e, drop_last-append) p)
      | inr (other, e) ↦ absurd (other (drop_last pattern, sym (append-drop_last _ pattern star)))
    ],
  )
  | inr plain ↦ rw plain (
    λ h. inr (no_star pattern plain, (eq_iff model pattern).0 h),
    λ h. elim h [
      | inl (stem, e, p) ↦ absurd (no_star pattern plain (stem, e))
      | inr (other, e) ↦ (eq_iff model pattern).1 e
    ],
  )
]

-- A model matches a pattern exactly when the pattern is a stem with a star behind it and the model starts
-- with the stem, or the pattern has no star at its end and is the model.
pub model_matches_pattern_iff :
    (model pattern : String)
    → (model_matches_pattern model pattern ≡ true)
      ↔ (WildcardMatch model pattern ⊎ LiteralMatch model pattern)
unfolding model_matches_pattern
model_matches_pattern_iff model pattern = elim (Bool-cases (pattern == "*")) [
  | inl all ↦
      rw all (λ _. inl ("", (eq_iff pattern "*").0 all, (model, nil-append model)), λ _. refl)
  | inr other ↦ rw other (tests_iff model pattern)
]
