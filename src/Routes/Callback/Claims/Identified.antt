-- ===== src/Routes/Callback/Claims/Identified.antt =====
-- What accepted claims are.
use Prim.Native.String.{◌++◌ as cat, ◌∷◌ as ◌∷ₛ◌}
use text.Mathlib.TextLemmas.{cons-append, nil-append}
use makoto_lite_llm.Base.{
  String, ◌≡◌, refl, sym, ap, ◌⊎◌, inl, inr, true, false, Bool-cases, Option, none, some, List, [],
  ◌∷◌, ok, any, ◌==◌, nat_eq, string_eq, arith,
}
use makoto_lite_llm.Base.Outcomes.{Outcome-cases, ok_injective}
use makoto_lite_llm.Base.Text.{has_char, before, is_empty, append-before-behind, has_char-before}
use makoto_lite_llm.Json.{Json, null, boolean, int, float, str, arr, obj, Fields, get, is_truthy}
use makoto_lite_llm.Models.{SsoConfig}
use makoto_lite_llm.Routes.Callback.Claims.{
  check_email, check_domain, domain_of, name_of, subject_of, identify,
}
use makoto_lite_llm.Sso.{Claimed}

-- The domain of an address is what stands behind its first @; without an @ it is empty.
abbrev IsDomainOf : String → String → Type 0
IsDomainOf email domain =
    ((local : String) × (has_char b'@' local ≡ false) × (email ≡ cat local (cat "@" domain)))
    ⊎ ((has_char b'@' email ≡ false) × (domain ≡ ""))

-- a list of domains that is missing or empty allows every address
abbrev pub Allows : Option (List String) → String → Type 0
Allows none email = Unit
Allows (some []) email = Unit
Allows (some (d ∷ domains)) email =
    (domain : String) × (any (λ a. a == domain) (d ∷ domains) ≡ true) × IsDomainOf email domain

at_sign : (t : String) → cat "@" t ≡ ("@" ∷ₛ t)
at_sign t = rw (cons-append, nil-append) refl

domain_of-IsDomainOf : (email : String) → IsDomainOf email (domain_of email)
domain_of-IsDomainOf email = elim (Bool-cases (has_char b'@' email)) [
  | inl split ↦ rw split (
      inl (
        before b'@' email,
        has_char-before b'@' email,
        rw at_sign (sym (append-before-behind "@" email split)),
      ))
  | inr plain ↦ rw plain (inr (refl, refl))
]

check_domain-Allows :
    (domains : Option (List String)) (email : String)
    → check_domain domains email ≡ ok tt
    → Allows domains email
check_domain-Allows none email h = tt
check_domain-Allows (some []) email h = tt
check_domain-Allows (some (d ∷ domains)) email h =
    elim (Bool-cases (any (λ a. a == domain_of email) (d ∷ domains))) [
      | inl listed ↦ (domain_of email, listed, domain_of-IsDomainOf email)
      | inr other ↦ cc (rw other at h)
    ]

check_email-ok :
    (claim : Option Json) (email : String)
    → check_email claim ≡ ok email
    → (claim ≡ some (str email)) × (is_empty email ≡ false)
check_email-ok none email h = cc h
check_email-ok (some null) email h = cc h
check_email-ok (some (boolean b)) email h = ground arith
check_email-ok (some (int n)) email h = elim (Bool-cases (is_truthy (int n))) [
  | inl t ↦ cc (rw t at h)
  | inr f ↦ cc (rw f at h)
]
check_email-ok (some (float t)) email h = elim (Bool-cases (is_truthy (float t))) [
  | inl y ↦ cc (rw y at h)
  | inr f ↦ cc (rw f at h)
]
check_email-ok (some (str t)) email h = elim (Bool-cases (is_empty t)) [
  | inl e ↦ cc (rw e at h)
  | inr e ↦
      let same : t ≡ email = ok_injective (rw e at h) in
      (ap (λ x. some (str x)) same, rw (← same) e)
]
check_email-ok (some (arr xs)) email h = elim (Bool-cases (is_truthy (arr xs))) [
  | inl y ↦ cc (rw y at h)
  | inr f ↦ cc (rw f at h)
]
check_email-ok (some (obj d)) email h = elim (Bool-cases (is_truthy (obj d))) [
  | inl y ↦ cc (rw y at h)
  | inr f ↦ cc (rw f at h)
]

pub identify-ok :
    (config : SsoConfig) (claims : Fields) (c : Claimed)
    → identify config claims ≡ ok c
    → (get "email" claims ≡ some (str c.email))
      × (is_empty c.email ≡ false)
      × Allows config.allowed_domains c.email
      × (c.org_id ≡ config.org_id)
unfolding identify
identify-ok config claims c h = elim (Outcome-cases (check_email (get "email" claims))) [
  | inl (e, p) ↦ cc (rw p at h)
  | inr (email, p) ↦ elim (Outcome-cases (check_domain config.allowed_domains email)) [
    | inl (e, q) ↦ cc (rw (p, q) at h)
    | inr (passed, q) ↦ elim (Outcome-cases (name_of (get "name" claims))) [
      | inl (e, r) ↦ cc (rw (p, q, r) at h)
      | inr (name, r) ↦ elim (Outcome-cases (subject_of (get "sub" claims))) [
        | inl (e, t) ↦ cc (rw (p, q, r, t) at h)
        | inr (subject, t) ↦
            let same = ok_injective (rw (p, q, r, t) at h) in
            let (present, filled) = check_email-ok (get "email" claims) email p in
            rw (← same) (present, filled, check_domain-Allows config.allowed_domains email q, refl)
      ]
    ]
  ]
]
