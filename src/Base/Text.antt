-- ===== src/Base/Text.antt =====
-- Python's string methods that the program uses, at one character, by recursion on the characters.
use Prim.Native.Char.{Char, code}
use Prim.Native.String.{[], ◌∷◌, ◌++◌}
use text.Mathlib.TextEquality.{Char-path}
use text.Mathlib.TextLemmas.{nil-append, cons-append}
use makoto_lite_llm.Base.{
  ℕ, zero, suc, String, ◌≡◌, refl, sym, ap, Bool, true, false, ◌&&◌, arith, nat_beq, if◌then◌else◌,
  Bool-cases, nat_beq_iff, inl, inr,
}

-- `c in s`
unfoldable pub has_char : ℕ → String → Bool
has_char c [] = false
has_char c (d ∷ s) = if nat_beq (code d) c then true else has_char c s

-- The first part of `s.partition(c)`, and of `s.split(c, 1)`: what stands before the character, or
-- all of `s`.
unfoldable pub before : ℕ → String → String
before c [] = []
before c (d ∷ s) = if nat_beq (code d) c then [] else d ∷ before c s

-- The last part of `s.partition(c)`: what stands behind the character, or nothing.
unfoldable pub behind : ℕ → String → String
behind c [] = []
behind c (d ∷ s) = if nat_beq (code d) c then s else behind c s

-- `s.endswith(c)`
unfoldable pub ends_with : ℕ → String → Bool
ends_with c [] = false
ends_with c (d ∷ []) = nat_beq (code d) c
ends_with c (d ∷ e ∷ s) = ends_with c (e ∷ s)

-- `s[:-1]`
unfoldable pub drop_last : String → String
drop_last [] = []
drop_last (d ∷ []) = []
drop_last (d ∷ e ∷ s) = d ∷ drop_last (e ∷ s)

-- `s[:n]`
unfoldable pub first_chars : ℕ → String → String
first_chars zero s = []
first_chars (suc n) [] = []
first_chars (suc n) (d ∷ s) = d ∷ first_chars n s

-- `s[n:]`
unfoldable pub skip_chars : ℕ → String → String
skip_chars zero s = s
skip_chars (suc n) [] = []
skip_chars (suc n) (d ∷ s) = skip_chars n s

-- `len(s)`
unfoldable pub count_chars : String → ℕ
count_chars [] = 0
count_chars (d ∷ s) = suc (count_chars s)

abbrev pub is_empty : String → Bool
is_empty [] = true
is_empty (d ∷ s) = false

-- `s.rstrip(c)`
unfoldable pub rstrip : ℕ → String → String
rstrip c [] = []
rstrip c (d ∷ s) =
    let rest = rstrip c s in if nat_beq (code d) c && is_empty rest then [] else d ∷ rest

-- A text that ends in the character is its front part and that character, and the other way round.
ends_with-cons :
    (c : ℕ) (d e : Char) (s : String) → ends_with c (d ∷ (s ++ (e ∷ []))) ≡ nat_beq (code e) c
unfolding ends_with
ends_with-cons c d e [] = rw nil-append
ends_with-cons c d e (f ∷ s) = rw cons-append (ends_with-cons c f e s)

pub ends_with-append :
    (c : ℕ) (e : Char) (s : String) → ends_with c (s ++ (e ∷ [])) ≡ nat_beq (code e) c
unfolding ends_with
ends_with-append c e [] = rw nil-append
ends_with-append c e (d ∷ s) = rw cons-append (ends_with-cons c d e s)

drop_last-cons : (d e : Char) (s : String) → drop_last (d ∷ (s ++ (e ∷ []))) ≡ d ∷ s
unfolding drop_last
drop_last-cons d e [] = rw nil-append
drop_last-cons d e (f ∷ s) = rw cons-append (ap (λ t. d ∷ t) (drop_last-cons f e s))

pub drop_last-append : (e : Char) (s : String) → drop_last (s ++ (e ∷ [])) ≡ s
unfolding drop_last
drop_last-append e [] = rw nil-append
drop_last-append e (d ∷ s) = rw cons-append (drop_last-cons d e s)

pub append-drop_last :
    (e : Char) (s : String) → ends_with (code e) s ≡ true → drop_last s ++ (e ∷ []) ≡ s
unfolding ends_with drop_last
append-drop_last e [] h = ground arith
append-drop_last e (d ∷ []) h = rw nil-append (ap (λ c. c ∷ []) (Char-path e d (ground arith)))
append-drop_last e (d ∷ f ∷ s) h = rw cons-append (ap (λ t. d ∷ t) (append-drop_last e (f ∷ s) h))

-- A text that holds the character is its two parts with the character between them.
pub append-before-behind :
    (e : Char) (s : String)
    → has_char (code e) s ≡ true
    → before (code e) s ++ (e ∷ behind (code e) s) ≡ s
unfolding has_char before behind
append-before-behind e [] h = ground arith
append-before-behind e (d ∷ s) h = elim (Bool-cases (nat_beq (code d) (code e))) [
  | inl same ↦
      rw same (rw nil-append (ap (λ c. c ∷ s) (Char-path e d (sym ((nat_beq_iff _ _).0 same)))))
  | inr other ↦ rw (other, cons-append) (ap (λ t. d ∷ t) (append-before-behind e s (rw other at h)))
]

module _ (e : Char) where
  -- The parts of a text that is put together at the character's first place.
  pub before-append :
      (s t : String) → has_char (code e) s ≡ false → before (code e) (s ++ (e ∷ t)) ≡ s
  unfolding has_char before
  before-append [] t h = rw nil-append (ground arith)
  before-append (d ∷ s) t h = rw cons-append (ground (arith, before-append s t))

  pub behind-append :
      (s t : String) → has_char (code e) s ≡ false → behind (code e) (s ++ (e ∷ t)) ≡ t
  unfolding has_char behind
  behind-append [] t h = rw nil-append (ground arith)
  behind-append (d ∷ s) t h = rw cons-append (ground (arith, behind-append s t))

  pub has_char-append : (s t : String) → has_char (code e) (s ++ (e ∷ t)) ≡ true
  unfolding has_char
  has_char-append [] t = rw nil-append (ground arith)
  has_char-append (d ∷ s) t = rw cons-append (ground (arith, has_char-append s t))

pub has_char-before : (c : ℕ) (s : String) → has_char c (before c s) ≡ false
unfolding has_char before
has_char-before c [] = refl
has_char-before c (d ∷ s) = elim (Bool-cases (nat_beq (code d) c)) [
  | inl same ↦ rw same
  | inr other ↦ rw (other, other) (has_char-before c s)
]
