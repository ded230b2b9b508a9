-- ===== src/Tests/Codec.antt =====
-- A small `Crypto`: tokens that hold their claims in plain text, and hashes that are the texts.
use Prim.Native.Char.{code}
use Prim.Native.Nat.{◌%◌}
use Prim.Native.String.{[], ◌∷◌, ◌++◌}
use text.Mathlib.TextLemmas.{nil-append, cons-append}
use makoto_lite_llm.Base.{
  ℕ, zero, suc, ◌+◌, ◌*◌, ◌/◌, ◌≤◌, String, ◌≡◌, refl, ap, sym, Option, none, some, arith, nat_beq,
  ltb, if◌then◌else◌, ◌==◌, string_eq, eq_refl, Bool-cases, inl, inr,
}
use makoto_lite_llm.Jwt.{Claims, Crypto}

-- a text in front of another, so that they can be told apart
unfoldable pack : String → String → String
pack [] rest = "." ++ rest
pack (d ∷ s) rest = "x" ++ (d ∷ pack s rest)

unfoldable unpack : String → String × String
unpack [] = ("", "")
unpack (d ∷ []) = ("", "")
unpack (d ∷ e ∷ s) =
    let (front, rest) = unpack s in if nat_beq (code d) b'x' then (e ∷ front, rest) else ("", e ∷ s)

-- binary digits, the lowest first
unfoldable digits : ℕ → ℕ → String
digits zero n = ""
digits (suc fuel) zero = ""
digits (suc fuel) (suc m) = (if nat_beq (suc m % 2) 1 then "1" else "0") ∷ digits fuel (suc m / 2)

unfoldable value : String → ℕ
value [] = 0
value (d ∷ s) = (if nat_beq (code d) b'1' then 1 else 0) + 2 * value s

value-digits : (fuel n : ℕ) → n ≤ fuel → value (digits fuel n) ≡ n
unfolding value digits
value-digits zero n h = omega arith
value-digits (suc fuel) zero h = refl
value-digits (suc fuel) (suc m) h =
    let rest = value-digits fuel (suc m / 2) (omega arith) in
    elim (Bool-cases (nat_beq (suc m % 2) 1)) [
      | inl odd ↦ rw (odd, rest) (ground arith)
      | inr even ↦ rw (even, rest) (ground arith)
    ]

unpack-pack : (s rest : String) → unpack (pack s rest) ≡ (s, rest)
unfolding pack unpack
unpack-pack [] [] = refl
unpack-pack [] (e ∷ rest) = rw (cons-append, nil-append) refl
unpack-pack (d ∷ s) rest = rw (cons-append, nil-append, unpack-pack s rest) refl

abbrev write_role : Option String → String
write_role none = "n"
write_role (some role) = "s" ++ role

unfoldable read_role : String → Option String
read_role [] = none
read_role (d ∷ s) = if nat_beq (code d) b's' then some s else none

read-write_role : (role : Option String) → read_role (write_role role) ≡ role
unfolding read_role
read-write_role none = refl
read-write_role (some role) = rw (cons-append, nil-append) refl

unfoldable pub encode_plain : Claims → String
unfolding pack digits
encode_plain c =
    pack (digits c.sub c.sub) (pack (digits c.exp c.exp) (pack (write_role c.role) c.ttype))

unfoldable pub decode_plain : ℕ → String → Option Claims
unfolding unpack value read_role
decode_plain now token =
    let (sub, after_sub) = unpack token in
    let (exp, after_exp) = unpack after_sub in
    let (role, ttype) = unpack after_exp in
    if ltb now (value exp)
    then some (record {
      sub = value sub;
      role = read_role role;
      ttype = ttype;
      jti = none;
      iat = 0;
      exp = value exp;
    })
    else none

decode-encode_plain :
    (now : ℕ) (c : Claims)
    → decode_plain now (encode_plain c)
      ≡ (if ltb now c.exp then some (record c { jti = none; iat = 0 }) else none)
unfolding decode_plain encode_plain
decode-encode_plain now c =
    rw
      (
        unpack-pack,
        unpack-pack,
        unpack-pack,
        value-digits c.sub c.sub (omega arith),
        value-digits c.exp c.exp (omega arith),
        read-write_role,
      )
      refl

pub encoded_valid :
    (now : ℕ) (c : Claims)
    → now + 1000000 ≤ c.exp
    → decode_plain now (encode_plain c) ≡ some (record c { jti = none; iat = 0 })
encoded_valid now c valid = rw decode-encode_plain (ground arith)

pub encoded_same :
    (now : ℕ) (c d : Claims)
    → decode_plain now (encode_plain c) ≡ some d
    → (d.sub ≡ c.sub) × (d.role ≡ c.role) × (d.ttype ≡ c.ttype)
encoded_same now c d e = elim (Bool-cases (ltb now c.exp)) [
  | inl before ↦
      let e' : some (record c { jti = none; iat = 0 }) ≡ some d =
        rw (decode-encode_plain, before) at e in
      let same : record c { jti = none; iat = 0 } ≡ d = cc e' in
      (ap (λ x. x.sub) (sym same), ap (λ x. x.role) (sym same), ap (λ x. x.ttype) (sym same))
  | inr over ↦ cc (rw (decode-encode_plain, over) at e)
]

pub encoded_expired :
    (now : ℕ) (c : Claims) → c.exp ≤ now → decode_plain now (encode_plain c) ≡ none
encoded_expired now c over = rw decode-encode_plain (ground arith)

abbrev pub plain_crypto : Crypto
plain_crypto = record {
  sha256_hex = λ t. t;
  hash_password = λ p. p;
  verify_password = λ p hash. p == hash;
  verify_hash = λ p. eq_refl p;
  encode = encode_plain;
  decode = decode_plain;
  decode-encode =
      λ now c order valid. (record c { jti = none; iat = 0 }, encoded_valid now c valid);
  decode_same = encoded_same;
  decode_expired = encoded_expired;
}
