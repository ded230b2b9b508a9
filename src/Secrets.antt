-- ===== src/Secrets.antt =====
-- src/app/auth/crypto.py: the encryption of the secrets of identity providers, over AES-GCM. The key, the
-- nonce and the sealed text are lists of bytes.
use makoto_lite_llm.Base.{
  ℕ, zero, suc, ◌-◌, String, ◌≡◌, refl, ap, Option, none, some, List, [], ◌∷◌, ◌++◌, length, take,
  drop, length-append, length-take-le, take-append, drop-append, arith,
}

-- The libraries: `str.encode` and `bytes.decode`, the base64 of bytes, and AESGCM without associated data;
-- `none` stands for their exceptions.
pub record Cipher : Type 1 where
  pub Byte : Type 0
  pub zero_byte : Byte
  pub utf8_encode : String → List Byte
  pub utf8_decode : List Byte → Option String
  pub b64encode : List Byte → String
  pub b64decode : String → Option (List Byte)
  -- key, nonce, plaintext
  pub seal : List Byte → List Byte → List Byte → List Byte
  -- key, nonce, ciphertext
  pub unseal : List Byte → List Byte → List Byte → Option (List Byte)
  pub decode-encode : (t : String) → utf8_decode (utf8_encode t) ≡ some t
  pub b64decode-b64encode : (bytes : List Byte) → b64decode (b64encode bytes) ≡ some bytes
  -- a key of 32 bytes
  pub unseal-seal :
      (key nonce plaintext : List Byte)
      → length key ≡ 32
      → unseal key nonce (seal key nonce plaintext) ≡ some plaintext

-- a chain of options, with a λ for the rest
abbrev pub and_then : {A B : Type 0} → Option A → (A → Option B) → Option B
and_then none f = none
and_then (some a) f = f a

module _ (cipher : Cipher) (encryption_key : String) where
  open cipher use {Byte, zero_byte, utf8_encode, utf8_decode, b64encode, b64decode, seal, unseal}

  unfoldable pub zeros : ℕ → List Byte
  zeros zero = []
  zeros (suc n) = zero_byte ∷ zeros n

  length-zeros : (n : ℕ) → length (zeros n) ≡ n
  unfolding zeros
  length-zeros zero = refl
  length-zeros (suc n) = ap suc (length-zeros n)

  -- `key.ljust(n, b"\0")`
  abbrev pub ljust : ℕ → List Byte → List Byte
  ljust n key = key ++ zeros (n - length key)

  unfoldable pub get_key : List Byte
  unfolding zeros
  get_key = ljust 32 (take 32 (utf8_encode encryption_key))

  -- the nonce is the value of `os.urandom(12)`
  unfoldable pub encrypt : List Byte → String → String
  unfolding get_key
  encrypt nonce plaintext = b64encode (nonce ++ seal get_key nonce (utf8_encode plaintext))

  unfoldable pub decrypt : String → Option String
  unfolding get_key
  decrypt encrypted =
      and_then (b64decode encrypted)
        (λ sealed. and_then (unseal get_key (take 12 sealed) (drop 12 sealed)) utf8_decode)

  -- The key has 32 bytes, whatever the setting.
  pub length-get_key : length get_key ≡ 32
  unfolding get_key
  length-get_key =
      let short = take 32 (utf8_encode encryption_key) in
      omega (
        arith,
        length-append short (zeros (32 - length short)),
        length-zeros (32 - length short),
        length-take-le 32 (utf8_encode encryption_key),
      )

  -- What was encrypted with a nonce of 12 bytes is decrypted to the text, whatever the setting of the key.
  pub decrypt-encrypt :
      (nonce : List Byte) (plaintext : String)
      → length nonce ≡ 12
      → decrypt (encrypt nonce plaintext) ≡ some plaintext
  unfolding decrypt encrypt
  decrypt-encrypt nonce plaintext size =
      let sealed = seal get_key nonce (utf8_encode plaintext) in
      rw
        (
          cipher.b64decode-b64encode (nonce ++ sealed),
          take-append 12 nonce sealed size,
          drop-append 12 nonce sealed size,
          cipher.unseal-seal get_key nonce (utf8_encode plaintext) length-get_key,
          cipher.decode-encode plaintext,
        )
        refl
