-- ===== src/FieldCrypto.antt =====
-- src/db/fieldCrypto.js: the encryption of single columns. A string is its list of code units, a
-- buffer its list of bytes; Node's cipher and its encodings are an interface.
mod Tests
use homeplate.Base.{
  leb, ◌&&◌, not, ℕ, zero, suc, ◌+◌, ◌-◌, ◌≤◌, ◌≡◌, refl, ap, Bool, true, false, Option, none, some,
  List, [], ◌∷◌, ◌++◌, arith, inl, inr, Bool-cases, length, take, ltb, ◌==◌, ==_refl, if◌then◌else◌,
  length-append,
}

abbrev pub Text : Type 0
Text = List ℕ

abbrev pub Bytes : Type 0
Bytes = List ℕ

-- The halves of a surrogate pair.
abbrev is_high_surrogate : ℕ → Bool
is_high_surrogate c = leb 55296 c && leb c 56319

abbrev is_low_surrogate : ℕ → Bool
is_low_surrogate c = leb 56320 c && leb c 57343

-- No surrogate stands alone: what String.prototype.isWellFormed tells.
abbrev pub is_well_formed : Text → Bool
is_well_formed [] = true
is_well_formed (c ∷ []) = not (is_high_surrogate c) && not (is_low_surrogate c)
is_well_formed (c ∷ d ∷ t) =
    let after_pair = is_well_formed t in
    let after_unit = is_well_formed (d ∷ t) in
    if is_high_surrogate c
    then is_low_surrogate d && after_pair
    else not (is_low_surrogate c) && after_unit

-- null, or a text with no surrogate alone.
abbrev pub is_well_formed_value : Option Text → Bool
is_well_formed_value none = true
is_well_formed_value (some t) = is_well_formed t

-- aes-256-gcm under the configured key, utf8 and base64, with what their documentation says: what
-- was sealed under a nonce opens under it, a tag has 16 bytes, base64 comes back, and so does utf8 on
-- a well-formed text; Buffer.from puts U+FFFD in place of a surrogate that stands alone.
pub record Cipher : Type 0 where
  pub seal : (iv : Bytes) → Bytes → Bytes
  pub tag_of : (iv : Bytes) → Bytes → Bytes
  pub unseal : (iv tag : Bytes) → Bytes → Option Bytes
  pub utf8 : Text → Bytes
  pub from_utf8 : Bytes → Text
  pub base64 : Bytes → Text
  pub from_base64 : Text → Bytes
  pub unseal-seal : (iv b : Bytes) → unseal iv (tag_of iv b) (seal iv b) ≡ some b
  pub length-tag : (iv b : Bytes) → length (tag_of iv b) ≡ 16
  pub from_utf8-utf8 : (t : Text) → is_well_formed t ≡ true → from_utf8 (utf8 t) ≡ t
  pub from_base64-base64 : (b : Bytes) → from_base64 (base64 b) ≡ b

-- 'enc:v1:'
abbrev pub prefix : Text
prefix = 101 ∷ 110 ∷ 99 ∷ 58 ∷ 118 ∷ 49 ∷ 58 ∷ []

abbrev pub iv_length : ℕ
iv_length = 12

abbrev pub tag_length : ℕ
tag_length = 16

abbrev pub starts_with : Text → Text → Bool
starts_with [] t = true
starts_with (c ∷ cs) [] = false
starts_with (c ∷ cs) (d ∷ t) = let rest = starts_with cs t in if c == d then rest else false

-- slice(n) and subarray(n)
abbrev pub slice : ℕ → List ℕ → List ℕ
slice zero xs = xs
slice (suc n) [] = []
slice (suc n) (x ∷ xs) = slice n xs

-- What decrypt returns or throws.
pub data Decrypted : Type 0 where
  plain : Option Text → Decrypted
  type_error range_error auth_error : Decrypted

module _ (c : Cipher) where
  -- With the nonce that randomBytes drew.
  unfoldable pub encrypt : (iv : Bytes) → Option Text → Option Text
  encrypt iv none = none
  encrypt iv (some text) =
      let b = c.utf8 text in some (prefix ++ c.base64 (iv ++ (c.tag_of iv b ++ c.seal iv b)))

  abbrev pub open_raw : Bytes → Decrypted
  open_raw raw =
      if ltb (length raw) (iv_length + tag_length)
      then Decrypted.range_error
      else elim (c.unseal (take iv_length raw) (take tag_length (slice iv_length raw))
          (slice (iv_length + tag_length) raw)) [
            | none ↦ Decrypted.auth_error
            | some b ↦ Decrypted.plain (some (c.from_utf8 b))
          ]

  unfoldable pub decrypt : Option Text → Decrypted
  decrypt none = Decrypted.plain none
  decrypt (some value) =
      if starts_with prefix value
      then open_raw (c.from_base64 (slice (length prefix) value))
      else Decrypted.type_error

-- isEncrypted, of a string.
unfoldable pub is_encrypted : Text → Bool
is_encrypted value = starts_with prefix value

starts_with-append : (p t : Text) → starts_with p (p ++ t) ≡ true
starts_with-append [] t = refl
starts_with-append (x ∷ p) t = ground (arith, starts_with-append p t, ==_refl x)

slice-append : (p t : List ℕ) (n : ℕ) → length p ≡ n → slice n (p ++ t) ≡ t
slice-append [] t zero e = refl
slice-append [] t (suc n) e = absurd (omega (arith, e))
slice-append (x ∷ p) t zero e = absurd (omega (arith, e))
slice-append (x ∷ p) t (suc n) e = slice-append p t n (omega (arith, e))

slice-append_two : (p q t : List ℕ) (n : ℕ) → length p + length q ≡ n → slice n (p ++ (q ++ t)) ≡ t
slice-append_two [] q t n e = slice-append q t n (omega (arith, e))
slice-append_two (x ∷ p) q t zero e = absurd (omega (arith, e))
slice-append_two (x ∷ p) q t (suc n) e = slice-append_two p q t n (omega (arith, e))

take-append : (p t : List ℕ) (n : ℕ) → length p ≡ n → take n (p ++ t) ≡ p
take-append [] t zero e = refl
take-append [] t (suc n) e = absurd (omega (arith, e))
take-append (x ∷ p) t zero e = absurd (omega (arith, e))
take-append (x ∷ p) t (suc n) e = ap (λ r. x ∷ r) (take-append p t n (omega (arith, e)))

-- The bytes of a nonce and a tag in front of a ciphertext are found again.
open_raw-sealed :
    (c : Cipher) (iv b : Bytes)
    → length iv ≡ iv_length
    → open_raw c (iv ++ (c.tag_of iv b ++ c.seal iv b)) ≡ Decrypted.plain (some (c.from_utf8 b))
open_raw-sealed c iv b n =
    let tag = c.tag_of iv b in
    let body = c.seal iv b in
    let raw = iv ++ (tag ++ body) in
    let tagged = c.length-tag iv b in
    ground (
      arith,
      length-append iv (tag ++ body),
      length-append tag body,
      take-append iv (tag ++ body) iv_length n,
      slice-append iv (tag ++ body) iv_length n,
      take-append tag body tag_length tagged,
      slice-append_two iv tag body (iv_length + tag_length) (omega (arith, n, tagged)),
      c.unseal-seal iv b,
    )

-- With a nonce of 12 bytes, decrypt gives back what encrypt was given, whether null or a text with
-- no surrogate alone.
pub decrypt-encrypt :
    (c : Cipher) (iv : Bytes) (value : Option Text)
    → length iv ≡ iv_length
    → is_well_formed_value value ≡ true
    → decrypt c (encrypt c iv value) ≡ Decrypted.plain value
unfolding decrypt encrypt
decrypt-encrypt c iv none n ok_ = refl
decrypt-encrypt c iv (some text) n well =
    let b = c.utf8 text in
    let raw = iv ++ (c.tag_of iv b ++ c.seal iv b) in
    ground (
      arith,
      starts_with-append prefix (c.base64 raw),
      slice-append prefix (c.base64 raw) (length prefix) refl,
      c.from_base64-base64 raw,
      open_raw-sealed c iv b n,
      c.from_utf8-utf8 text well,
    )
