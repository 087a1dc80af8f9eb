-- ===== src/FieldCrypto/Tests.antt =====
-- A column at a concrete cipher: one that leaves the bytes as they are.
use homeplate.Base.{◌≡◌, refl, some, [], ◌∷◌}
use homeplate.FieldCrypto.{Bytes, Cipher, Decrypted, encrypt, decrypt, decrypt-encrypt}

abbrev zeros : Bytes
zeros = 0 ∷ 0 ∷ 0 ∷ 0 ∷ 0 ∷ 0 ∷ 0 ∷ 0 ∷ 0 ∷ 0 ∷ 0 ∷ 0 ∷ []

abbrev open_cipher : Cipher
open_cipher = record {
  seal = λ iv b. b;
  tag_of = λ iv b. 0 ∷ 0 ∷ 0 ∷ 0 ∷ zeros;
  unseal = λ iv tag b. some b;
  utf8 = λ t. t;
  from_utf8 = λ b. b;
  base64 = λ b. b;
  from_base64 = λ t. t;
  unseal-seal = λ iv b. refl;
  length-tag = λ iv b. refl;
  from_utf8-utf8 = λ t well. refl;
  from_base64-base64 = λ b. refl;
}

decrypt-encrypt_example :
    decrypt open_cipher (encrypt open_cipher zeros (some (104 ∷ 105 ∷ [])))
    ≡ Decrypted.plain (some (104 ∷ 105 ∷ []))
decrypt-encrypt_example = decrypt-encrypt open_cipher zeros (some (104 ∷ 105 ∷ [])) refl refl
