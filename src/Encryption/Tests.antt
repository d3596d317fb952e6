-- ===== src/Encryption/Tests.antt =====
-- The theorems on encryption at a cipher that changes nothing but adds the padding.
use redseat_rust.Base.{take, drop}
use redseat_rust.Base.{
  ℕ, zero, suc, ◌≡◌, refl, ap, ◌∙◌, ◌-◌, ◌%◌, none, [], ◌∷◌, ◌++◌, ok, err, length, length-append,
  append_assoc, arith, nat_eq, Result, false,
}
use redseat_rust.Access.Users.{RsError}
use redseat_rust.Encryption.{
  Bytes, Cbc, IsCbc, AesTokioEncryptStream, encrypt, new_encrypt_stream, header, encrypt_all,
  estimated_encrypted_size, replicate, IsInverse,
}
use redseat_rust.Encryption.Chunks.{encrypt_all-eq-encrypt}
use redseat_rust.Encryption.Sizes.{length-encrypt_all}
use redseat_rust.Encryption.Reading.{
  crypt_error, AesTokioDecryptStream, new_decrypt_stream, decrypt_all,
}
use redseat_rust.Encryption.Restoring.{decrypt_all-encrypt_all}
use redseat_rust.Encryption.Recovery.{decrypt_all_in_one_part}

length-replicate : (n b : ℕ) → length (replicate n b) ≡ n
length-replicate zero b = refl
length-replicate (suc n) b = omega (arith, length-replicate n b)

abbrev pad : Bytes → Bytes
pad bytes = bytes ++ replicate (16 - length bytes % 16) (16 - length bytes % 16)

abbrev plain : Cbc
plain = record {
  State = Unit {0};
  start = λ key iv. tt;
  encrypt_block = λ s b. (tt, b);
  encrypt_padded = λ s b. pad b;
  decrypt_block = λ s b. (tt, b);
}

pad-block : (b rest : Bytes) → length b ≡ 16 → pad (b ++ rest) ≡ b ++ pad rest
pad-block b rest h =
    append_assoc b rest _
    ∙ ap (λ n. b ++ (rest ++ replicate (16 - n) (16 - n))) (omega (arith, length-append b rest, h))

plain-IsCbc : IsCbc plain
plain-IsCbc = record {
  block_length = λ s b h. h;
  by_blocks = λ s b rest h. pad-block b rest h;
  last_block = λ s rest h.
      length-append rest _
      ∙ omega (arith, h, length-replicate (16 - length rest % 16) (16 - length rest % 16));
}

abbrev key : Bytes
key = replicate 32 7

abbrev iv : Bytes
iv = replicate 16 1

abbrev made : Result RsError (AesTokioEncryptStream plain)
made = new_encrypt_stream plain key iv none none none

abbrev stream : AesTokioEncryptStream plain
stream = record {
  writer = [];
  encryptor = tt;
  buffer = [];
  iv = iv;
  header_written = false;
  file_mime = [];
  thumb = [];
  thumb_mime = [];
  infos = [];
}

is_made : new_encrypt_stream plain key iv none none none ≡ ok stream
unfolding new_encrypt_stream encrypt
is_made = refl

encrypt_all-eq-encrypt_example :
    encrypt_all plain (replicate 20 5 ∷ replicate 3 6 ∷ []) stream
    ≡ header plain stream ++ encrypt plain (replicate 20 5 ++ replicate 3 6) key iv
encrypt_all-eq-encrypt_example =
    encrypt_all-eq-encrypt plain plain-IsCbc key iv none none none (replicate 20 5)
      (replicate 3 6 ∷ []) is_made

length-encrypt_all_example :
    length (encrypt_all plain (replicate 20 5 ∷ replicate 3 6 ∷ []) stream)
    ≡ estimated_encrypted_size 23 0 0
length-encrypt_all_example =
    length-encrypt_all plain plain-IsCbc key iv none none none (replicate 20 5) (replicate 3 6 ∷ [])
      is_made

abbrev reading : AesTokioDecryptStream plain
reading = record {
  writer = [];
  decryptor = none;
  buffer = [];
  key = key;
  thumb_size = none;
  thumb_passed = false;
  infos_size = none;
  infos_passed = false;
  thumb_mime_passed = false;
  file_mime_passed = false;
}

is_reading : new_decrypt_stream plain key none ≡ ok reading
unfolding new_decrypt_stream
is_reading = refl

decrypt_all_in_one_part_example :
    decrypt_all plain (encrypt_all plain (replicate 20 5 ∷ []) stream ∷ []) reading
    ≡ err crypt_error
decrypt_all_in_one_part_example =
    decrypt_all_in_one_part plain plain-IsCbc key iv none none none (replicate 20 5) [] is_made
      is_reading

plain-IsInverse : IsInverse plain
plain-IsInverse = record {
  decrypts = λ s b h. refl;
  decrypts_last = λ s rest h. ap (λ n. rest ++ replicate (16 - n) (16 - n)) (omega (arith, h));
}

decrypt_all-encrypt_all_example :
    decrypt_all plain
      (take 16 (encrypt_all plain (replicate 20 5 ∷ []) stream)
        ∷ drop 16 (encrypt_all plain (replicate 20 5 ∷ []) stream)
        ∷ [])
      reading
    ≡ ok (replicate 20 5)
decrypt_all-encrypt_all_example =
    decrypt_all-encrypt_all plain plain-IsCbc plain-IsInverse key iv none none none (replicate 20 5)
      [] is_made is_reading (omega arith) (omega arith) (omega arith)
