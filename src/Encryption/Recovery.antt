-- ===== src/Encryption/Recovery.antt =====
-- What the decryption recovers: nothing where the cipher text comes in one part.
use redseat_rust.Base.{
  ◌<◌, ◌≡◌, ap, ◌∙◌, Option, none, some, List, [], ◌∷◌, ◌++◌, ok, err, ◌>>=◌, le→leb, nat_eq,
  length, take, drop, arith,
}
use redseat_rust.Encryption.{
  Bytes, Cbc, IsCbc, AesTokioEncryptStream, new_encrypt_stream, encrypt_all,
  estimated_encrypted_size,
}
use redseat_rust.Encryption.Chunks.{take-drop}
use redseat_rust.Encryption.Sizes.{length-encrypt_all}
use redseat_rust.Encryption.Reading.{
  crypt_error, AesTokioDecryptStream, new_decrypt_stream, read_iv, write_decrypted, decrypt_with,
  decrypt_last, finalize_decrypt, decrypt_all,
}

module _ (c : Cbc) where
  decrypt_last-long :
      (st : AesTokioDecryptStream c) (s : c.State)
      → 16 < length st.buffer
      → decrypt_last c st s ≡ err crypt_error
  decrypt_last-long st s h = ground arith

  finalize-read_iv :
      (st : AesTokioDecryptStream c)
      → 32 < length st.buffer
      → finalize_decrypt c (read_iv c st) ≡ err crypt_error
  unfolding finalize_decrypt
  finalize-read_iv st long =
      let (_, _, dropped) = take-drop 16 st.buffer (omega (arith, long)) in
      rw (le→leb 16 (length st.buffer) (omega (arith, long))) (
        decrypt_last-long
          (record st {
            decryptor = some (c.start st.key (take 16 st.buffer));
            buffer = drop 16 st.buffer;
          })
          (c.start st.key (take 16 st.buffer)) (omega (arith, long, dropped)))

  write-first :
      (ct : Bytes) (r : AesTokioDecryptStream c)
      → r.decryptor ≡ none
      → write_decrypted c ct r ≡ ok (read_iv c (record r { buffer = r.buffer ++ ct }))
  unfolding write_decrypted decrypt_with
  write-first ct r d = ap (λ o. decrypt_with c o (record r { buffer = r.buffer ++ ct })) d

  fresh :
      (key : Bytes) {r : AesTokioDecryptStream c}
      → new_decrypt_stream c key none ≡ ok r
      → (r.decryptor ≡ none) × (r.buffer ≡ [])
  unfolding new_decrypt_stream
  fresh key made = (ground arith, ground arith)

  -- The first part is taken for the initial vector alone, and the rest of it waits for more.
  decrypt_once :
      (key ct : Bytes) {r : AesTokioDecryptStream c}
      → new_decrypt_stream c key none ≡ ok r
      → 32 < length ct
      → decrypt_all c (ct ∷ []) r ≡ err crypt_error
  unfolding decrypt_all
  decrypt_once key ct {r} made long =
      let (closed, empty) = fresh key made in
      let su = record r { buffer = r.buffer ++ ct } in
      ap (λ w. w >>= λ st'. finalize_decrypt c st') (write-first ct r closed)
      ∙ finalize-read_iv su (omega (arith, long, ap (λ b. length (b ++ ct)) empty))

  -- A file of the stream's own making, read back in one part without a given initial vector, is not
  -- recovered: the end finds more than one block and is an error. This is so for every file, since
  -- the header alone is longer than that.
  pub decrypt_all_in_one_part :
      (law : IsCbc c) (key iv : Bytes) (file_mime : Option Bytes) (thumb : Option (Bytes × Bytes))
      (infos : Option Bytes) (d : Bytes) (ds : List Bytes) {st : AesTokioEncryptStream c}
      {r : AesTokioDecryptStream c}
      → new_encrypt_stream c key iv file_mime thumb infos ≡ ok st
      → new_decrypt_stream c key none ≡ ok r
      → decrypt_all c (encrypt_all c (d ∷ ds) st ∷ []) r ≡ err crypt_error
  unfolding estimated_encrypted_size
  decrypt_all_in_one_part law key iv file_mime thumb infos d ds made started =
      decrypt_once key _ started
        (omega (arith, length-encrypt_all c law key iv file_mime thumb infos d ds made))
