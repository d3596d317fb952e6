-- ===== src/Encryption/Sizes.antt =====
-- `estimated_encrypted_size` is the size of what the stream writes.
use redseat_rust.Base.{
  ℕ, zero, suc, ◌≡◌, refl, sym, ap, ◌∙◌, ◌+◌, ◌*◌, ◌/◌, Option, List, [], ◌∷◌, ◌++◌, ok, nat_eq,
  length, take, drop, length-append, unwrap_or, arith,
}
use redseat_rust.Encryption.{
  Bytes, Cbc, IsCbc, AesTokioEncryptStream, encrypt, new_encrypt_stream, header, encrypt_all,
  ceil_to_multiple_of_16, encrypted_part, estimated_encrypted_size, string_to_fixed_bytes,
  to_be_bytes,
}
use redseat_rust.Encryption.Chunks.{concat, take-drop, encrypt_all-eq-encrypt}

pub length-string_to_fixed_bytes :
    (b : Bytes) (size : ℕ) → length (string_to_fixed_bytes b size) ≡ size
unfolding string_to_fixed_bytes
length-string_to_fixed_bytes b zero = refl
length-string_to_fixed_bytes [] (suc size) = omega (arith, length-string_to_fixed_bytes [] size)
length-string_to_fixed_bytes (x ∷ b) (suc size) = omega (arith, length-string_to_fixed_bytes b size)

length-to_be_bytes : (n : ℕ) (b : Bytes) → length (to_be_bytes n ++ b) ≡ 4 + length b
unfolding to_be_bytes
length-to_be_bytes n b = omega arith

ceil_to_multiple_of_16-value : (n : ℕ) → ceil_to_multiple_of_16 n ≡ (n / 16 + 1) * 16
unfolding ceil_to_multiple_of_16
ceil_to_multiple_of_16-value n = ground arith

module _ (c : Cbc) (law : IsCbc c) where
  pub length-encrypt_padded :
      (n : ℕ) (s : c.State) (b : Bytes)
      → length b / 16 ≡ n
      → length (c.encrypt_padded s b) ≡ (n + 1) * 16
  length-encrypt_padded zero s b h = law.last_block s b (omega (arith, h))
  length-encrypt_padded (suc n) s b h =
      let (joins, taken, dropped) = take-drop 16 b (omega (arith, h)) in
      ap (λ x. length (c.encrypt_padded s x)) (sym joins)
      ∙ (ap length (law.by_blocks s (take 16 b) (drop 16 b) taken)
          ∙ omega (
            arith,
            length-append (c.encrypt_block s (take 16 b)).1
                (c.encrypt_padded (c.encrypt_block s (take 16 b)).0 (drop 16 b)),
            law.block_length s (take 16 b) taken,
            length-encrypt_padded n (c.encrypt_block s (take 16 b)).0 (drop 16 b)
                (omega (arith, h, dropped)),
          ))

  length-encrypt : (b key iv : Bytes) → length (encrypt c b key iv) ≡ encrypted_part (length b)
  unfolding encrypt encrypted_part
  length-encrypt [] key iv = refl
  length-encrypt (x ∷ b) key iv =
      length-encrypt_padded (length (x ∷ b) / 16) (c.start key iv) (x ∷ b) refl
      ∙ ground (arith, ceil_to_multiple_of_16-value (suc (length b)))

  length-header-parts :
      (st : AesTokioEncryptStream c)
      → length (header c st)
        ≡ length st.iv + (4 + (4 + (32 + (256 + (length st.thumb + length st.infos)))))
  unfolding header
  length-header-parts st =
      let mime = string_to_fixed_bytes st.file_mime 256 in
      let thumb_mime = string_to_fixed_bytes st.thumb_mime 32 in
      let end = st.thumb ++ st.infos in
      let sizes =
        to_be_bytes (length st.thumb)
        ++ (to_be_bytes (length st.infos) ++ (thumb_mime ++ (mime ++ end))) in
      length-append st.iv sizes
      ∙ omega (
        arith,
        length-to_be_bytes (length st.thumb)
            (to_be_bytes (length st.infos) ++ (thumb_mime ++ (mime ++ end))),
        length-to_be_bytes (length st.infos) (thumb_mime ++ (mime ++ end)),
        length-append thumb_mime (mime ++ end),
        length-append mime end,
        length-append st.thumb st.infos,
        length-string_to_fixed_bytes st.thumb_mime 32,
        length-string_to_fixed_bytes st.file_mime 256,
      )

  record Made (key iv : Bytes) (thumb : Option (Bytes × Bytes)) (infos : Option Bytes)
      (st : AesTokioEncryptStream c) : Type 0 where
    iv_length : length st.iv ≡ 16
    thumb_encrypted : st.thumb ≡ encrypt c (unwrap_or thumb ([], [])).0 key iv
    infos_encrypted : st.infos ≡ encrypt c (unwrap_or infos []) key iv

  new-Made :
      (key iv : Bytes) (file_mime : Option Bytes) (thumb : Option (Bytes × Bytes))
      (infos : Option Bytes) {st : AesTokioEncryptStream c}
      → new_encrypt_stream c key iv file_mime thumb infos ≡ ok st
      → Made key iv thumb infos st
  unfolding new_encrypt_stream
  new-Made key iv file_mime thumb infos made = record {
    iv_length = ground arith;
    thumb_encrypted = ground arith;
    infos_encrypted = ground arith;
  }

  length-header :
      (key iv : Bytes) (file_mime : Option Bytes) (thumb : Option (Bytes × Bytes))
      (infos : Option Bytes) {st : AesTokioEncryptStream c}
      → new_encrypt_stream c key iv file_mime thumb infos ≡ ok st
      → length (header c st)
        ≡ 16
          + 4
          + 4
          + 32
          + 256
          + encrypted_part (length (unwrap_or thumb ([], [])).0)
          + encrypted_part (length (unwrap_or infos []))
  length-header key iv file_mime thumb infos {st} made =
      let facts = new-Made key iv file_mime thumb infos made in
      omega (
        arith,
        length-header-parts st,
        facts.iv_length,
        ap length facts.thumb_encrypted ∙ length-encrypt (unwrap_or thumb ([], [])).0 key iv,
        ap length facts.infos_encrypted ∙ length-encrypt (unwrap_or infos []) key iv,
      )

  -- The estimate is exact: a file that is written in any parts takes `estimated_encrypted_size` of
  -- the sizes of the file, the thumbnail and the infos, which are 0 where they are not given.
  pub length-encrypt_all :
      (key iv : Bytes) (file_mime : Option Bytes) (thumb : Option (Bytes × Bytes))
      (infos : Option Bytes) (d : Bytes) (ds : List Bytes) {st : AesTokioEncryptStream c}
      → new_encrypt_stream c key iv file_mime thumb infos ≡ ok st
      → length (encrypt_all c (d ∷ ds) st)
        ≡ estimated_encrypted_size
            (length (concat (d ∷ ds)))
            (length (unwrap_or thumb ([], [])).0)
            (length (unwrap_or infos []))
  unfolding estimated_encrypted_size
  length-encrypt_all key iv file_mime thumb infos d ds {st} made =
      ap length (encrypt_all-eq-encrypt c law key iv file_mime thumb infos d ds made)
      ∙ omega (
        arith,
        length-append (header c st) (encrypt c (concat (d ∷ ds)) key iv),
        length-header key iv file_mime thumb infos made,
        length-encrypt (concat (d ∷ ds)) key iv,
      )
