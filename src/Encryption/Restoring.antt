-- ===== src/Encryption/Restoring.antt =====
-- A file that the encryption has written is recovered from its initial vector and the rest.
use redseat_rust.Base.{
  ℕ, zero, suc, ◌<◌, ◌≤◌, ◌≡◌, refl, sym, ap, subst, ◌∙◌, ◌+◌, ◌-◌, ◌/◌, Bool, true, false, Option,
  none, some, List, [], ◌∷◌, ◌++◌, ok, ◌>>=◌, ◌==◌, nat_eq, length, take, drop, ltb, arith,
  length-append, append_assoc,
}
use redseat_rust.Encryption.{
  Bytes, Cbc, IsCbc, IsInverse, replicate, AesTokioEncryptStream, new_encrypt_stream, header,
  encrypt, encrypt_all, to_be_bytes, string_to_fixed_bytes,
}
use redseat_rust.Encryption.Chunks.{concat, take-drop, encrypt_all-eq-encrypt}
use redseat_rust.Encryption.Sizes.{length-encrypt_padded}
use redseat_rust.Encryption.Reading.{
  AesTokioDecryptStream, new_decrypt_stream, goes_on, decrypt_blocks, decrypt_buffer,
  decrypt_complete, decrypt_with, write_decrypted, last_byte, unpadded, decrypt_last,
  finalize_decrypt, decrypt_all,
}
use redseat_rust.Encryption.Passing.{front, on_its_way, pass_header-front}

last_byte-replicate :
    (c : Cbc) (rest : Bytes) (n v : ℕ) → last_byte c (rest ++ replicate (suc n) v) ≡ v
last_byte-replicate c [] zero v = refl
last_byte-replicate c [] (suc n) v = last_byte-replicate c [] n v
last_byte-replicate c (x ∷ []) n v = last_byte-replicate c [] n v
last_byte-replicate c (x ∷ y ∷ rest) n v = last_byte-replicate c (y ∷ rest) n v

length-replicate : (n v : ℕ) → length (replicate n v) ≡ n
length-replicate zero v = refl
length-replicate (suc n) v = omega (arith, length-replicate n v)

module _ (c : Cbc) (law : IsCbc c) (inverse : IsInverse c) where
  -- The blocks before the last, and the rest that the last one holds.
  record Decrypted (b : Bytes) (r : c.State × Bytes × Bytes) : Type 0 where
    rest : Bytes
    is_short : length rest < 16
    is_whole : r.1 ++ rest ≡ b
    is_last : r.2 ≡ c.encrypt_padded r.0 rest

  decrypt_blocks-Decrypted :
      (n : ℕ) (s : c.State) (b : Bytes)
      → length b / 16 ≡ n
      → Decrypted b (decrypt_blocks c n s (c.encrypt_padded s b))
  unfolding decrypt_blocks
  decrypt_blocks-Decrypted zero s b h = record {
    rest = b;
    is_short = omega (arith, h);
    is_whole = refl;
    is_last = refl;
  }
  decrypt_blocks-Decrypted (suc n) s b h =
      let (joins, taken, dropped) = take-drop 16 b (omega (arith, h)) in
      let (s', block) = c.encrypt_block s (take 16 b) in
      let ct = c.encrypt_padded s' (drop 16 b) in
      let by_block =
        ap (c.encrypt_padded s) (sym joins) ∙ law.by_blocks s (take 16 b) (drop 16 b) taken in
      let (_, first, others) = front 16 block ct (law.block_length s (take 16 b) taken) in
      let ih = decrypt_blocks-Decrypted n s' (drop 16 b) (omega (arith, h, dropped)) in
      rw (by_block, first, others, inverse.decrypts s (take 16 b) taken)
        (record {
          rest = ih.rest;
          is_short = ih.is_short;
          is_whole =
              append_assoc (take 16 b) _ ih.rest ∙ (ap (λ x. take 16 b ++ x) ih.is_whole ∙ joins);
          is_last = ih.is_last;
        })

  length-padding :
      (rest : Bytes) (k : ℕ)
      → length rest + suc k ≡ 16
      → length (rest ++ replicate (suc k) (suc k)) ≡ 16
  length-padding rest k h =
      length-append rest (replicate (suc k) (suc k))
      ∙ omega (arith, h, length-replicate (suc k) (suc k))

  unpadded-padding :
      (rest : Bytes) (k : ℕ)
      → length rest + suc k ≡ 16
      → unpadded c (rest ++ replicate (suc k) (suc k)) ≡ ok rest
  unpadded-padding rest k h =
      let whole = length-padding rest k h in
      let (_, taken, _) = front (16 - suc k) rest (replicate (suc k) (suc k)) (omega (arith, h)) in
      rw (last_byte-replicate c rest k (suc k))
        (rw whole (rw (fits k (omega (arith, h))) (ap ok taken)))
    where
      fits : (k : ℕ) → suc k ≤ 16 → ltb 16 (suc k) ≡ false
      fits k h = ground arith

  unpadded-last :
      (s : c.State) (rest : Bytes)
      → length rest < 16
      → unpadded c (c.decrypt_block s (c.encrypt_padded s rest)).1 ≡ ok rest
  unpadded-last s rest h =
      ap (unpadded c) (inverse.decrypts_last s rest h)
      ∙ subst (λ n. unpadded c (rest ++ replicate n n) ≡ ok rest) {x = suc (15 - length rest)}
          (omega (arith, h)) (unpadded-padding rest (15 - length rest) (omega (arith, h)))

  decrypt_last-padded :
      (st : AesTokioDecryptStream c) (s : c.State) (rest : Bytes)
      → st.buffer ≡ c.encrypt_padded s rest
      → length rest < 16
      → decrypt_last c st s ≡ ok (st.writer ++ rest)
  decrypt_last-padded st s rest same short = rw same (
      rw (law.last_block s rest short)
        (ap (λ u. u >>= λ x. ok (st.writer ++ x)) (unpadded-last s rest short)))

  decrypt_buffer-blocks :
      (s : c.State) (st : AesTokioDecryptStream c) (n : ℕ)
      → length st.buffer / 16 ≡ suc n
      → decrypt_buffer c s (goes_on st)
        ≡ ok (decrypt_complete c st (decrypt_blocks c n s st.buffer))
  decrypt_buffer-blocks s st n h =
      rw (nonzero (length st.buffer / 16) n h)
        (ap (λ k. ok (decrypt_complete c st (decrypt_blocks c k s st.buffer))) (omega (arith, h)))
    where
      nonzero : (m n : ℕ) → m ≡ suc n → (m == 0) ≡ false
      nonzero m n h = ground arith

  finalize-decrypted :
      (key iv b : Bytes) (t i : Option ℕ) (p q : Bool)
      → (decrypt_buffer c (c.start key iv) (
            goes_on (
              on_its_way c key []
                (c.start key iv)
                t
                i
                true
                true
                p
                q
                (c.encrypt_padded (c.start key iv) b)))
          >>= λ st. finalize_decrypt c st)
        ≡ ok b
  unfolding finalize_decrypt
  finalize-decrypted key iv b t i p q =
      let s = c.start key iv in
      let st = on_its_way c key [] s t i true true p q (c.encrypt_padded s b) in
      let n = length b / 16 in
      let blocks = decrypt_blocks c n s (c.encrypt_padded s b) in
      let parts = decrypt_blocks-Decrypted n s b refl in
      ap (λ r. r >>= λ st. finalize_decrypt c st)
        (decrypt_buffer-blocks s st n (omega (arith, length-encrypt_padded c law n s b refl)))
      ∙ (decrypt_last-padded (decrypt_complete c st blocks) blocks.0 parts.rest parts.is_last
            parts.is_short
          ∙ ap ok parts.is_whole)

  header-append :
      (st : AesTokioEncryptStream c) (rest : Bytes)
      → header c st ++ rest
        ≡ st.iv
          ++ (to_be_bytes (length st.thumb)
              ++ (to_be_bytes (length st.infos)
                  ++ (string_to_fixed_bytes st.thumb_mime 32
                      ++ (string_to_fixed_bytes st.file_mime 256
                          ++ (st.thumb ++ (st.infos ++ rest))))))
  unfolding header
  header-append st rest = simp append_assoc refl

whole : (n : ℕ) (b : Bytes) → length b ≡ n → (take n b ≡ b) × (drop n b ≡ [])
whole zero [] h = (refl, refl)
whole zero (x ∷ b) h = absurd (omega (arith, h))
whole (suc n) [] h = absurd (omega (arith, h))
whole (suc n) (x ∷ b) h =
    let (taken, dropped) = whole n b (omega (arith, h)) in (ap (λ r. x ∷ r) taken, dropped)

module _ (c : Cbc) where
  abbrev waiting : Bytes → AesTokioDecryptStream c
  waiting key = record {
    writer = [];
    decryptor = none;
    buffer = [];
    key = key;
    thumb_size = none;
    thumb_passed = false;
    infos_size = none;
    infos_passed = false;
    thumb_mime_passed = false;
    file_mime_passed = false;
  }

  new-waiting :
      (key : Bytes) {r : AesTokioDecryptStream c}
      → new_decrypt_stream c key none ≡ ok r
      → waiting key ≡ r
  unfolding new_decrypt_stream
  new-waiting key made = ground arith

  write-iv :
      (key iv : Bytes)
      → length iv ≡ 16
      → write_decrypted c iv (waiting key)
        ≡ ok (on_its_way c key [] (c.start key iv) none none false false false false [])
  unfolding write_decrypted decrypt_with
  write-iv key iv h = let (taken, dropped) = whole 16 iv h in rw h (rw (taken, dropped) refl)

  new-iv :
      (key iv : Bytes) (file_mime : Option Bytes) (thumb : Option (Bytes × Bytes))
      (infos : Option Bytes) {st : AesTokioEncryptStream c}
      → new_encrypt_stream c key iv file_mime thumb infos ≡ ok st
      → (st.iv ≡ iv) × (length iv ≡ 16)
  unfolding new_encrypt_stream
  new-iv key iv file_mime thumb infos made = (ground arith, ground arith)

  encrypt-some :
      (b key iv : Bytes) → 0 < length b → encrypt c b key iv ≡ c.encrypt_padded (c.start key iv) b
  unfolding encrypt
  encrypt-some [] key iv h = absurd (omega (arith, h))
  encrypt-some (x ∷ b) key iv h = refl

module _ (c : Cbc) (law : IsCbc c) (inverse : IsInverse c) where
  after_iv : AesTokioEncryptStream c → Bytes → Bytes
  after_iv st rest =
      to_be_bytes (length st.thumb)
      ++ (to_be_bytes (length st.infos)
          ++ (string_to_fixed_bytes st.thumb_mime 32
              ++ (string_to_fixed_bytes st.file_mime 256 ++ (st.thumb ++ (st.infos ++ rest)))))

  decrypt_two_parts :
      (key iv b : Bytes) (st : AesTokioEncryptStream c)
      → length iv ≡ 16
      → length st.thumb < 4294967296
      → length st.infos < 4294967296
      → decrypt_all c (iv ∷ after_iv st (c.encrypt_padded (c.start key iv) b) ∷ []) (waiting c key)
        ≡ ok b
  unfolding decrypt_all after_iv
  decrypt_two_parts key iv b st h small_thumb small_infos =
      let s = c.start key iv in
      let ct = after_iv st (c.encrypt_padded s b) in
      ap (λ r. r >>= λ st'. decrypt_all c (ct ∷ []) st') (write-iv c key iv h)
      ∙ (ap (λ p. decrypt_buffer c s p >>= λ st'. finalize_decrypt c st')
            (pass_header-front c key [] s st.thumb st.infos st.thumb_mime st.file_mime
              (c.encrypt_padded s b) small_thumb small_infos)
          ∙ finalize-decrypted c law inverse key iv b (some (length st.thumb))
              (some (length st.infos)) (ltb 0 (length st.thumb)) (ltb 0 (length st.infos)))

  cipher_text :
      (key iv : Bytes) (file_mime : Option Bytes) (thumb : Option (Bytes × Bytes))
      (infos : Option Bytes) (d : Bytes) (ds : List Bytes) {st : AesTokioEncryptStream c}
      → new_encrypt_stream c key iv file_mime thumb infos ≡ ok st
      → 0 < length (concat (d ∷ ds))
      → encrypt_all c (d ∷ ds) st
        ≡ iv ++ after_iv st (c.encrypt_padded (c.start key iv) (concat (d ∷ ds)))
  unfolding after_iv
  cipher_text key iv file_mime thumb infos d ds {st} made some_bytes =
      encrypt_all-eq-encrypt c law key iv file_mime thumb infos d ds made
      ∙ (ap (λ x. header c st ++ x) (encrypt-some c (concat (d ∷ ds)) key iv some_bytes)
          ∙ (header-append c law inverse st _
              ∙ ap (λ x. x ++ after_iv st (c.encrypt_padded (c.start key iv) (concat (d ∷ ds))))
                  (new-iv c key iv file_mime thumb infos made).0))

  -- A file that is not empty, written in any parts with any thumbnail and infos whose encrypted
  -- sizes fit in four bytes, is recovered byte for byte from its cipher text, if this comes in two
  -- parts: the initial vector, and the rest.
  pub decrypt_all-encrypt_all :
      (key iv : Bytes) (file_mime : Option Bytes) (thumb : Option (Bytes × Bytes))
      (infos : Option Bytes) (d : Bytes) (ds : List Bytes) {st : AesTokioEncryptStream c}
      {r : AesTokioDecryptStream c}
      → new_encrypt_stream c key iv file_mime thumb infos ≡ ok st
      → new_decrypt_stream c key none ≡ ok r
      → 0 < length (concat (d ∷ ds))
      → length st.thumb < 4294967296
      → length st.infos < 4294967296
      → let ct = encrypt_all c (d ∷ ds) st in
        decrypt_all c (take 16 ct ∷ drop 16 ct ∷ []) r ≡ ok (concat (d ∷ ds))
  decrypt_all-encrypt_all key iv file_mime thumb infos d ds {st} {r} made reading some_bytes
        small_thumb small_infos =
      let file = concat (d ∷ ds) in
      let (_, iv_length) = new-iv c key iv file_mime thumb infos made in
      let rest = after_iv st (c.encrypt_padded (c.start key iv) file) in
      let (_, taken, dropped) = front 16 iv rest iv_length in
      rw (cipher_text key iv file_mime thumb infos d ds made some_bytes, taken, dropped)
        (subst (λ u. decrypt_all c (iv ∷ rest ∷ []) u ≡ ok file) (new-waiting c key reading)
          (decrypt_two_parts key iv file st iv_length small_thumb small_infos))
