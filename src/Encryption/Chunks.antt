-- ===== src/Encryption/Chunks.antt =====
-- The cipher text does not depend on how the data is cut into calls of `write_encrypted`.
use redseat_rust.Base.{
  ℕ, zero, suc, ◌<◌, ◌≤◌, ◌≡◌, refl, sym, ap, ◌∙◌, ◌-◌, ◌*◌, ◌/◌, Bool, true, false, Option, List,
  [], ◌∷◌, ◌++◌, ok, ◌==◌, nat_eq, length, take, drop, append-nil, append_assoc, if◌then◌else◌,
  arith, Bool-cases, inl, inr,
}
use redseat_rust.Encryption.{
  Bytes, Cbc, IsCbc, AesTokioEncryptStream, encrypt, new_encrypt_stream, header, write_header,
  encrypt_blocks, encrypt_buffer, write_encrypted, finalize_encrypt, encrypt_all,
}

abbrev pub concat : List Bytes → Bytes
concat [] = []
concat (d ∷ ds) = d ++ concat ds

pub take-drop :
    (n : ℕ) (b : Bytes)
    → n ≤ length b
    → (take n b ++ drop n b ≡ b) × (length (take n b) ≡ n) × (length (drop n b) ≡ length b - n)
take-drop zero b h = (refl, refl, omega arith)
take-drop (suc n) [] h = absurd (omega (arith, h))
take-drop (suc n) (x ∷ b) h =
    let (joins, taken, dropped) = take-drop n b (omega (arith, h)) in
    (ap (λ r. x ∷ r) joins, omega (arith, taken), omega (arith, dropped))

module _ (c : Cbc) (law : IsCbc c) where
  -- What `finalize` writes.
  abbrev closing : c.State → Bytes → Bytes
  closing s [] = []
  closing s (b ∷ bs) = c.encrypt_padded s (b ∷ bs)

  closing-append :
      (s : c.State) (b more : Bytes)
      → 0 < length b
      → closing s (b ++ more) ≡ c.encrypt_padded s (b ++ more)
  closing-append s [] more h = absurd (omega (arith, h))
  closing-append s (x ∷ b) more h = refl

  encrypt_blocks-closing :
      (n : ℕ) (s : c.State) (b more : Bytes)
      → 16 * n ≤ length b
      → let (s', blocks, rest) = encrypt_blocks c n s b in
        (c.encrypt_padded s (b ++ more) ≡ blocks ++ c.encrypt_padded s' (rest ++ more))
        × (length rest ≡ length b - 16 * n)
  unfolding encrypt_blocks
  encrypt_blocks-closing zero s b more h = (refl, omega arith)
  encrypt_blocks-closing (suc n) s b more h =
      let (joins, taken, dropped) = take-drop 16 b (omega (arith, h)) in
      let step = c.encrypt_block s (take 16 b) in
      let rest = encrypt_blocks-closing n step.0 (drop 16 b) more (omega (arith, h, dropped)) in
      (
        ap (λ x. c.encrypt_padded s (x ++ more)) (sym joins)
            ∙ (ap (c.encrypt_padded s) (append_assoc (take 16 b) (drop 16 b) more)
                ∙ (law.by_blocks s (take 16 b) (drop 16 b ++ more) taken
                    ∙ (ap (λ x. step.1 ++ x) rest.0 ∙ sym (append_assoc step.1 _ _)))),
        omega (arith, rest.1, dropped),
      )

  positive : (n : ℕ) → (n == 0) ≡ false → 0 < n
  positive n h = ground arith

  encrypt_buffer-closing :
      (st : AesTokioEncryptStream c) (more : Bytes)
      → (encrypt_buffer c st).writer
          ++ closing (encrypt_buffer c st).encryptor ((encrypt_buffer c st).buffer ++ more)
        ≡ st.writer ++ closing st.encryptor (st.buffer ++ more)
  unfolding encrypt_buffer
  encrypt_buffer-closing st more = elim (Bool-cases (length st.buffer / 16 == 0)) [
    | inl small ↦ rw small refl
    | inr large ↦
        let n = length st.buffer / 16 - 1 in
        let (s', blocks, rest) = encrypt_blocks c n st.encryptor st.buffer in
        let some_block = positive (length st.buffer / 16) large in
        let (same, left) =
          encrypt_blocks-closing n st.encryptor st.buffer more (omega (arith, some_block)) in
        rw large (
          append_assoc st.writer blocks _
          ∙ ap (λ x. st.writer ++ x)
              (ap (λ x. blocks ++ x) (closing-append s' rest more (omega (arith, left, some_block)))
                ∙ (sym same
                    ∙ sym
                        (closing-append st.encryptor st.buffer more (omega (arith, some_block))))))
  ]

  abbrev flow : AesTokioEncryptStream c → Bytes → Bytes
  flow st more = st.writer ++ closing st.encryptor (st.buffer ++ more)

  write_encrypted-closing :
      (d : Bytes) (st : AesTokioEncryptStream c) (more : Bytes)
      → flow (write_encrypted c d st) more ≡ flow (write_header c st) (d ++ more)
  unfolding write_encrypted
  write_encrypted-closing d st more =
      let su = write_header c st in
      encrypt_buffer-closing (record su { buffer = su.buffer ++ d }) more
      ∙ ap (λ x. su.writer ++ closing su.encryptor x) (append_assoc su.buffer d more)

  write_header_again :
      (st : AesTokioEncryptStream c) → st.header_written ≡ true → write_header c st ≡ st
  unfolding write_header
  write_header_again st h =
      ap
        (λ (b : Bool).
          if b then st else record st { writer = st.writer ++ header c st; header_written = true })
        h

  header_written-write :
      (d : Bytes) (st : AesTokioEncryptStream c) → (write_encrypted c d st).header_written ≡ true
  unfolding write_encrypted write_header encrypt_buffer
  header_written-write d st = ground arith

  encrypt_all-closing :
      (ds : List Bytes) (st : AesTokioEncryptStream c)
      → st.header_written ≡ true
      → encrypt_all c ds st ≡ st.writer ++ closing st.encryptor (st.buffer ++ concat ds)
  unfolding encrypt_all finalize_encrypt write_header
  encrypt_all-closing [] st h =
      ended st.buffer ∙ ap (λ x. st.writer ++ closing st.encryptor x) (sym (append-nil st.buffer))
    where
      ended :
          (b : Bytes)
          → (elim b [
            | [] ↦ st.writer
            | x ∷ xs ↦ st.writer ++ c.encrypt_padded st.encryptor (x ∷ xs)
          ])
            ≡ st.writer ++ closing st.encryptor b
      ended [] = sym (append-nil st.writer)
      ended (x ∷ xs) = refl
  encrypt_all-closing (d ∷ ds) st h =
      encrypt_all-closing ds (write_encrypted c d st) (header_written-write d st)
      ∙ (write_encrypted-closing d st (concat ds)
          ∙ ap (λ su. flow su (d ++ concat ds)) (write_header_again st h))

  -- A stream that `new` has made for a key and an initial vector.
  record IsFresh (key iv : Bytes) (st : AesTokioEncryptStream c) : Type 0 where
    encryptor : st.encryptor ≡ c.start key iv
    writer : st.writer ≡ []
    buffer : st.buffer ≡ []
    header_written : st.header_written ≡ false

  new-IsFresh :
      (key iv : Bytes) (file_mime : Option Bytes) (thumb : Option (Bytes × Bytes))
      (infos : Option Bytes) {st : AesTokioEncryptStream c}
      → new_encrypt_stream c key iv file_mime thumb infos ≡ ok st
      → IsFresh key iv st
  unfolding new_encrypt_stream
  new-IsFresh key iv file_mime thumb infos made = record {
    encryptor = ground arith;
    writer = ground arith;
    buffer = ground arith;
    header_written = ground arith;
  }

  closing-eq-encrypt : (b key iv : Bytes) → closing (c.start key iv) b ≡ encrypt c b key iv
  unfolding encrypt
  closing-eq-encrypt [] key iv = refl
  closing-eq-encrypt (x ∷ b) key iv = refl

  flow-header :
      {key iv : Bytes} (st : AesTokioEncryptStream c) (b : Bytes)
      → IsFresh key iv st
      → flow (write_header c st) b ≡ header c st ++ encrypt c b key iv
  unfolding write_header
  flow-header {key} {iv} st b fresh =
      ap
        (λ (w : Bool).
          flow
            (if w
              then st
              else record st { writer = st.writer ++ header c st; header_written = true })
            b)
        fresh.header_written
      ∙ (ap (λ w. (w ++ header c st) ++ closing st.encryptor (st.buffer ++ b)) fresh.writer
          ∙ (ap (λ e. header c st ++ closing e (st.buffer ++ b)) fresh.encryptor
              ∙ (ap (λ x. header c st ++ closing (c.start key iv) (x ++ b)) fresh.buffer
                  ∙ ap (λ x. header c st ++ x) (closing-eq-encrypt b key iv))))

  -- A file that is written in any parts, after the stream was made for a key and an initial vector,
  -- is the header followed by the whole file encrypted at once: where the parts are cut makes no
  -- difference. The header is written with the first part, whether or not it has any bytes.
  pub encrypt_all-eq-encrypt :
      (key iv : Bytes) (file_mime : Option Bytes) (thumb : Option (Bytes × Bytes))
      (infos : Option Bytes) (d : Bytes) (ds : List Bytes) {st : AesTokioEncryptStream c}
      → new_encrypt_stream c key iv file_mime thumb infos ≡ ok st
      → encrypt_all c (d ∷ ds) st ≡ header c st ++ encrypt c (concat (d ∷ ds)) key iv
  unfolding encrypt_all
  encrypt_all-eq-encrypt key iv file_mime thumb infos d ds {st} made =
      encrypt_all-closing ds (write_encrypted c d st) (header_written-write d st)
      ∙ (write_encrypted-closing d st (concat ds)
          ∙ flow-header st (d ++ concat ds) (new-IsFresh key iv file_mime thumb infos made))
