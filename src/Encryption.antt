-- ===== src/Encryption.antt =====
-- The encrypted backups of tools/encryption.rs: `AesTokioEncryptStream` and `AesTokioDecryptStream`.
-- Bytes are numbers, and what a stream has written is the list of its bytes. AES in CBC mode with
-- PKCS #7 padding, which a library does, is the parameter `Cbc`.
pub mod Chunks
pub mod Sizes
pub mod Reading
pub mod Recovery
pub mod Passing
pub mod Restoring
pub mod Tests
use redseat_rust.Base.{
  ℕ, zero, suc, ◌<◌, ◌≡◌, ◌+◌, ◌-◌, ◌*◌, ◌/◌, ◌%◌, Bool, true, false, not, ◌||◌, Option, none, some,
  List, [], ◌∷◌, ◌++◌, Result, ok, err, ltb, ◌==◌, nat_eq, length, take, drop, unwrap_or,
  if◌then◌else◌,
}
use redseat_rust.Access.Users.{RsError}

abbrev pub Bytes : Type 0
Bytes = List ℕ

-- `(value + 15) & !15`, and one block more where the padding fills it.
unfoldable pub ceil_to_multiple_of_16 : ℕ → ℕ
ceil_to_multiple_of_16 value =
    let ceil = value + 15 - (value + 15) % 16 in
    let rest = if value % 16 == 0 then 16 else 0 in ceil + rest

abbrev encrypted_part : ℕ → ℕ
unfolding ceil_to_multiple_of_16
encrypted_part size = if size == 0 then 0 else ceil_to_multiple_of_16 size

unfoldable pub estimated_encrypted_size : ℕ → ℕ → ℕ → ℕ
unfolding encrypted_part
estimated_encrypted_size unencrypted_file_size unencrypted_thumb_size unencrypted_infos_size =
    let thumb_size = encrypted_part unencrypted_thumb_size in
    let infos_size = encrypted_part unencrypted_infos_size in
    let file_size = encrypted_part unencrypted_file_size in
    16 + 4 + 4 + 32 + 256 + thumb_size + infos_size + file_size

-- The input, cut or filled with spaces to `size` bytes.
unfoldable pub string_to_fixed_bytes : Bytes → ℕ → Bytes
string_to_fixed_bytes input zero = []
string_to_fixed_bytes [] (suc size) = 32 ∷ string_to_fixed_bytes [] size
string_to_fixed_bytes (b ∷ bs) (suc size) = b ∷ string_to_fixed_bytes bs size

-- `u32::to_be_bytes`, of a length cast to `u32`.
unfoldable pub to_be_bytes : ℕ → Bytes
to_be_bytes n = n / 16777216 % 256 ∷ n / 65536 % 256 ∷ n / 256 % 256 ∷ n % 256 ∷ []

unfoldable pub from_be_bytes : Bytes → ℕ
from_be_bytes (a ∷ b ∷ c ∷ d ∷ _) = a * 16777216 + b * 65536 + c * 256 + d
from_be_bytes _ = 0

-- A cipher in CBC mode: its state after a key and an initial vector, one block, and what is left to
-- encrypt with its padding.
pub record Cbc : Type 1 where
  pub State : Type 0
  pub start : Bytes → Bytes → State
  pub encrypt_block : State → Bytes → State × Bytes
  pub encrypt_padded : State → Bytes → Bytes
  pub decrypt_block : State → Bytes → State × Bytes

-- What the code relies on: blocks stay blocks, a text is encrypted block by block, and the last,
-- incomplete block is padded to a whole one.
pub record IsCbc (c : Cbc) : Type 0 where
  pub block_length : (s : c.State) (b : Bytes) → length b ≡ 16 → length (c.encrypt_block s b).1 ≡ 16
  pub by_blocks :
      (s : c.State) (b rest : Bytes)
      → length b ≡ 16
      → c.encrypt_padded s (b ++ rest)
        ≡ (c.encrypt_block s b).1 ++ c.encrypt_padded (c.encrypt_block s b).0 rest
  pub last_block :
      (s : c.State) (rest : Bytes) → length rest < 16 → length (c.encrypt_padded s rest) ≡ 16

abbrev pub replicate : ℕ → ℕ → Bytes
replicate zero b = []
replicate (suc n) b = b ∷ replicate n b

-- The decryption goes along with the encryption, block by block, and leaves the padding on the last
-- one: as many bytes as are missing, each of this number (PKCS #7).
pub record IsInverse (c : Cbc) : Type 0 where
  pub decrypts :
      (s : c.State) (b : Bytes)
      → length b ≡ 16
      → c.decrypt_block s (c.encrypt_block s b).1 ≡ ((c.encrypt_block s b).0, b)
  pub decrypts_last :
      (s : c.State) (rest : Bytes)
      → length rest < 16
      → (c.decrypt_block s (c.encrypt_padded s rest)).1
        ≡ rest ++ replicate (16 - length rest) (16 - length rest)

module _ (c : Cbc) where
  pub record AesTokioEncryptStream : Type 0 where
    pub writer : Bytes
    pub encryptor : c.State
    pub buffer : Bytes
    pub iv : Bytes
    pub header_written : Bool
    pub file_mime : Bytes
    pub thumb : Bytes
    pub thumb_mime : Bytes
    pub infos : Bytes

  unfoldable pub encrypt : Bytes → Bytes → Bytes → Bytes
  encrypt [] key iv = []
  encrypt (b ∷ bs) key iv = c.encrypt_padded (c.start key iv) (b ∷ bs)

  -- `AesTokioEncryptStream::new` over an empty writer.
  unfoldable pub new_encrypt_stream :
      Bytes
      → Bytes
      → Option Bytes
      → Option (Bytes × Bytes)
      → Option Bytes
      → Result RsError AesTokioEncryptStream
  unfolding encrypt
  new_encrypt_stream key iv file_mime thumb infos =
      let (thumb_bytes, thumb_mime) = unwrap_or thumb ([], []) in
      if not (length key == 32) || not (length iv == 16)
      then err (RsError.message "Key must be 256 bytes and IV must be 16 bytes")
      else ok (record {
        writer = [];
        encryptor = c.start key iv;
        buffer = [];
        iv = iv;
        header_written = false;
        file_mime = unwrap_or file_mime [];
        thumb = encrypt thumb_bytes key iv;
        thumb_mime = thumb_mime;
        infos = encrypt (unwrap_or infos []) key iv;
      })

  unfoldable pub header : AesTokioEncryptStream → Bytes
  unfolding to_be_bytes string_to_fixed_bytes
  header st =
      st.iv
      ++ (to_be_bytes (length st.thumb)
          ++ (to_be_bytes (length st.infos)
              ++ (string_to_fixed_bytes st.thumb_mime 32
                  ++ (string_to_fixed_bytes st.file_mime 256 ++ (st.thumb ++ st.infos)))))

  unfoldable pub write_header : AesTokioEncryptStream → AesTokioEncryptStream
  unfolding header
  write_header st =
      if st.header_written
      then st
      else record st { writer = st.writer ++ header st; header_written = true }

  -- The first `n` blocks of the buffer, encrypted: the state after them, their cipher text, and the
  -- rest of the buffer.
  unfoldable pub encrypt_blocks : ℕ → c.State → Bytes → c.State × Bytes × Bytes
  encrypt_blocks zero s buffer = (s, [], buffer)
  encrypt_blocks (suc n) s buffer =
      let (s', block) = c.encrypt_block s (take 16 buffer) in
      let (s'', blocks, rest) = encrypt_blocks n s' (drop 16 buffer) in (s'', block ++ blocks, rest)

  abbrev pub encrypt_complete :
      AesTokioEncryptStream → c.State × Bytes × Bytes → AesTokioEncryptStream
  encrypt_complete st (s, blocks, rest) = record st {
    writer = st.writer ++ blocks;
    encryptor = s;
    buffer = rest;
  }

  abbrev pub encrypt_buffer : AesTokioEncryptStream → AesTokioEncryptStream
  unfolding encrypt_blocks
  encrypt_buffer st =
      let complete_blocks = length st.buffer / 16 in
      if complete_blocks == 0
      then st
      else encrypt_complete st (encrypt_blocks (complete_blocks - 1) st.encryptor st.buffer)

  unfoldable pub write_encrypted : Bytes → AesTokioEncryptStream → AesTokioEncryptStream
  unfolding encrypt_buffer write_header
  write_encrypted input st =
      let st' = write_header st in encrypt_buffer (record st' { buffer = st'.buffer ++ input })

  unfoldable pub finalize_encrypt : AesTokioEncryptStream → Bytes
  finalize_encrypt st = elim st.buffer [
    | [] ↦ st.writer
    | b ∷ bs ↦ st.writer ++ c.encrypt_padded st.encryptor (b ∷ bs)
  ]

  -- The data as it comes, in as many calls as there are parts, and the end.
  unfoldable pub encrypt_all : List Bytes → AesTokioEncryptStream → Bytes
  unfolding write_encrypted finalize_encrypt
  encrypt_all [] st = finalize_encrypt st
  encrypt_all (input ∷ rest) st = encrypt_all rest (write_encrypted input st)
