-- ===== src/Encryption/Reading.antt =====
-- `AesTokioDecryptStream`: the header is skipped and the blocks are decrypted as they come, all but
-- the last, which `finalize` decrypts and frees of its padding.
use redseat_rust.Base.{
  ℕ, zero, suc, ◌-◌, ◌/◌, Bool, true, false, not, ◌&&◌, Option, none, some, List, [], ◌∷◌, ◌++◌,
  Result, ok, err, ◌>>=◌, ltb, leb, ◌==◌, nat_eq, length, take, drop, unwrap_or, if◌then◌else◌,
}
use redseat_rust.Access.Users.{RsError}
use redseat_rust.Encryption.{Bytes, Cbc, from_be_bytes}

-- How the code can fail: an error of `try_into`, or a panic where a subtraction underflows.
pub data Fault : Type 0 where
  crypt_error panicked : Fault

module _ (c : Cbc) where
  pub record AesTokioDecryptStream : Type 0 where
    pub writer : Bytes
    pub decryptor : Option c.State
    pub buffer : Bytes
    pub key : Bytes
    pub thumb_size : Option ℕ
    pub thumb_passed : Bool
    pub infos_size : Option ℕ
    pub infos_passed : Bool
    pub thumb_mime_passed : Bool
    pub file_mime_passed : Bool

  abbrev pub started : Bytes → Option Bytes → Option c.State
  started key none = none
  started key (some iv) = some (c.start key iv)

  unfoldable pub new_decrypt_stream : Bytes → Option Bytes → Result RsError AesTokioDecryptStream
  new_decrypt_stream key iv =
      if not (length key == 32)
      then err (RsError.message "Key must be 32 bytes")
      else ok (record {
        writer = [];
        decryptor = started key iv;
        buffer = [];
        key = key;
        thumb_size = none;
        thumb_passed = false;
        infos_size = none;
        infos_passed = false;
        thumb_mime_passed = false;
        file_mime_passed = false;
      })

  -- A step through the header: it goes on, or waits for more bytes by an early return.
  pub data Progress : Type 0 where
    goes_on waits : AesTokioDecryptStream → Progress

  abbrev pub then_step : Progress → (AesTokioDecryptStream → Progress) → Progress
  then_step (goes_on st) f = f st
  then_step (waits st) f = waits st

  abbrev pub is_none {ℓ} : {A : Type ℓ} → Option A → Bool
  is_none none = true
  is_none (some _) = false

  abbrev pub read_thumb_size : AesTokioDecryptStream → Progress
  read_thumb_size st =
      if is_none st.thumb_size
      then (if ltb (length st.buffer) 4
          then waits st
          else goes_on (record st {
            thumb_size = some (from_be_bytes (take 4 st.buffer));
            buffer = drop 4 st.buffer;
          }))
      else goes_on st

  abbrev pub read_infos_size : AesTokioDecryptStream → Progress
  read_infos_size st =
      if is_none st.infos_size
      then (if ltb (length st.buffer) 4
          then waits st
          else goes_on (record st {
            infos_size = some (from_be_bytes (take 4 st.buffer));
            buffer = drop 4 st.buffer;
          }))
      else goes_on st

  abbrev pub pass_thumb_mime : AesTokioDecryptStream → Progress
  pass_thumb_mime st =
      if not st.thumb_mime_passed
      then (if ltb (length st.buffer) 32
          then waits st
          else goes_on (record st { buffer = drop 32 st.buffer; thumb_mime_passed = true }))
      else goes_on st

  abbrev pub pass_file_mime : AesTokioDecryptStream → Progress
  pass_file_mime st =
      if not st.file_mime_passed
      then (if ltb (length st.buffer) 256
          then waits st
          else goes_on (record st { buffer = drop 256 st.buffer; file_mime_passed = true }))
      else goes_on st

  abbrev pub pass_thumb : AesTokioDecryptStream → Progress
  pass_thumb st =
      let thumb_size = unwrap_or st.thumb_size 0 in
      if not st.thumb_passed && ltb 0 thumb_size
      then (if ltb (length st.buffer) thumb_size
          then waits st
          else goes_on (record st { buffer = drop thumb_size st.buffer; thumb_passed = true }))
      else goes_on st

  abbrev pub pass_infos : AesTokioDecryptStream → Progress
  pass_infos st =
      let infos_size = unwrap_or st.infos_size 0 in
      if not st.infos_passed && ltb 0 infos_size
      then (if ltb (length st.buffer) infos_size
          then waits st
          else goes_on (record st { buffer = drop infos_size st.buffer; infos_passed = true }))
      else goes_on st

  unfoldable pub pass_header : AesTokioDecryptStream → Progress
  pass_header st =
      then_step
        (then_step
          (then_step (then_step (then_step (read_thumb_size st) read_infos_size) pass_thumb_mime)
            pass_file_mime)
          pass_thumb)
        pass_infos

  unfoldable pub decrypt_blocks : ℕ → c.State → Bytes → c.State × Bytes × Bytes
  decrypt_blocks zero s buffer = (s, [], buffer)
  decrypt_blocks (suc n) s buffer =
      let (s', block) = c.decrypt_block s (take 16 buffer) in
      let (s'', blocks, rest) = decrypt_blocks n s' (drop 16 buffer) in (s'', block ++ blocks, rest)

  abbrev pub decrypt_complete :
      AesTokioDecryptStream → c.State × Bytes × Bytes → AesTokioDecryptStream
  decrypt_complete st (s, blocks, rest) = record st {
    writer = st.writer ++ blocks;
    decryptor = some s;
    buffer = rest;
  }

  -- `(self.buffer.len() / self.block_size) - 1` underflows where no whole block is buffered.
  abbrev pub decrypt_buffer : c.State → Progress → Result Fault AesTokioDecryptStream
  decrypt_buffer s (waits st) = ok st
  decrypt_buffer s (goes_on st) =
      let complete_blocks = length st.buffer / 16 in
      if complete_blocks == 0
      then err panicked
      else ok (decrypt_complete st (decrypt_blocks (complete_blocks - 1) s st.buffer))

  abbrev pub read_iv : AesTokioDecryptStream → AesTokioDecryptStream
  read_iv st =
      if leb 16 (length st.buffer)
      then record st {
        decryptor = some (c.start st.key (take 16 st.buffer));
        buffer = drop 16 st.buffer;
      }
      else st

  -- The bytes are decrypted once the initial vector is there, which is read first.
  unfoldable pub decrypt_with :
      Option c.State → AesTokioDecryptStream → Result Fault AesTokioDecryptStream
  unfolding pass_header
  decrypt_with none st = ok (read_iv st)
  decrypt_with (some s) st = decrypt_buffer s (pass_header st)

  unfoldable pub write_decrypted :
      Bytes → AesTokioDecryptStream → Result Fault AesTokioDecryptStream
  unfolding decrypt_with
  write_decrypted input st = decrypt_with st.decryptor (record st { buffer = st.buffer ++ input })

  abbrev pub last_byte : Bytes → ℕ
  last_byte [] = 0
  last_byte (b ∷ []) = b
  last_byte (b ∷ bs) = last_byte bs

  -- `try_into` wants 16 bytes; the padding is cut off by its length, which underflows over 16.
  abbrev pub unpadded : Bytes → Result Fault Bytes
  unpadded block =
      if ltb (length block) (last_byte block)
      then err panicked
      else ok (take (length block - last_byte block) block)

  abbrev pub decrypt_last : AesTokioDecryptStream → c.State → Result Fault Bytes
  decrypt_last st s =
      if length st.buffer == 0
      then ok st.writer
      else if length st.buffer == 16
      then (unpadded (c.decrypt_block s st.buffer).1 >>= λ rest. ok (st.writer ++ rest))
      else err crypt_error

  unfoldable pub finalize_decrypt : AesTokioDecryptStream → Result Fault Bytes
  finalize_decrypt st = elim st.decryptor [ none ↦ ok st.writer | some s ↦ decrypt_last st s ]

  unfoldable pub decrypt_all : List Bytes → AesTokioDecryptStream → Result Fault Bytes
  unfolding write_decrypted finalize_decrypt
  decrypt_all [] st = finalize_decrypt st
  decrypt_all (input ∷ rest) st = write_decrypted input st >>= λ st'. decrypt_all rest st'
