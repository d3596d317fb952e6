-- ===== src/Zip.antt =====
-- src/tools/zip_range.rs: one page of a ZIP archive that is read by ranges. The server and the
-- decompressor are parameters. A byte is a number, and a name the list of its code points.
mod Directory
mod Extracting
mod Tests
mod Utf8
mod Walking
use redseat_rust.Base.{
  ℕ, zero, suc, ◌+◌, ◌-◌, ◌*◌, ◌%◌, Bool, true, false, ◌&&◌, Option, none, some, List, [], ◌∷◌,
  ◌++◌, Result, ok, err, ◌>>=◌, length, take, drop, leb, ltb, ◌==◌, nat_eq, if◌then◌else◌,
  get_elem?, unwrap_or, map,
}
use mathlib.Core.Option
use redseat_rust.Zip.Utf8.{from_utf8_lossy}

pub data ZipError : Type 0 where
  bad_page no_eocd short_eocd long_filename short_header bad_data : ZipError
  request_failed : ZipError
  not_found : ℕ → ZipError
  unsupported : ℕ → ZipError

-- The bytes that are read are in range wherever the code reads them.
abbrev pub byte_at : List ℕ → ℕ → ℕ
byte_at [] i = 0
byte_at (b ∷ bs) zero = b
byte_at (b ∷ bs) (suc i) = byte_at bs i

unfoldable pub read_u16_le : List ℕ → ℕ → ℕ
read_u16_le bytes offset = byte_at bytes offset + 256 * byte_at bytes (offset + 1)

unfoldable pub read_u32_le : List ℕ → ℕ → ℕ
read_u32_le bytes offset =
    byte_at bytes offset
    + 256 * byte_at bytes (offset + 1)
    + 65536 * byte_at bytes (offset + 2)
    + 16777216 * byte_at bytes (offset + 3)

-- `data[start..end]`
abbrev pub slice : ℕ → ℕ → List ℕ → List ℕ
slice start end bytes = take (end - start) (drop start bytes)

-- Whether a slice of four bytes is a signature.
abbrev pub is_signature : ℕ → ℕ → List ℕ → ℕ → Bool
is_signature c d bytes pos =
    byte_at bytes pos == 80
    && (byte_at bytes (pos + 1) == 75
        && (byte_at bytes (pos + 2) == c && byte_at bytes (pos + 3) == d))

-- What an entry of the central directory says of its page.
pub record Found : Type 0 where
  pub local_offset : ℕ
  pub compressed_size : ℕ
  pub compression : ℕ
  pub filename : List ℕ

abbrev pub read_found : List ℕ → ℕ → ℕ → Result ZipError Found
read_found cd pos filename_end =
    if ltb (length cd) filename_end
    then err long_filename
    else ok (record {
      local_offset = read_u32_le cd (pos + 42);
      compressed_size = read_u32_le cd (pos + 20);
      compression = read_u16_le cd (pos + 10);
      filename = from_utf8_lossy (slice (pos + 46) filename_end cd);
    })

-- Where the entry after the one at `pos` begins.
unfoldable pub next_pos : List ℕ → ℕ → ℕ
next_pos cd pos =
    pos + (46 + read_u16_le cd (pos + 28) + read_u16_le cd (pos + 30) + read_u16_le cd (pos + 32))

-- The loop over the central directory. Each round goes on by 46 bytes or more.
unfoldable pub walk : ℕ → List ℕ → ℕ → ℕ → ℕ → Result ZipError Found
walk zero cd target_index pos entry_count = err (not_found entry_count)
walk (suc fuel) cd target_index pos entry_count =
    let rest = walk fuel cd target_index (next_pos cd pos) (entry_count + 1) in
    if leb (pos + 46) (length cd) && is_signature 1 2 cd pos
    then if entry_count == target_index
      then read_found cd pos (pos + 46 + read_u16_le cd (pos + 28))
      else rest
    else err (not_found entry_count)

unfoldable pub find_entry : List ℕ → ℕ → Result ZipError Found
find_entry cd page = walk (suc (length cd)) cd (page - 1) 0 0

-- The last window of four bytes that is the end signature.
unfoldable pub rposition : List ℕ → Option ℕ
rposition [] = none
rposition (b ∷ bs) = here_or (rposition bs)
  where
    here_or : Option ℕ → Option ℕ
    here_or (some i) = some (suc i)
    here_or none = if leb 4 (length (b ∷ bs)) && is_signature 5 6 (b ∷ bs) 0 then some 0 else none

-- `u64` minus one, which wraps around.
abbrev pub minus_one : ℕ → ℕ
minus_one n = (n + 18446744073709551615) % 18446744073709551616

-- The end record in the last bytes of the file.
abbrev pub end_at : List ℕ → Option ℕ → Result ZipError (List ℕ)
end_at tail none = err no_eocd
end_at tail (some eocd_rel) =
    let eocd = drop eocd_rel tail in if ltb (length eocd) 22 then err short_eocd else ok eocd

abbrev pub end_record : List ℕ → Result ZipError (List ℕ)
end_record tail = end_at tail (rposition tail)

abbrev pub check_header : List ℕ → Result ZipError (Unit {0})
check_header lh = if ltb (length lh) 30 then err short_header else ok tt

abbrev pub page_name : List ℕ → Option (List ℕ)
page_name [] = none
page_name (b ∷ bs) = some (b ∷ bs)

module _ (inflate : List ℕ → Result ZipError (List ℕ)) where
  unfoldable pub decompress : ℕ → List ℕ → Result ZipError (List ℕ)
  decompress compression compressed =
      if compression == 0
      then ok compressed
      else if compression == 8
      then inflate compressed
      else err (unsupported compression)

module _ (fetch_range : ℕ → ℕ → Result ZipError (List ℕ)) where
  -- The central directory, from the tail if it lies there.
  unfoldable pub directory : ℕ → List ℕ → ℕ → ℕ → Result ZipError (List ℕ)
  directory fetch_start tail cd_size cd_offset =
      if leb fetch_start cd_offset && leb (cd_offset - fetch_start + cd_size) (length tail)
      then ok (slice (cd_offset - fetch_start) (cd_offset - fetch_start + cd_size) tail)
      else fetch_range cd_offset (minus_one (cd_offset + cd_size))

  -- The compressed page behind a local header.
  abbrev pub fetch_page : ℕ → ℕ → Result ZipError (List ℕ)
  fetch_page data_start compressed_size =
      if ltb 0 compressed_size
      then fetch_range data_start (data_start + compressed_size - 1)
      else ok []

  module _ (inflate : List ℕ → Result ZipError (List ℕ)) where
    unfoldable pub read_page : Found → Result ZipError (List ℕ × Option (List ℕ))
    read_page found = do
      lh ← fetch_range found.local_offset (found.local_offset + 29)
      _ ← check_header lh
      compressed ←
          fetch_page (found.local_offset + 30 + read_u16_le lh 26 + read_u16_le lh 28)
            found.compressed_size
      content ← decompress inflate found.compression compressed
      ok (content, page_name found.filename)

    unfoldable pub extract_zip_page_from_request :
        ℕ → ℕ → Result ZipError (List ℕ × Option (List ℕ))
    extract_zip_page_from_request page file_size = if page == 0 then err bad_page else do
      tail ← fetch_range (file_size - 65536) (minus_one file_size)
      eocd ← end_record tail
      cd ← directory (file_size - 65536) tail (read_u32_le eocd 12) (read_u32_le eocd 16)
      found ← find_entry cd page
      read_page found
