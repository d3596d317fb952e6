-- ===== src/Zip/Tests.antt =====
-- The theorems on archives at a file with one stored page.
use redseat_rust.Base.{
  ℕ, ◌≡◌, refl, List, [], ◌∷◌, ◌++◌, length, arith, none, Result, ok, err, ◌>>=◌,
}
use redseat_rust.Zip.Utf8.{from_utf8_lossy}
use redseat_rust.Zip.{
  ZipError, bad_data, walk, find_entry, extract_zip_page_from_request, decompress, page_name,
  rposition, read_u32_le, read_u16_le,
}
use redseat_rust.Zip.Directory.{Entry, Fits, central_directory}
use redseat_rust.Zip.Walking.{page_entry, find_entry-central_directory, walk-enough}
use redseat_rust.Zip.Extracting.{serve, IsArchive, HasContent, extract-page}

abbrev page : Entry
page = record {
  compression = 0;
  compressed_size = 2;
  local_offset = 0;
  filename = 97 ∷ [];
  extra = [];
  comment = [];
  other = λ i. 0;
}

page-Fits : Fits page
page-Fits = record {
  compression = omega arith;
  compressed_size = omega arith;
  local_offset = omega arith;
  filename = omega arith;
  extra = omega arith;
  comment = omega arith;
}

abbrev local_header : List ℕ
local_header =
    80 ∷ 75 ∷ 3 ∷ 4 ∷ 0 ∷ 0 ∷ 0 ∷ 0 ∷ 0 ∷ 0 ∷ 0 ∷ 0 ∷ 0 ∷ 0 ∷ 0 ∷ 0 ∷ 0 ∷ 0 ∷ 0 ∷ 0 ∷ 0 ∷ 0 ∷ 0 ∷ 0
    ∷ 0 ∷ 0 ∷ 1 ∷ 0 ∷ 0 ∷ 0 ∷ []

abbrev content : List ℕ
content = 104 ∷ 105 ∷ []

abbrev eocd : List ℕ
eocd =
    80 ∷ 75 ∷ 5 ∷ 6 ∷ 0 ∷ 0 ∷ 0 ∷ 0 ∷ 0 ∷ 0 ∷ 0 ∷ 0 ∷ 47 ∷ 0 ∷ 0 ∷ 0 ∷ 33 ∷ 0 ∷ 0 ∷ 0 ∷ 0 ∷ 0 ∷ []

abbrev archive : List ℕ
archive = local_header ++ (97 ∷ content) ++ central_directory (page ∷ []) eocd

no_inflate : List ℕ → Result ZipError (List ℕ)
no_inflate bytes = err bad_data

archive-IsArchive : IsArchive archive (page ∷ [])
unfolding read_u32_le rposition
archive-IsArchive = record {
  eocd_rel = 80;
  rest = eocd;
  is_last = refl;
  is_whole = omega arith;
  cd_size = refl;
  cd_place = refl;
  cd_bound = omega arith;
  file_bound = omega arith;
}

page-HasContent : HasContent archive page content
unfolding read_u16_le
page-HasContent = record {
  lh = local_header;
  skipped = 97 ∷ [];
  rest = central_directory (page ∷ []) eocd;
  place = refl;
  lh_length = refl;
  skipped_length = refl;
  content_length = refl;
}

extract-page_example :
    extract_zip_page_from_request (serve archive) no_inflate 1 (length archive)
    ≡ (decompress no_inflate 0 content >>= λ c. ok (c, page_name (from_utf8_lossy (97 ∷ []))))
extract-page_example =
    extract-page archive no_inflate (page ∷ []) 0 content archive-IsArchive (page-Fits, tt) refl
      page-HasContent

find_entry-central_directory_example :
    find_entry (central_directory (page ∷ []) []) 2 ≡ page_entry 1 none
find_entry-central_directory_example = find_entry-central_directory (page ∷ []) 1 (page-Fits, tt)

walk-enough_example : walk 3 (80 ∷ 75 ∷ []) 0 0 0 ≡ walk 7 (80 ∷ 75 ∷ []) 0 0 0
walk-enough_example = walk-enough 3 7 (80 ∷ 75 ∷ []) 0 0 0 (omega arith) (omega arith)
