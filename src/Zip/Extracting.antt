-- ===== src/Zip/Extracting.antt =====
-- A page of an archive is read out of the ranges of its file.
use redseat_rust.Base.{
  ℕ, suc, ◌+◌, ◌-◌, ◌<◌, ◌≤◌, ◌≡◌, ◌∙◌, refl, sym, ap, false, ◌==◌, nat_eq, nat_beq_iff, List, [],
  ◌∷◌, ◌++◌, append_assoc, append-nil, length, take, drop, leb, ltb, All, arith, Bool-cases, inl,
  inr, ltb→lt, lt→ltb, leb→le, Result, ok, ◌>>=◌, some, get_elem?,
}
use redseat_rust.Zip.Utf8.{from_utf8_lossy}
use redseat_rust.Zip.{
  ZipError, slice, read_u16_le, read_u32_le, rposition, minus_one, end_record, directory,
  decompress, page_name, fetch_page, read_page, find_entry, extract_zip_page_from_request,
}
use redseat_rust.Zip.Directory.{
  Entry, Fits, fixed_part, trailer, central_directory, found_of, drop-drop, take-length,
  drop-length, length-drop,
}
use redseat_rust.Zip.Walking.{page_entry, find_entry-central_directory}

-- A server that answers with the bytes of a file, both ends of the range included.
abbrev pub serve : List ℕ → ℕ → ℕ → Result ZipError (List ℕ)
serve file start end = ok (slice start (suc end) file)

-- The last bytes of a file, and the end record in them.
abbrev pub tail_of : List ℕ → List ℕ
tail_of file = drop (length file - 65536) file

abbrev pub eocd_of : List ℕ → ℕ → List ℕ
eocd_of file eocd_rel = drop eocd_rel (tail_of file)

-- The end record of a file leads to the central directory of the entries.
pub record IsArchive (file : List ℕ) (es : List Entry) : Type 0 where
  pub eocd_rel : ℕ
  pub rest : List ℕ
  pub is_last : rposition (tail_of file) ≡ some eocd_rel
  pub is_whole : 22 ≤ length (eocd_of file eocd_rel)
  pub cd_size : read_u32_le (eocd_of file eocd_rel) 12 ≡ length (central_directory es [])
  pub cd_place : drop (read_u32_le (eocd_of file eocd_rel) 16) file ≡ central_directory es rest
  pub cd_bound :
      read_u32_le (eocd_of file eocd_rel) 16 + length (central_directory es [])
      < 18446744073709551616
  pub file_bound : length file < 18446744073709551616

-- The content of an entry stands behind its local header.
pub record HasContent (file : List ℕ) (e : Entry) (content : List ℕ) : Type 0 where
  pub lh : List ℕ
  pub skipped : List ℕ
  pub rest : List ℕ
  pub place : drop e.local_offset file ≡ lh ++ (skipped ++ (content ++ rest))
  pub lh_length : length lh ≡ 30
  pub skipped_length : length skipped ≡ read_u16_le lh 26 + read_u16_le lh 28
  pub content_length : length content ≡ e.compressed_size

trailer-append : (e : Entry) (r s : List ℕ) → trailer e (r ++ s) ≡ trailer e r ++ s
trailer-append e r s =
    rw
      (
        append_assoc e.filename (e.extra ++ (e.comment ++ r)) s,
        append_assoc e.extra (e.comment ++ r) s,
        append_assoc e.comment r s,
      )
      refl

central_directory-append :
    (es : List Entry) (rest : List ℕ) → central_directory es rest ≡ central_directory es [] ++ rest
central_directory-append [] rest = refl
central_directory-append (e ∷ es) rest =
    ap (λ t. fixed_part e (trailer e t)) (central_directory-append es rest)
    ∙ ap (λ t. fixed_part e t) (trailer-append e (central_directory es []) rest)

take-prefix : (xs ys zs : List ℕ) {n : ℕ} → zs ≡ xs ++ ys → n ≡ length xs → take n zs ≡ xs
take-prefix xs ys zs e h = rw (e, h) (take-length xs ys)

drop-prefix : (xs ys zs : List ℕ) {n : ℕ} → zs ≡ xs ++ ys → n ≡ length xs → drop n zs ≡ ys
drop-prefix xs ys zs e h = rw (e, h) (drop-length xs ys)

no_length : (xs : List ℕ) → length xs ≡ 0 → xs ≡ []
no_length [] h = refl
no_length (x ∷ xs) h = absurd (omega (arith, h))

some_bytes :
    (es : List Entry) (n : ℕ) {e : Entry}
    → get_elem? es n ≡ some e
    → 0 < length (central_directory es [])
some_bytes [] n h = cc
some_bytes (e ∷ es) n h = omega arith

end_found :
    (file : List ℕ) (i : ℕ)
    → rposition (tail_of file) ≡ some i
    → 22 ≤ length (eocd_of file i)
    → end_record (tail_of file) ≡ ok (eocd_of file i)
end_found file i h l =
    let short : ltb (length (eocd_of file i)) 22 ≡ false =
      ground (arith, l, ltb→lt (length (eocd_of file i)) 22) in
    rw (h, short) refl

-- The bytes of a range that is served.
served :
    (file xs rest : List ℕ) (start end : ℕ)
    → drop start file ≡ xs ++ rest
    → suc end - start ≡ length xs
    → slice start (suc end) file ≡ xs
served file xs rest start end h e = take-prefix xs rest (drop start file) h e

module _ (file : List ℕ) where
  past_header :
      (start a b : ℕ) (lh skipped rest : List ℕ)
      → drop start file ≡ lh ++ (skipped ++ rest)
      → length lh ≡ 30
      → length skipped ≡ a + b
      → drop (start + 30 + a + b) file ≡ rest
  past_header start a b lh skipped rest h l s =
      let e : start + 30 + a + b ≡ start + (30 + (a + b)) = omega arith in
      ap (λ n. drop n file) e
      ∙ drop-drop file start (30 + (a + b))
      ∙ ap (λ ys. drop (30 + (a + b)) ys) h
      ∙ drop-drop (lh ++ (skipped ++ rest)) 30 (a + b)
      ∙ ap (λ ys. drop (a + b) ys)
          (drop-prefix lh (skipped ++ rest) (lh ++ (skipped ++ rest)) refl (sym l))
      ∙ drop-prefix skipped rest (skipped ++ rest) refl (sym s)

  whole_tail :
      0 < length file
      → length file < 18446744073709551616
      → slice (length file - 65536) (suc (minus_one (length file))) file ≡ tail_of file
  whole_tail p b =
      served file (tail_of file) [] (length file - 65536) (minus_one (length file))
        (sym (append-nil (tail_of file)))
        (omega (arith, length-drop file (length file - 65536), p, b))

  -- The central directory, from the tail or from the server.
  directory-place :
      (fetch_start cd_size cd_offset : ℕ) (xs rest : List ℕ)
      → drop cd_offset file ≡ xs ++ rest
      → cd_size ≡ length xs
      → 0 < cd_offset + cd_size
      → cd_offset + cd_size < 18446744073709551616
      → directory (serve file) fetch_start (drop fetch_start file) cd_size cd_offset ≡ ok xs
  unfolding directory
  directory-place fetch_start cd_size cd_offset xs rest h s p b =
      elim (Bool-cases (leb fetch_start cd_offset)) [
        | inl e ↦
            let t : fetch_start + (cd_offset - fetch_start) ≡ cd_offset =
              omega (arith, leb→le fetch_start cd_offset e) in
            let d : drop (cd_offset - fetch_start) (drop fetch_start file) ≡ xs ++ rest =
              sym (drop-drop file fetch_start (cd_offset - fetch_start))
              ∙ ap (λ n. drop n file) t
              ∙ h in
            elim (Bool-cases
              (leb (cd_offset - fetch_start + cd_size) (length (drop fetch_start file)))) [
                | inl g ↦
                    rw (e, g)
                      (ap (λ ys. ok ys)
                        (take-prefix xs rest
                          (drop (cd_offset - fetch_start) (drop fetch_start file)) d
                          (omega (arith, s))))
                | inr g ↦ rw (e, g) (ap (λ ys. ok ys) far)
              ]
        | inr e ↦ rw e (ap (λ ys. ok ys) far)
      ]
    where
      far : slice cd_offset (suc (minus_one (cd_offset + cd_size))) file ≡ xs
      far =
          served file xs rest cd_offset (minus_one (cd_offset + cd_size)) h (omega (arith, s, p, b))

  module _ (inflate : List ℕ → Result ZipError (List ℕ)) where
    fetched :
        (start size : ℕ) (content rest : List ℕ)
        → drop start file ≡ content ++ rest
        → length content ≡ size
        → fetch_page (serve file) start size ≡ ok content
    fetched start size content rest h s = elim (Bool-cases (ltb 0 size)) [
      | inl e ↦ rw e (
          ap (λ ys. ok ys)
            (served file content rest start (start + size - 1) h
              (omega (arith, s, ltb→lt 0 size e))))
      | inr e ↦ rw e (ap (λ ys. ok ys) (sym (no_length content (ground (arith, s, lt→ltb 0 size)))))
    ]

    read_page-content :
        (e : Entry) (content : List ℕ)
        → HasContent file e content
        → read_page (serve file) inflate (found_of e) ≡ (
            decompress inflate e.compression content >>= λ c.
            ok (c, page_name (from_utf8_lossy e.filename)))
    unfolding read_page
    read_page-content e content h =
        let head : slice e.local_offset (suc (e.local_offset + 29)) file ≡ h.lh =
          served file h.lh (h.skipped ++ (content ++ h.rest)) e.local_offset (e.local_offset + 29)
            h.place (omega (arith, h.lh_length)) in
        let whole : ltb (length h.lh) 30 ≡ false = rw h.lh_length refl in
        let behind : drop (e.local_offset + 30 + read_u16_le h.lh 26 + read_u16_le h.lh 28) file
            ≡ content ++ h.rest =
          past_header e.local_offset (read_u16_le h.lh 26) (read_u16_le h.lh 28) h.lh h.skipped
            (content ++ h.rest) h.place h.lh_length h.skipped_length in
        rw (head, whole, fetched _ e.compressed_size content h.rest behind h.content_length) refl

    -- For a file whose end record leads to the central directory of its entries, and a page whose
    -- content stands behind its local header, what is extracted is the content, decompressed, and the
    -- name of the entry, decoded (none if it is empty), whether the central directory lies in the tail
    -- of the file or before it.
    pub extract-page :
        (es : List Entry) (n : ℕ) {e : Entry} (content : List ℕ)
        → IsArchive file es
        → All Fits es
        → get_elem? es n ≡ some e
        → HasContent file e content
        → extract_zip_page_from_request (serve file) inflate (suc n) (length file) ≡ (
            decompress inflate e.compression content >>= λ c.
            ok (c, page_name (from_utf8_lossy e.filename)))
    unfolding extract_zip_page_from_request
    extract-page es n {e} content a f h c =
        let eocd = eocd_of file a.eocd_rel in
        let size : 0 < length file = omega (
          arith,
          length-drop (tail_of file) a.eocd_rel,
          length-drop file (length file - 65536),
          a.is_whole,
        ) in
        let tail : slice (length file - 65536) (suc (minus_one (length file))) file ≡ tail_of file =
          whole_tail size a.file_bound in
        let ended : end_record (tail_of file) ≡ ok eocd =
          end_found file a.eocd_rel a.is_last a.is_whole in
        let found : find_entry (central_directory es []) (suc n) ≡ ok (found_of e) =
          find_entry-central_directory es n f ∙ ap (λ o. page_entry (length es) o) h in
        let place : directory (serve file) (length file - 65536) (tail_of file)
              (read_u32_le eocd 12) (read_u32_le eocd 16)
            ≡ ok (central_directory es []) =
          directory-place (length file - 65536) (read_u32_le eocd 12) (read_u32_le eocd 16)
            (central_directory es []) a.rest (a.cd_place ∙ central_directory-append es a.rest)
            a.cd_size (omega (arith, a.cd_size, some_bytes es n h))
            (omega (arith, a.cd_size, a.cd_bound)) in
        let page : (suc n == 0) ≡ false = ground (arith, nat_beq_iff (suc n) 0) in
        rw (page, tail, ended, place, found) (read_page-content e content c)
