-- ===== src/Zip/Directory.antt =====
-- The central directory as the ZIP format lays it out.
use redseat_rust.Base.{
  ℕ, zero, suc, ◌+◌, ◌-◌, ◌*◌, ◌/◌, ◌%◌, ◌<◌, ◌≡◌, ◌∙◌, refl, sym, ap, List, [], ◌∷◌, ◌++◌, length,
  length-append, take, drop, arith,
}
use redseat_rust.Zip.Utf8.{from_utf8_lossy}
use redseat_rust.Zip.{Found, byte_at, read_u16_le, read_u32_le}

-- What the entry of a page holds. `other i` is the byte at `i` of the fields that are not read.
pub record Entry : Type 0 where
  pub compression : ℕ
  pub compressed_size : ℕ
  pub local_offset : ℕ
  pub filename : List ℕ
  pub extra : List ℕ
  pub comment : List ℕ
  pub other : ℕ → ℕ

-- The numbers fit into their fields.
pub record Fits (e : Entry) : Type 0 where
  pub compression : e.compression < 65536
  pub compressed_size : e.compressed_size < 4294967296
  pub local_offset : e.local_offset < 4294967296
  pub filename : length e.filename < 65536
  pub extra : length e.extra < 65536
  pub comment : length e.comment < 65536

abbrev pub trailer : Entry → List ℕ → List ℕ
trailer e rest = e.filename ++ (e.extra ++ (e.comment ++ rest))

-- The fixed part of an entry, before the bytes that follow it.
abbrev pub fixed_part : Entry → List ℕ → List ℕ
fixed_part e bytes =
    80
    ∷ 75
    ∷ 1
    ∷ 2
    ∷ e.other 4
    ∷ e.other 5
    ∷ e.other 6
    ∷ e.other 7
    ∷ e.other 8
    ∷ e.other 9
    ∷ e.compression % 256
    ∷ e.compression / 256
    ∷ e.other 12
    ∷ e.other 13
    ∷ e.other 14
    ∷ e.other 15
    ∷ e.other 16
    ∷ e.other 17
    ∷ e.other 18
    ∷ e.other 19
    ∷ e.compressed_size % 256
    ∷ e.compressed_size / 256 % 256
    ∷ e.compressed_size / 65536 % 256
    ∷ e.compressed_size / 16777216
    ∷ e.other 24
    ∷ e.other 25
    ∷ e.other 26
    ∷ e.other 27
    ∷ length e.filename % 256
    ∷ length e.filename / 256
    ∷ length e.extra % 256
    ∷ length e.extra / 256
    ∷ length e.comment % 256
    ∷ length e.comment / 256
    ∷ e.other 34
    ∷ e.other 35
    ∷ e.other 36
    ∷ e.other 37
    ∷ e.other 38
    ∷ e.other 39
    ∷ e.other 40
    ∷ e.other 41
    ∷ e.local_offset % 256
    ∷ e.local_offset / 256 % 256
    ∷ e.local_offset / 65536 % 256
    ∷ e.local_offset / 16777216
    ∷ bytes

abbrev pub written : Entry → List ℕ → List ℕ
written e rest = fixed_part e (trailer e rest)

abbrev pub central_directory : List Entry → List ℕ → List ℕ
central_directory [] rest = rest
central_directory (e ∷ es) rest = written e (central_directory es rest)

-- What the walk is to read of it, the name decoded.
abbrev pub found_of : Entry → Found
found_of e = record {
  local_offset = e.local_offset;
  compressed_size = e.compressed_size;
  compression = e.compression;
  filename = from_utf8_lossy e.filename;
}

pub byte_at-drop : (xs : List ℕ) (p i : ℕ) → byte_at xs (p + i) ≡ byte_at (drop p xs) i
byte_at-drop xs zero i = ap (λ n. byte_at xs n) (omega arith)
byte_at-drop [] (suc p) i = refl
byte_at-drop (x ∷ xs) (suc p) i =
    let e : suc p + i ≡ suc (p + i) = omega arith in
    ap (λ n. byte_at (x ∷ xs) n) e ∙ byte_at-drop xs p i

drop-nil : (n : ℕ) → drop {A = ℕ} n [] ≡ []
drop-nil zero = refl
drop-nil (suc n) = refl

pub drop-drop : (xs : List ℕ) (p q : ℕ) → drop (p + q) xs ≡ drop q (drop p xs)
drop-drop xs zero q = ap (λ n. drop n xs) (omega arith)
drop-drop [] (suc p) q =
    let e : suc p + q ≡ suc (p + q) = omega arith in
    ap (λ n. drop {A = ℕ} n []) e ∙ sym (drop-nil q)
drop-drop (x ∷ xs) (suc p) q =
    let e : suc p + q ≡ suc (p + q) = omega arith in ap (λ n. drop n (x ∷ xs)) e ∙ drop-drop xs p q

pub drop-length : (xs ys : List ℕ) → drop (length xs) (xs ++ ys) ≡ ys
drop-length [] ys = refl
drop-length (x ∷ xs) ys = drop-length xs ys

pub take-length : (xs ys : List ℕ) → take (length xs) (xs ++ ys) ≡ xs
take-length [] ys = refl
take-length (x ∷ xs) ys = ap (λ zs. x ∷ zs) (take-length xs ys)

pub u16-drop : (xs : List ℕ) (p i : ℕ) → read_u16_le xs (p + i) ≡ read_u16_le (drop p xs) i
unfolding read_u16_le
u16-drop xs p i =
    let e : p + i + 1 ≡ p + (i + 1) = omega arith in
    rw (e, byte_at-drop xs p i, byte_at-drop xs p (i + 1)) refl

pub u32-drop : (xs : List ℕ) (p i : ℕ) → read_u32_le xs (p + i) ≡ read_u32_le (drop p xs) i
unfolding read_u32_le
u32-drop xs p i =
    let e : p + i + 1 ≡ p + (i + 1) = omega arith in
    let f : p + i + 2 ≡ p + (i + 2) = omega arith in
    let g : p + i + 3 ≡ p + (i + 3) = omega arith in
    rw
      (
        e,
        f,
        g,
        byte_at-drop xs p i,
        byte_at-drop xs p (i + 1),
        byte_at-drop xs p (i + 2),
        byte_at-drop xs p (i + 3),
      )
      refl

pub length-drop : (xs : List ℕ) (p : ℕ) → length (drop p xs) ≡ length xs - p
length-drop xs zero = omega arith
length-drop [] (suc p) = omega arith
length-drop (x ∷ xs) (suc p) = omega (arith, length-drop xs p)

two_bytes : (n : ℕ) → n < 65536 → n % 256 + 256 * (n / 256) ≡ n
two_bytes n h = omega arith

four_bytes :
    (n : ℕ)
    → n < 4294967296
    → n % 256 + 256 * (n / 256 % 256) + 65536 * (n / 65536 % 256) + 16777216 * (n / 16777216) ≡ n
four_bytes n h = omega arith

module _ (e : Entry) (rest : List ℕ) (f : Fits e) where
  pub written-compression : read_u16_le (written e rest) 10 ≡ e.compression
  unfolding read_u16_le
  written-compression = two_bytes e.compression f.compression

  pub written-filename : read_u16_le (written e rest) 28 ≡ length e.filename
  unfolding read_u16_le
  written-filename = two_bytes (length e.filename) f.filename

  pub written-extra : read_u16_le (written e rest) 30 ≡ length e.extra
  unfolding read_u16_le
  written-extra = two_bytes (length e.extra) f.extra

  pub written-comment : read_u16_le (written e rest) 32 ≡ length e.comment
  unfolding read_u16_le
  written-comment = two_bytes (length e.comment) f.comment

  pub written-size : read_u32_le (written e rest) 20 ≡ e.compressed_size
  unfolding read_u32_le
  written-size = four_bytes e.compressed_size f.compressed_size

  pub written-offset : read_u32_le (written e rest) 42 ≡ e.local_offset
  unfolding read_u32_le
  written-offset = four_bytes e.local_offset f.local_offset

pub length-trailer :
    (e : Entry) (rest : List ℕ)
    → length (trailer e rest) ≡ length e.filename + length e.extra + length e.comment + length rest
length-trailer e rest = omega (
  arith,
  length-append {0} e.filename (e.extra ++ (e.comment ++ rest)),
  length-append {0} e.extra (e.comment ++ rest),
  length-append {0} e.comment rest,
)

-- The entry is passed over as a whole.
pub drop-written :
    (e : Entry) (rest : List ℕ)
    → drop (46 + length e.filename + length e.extra + length e.comment) (written e rest) ≡ rest
drop-written e rest =
    drop-drop (written e rest) (46 + length e.filename + length e.extra) (length e.comment)
    ∙ ap (λ xs. drop (length e.comment) xs)
        (drop-drop (written e rest) (46 + length e.filename) (length e.extra)
          ∙ ap (λ xs. drop (length e.extra) xs)
              (drop-drop (written e rest) 46 (length e.filename)
                ∙ drop-length e.filename (e.extra ++ (e.comment ++ rest)))
          ∙ drop-length e.extra (e.comment ++ rest))
    ∙ drop-length e.comment rest
