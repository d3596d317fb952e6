-- ===== src/Zip/Walking.antt =====
-- The walk over the central directory finds the entry of a page.
use redseat_rust.Base.{
  ℕ, zero, suc, ◌+◌, ◌-◌, ◌<◌, ◌≡◌, ◌∙◌, refl, ap, true, false, ◌==◌, nat_eq, nat_beq_iff, List, [],
  ◌∷◌, ◌++◌, length, drop, leb, ltb, All, arith, le→leb, leb→le, ltb→lt, Result, ok, err, Option,
  none, some, get_elem?,
}
use redseat_rust.Zip.{
  ZipError, not_found, Found, byte_at, slice, read_found, read_u16_le, read_u32_le, next_pos,
  is_signature, walk, find_entry,
}
use redseat_rust.Zip.Directory.{
  Entry, Fits, written, central_directory, found_of, byte_at-drop, drop-drop, take-length, u16-drop,
  u32-drop, length-drop, length-trailer, drop-written, written-compression, written-filename,
  written-extra, written-comment, written-size, written-offset,
}

-- What is found at an index of the entries, after `count` entries.
listed : ℕ → List Entry → ℕ → Result ZipError Found
listed count [] n = err (not_found count)
listed count (e ∷ es) zero = ok (found_of e)
listed count (e ∷ es) (suc n) = listed (count + 1) es n

-- An entry that stands at a position of the directory.
module _ (xs : List ℕ) (pos : ℕ) (e : Entry) (rest : List ℕ) (f : Fits e)
    (at : drop pos xs ≡ written e rest) where
  u16 : (i : ℕ) → read_u16_le xs (pos + i) ≡ read_u16_le (written e rest) i
  u16 i = u16-drop xs pos i ∙ ap (λ ys. read_u16_le ys i) at

  u32 : (i : ℕ) → read_u32_le xs (pos + i) ≡ read_u32_le (written e rest) i
  u32 i = u32-drop xs pos i ∙ ap (λ ys. read_u32_le ys i) at

  fits-length :
      pos + (46 + (length e.filename + length e.extra + length e.comment + length rest)) ≡ length xs
  fits-length = omega (arith, length-drop xs pos, ap (λ ys. length ys) at, length-trailer e rest)

  byte : (i : ℕ) → byte_at xs (pos + i) ≡ byte_at (written e rest) i
  byte i = byte_at-drop xs pos i ∙ ap (λ ys. byte_at ys i) at

  signed : is_signature 1 2 xs pos ≡ true
  signed =
      let e : pos ≡ pos + 0 = omega arith in
      let z : byte_at xs pos ≡ 80 = ap (λ n. byte_at xs n) e ∙ byte 0 in
      rw (z, byte 1, byte 2, byte 3) refl

  next : drop (next_pos xs pos) xs ≡ rest
  unfolding next_pos
  next =
      rw
        (
          u16 28,
          u16 30,
          u16 32,
          written-filename e rest f,
          written-extra e rest f,
          written-comment e rest f,
        )
        (drop-drop xs pos (46 + length e.filename + length e.extra + length e.comment)
          ∙ ap (λ ys. drop (46 + length e.filename + length e.extra + length e.comment) ys) at
          ∙ drop-written e rest)

  name : slice (pos + 46) (pos + 46 + length e.filename) xs ≡ e.filename
  name =
      let d : pos + 46 + length e.filename - (pos + 46) ≡ length e.filename = omega arith in
      rw (d, drop-drop xs pos 46, at) (take-length e.filename (e.extra ++ (e.comment ++ rest)))

  read : read_found xs pos (pos + 46 + read_u16_le xs (pos + 28)) ≡ ok (found_of e)
  read =
      rw
        (
          u16 28,
          written-filename e rest f,
          short,
          u32 42,
          written-offset e rest f,
          u32 20,
          written-size e rest f,
          u16 10,
          written-compression e rest f,
          name,
        )
        refl
    where
      short : ltb (length xs) (pos + 46 + length e.filename) ≡ false
      short = ground (arith, fits-length, ltb→lt (length xs) (pos + 46 + length e.filename))

  room : leb (pos + 46) (length xs) ≡ true
  room = le→leb (pos + 46) (length xs) (omega (arith, fits-length))

walk-listed :
    (k : ℕ) (xs : List ℕ) (es : List Entry) (pos count n : ℕ)
    → drop pos xs ≡ central_directory es []
    → All Fits es
    → length (central_directory es []) < k
    → walk k xs (count + n) pos count ≡ listed count es n
unfolding walk listed
walk-listed zero xs es pos count n at f h = absurd (omega (arith, h))
walk-listed (suc k) xs [] pos count n at f h =
    let out : leb (pos + 46) (length xs) ≡ false =
      ground (arith, length-drop xs pos, ap (λ ys. length ys) at, leb→le (pos + 46) (length xs)) in
    rw out refl
walk-listed (suc k) xs (e ∷ es) pos count zero at f h =
    let here : (count == count + 0) ≡ true = (nat_beq_iff count (count + 0)).1 (omega arith) in
    let r = central_directory es [] in
    rw (room xs pos e r f.0 at, signed xs pos e r f.0 at, here) (read xs pos e r f.0 at)
walk-listed (suc k) xs (e ∷ es) pos count (suc n) at f h =
    let later : (count == count + suc n) ≡ false =
      ground (arith, nat_beq_iff count (count + suc n)) in
    let t : count + suc n ≡ (count + 1) + n = omega arith in
    let r = central_directory es [] in
    rw (room xs pos e r f.0 at, signed xs pos e r f.0 at, later, t)
      (walk-listed k xs es (next_pos xs pos) (count + 1) n (next xs pos e r f.0 at) f.1
        (omega (arith, h, length-trailer e r)))

abbrev pub page_entry : ℕ → Option Entry → Result ZipError Found
page_entry count none = err (not_found count)
page_entry count (some e) = ok (found_of e)

listed-get :
    (count : ℕ) (es : List Entry) (n : ℕ)
    → listed count es n ≡ page_entry (count + length es) (get_elem? es n)
unfolding listed
listed-get count [] n = ap (λ k. err (not_found k)) (omega arith)
listed-get count (e ∷ es) zero = refl
listed-get count (e ∷ es) (suc n) =
    let s : count + 1 + length es ≡ count + suc (length es) = omega arith in
    listed-get (count + 1) es n ∙ ap (λ k. page_entry k (get_elem? es n)) s

-- In the central directory of entries whose numbers fit into their fields, the walk finds for a
-- page the numbers of its entry as they were written and its name, decoded, and says how many entries
-- there are if the page is beyond them.
pub find_entry-central_directory :
    (es : List Entry) (n : ℕ)
    → All Fits es
    → find_entry (central_directory es []) (suc n) ≡ page_entry (length es) (get_elem? es n)
unfolding find_entry
find_entry-central_directory es n f =
    let xs = central_directory es [] in
    let i : suc n - 1 ≡ 0 + n = omega arith in
    let c : 0 + length es ≡ length es = omega arith in
    rw i (
      walk-listed (suc (length xs)) xs es 0 0 n refl f (omega arith)
      ∙ listed-get 0 es n
      ∙ ap (λ k. page_entry k (get_elem? es n)) c)

short : (cd : List ℕ) (pos : ℕ) → length cd < pos → leb (pos + 46) (length cd) ≡ false
short cd pos h = ground (arith, h, leb→le (pos + 46) (length cd))

-- The walk ends: whatever the directory holds, more rounds than it has bytes left give one result.
pub walk-enough :
    (k l : ℕ) (cd : List ℕ) (target_index pos entry_count : ℕ)
    → length cd < pos + k
    → length cd < pos + l
    → walk k cd target_index pos entry_count ≡ walk l cd target_index pos entry_count
unfolding walk next_pos
walk-enough zero zero cd t pos c h g = refl
walk-enough zero (suc l) cd t pos c h g = rw (short cd pos (omega (arith, h))) refl
walk-enough (suc k) zero cd t pos c h g = rw (short cd pos (omega (arith, g))) refl
walk-enough (suc k) (suc l) cd t pos c h g =
    rw (walk-enough k l cd t (next_pos cd pos) (c + 1) (omega (arith, h)) (omega (arith, g))) refl
