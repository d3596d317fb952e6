-- ===== src/Encryption/Passing.antt =====
-- The decryption passes over the header that the encryption has written.
use redseat_rust.Base.{
  ℕ, zero, suc, ◌<◌, ◌≡◌, refl, ap, Bool, true, false, Option, none, some, [], ◌∷◌, ◌++◌, nat_eq,
  length, take, drop, ltb, if◌then◌else◌, arith, lt→ltb,
}
use redseat_rust.Encryption.{Bytes, Cbc, to_be_bytes, from_be_bytes, string_to_fixed_bytes}
use redseat_rust.Encryption.Sizes.{length-string_to_fixed_bytes}
use redseat_rust.Encryption.Reading.{
  AesTokioDecryptStream, Progress, goes_on, waits, read_thumb_size, read_infos_size,
  pass_thumb_mime, pass_file_mime, pass_thumb, pass_infos, pass_header,
}

-- A part of known length at the front of the buffer.
pub front :
    (n : ℕ) (a rest : Bytes)
    → length a ≡ n
    → (ltb (length (a ++ rest)) n ≡ false) × (take n (a ++ rest) ≡ a) × (drop n (a ++ rest) ≡ rest)
front zero [] rest h = (ground arith, refl, refl)
front zero (x ∷ a) rest h = absurd (omega (arith, h))
front (suc n) [] rest h = absurd (omega (arith, h))
front (suc n) (x ∷ a) rest h =
    let (enough, taken, dropped) = front n a rest (omega (arith, h)) in
    (ground (arith, enough), ap (λ b. x ∷ b) taken, dropped)

length-four_bytes : (n : ℕ) → length (to_be_bytes n) ≡ 4
unfolding to_be_bytes
length-four_bytes n = refl

pub from_be_bytes-to_be_bytes : (n : ℕ) → n < 4294967296 → from_be_bytes (to_be_bytes n) ≡ n
unfolding from_be_bytes to_be_bytes
from_be_bytes-to_be_bytes n h = omega (arith, h)

module _ (c : Cbc) (key w : Bytes) (s : c.State) where
  -- A stream on its way through the header.
  abbrev pub on_its_way :
      Option ℕ → Option ℕ → Bool → Bool → Bool → Bool → Bytes → AesTokioDecryptStream c
  on_its_way thumb_size infos_size thumb_mime file_mime thumb infos buffer = record {
    writer = w;
    decryptor = some s;
    buffer = buffer;
    key = key;
    thumb_size = thumb_size;
    thumb_passed = thumb;
    infos_size = infos_size;
    infos_passed = infos;
    thumb_mime_passed = thumb_mime;
    file_mime_passed = file_mime;
  }

  pass_front :
      (f : Bool → Bytes → Progress c) (st : AesTokioDecryptStream c) (n : ℕ) (a rest : Bytes)
      → length a ≡ n
      → (if ltb (length (a ++ rest)) n then waits st else f true (drop n (a ++ rest))) ≡ f true rest
  pass_front f st n a rest h =
      let (enough, taken, dropped) = front n a rest h in rw enough (ap (f true) dropped)

  pass_thumb-front :
      (thumb rest : Bytes) (i : ℕ)
      → pass_thumb c
          (on_its_way (some (length thumb)) (some i) true true false false (thumb ++ rest))
        ≡ goes_on
            (on_its_way (some (length thumb)) (some i) true true (ltb 0 (length thumb)) false rest)
  pass_thumb-front [] rest i = refl
  pass_thumb-front (x ∷ thumb) rest i =
      let positive = lt→ltb 0 (length (x ∷ thumb)) (omega arith) in
      rw positive (
        pass_front
          (λ b buffer.
            goes_on (on_its_way (some (length (x ∷ thumb))) (some i) true true b false buffer))
          (on_its_way (some (length (x ∷ thumb))) (some i) true true false false
            ((x ∷ thumb) ++ rest))
          (length (x ∷ thumb)) (x ∷ thumb) rest refl)

  pass_infos-front :
      (infos rest : Bytes) (t : ℕ) (p : Bool)
      → pass_infos c (on_its_way (some t) (some (length infos)) true true p false (infos ++ rest))
        ≡ goes_on
            (on_its_way (some t) (some (length infos)) true true p (ltb 0 (length infos)) rest)
  pass_infos-front [] rest t p = refl
  pass_infos-front (x ∷ infos) rest t p =
      let positive = lt→ltb 0 (length (x ∷ infos)) (omega arith) in
      rw positive (
        pass_front
          (λ b buffer.
            goes_on (on_its_way (some t) (some (length (x ∷ infos))) true true p b buffer))
          (on_its_way (some t) (some (length (x ∷ infos))) true true p false ((x ∷ infos) ++ rest))
          (length (x ∷ infos)) (x ∷ infos) rest refl)

  read_thumb_size-front :
      (size rest : Bytes)
      → length size ≡ 4
      → read_thumb_size c (on_its_way none none false false false false (size ++ rest))
        ≡ goes_on (on_its_way (some (from_be_bytes size)) none false false false false rest)
  read_thumb_size-front size rest h =
      let (enough, taken, dropped) = front 4 size rest h in rw (enough, taken, dropped) refl

  read_infos_size-front :
      (t : ℕ) (size rest : Bytes)
      → length size ≡ 4
      → read_infos_size c (on_its_way (some t) none false false false false (size ++ rest))
        ≡ goes_on (on_its_way (some t) (some (from_be_bytes size)) false false false false rest)
  read_infos_size-front t size rest h =
      let (enough, taken, dropped) = front 4 size rest h in rw (enough, taken, dropped) refl

  pass_thumb_mime-front :
      (t i : ℕ) (mime rest : Bytes)
      → length mime ≡ 32
      → pass_thumb_mime c (on_its_way (some t) (some i) false false false false (mime ++ rest))
        ≡ goes_on (on_its_way (some t) (some i) true false false false rest)
  pass_thumb_mime-front t i mime rest h =
      let (enough, taken, dropped) = front 32 mime rest h in rw (enough, dropped) refl

  pass_file_mime-front :
      (t i : ℕ) (mime rest : Bytes)
      → length mime ≡ 256
      → pass_file_mime c (on_its_way (some t) (some i) true false false false (mime ++ rest))
        ≡ goes_on (on_its_way (some t) (some i) true true false false rest)
  pass_file_mime-front t i mime rest h =
      let (enough, taken, dropped) = front 256 mime rest h in rw (enough, dropped) refl

  -- The whole header, whose sizes fit in four bytes: what follows it is left in the buffer.
  pub pass_header-front :
      (thumb infos thumb_mime file_mime rest : Bytes)
      → length thumb < 4294967296
      → length infos < 4294967296
      → pass_header c (
          on_its_way none none false false false false (
            to_be_bytes (length thumb)
            ++ (to_be_bytes (length infos)
                ++ (string_to_fixed_bytes thumb_mime 32
                    ++ (string_to_fixed_bytes file_mime 256 ++ (thumb ++ (infos ++ rest)))))))
        ≡ goes_on (
            on_its_way
              (some (length thumb))
              (some (length infos))
              true
              true
              (ltb 0 (length thumb))
              (ltb 0 (length infos))
              rest)
  unfolding pass_header
  pass_header-front thumb infos thumb_mime file_mime rest small_thumb small_infos =
      rw (read_thumb_size-front (to_be_bytes (length thumb)) _ (length-four_bytes (length thumb))) (
        rw (from_be_bytes-to_be_bytes (length thumb) small_thumb) (
          rw
            (read_infos_size-front (length thumb) (to_be_bytes (length infos)) _
              (length-four_bytes (length infos)))
            (rw (from_be_bytes-to_be_bytes (length infos) small_infos) (
              rw
                (pass_thumb_mime-front (length thumb) (length infos)
                  (string_to_fixed_bytes thumb_mime 32) _
                  (length-string_to_fixed_bytes thumb_mime 32))
                (rw
                  (pass_file_mime-front (length thumb) (length infos)
                    (string_to_fixed_bytes file_mime 256) _
                    (length-string_to_fixed_bytes file_mime 256))
                  (rw (pass_thumb-front thumb (infos ++ rest) (length infos))
                    (pass_infos-front infos rest (length thumb) (ltb 0 (length thumb)))))))))
