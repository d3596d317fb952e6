-- ===== src/Zip/Utf8.antt =====
-- `String::from_utf8_lossy` of the standard library: a text is the list of its code points. A byte
-- that cannot stand where it stands ends the sequence before it; each such sequence, and each byte
-- that begins none, is one U+FFFD.
use redseat_rust.Base.{
  ℕ, zero, suc, ◌+◌, ◌-◌, ◌*◌, ◌≡◌, refl, Bool, true, ◌&&◌, List, [], ◌∷◌, ◌++◌, ltb, leb,
  if◌then◌else◌, All,
}

-- Between two characters, or within one: how many bytes it still needs, between which bounds the next
-- of them must lie, and the bits read so far.
pub data Decoding : Type 0 where
  ready : Decoding
  within : ℕ → ℕ → ℕ → ℕ → Decoding

abbrev pub replacement : ℕ
replacement = 65533

abbrev pub within_range : ℕ → ℕ → ℕ → Bool
within_range low high b = leb low b && leb b high

-- What the first byte of a character begins.
unfoldable pub first_byte : ℕ → List ℕ × Decoding
first_byte b =
    if ltb b 128
    then (b ∷ [], ready)
    else if within_range 194 223 b
    then ([], within 1 128 191 (b - 192))
    else if within_range 224 224 b
    then ([], within 2 160 191 0)
    else if within_range 237 237 b
    then ([], within 2 128 159 13)
    else if within_range 225 239 b
    then ([], within 2 128 191 (b - 224))
    else if within_range 240 240 b
    then ([], within 3 144 191 0)
    else if within_range 241 243 b
    then ([], within 3 128 191 (b - 240))
    else if within_range 244 244 b
    then ([], within 3 128 143 4)
    else (replacement ∷ [], ready)

abbrev continued : ℕ → ℕ → List ℕ × Decoding
continued zero bits = ([], ready)
continued (suc zero) bits = (bits ∷ [], ready)
continued (suc (suc needed)) bits = ([], within (suc needed) 128 191 bits)

abbrev after_replacement : List ℕ × Decoding → List ℕ × Decoding
after_replacement (text, state) = (replacement ∷ text, state)

unfoldable pub next_byte : Decoding → ℕ → List ℕ × Decoding
unfolding first_byte
next_byte ready b = first_byte b
next_byte (within needed low high bits) b =
    if within_range low high b
    then continued needed (64 * bits + (b - 128))
    else after_replacement (first_byte b)

-- A character that the end cuts short is replaced.
abbrev cut_short : Decoding → List ℕ
cut_short ready = []
cut_short (within _ _ _ _) = replacement ∷ []

unfoldable pub decode_lossy : Decoding → List ℕ → List ℕ
unfolding next_byte
decode_lossy state [] = cut_short state
decode_lossy state (b ∷ bytes) =
    let (text, state') = next_byte state b in text ++ decode_lossy state' bytes

abbrev pub from_utf8_lossy : List ℕ → List ℕ
from_utf8_lossy bytes = decode_lossy ready bytes

-- A name in ASCII is decoded to itself.
from_utf8_lossy_ascii :
    (bytes : List ℕ) → All (λ b. ltb b 128 ≡ true) bytes → from_utf8_lossy bytes ≡ bytes
unfolding decode_lossy next_byte first_byte
from_utf8_lossy_ascii [] h = refl
from_utf8_lossy_ascii (b ∷ bytes) h = rw h.0 (rw (from_utf8_lossy_ascii bytes h.1) refl)

-- `é`, `€` and an emoji.
decoded :
    from_utf8_lossy (195 ∷ 169 ∷ 226 ∷ 130 ∷ 172 ∷ 240 ∷ 159 ∷ 152 ∷ 128 ∷ [])
    ≡ 233 ∷ 8364 ∷ 128512 ∷ []
unfolding decode_lossy next_byte first_byte
decoded = refl

-- An emoji that is cut short, a surrogate, a byte that begins no character, and one cut by the end.
replaced :
    from_utf8_lossy (97 ∷ 240 ∷ 159 ∷ 152 ∷ 98 ∷ 237 ∷ 160 ∷ 128 ∷ 192 ∷ 195 ∷ [])
    ≡ 97 ∷ 65533 ∷ 98 ∷ 65533 ∷ 65533 ∷ 65533 ∷ 65533 ∷ 65533 ∷ []
unfolding decode_lossy next_byte first_byte
replaced = refl
