-- ===== src/Sql/Texts.antt =====
-- Texts with `?` placeholders, and what SQLite reads once values are bound to them in order.
use Prim.Native.Char.{Char, code}
use redseat_rust.Base.{
  ℕ, suc, ◌+◌, ◌≡◌, ◌∙◌, ◌⊎◌, refl, sym, ap, String, ◌<>◌, Bool, true, false, List, [], ◌∷◌, ◌++◌,
  ◌==◌, nat_eq, length, length-append, if◌then◌else◌, arith, Bool-cases, inl, inr,
}
use text.Mathlib.TextLemmas
use text.Mathlib.TextLemmas.{append_assoc, cons-append, nil-append}

-- How many placeholders a text has.
abbrev pub placeholders : String → ℕ
placeholders String.[] = 0
placeholders (String.◌∷◌ c s) = if code c == b'?' then suc (placeholders s) else placeholders s

pub placeholders-append : (s t : String) → placeholders (s <> t) ≡ placeholders s + placeholders t
placeholders-append String.[] t = rw (nil-append t) (omega arith)
placeholders-append (String.◌∷◌ c s) t =
    rw (cons-append c s t) (ground (arith, placeholders-append s t))

-- `join` of a slice of texts.
abbrev pub join_more : String → List String → String
join_more separator [] = ""
join_more separator (t ∷ ts) = separator <> (t <> join_more separator ts)

abbrev pub join : String → List String → String
join separator [] = ""
join separator (t ∷ ts) = t <> join_more separator ts

module _ {V : Type 0} (show : V → String) where
  abbrev put : Bool → Char → List V → (List V → String) → String
  put true c (v ∷ vs) rest = show v <> rest vs
  put true c [] rest = String.◌∷◌ c (rest [])
  put false c vs rest = String.◌∷◌ c (rest vs)

  -- A text with the values in the places of its placeholders.
  abbrev pub bind_values : String → List V → String
  bind_values String.[] vs = ""
  bind_values (String.◌∷◌ c s) vs = put (code c == b'?') c vs (bind_values s)

  bind_values-append :
      (s t : String) (vs ws : List V)
      → placeholders s ≡ length vs
      → bind_values (s <> t) (vs ++ ws) ≡ bind_values s vs <> bind_values t ws
  bind_values-append String.[] t [] ws h = rw (nil-append t) (sym (nil-append (bind_values t ws)))
  bind_values-append String.[] t (v ∷ vs) ws h = ground arith
  bind_values-append (String.◌∷◌ c s) t vs ws h =
      rw (cons-append c s t)
        (split (λ us g. bind_values-append s t us ws g) (Bool-cases (code c == b'?')) vs h)
    where
      split :
          ((us : List V)
            → placeholders s ≡ length us
            → bind_values (s <> t) (us ++ ws) ≡ bind_values s us <> bind_values t ws)
          → (((code c == b'?') ≡ true) ⊎ ((code c == b'?') ≡ false))
          → (vs : List V) → placeholders (String.◌∷◌ c s) ≡ length vs
          → put (code c == b'?') c (vs ++ ws) (bind_values (s <> t))
            ≡ put (code c == b'?') c vs (bind_values s) <> bind_values t ws
      split ih (inl e) [] h = ground arith
      split ih (inl e) (v ∷ vs) h = rw e (
          ap (λ r. show v <> r) (ih vs (ground arith))
          ∙ sym (append_assoc (show v) (bind_values s vs) (bind_values t ws)))
      split ih (inr e) vs h = rw e (
          ap (λ r. String.◌∷◌ c r) (ih vs (ground arith))
          ∙ sym (cons-append c (bind_values s vs) (bind_values t ws)))

  -- A text takes as many values as it has placeholders, and with them it reads as the meaning.
  pub record Binds (text : String) (values : List V) (meaning : String) : Type 0 where
    pub counted : placeholders text ≡ length values
    pub reads : bind_values text values ≡ meaning

  pub Binds-append :
      (s t : String) (vs ws : List V) (m n : String)
      → Binds s vs m
      → Binds t ws n
      → Binds (s <> t) (vs ++ ws) (m <> n)
  Binds-append s t vs ws m n h k = record {
    counted = omega (arith, placeholders-append s t, length-append {0} vs ws, h.counted, k.counted);
    reads =
        bind_values-append s t vs ws h.counted
        ∙ ap (λ l. l <> bind_values t ws) h.reads
        ∙ ap (λ r. m <> r) k.reads;
  }

  bind_plain : (s : String) → placeholders s ≡ 0 → bind_values s [] ≡ s
  bind_plain String.[] h = refl
  bind_plain (String.◌∷◌ c s) h = elim (Bool-cases (code c == b'?')) [
    | inl e ↦ ground arith
    | inr e ↦ rw e (ap (λ r. String.◌∷◌ c r) (bind_plain s (ground arith)))
  ]

  pub Binds-plain : (s : String) → placeholders s ≡ 0 → Binds s [] s
  Binds-plain s h = record { counted = h; reads = bind_plain s h }

  pub Binds-mark : (v : V) → Binds "?" (v ∷ []) (show v)
  Binds-mark v = record { counted = refl; reads = TextLemmas.append-nil (show v) }
