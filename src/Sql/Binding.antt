-- ===== src/Sql/Binding.antt =====
-- What the conditions read as with their values in place.
use redseat_rust.Base.{◌≡◌, refl, subst, append-nil, String, ◌<>◌, List, [], ◌∷◌, map}
use redseat_rust.Sql.{
  SqlWhereType, like, equal, after, before, greater_or_equal, smaller_or_equal, custom, between,
  within, not_in, static, separated_contain, in_string_list, equal_with_alt, any_of, all_of,
  SqlWheres, nil, cons, marks, like_start, like_end, expand, expand_all,
}
use redseat_rust.Sql.Texts.{
  placeholders, placeholders-append, join, join_more, bind_values, Binds, Binds-append, Binds-plain,
  Binds-mark,
}

module _ {V : Type 0} (show : V → String) where
  -- The condition with the values written where they belong.
  unfoldable mutual
    pub meaning : SqlWhereType V → String
    meaning (equal name value) = name <> (" = " <> show value)
    meaning (like name value) = name <> (" like " <> show value)
    meaning (custom text value) = bind_values show text (value ∷ [])
    meaning (after name value) = name <> (" > " <> show value)
    meaning (before name value) = name <> (" < " <> show value)
    meaning (greater_or_equal name value) = name <> (" >= " <> show value)
    meaning (smaller_or_equal name value) = name <> (" <= " <> show value)
    meaning (between name down up) = name <> (" BETWEEN " <> (show down <> (" and " <> show up)))
    meaning (within name ins) = name <> (" in (" <> (join ", " (map show ins) <> ")"))
    meaning (not_in name ins) = name <> (" not in (" <> (join ", " (map show ins) <> ")"))
    meaning (in_string_list name separator value) =
        "(" <> (like_start separator name <> (show value <> (like_end separator <> ")")))
    meaning (equal_with_alt name alt separator value) =
        "( "
        <> (name
            <> (" = "
                <> (show value
                    <> (" COLLATE NOCASE or  "
                        <> (like_start separator alt
                            <> (show value <> (like_end separator <> ")")))))))
    meaning (separated_contain name separator value) =
        like_start separator name <> (show value <> like_end separator)
    meaning (static s) = s
    meaning (any_of ws) = "(" <> (join " or " (meanings ws) <> ")")
    meaning (all_of ws) = "(" <> (join " and " (meanings ws) <> ")")

    pub meanings : SqlWheres V → List String
    meanings nil = []
    meanings (cons w ws) = meaning w ∷ meanings ws

-- Columns, separators and static conditions have no placeholder, a custom condition has one.
abbrev pub NoMark : String → Type 0
NoMark s = placeholders s ≡ 0

unfoldable mutual
  pub IsPlain : {V : Type 0} → SqlWhereType V → Type 0
  IsPlain (equal name _) = NoMark name
  IsPlain (like name _) = NoMark name
  IsPlain (custom text _) = placeholders text ≡ 1
  IsPlain (after name _) = NoMark name
  IsPlain (before name _) = NoMark name
  IsPlain (greater_or_equal name _) = NoMark name
  IsPlain (smaller_or_equal name _) = NoMark name
  IsPlain (between name _ _) = NoMark name
  IsPlain (within name _) = NoMark name
  IsPlain (not_in name _) = NoMark name
  IsPlain (in_string_list name separator _) = NoMark name × NoMark separator
  IsPlain (equal_with_alt name alt separator _) = NoMark name × NoMark alt × NoMark separator
  IsPlain (separated_contain name separator _) = NoMark name × NoMark separator
  IsPlain (static s) = NoMark s
  IsPlain (any_of ws) = ArePlain ws
  IsPlain (all_of ws) = ArePlain ws

  pub ArePlain : {V : Type 0} → SqlWheres V → Type 0
  ArePlain nil = Unit
  ArePlain (cons w ws) = IsPlain w × ArePlain ws

module _ {V : Type 0} (show : V → String) where
  nothing : Binds show "" [] ""
  nothing = record { counted = refl; reads = refl }

  -- A text without placeholders before, and after, a text that binds.
  pub before-Binds :
      (s t : String) (vs : List V) (m : String)
      → NoMark s
      → Binds show t vs m
      → Binds show (s <> t) vs (s <> m)
  before-Binds s t vs m h k = Binds-append show s t [] vs s m (Binds-plain show s h) k

  mark-Binds :
      (t : String) (v : V) (vs : List V) (m : String)
      → Binds show t vs m
      → Binds show ("?" <> t) (v ∷ vs) (show v <> m)
  mark-Binds t v vs m k = Binds-append show "?" t (v ∷ []) vs (show v) m (Binds-mark show v) k

  like_start-NoMark :
      (separator column : String)
      → NoMark separator
      → NoMark column
      → NoMark (like_start separator column)
  like_start-NoMark separator column h k = simp (placeholders-append, h, k)

  like_end-NoMark : (separator : String) → NoMark separator → NoMark (like_end separator)
  like_end-NoMark separator h = simp (placeholders-append, h)

  column-Binds :
      (name operator : String) (v : V)
      → NoMark name
      → NoMark operator
      → Binds show (name <> (operator <> "?")) (v ∷ []) (name <> (operator <> show v))
  column-Binds name operator v h k =
      before-Binds name _ (v ∷ []) _ h
        (before-Binds operator "?" (v ∷ []) (show v) k (Binds-mark show v))

  marks_more-Binds :
      (vs : List V)
      → Binds show (join_more ", " (map (λ _. "?") vs)) vs (join_more ", " (map show vs))
  marks_more-Binds [] = nothing
  marks_more-Binds (v ∷ vs) =
      before-Binds ", " _ (v ∷ vs) _ refl (mark-Binds _ v vs _ (marks_more-Binds vs))

  marks-Binds : (vs : List V) → Binds show (marks vs) vs (join ", " (map show vs))
  marks-Binds [] = nothing
  marks-Binds (v ∷ vs) = mark-Binds _ v vs _ (marks_more-Binds vs)

  pub after-Binds :
      (s t : String) (vs : List V) (m : String)
      → Binds show s vs m
      → NoMark t
      → Binds show (s <> t) vs (m <> t)
  after-Binds s t vs m h k =
      subst (λ l. Binds show (s <> t) l (m <> t)) (append-nil vs)
        (Binds-append show s t vs [] m t h (Binds-plain show t k))

  list-Binds :
      (name opening : String) (ins : List V)
      → NoMark name
      → NoMark opening
      → Binds show
          (name <> (opening <> (marks ins <> ")")))
          ins
          (name <> (opening <> (join ", " (map show ins) <> ")")))
  list-Binds name opening ins h k =
      before-Binds name _ ins _ h
        (before-Binds opening _ ins _ k (after-Binds (marks ins) ")" ins _ (marks-Binds ins) refl))

  contain-Binds :
      (separator column rest : String) (v : V) (vs : List V) (m : String)
      → NoMark separator
      → NoMark column
      → Binds show rest vs m
      → Binds show
          (like_start separator column <> ("?" <> (like_end separator <> rest)))
          (v ∷ vs)
          (like_start separator column <> (show v <> (like_end separator <> m)))
  contain-Binds separator column rest v vs m h k r =
      before-Binds (like_start separator column) _ (v ∷ vs) _
        (like_start-NoMark separator column h k)
        (mark-Binds _ v vs _
          (before-Binds (like_end separator) rest vs m (like_end-NoMark separator h) r))

  mutual
    unfolding expand meaning IsPlain

    expand-Binds_any :
        (w : SqlWhereType V) → IsPlain w → Binds show (expand w).0 (expand w).1 (meaning show w)
    expand-Binds_any (equal name v) h = column-Binds name " = " v h refl
    expand-Binds_any (like name v) h = column-Binds name " like " v h refl
    expand-Binds_any (custom text v) h = record { counted = h; reads = refl }
    expand-Binds_any (after name v) h = column-Binds name " > " v h refl
    expand-Binds_any (before name v) h = column-Binds name " < " v h refl
    expand-Binds_any (greater_or_equal name v) h = column-Binds name " >= " v h refl
    expand-Binds_any (smaller_or_equal name v) h = column-Binds name " <= " v h refl
    expand-Binds_any (between name down up) h = before-Binds name _ (down ∷ up ∷ []) _ h (
        before-Binds " BETWEEN " _ (down ∷ up ∷ []) _ refl (
          mark-Binds _ down (up ∷ []) _
            (before-Binds " and " "?" (up ∷ []) (show up) refl (Binds-mark show up))))
    expand-Binds_any (within name ins) h = list-Binds name " in (" ins h refl
    expand-Binds_any (not_in name ins) h = list-Binds name " not in (" ins h refl
    expand-Binds_any (in_string_list name separator v) h =
        before-Binds "(" _ (v ∷ []) _ refl
          (contain-Binds separator name ")" v [] ")" h.1 h.0 (Binds-plain show ")" refl))
    expand-Binds_any (equal_with_alt name alt separator v) h =
        before-Binds "( " _ (v ∷ v ∷ []) _ refl (
          before-Binds name _ (v ∷ v ∷ []) _ h.0 (
            before-Binds " = " _ (v ∷ v ∷ []) _ refl (
              mark-Binds _ v (v ∷ []) _ (
                before-Binds " COLLATE NOCASE or  " _ (v ∷ []) _ refl
                  (contain-Binds separator alt ")" v [] ")" h.2 h.1 (Binds-plain show ")" refl))))))
    expand-Binds_any (separated_contain name separator v) h =
        before-Binds (like_start separator name) _ (v ∷ []) _
          (like_start-NoMark separator name h.1 h.0)
          (mark-Binds _ v [] _
            (Binds-plain show (like_end separator) (like_end-NoMark separator h.1)))
    expand-Binds_any (static s) h = Binds-plain show s h
    expand-Binds_any (any_of ws) h =
        before-Binds "(" _ _ _ refl (after-Binds _ ")" _ _ (all-Binds " or " ws refl h) refl)
    expand-Binds_any (all_of ws) h =
        before-Binds "(" _ _ _ refl (after-Binds _ ")" _ _ (all-Binds " and " ws refl h) refl)

    all-Binds :
        (separator : String) (ws : SqlWheres V)
        → NoMark separator
        → ArePlain ws
        → Binds show
            (join separator (expand_all ws).0)
            (expand_all ws).1
            (join separator (meanings show ws))
    all-Binds separator nil s h = nothing
    all-Binds separator (cons w ws) s h =
        Binds-append show (expand w).0 _ (expand w).1 (expand_all ws).1 (meaning show w) _
          (expand-Binds_any w h.0) (more-Binds separator ws s h.1)

    more-Binds :
        (separator : String) (ws : SqlWheres V)
        → NoMark separator
        → ArePlain ws
        → Binds show
            (join_more separator (expand_all ws).0)
            (expand_all ws).1
            (join_more separator (meanings show ws))
    more-Binds separator nil s h = nothing
    more-Binds separator (cons w ws) s h = before-Binds separator _ _ _ s (
        Binds-append show (expand w).0 _ (expand w).1 (expand_all ws).1 (meaning show w) _
          (expand-Binds_any w h.0) (more-Binds separator ws s h.1))

  -- A condition has a placeholder for each of its values, and with the values in their places it
  -- reads as the condition means, if its columns have no placeholder in their names and a custom
  -- condition has one.
  pub expand-Binds :
      (w : SqlWhereType V) → IsPlain w → Binds show (expand w).0 (expand w).1 (meaning show w)
  expand-Binds w h = expand-Binds_any w h
