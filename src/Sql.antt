-- ===== src/Sql.antt =====
-- The SQL texts that src/model/store/sql/mod.rs builds, and the values bound to their placeholders.
-- A value is of any type. `expand` has no error in it: its `Result` is left out.
mod Builder
pub mod Query
pub mod Texts
mod Binding
mod Tests
use redseat_rust.Base.{String, ◌<>◌, Option, none, some, List, [], ◌∷◌, ◌++◌, map}
use redseat_rust.Sql.Texts.{join}

mutual
  pub data SqlWhereType (V : Type 0) : Type 0 where
    like equal after before : String → V → SqlWhereType V
    greater_or_equal smaller_or_equal custom : String → V → SqlWhereType V
    between : String → V → V → SqlWhereType V
    within not_in : String → List V → SqlWhereType V
    static : String → SqlWhereType V
    separated_contain in_string_list : String → String → V → SqlWhereType V
    equal_with_alt : String → String → String → V → SqlWhereType V
    any_of all_of : SqlWheres V → SqlWhereType V

  -- A vector of conditions.
  pub data SqlWheres (V : Type 0) : Type 0 where
    nil : SqlWheres V
    cons : SqlWhereType V → SqlWheres V → SqlWheres V

-- A `?` for each value.
abbrev pub marks : {V : Type 0} → List V → String
marks vs = join ", " (map (λ _. "?") vs)

-- `'|' || column || '|' LIKE '%|' || ` and ` || '|%'`, for a separator.
abbrev pub like_start : String → String → String
like_start separator column =
    "'"
    <> (separator
        <> ("' || "
            <> (column <> (" || '" <> (separator <> ("' LIKE '%" <> (separator <> "' || ")))))))

abbrev pub like_end : String → String
like_end separator = " || '" <> (separator <> "%'")

unfoldable mutual
  pub expand : {V : Type 0} → SqlWhereType V → String × List V
  expand (equal name value) = (name <> (" = " <> "?"), value ∷ [])
  expand (like name value) = (name <> (" like " <> "?"), value ∷ [])
  expand (custom text value) = (text, value ∷ [])
  expand (after name value) = (name <> (" > " <> "?"), value ∷ [])
  expand (before name value) = (name <> (" < " <> "?"), value ∷ [])
  expand (greater_or_equal name value) = (name <> (" >= " <> "?"), value ∷ [])
  expand (smaller_or_equal name value) = (name <> (" <= " <> "?"), value ∷ [])
  expand (between name down up) =
      (name <> (" BETWEEN " <> ("?" <> (" and " <> "?"))), down ∷ up ∷ [])
  expand (within name ins) = (name <> (" in (" <> (marks ins <> ")")), ins)
  expand (not_in name ins) = (name <> (" not in (" <> (marks ins <> ")")), ins)
  expand (in_string_list name separator value) =
      ("(" <> (like_start separator name <> ("?" <> (like_end separator <> ")"))), value ∷ [])
  expand (equal_with_alt name alt separator value) = (
    "( "
        <> (name
            <> (" = "
                <> ("?"
                    <> (" COLLATE NOCASE or  "
                        <> (like_start separator alt <> ("?" <> (like_end separator <> ")"))))))),
    value ∷ value ∷ [],
  )
  expand (separated_contain name separator value) =
      (like_start separator name <> ("?" <> like_end separator), value ∷ [])
  expand (static s) = (s, [])
  expand (any_of ws) =
      let (texts, values) = expand_all ws in ("(" <> (join " or " texts <> ")"), values)
  expand (all_of ws) =
      let (texts, values) = expand_all ws in ("(" <> (join " and " texts <> ")"), values)

  pub expand_all : {V : Type 0} → SqlWheres V → List String × List V
  expand_all nil = ([], [])
  expand_all (cons w ws) =
      let (text, values) = expand w in
      let (texts, more) = expand_all ws in (text ∷ texts, values ++ more)
