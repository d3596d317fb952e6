-- ===== src/Sql/Query.antt =====
-- `QueryWhereType` and `QueryBuilder` of src/model/store/sql/mod.rs: the conditions over borrowed
-- values, and the parts of one statement with the values of all of them.
use Prim.Native.Char.{code}
use redseat_rust.Base.{
  String, ◌<>◌, Option, none, some, List, [], ◌∷◌, ◌++◌, ◌==◌, nat_eq, map, if◌then◌else◌,
}
use redseat_rust.Sql.{marks, like_start, like_end}
use redseat_rust.Sql.Texts.{join}

mutual
  pub data QueryWhereType (V : Type 0) : Type 0 where
    like equal after before custom : String → V → QueryWhereType V
    within not_in : String → List V → QueryWhereType V
    static : String → QueryWhereType V
    separated_contain in_string_list : String → String → V → QueryWhereType V
    equal_with_alt : String → String → String → V → QueryWhereType V
    any_of all_of : QueryWheres V → QueryWhereType V

  pub data QueryWheres (V : Type 0) : Type 0 where
    nil : QueryWheres V
    cons : QueryWhereType V → QueryWheres V → QueryWheres V

unfoldable mutual
  pub expand_query : {V : Type 0} → QueryWhereType V → String × List V
  expand_query (equal name value) = (name <> (" = " <> "?"), value ∷ [])
  expand_query (like name value) = (name <> (" like " <> "?"), value ∷ [])
  expand_query (custom text value) = (text, value ∷ [])
  expand_query (after name value) = (name <> (" > " <> "?"), value ∷ [])
  expand_query (before name value) = (name <> (" < " <> "?"), value ∷ [])
  expand_query (within name ins) = (name <> (" in (" <> (marks ins <> ")")), ins)
  expand_query (not_in name ins) = (name <> (" not in (" <> (marks ins <> ")")), ins)
  expand_query (in_string_list name separator value) =
      ("(" <> (like_start separator name <> ("?" <> (like_end separator <> ")"))), value ∷ [])
  expand_query (equal_with_alt name alt separator value) = (
    "( "
        <> (name
            <> (" = "
                <> ("?"
                    <> (" COLLATE NOCASE or  "
                        <> (like_start separator alt <> ("?" <> (like_end separator <> ")"))))))),
    value ∷ value ∷ [],
  )
  expand_query (separated_contain name separator value) =
      (like_start separator name <> ("?" <> like_end separator), value ∷ [])
  expand_query (static s) = (s, [])
  expand_query (any_of ws) =
      let (texts, values) = expand_queries ws in ("(" <> (join " or " texts <> ")"), values)
  expand_query (all_of ws) =
      let (texts, values) = expand_queries ws in ("(" <> (join " and " texts <> ")"), values)

  pub expand_queries : {V : Type 0} → QueryWheres V → List String × List V
  expand_queries nil = ([], [])
  expand_queries (cons w ws) =
      let (text, values) = expand_query w in
      let (texts, more) = expand_queries ws in (text ∷ texts, values ++ more)

pub data SqlOrder : Type 0 where
  asc desc : SqlOrder

pub record OrderBuilder : Type 0 where
  pub column : String
  pub order : SqlOrder

abbrev pub format_sql_order : String → SqlOrder → String
format_sql_order column SqlOrder.asc = column
format_sql_order column SqlOrder.desc = column <> " DESC"

unfoldable pub format_one_order : OrderBuilder → String
format_one_order o = format_sql_order o.column o.order

pub record QueryBuilder (V : Type 0) : Type 0 where
  pub wheres : List (QueryWhereType V)
  pub columns_recursive : List String
  pub values_recursive : List V
  pub columns_update : List String
  pub values_update : List V
  pub columns_orders : List OrderBuilder

unfoldable pub new_query : {V : Type 0} → QueryBuilder V
new_query = record {
  wheres = [];
  columns_recursive = [];
  values_recursive = [];
  columns_update = [];
  values_update = [];
  columns_orders = [];
}

-- `replace("-", "_")`
abbrev pub underscored : String → String
underscored String.[] = ""
underscored (String.◌∷◌ c s) = (if code c == b'-' then "_" else String.◌∷◌ c "") <> underscored s

abbrev pub table_name : String → String → String
table_name table id = table <> ("_" <> underscored id)

abbrev pub recursive_sql : String → String → String
recursive_sql table name =
    name
    <> ("(n) AS (\n                VALUES("
        <> ("?"
            <> (")\n                UNION\n                SELECT id FROM "
                <> (table
                    <> (", "
                        <> (name
                            <> ("\n                 WHERE "
                                <> (table <> (".parent=" <> (name <> ".n)"))))))))))

abbrev pub recursive_where : String → String → String → String → String
recursive_where mapping_table map_key map_field name =
    "id IN (SELECT tm."
    <> (map_key
        <> (" FROM "
            <> (mapping_table <> (" tm WHERE " <> (map_field <> (" IN " <> (name <> ")")))))))

abbrev pub where_clause : List String → String
where_clause [] = ""
where_clause (t ∷ ts) = "WHERE " <> join " and " (t ∷ ts)

abbrev pub order_clause : List String → String
order_clause [] = ""
order_clause (t ∷ ts) = " ORDER BY " <> join ", " (t ∷ ts)

abbrev pub recursive_clause : List String → String
recursive_clause [] = ""
recursive_clause (t ∷ ts) = "WITH RECURSIVE " <> (join ", " (t ∷ ts) <> " ")

module _ {V : Type 0} where
  -- `id` is the text that the value `value` displays as.
  unfoldable pub add_recursive :
      String → String → String → String → String → V → QueryBuilder V → QueryBuilder V
  add_recursive table mapping_table map_key map_field id value q =
      let name = table_name table id in
      record q {
        columns_recursive = q.columns_recursive ++ recursive_sql table name ∷ [];
        values_recursive = q.values_recursive ++ value ∷ [];
        wheres = q.wheres ++ static (recursive_where mapping_table map_key map_field name) ∷ [];
      }

  unfoldable pub add_update : Option V → String → QueryBuilder V → QueryBuilder V
  add_update none column q = q
  add_update (some value) column q = record q {
    columns_update = q.columns_update ++ (column <> (" = " <> "?")) ∷ [];
    values_update = q.values_update ++ value ∷ [];
  }

  unfoldable pub add_nullify : String → QueryBuilder V → QueryBuilder V
  add_nullify column q = record q {
    columns_update = q.columns_update ++ (column <> " = NULL") ∷ [];
  }

  unfoldable pub add_where : QueryWhereType V → QueryBuilder V → QueryBuilder V
  add_where kind q = record q { wheres = q.wheres ++ kind ∷ [] }

  unfoldable pub add_oder : OrderBuilder → QueryBuilder V → QueryBuilder V
  add_oder order q = record q { columns_orders = q.columns_orders ++ order ∷ [] }

  unfoldable pub format_update : QueryBuilder V → String
  format_update q = join ", " q.columns_update

  abbrev pub where_texts : List (QueryWhereType V) → List String
  where_texts = map (λ w. (expand_query w).0)

  unfoldable pub format : QueryBuilder V → String
  format q = where_clause (where_texts q.wheres)

  unfoldable pub format_order : QueryBuilder V → String
  format_order q = order_clause (map format_one_order q.columns_orders)

  unfoldable pub format_recursive : QueryBuilder V → String
  format_recursive q = recursive_clause q.columns_recursive

  abbrev pub where_values : List (QueryWhereType V) → List V
  where_values [] = []
  where_values (w ∷ ws) = (expand_query w).1 ++ where_values ws

  -- Also `values_raw`.
  unfoldable pub query_values : QueryBuilder V → List V
  query_values q = q.values_recursive ++ q.values_update ++ where_values q.wheres

  unfoldable pub values_twice : QueryBuilder V → List V
  values_twice q =
      q.values_recursive ++ q.values_update ++ where_values q.wheres ++ where_values q.wheres
