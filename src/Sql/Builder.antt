-- ===== src/Sql/Builder.antt =====
-- Every query that `QueryBuilder` is made into has a placeholder for each of its values.
use redseat_rust.Base.{
  ◌+◌, ◌≡◌, ◌∙◌, refl, String, ◌<>◌, Option, none, some, List, [], ◌∷◌, ◌++◌, map, length,
  length-append, All, All-append, arith, Bool-cases, inl, inr, append_assoc, if◌then◌else◌, ◌==◌,
  nat_eq,
}
use Prim.Native.Char.{code}
use redseat_rust.Sql.{SqlWhereType, SqlWheres, expand, expand_all}
use redseat_rust.Sql.Texts.{
  placeholders, placeholders-append, join, join_more, bind_values, Binds, Binds-append,
}
use redseat_rust.Sql.Binding.{NoMark, IsPlain, expand-Binds, before-Binds, after-Binds}
use redseat_rust.Sql.Query.{
  QueryWhereType, like, equal, after, before, custom, within, not_in, static, separated_contain,
  in_string_list, equal_with_alt, any_of, all_of, QueryWheres, nil, cons, expand_query,
  expand_queries, QueryBuilder, OrderBuilder, SqlOrder, format_one_order, format_sql_order,
  new_query, underscored, table_name, recursive_sql, recursive_where, add_recursive, add_update,
  add_nullify, add_where, add_oder, format_update, format, where_texts, where_clause, format_order,
  format_recursive, recursive_clause, order_clause, where_values, query_values,
}

-- A condition of one builder as one of the other.
unfoldable mutual
  pub owned : {V : Type 0} → QueryWhereType V → SqlWhereType V
  owned (like name v) = SqlWhereType.like name v
  owned (equal name v) = SqlWhereType.equal name v
  owned (after name v) = SqlWhereType.after name v
  owned (before name v) = SqlWhereType.before name v
  owned (custom text v) = SqlWhereType.custom text v
  owned (within name ins) = SqlWhereType.within name ins
  owned (not_in name ins) = SqlWhereType.not_in name ins
  owned (static s) = SqlWhereType.static s
  owned (separated_contain name separator v) = SqlWhereType.separated_contain name separator v
  owned (in_string_list name separator v) = SqlWhereType.in_string_list name separator v
  owned (equal_with_alt name alt separator v) = SqlWhereType.equal_with_alt name alt separator v
  owned (any_of ws) = SqlWhereType.any_of (all_owned ws)
  owned (all_of ws) = SqlWhereType.all_of (all_owned ws)

  pub all_owned : {V : Type 0} → QueryWheres V → SqlWheres V
  all_owned nil = SqlWheres.nil
  all_owned (cons w ws) = SqlWheres.cons (owned w) (all_owned ws)

mutual
  unfolding expand_query expand owned

  same_expansion : {V : Type 0} (w : QueryWhereType V) → expand_query w ≡ expand (owned w)
  same_expansion (like name v) = refl
  same_expansion (equal name v) = refl
  same_expansion (after name v) = refl
  same_expansion (before name v) = refl
  same_expansion (custom text v) = refl
  same_expansion (within name ins) = refl
  same_expansion (not_in name ins) = refl
  same_expansion (static s) = refl
  same_expansion (separated_contain name separator v) = refl
  same_expansion (in_string_list name separator v) = refl
  same_expansion (equal_with_alt name alt separator v) = refl
  same_expansion (any_of ws) = rw (all_owned-expand ws) refl
  same_expansion (all_of ws) = rw (all_owned-expand ws) refl

  all_owned-expand :
      {V : Type 0} (ws : QueryWheres V) → expand_queries ws ≡ expand_all (all_owned ws)
  all_owned-expand nil = refl
  all_owned-expand (cons w ws) = rw (same_expansion w) (rw (all_owned-expand ws) refl)

-- A borrowed condition expands into the text and the values of the owned condition of its kind.
owned-expand : {V : Type 0} (w : QueryWhereType V) → expand_query w ≡ expand (owned w)
owned-expand w = same_expansion w

-- What a builder is made into, from names without placeholders.
pub data Built {V : Type 0} : QueryBuilder V → Type 0 where
  built_new : Built new_query
  built_recursive :
      {q : QueryBuilder V} (table mapping_table map_key map_field id : String) (value : V)
      → NoMark table
      → NoMark mapping_table
      → NoMark map_key
      → NoMark map_field
      → NoMark id
      → Built q
      → Built (add_recursive table mapping_table map_key map_field id value q)
  built_update :
      {q : QueryBuilder V} (value : Option V) (column : String)
      → NoMark column
      → Built q
      → Built (add_update value column q)
  built_nullify :
      {q : QueryBuilder V} (column : String)
      → NoMark column
      → Built q
      → Built (add_nullify column q)
  built_where :
      {q : QueryBuilder V} (kind : QueryWhereType V)
      → IsPlain (owned kind)
      → Built q
      → Built (add_where kind q)
  built_order :
      {q : QueryBuilder V} (order : OrderBuilder)
      → NoMark order.column
      → Built q
      → Built (add_oder order q)

abbrev Counts : {V : Type 0} → QueryWhereType V → Type 0
Counts w = placeholders (expand_query w).0 ≡ length (expand_query w).1

record IsBalanced {V : Type 0} (q : QueryBuilder V) : Type 0 where
  recursive : placeholders (join ", " q.columns_recursive) ≡ length q.values_recursive
  update : placeholders (join ", " q.columns_update) ≡ length q.values_update
  wheres : All Counts q.wheres
  orders : All (λ o. NoMark o.column) q.columns_orders

join_more-snoc :
    (separator : String) (ts : List String) (t : String)
    → NoMark separator
    → placeholders (join_more separator (ts ++ t ∷ []))
      ≡ placeholders (join_more separator ts) + placeholders t
join_more-snoc separator [] t h = simp (placeholders-append, h) (omega arith)
join_more-snoc separator (u ∷ ts) t h =
    simp (placeholders-append, join_more-snoc separator ts t h) (omega arith)

join-snoc :
    (separator : String) (ts : List String) (t : String)
    → NoMark separator
    → placeholders (join separator (ts ++ t ∷ []))
      ≡ placeholders (join separator ts) + placeholders t
join-snoc separator [] t h = simp (placeholders-append) (omega arith)
join-snoc separator (u ∷ ts) t h =
    simp (placeholders-append, join_more-snoc separator ts t h) (omega arith)

underscored-NoMark : (s : String) → NoMark s → NoMark (underscored s)
underscored-NoMark String.[] h = refl
underscored-NoMark (String.◌∷◌ c s) h =
    rw (placeholders-append (if code c == b'-' then "_" else String.◌∷◌ c "") (underscored s))
      (elim (Bool-cases (code c == b'-')) [
        | inl e ↦ rw e (ground (arith, underscored-NoMark s))
        | inr e ↦ rw e (ground (arith, underscored-NoMark s))
      ])

add_recursive-marks :
    (table id : String)
    → NoMark table
    → NoMark id
    → placeholders (recursive_sql table (table_name table id)) ≡ 1
add_recursive-marks table id h k = simp (placeholders-append, h, underscored-NoMark id k)

recursive_where-NoMark :
    (mapping_table map_key map_field table id : String)
    → NoMark mapping_table
    → NoMark map_key
    → NoMark map_field
    → NoMark table
    → NoMark id
    → NoMark (recursive_where mapping_table map_key map_field (table_name table id))
recursive_where-NoMark a b c table id h i j k l =
    simp (placeholders-append, h, i, j, k, underscored-NoMark id l)

recursive_where-Counts :
    (V : Type 0) (mapping_table map_key map_field table id : String)
    → NoMark mapping_table
    → NoMark map_key
    → NoMark map_field
    → NoMark table
    → NoMark id
    → Counts {V = V}
        (static (recursive_where mapping_table map_key map_field (table_name table id)))
unfolding expand_query
recursive_where-Counts V mapping_table map_key map_field table id h i j k l =
    recursive_where-NoMark mapping_table map_key map_field table id h i j k l

one_mark : (column : String) → NoMark column → placeholders (column <> (" = " <> "?")) ≡ 1
one_mark column h = simp (placeholders-append, h)

Built-IsBalanced : {V : Type 0} {q : QueryBuilder V} → Built q → IsBalanced q
unfolding new_query add_recursive add_update add_nullify add_where add_oder
Built-IsBalanced built_new = record { recursive = refl; update = refl; wheres = tt; orders = tt }
Built-IsBalanced
      (built_recursive {q = q} table mapping_table map_key map_field id value a b c d e built) =
    let h = Built-IsBalanced built in
    record {
      recursive = omega (
        arith,
        h.recursive,
        length-append {0} q.values_recursive (value ∷ []),
        join-snoc ", " q.columns_recursive (recursive_sql table (table_name table id)) refl,
        add_recursive-marks table id a e,
      );
      update = h.update;
      wheres =
          All-append Counts q.wheres _ h.wheres
            (recursive_where-Counts _ mapping_table map_key map_field table id b c d a e, tt);
      orders = h.orders;
    }
Built-IsBalanced (built_update {q = q} none column a built) = Built-IsBalanced built
Built-IsBalanced (built_update {q = q} (some value) column a built) =
    let h = Built-IsBalanced built in
    record {
      recursive = h.recursive;
      update = omega (
        arith,
        h.update,
        length-append {0} q.values_update (value ∷ []),
        join-snoc ", " q.columns_update (column <> (" = " <> "?")) refl,
        one_mark column a,
      );
      wheres = h.wheres;
      orders = h.orders;
    }
Built-IsBalanced (built_nullify {q = q} column a built) =
    let h = Built-IsBalanced built in
    record {
      recursive = h.recursive;
      update = omega (
        arith,
        h.update,
        join-snoc ", " q.columns_update (column <> " = NULL") refl,
        placeholders-append column " = NULL",
        a,
      );
      wheres = h.wheres;
      orders = h.orders;
    }
Built-IsBalanced (built_where {q = q} kind a built) =
    let h = Built-IsBalanced built in
    record {
      recursive = h.recursive;
      update = h.update;
      wheres =
          All-append Counts q.wheres _ h.wheres
            (rw (owned-expand kind) (expand-Binds (λ _. "") (owned kind) a).counted, tt);
      orders = h.orders;
    }
Built-IsBalanced (built_order {q = q} order a built) =
    let h = Built-IsBalanced built in
    record {
      recursive = h.recursive;
      update = h.update;
      wheres = h.wheres;
      orders = All-append (λ o. NoMark o.column) q.columns_orders _ h.orders (a, tt);
    }

recursive-counted :
    (ts : List String) → placeholders (recursive_clause ts) ≡ placeholders (join ", " ts)
recursive-counted [] = refl
recursive-counted (t ∷ ts) = simp (placeholders-append) (omega arith)

ordered :
    (column : String) (order : SqlOrder) → NoMark column → NoMark (format_sql_order column order)
ordered column SqlOrder.asc h = h
ordered column SqlOrder.desc h = simp (placeholders-append, h)

one_order : (o : OrderBuilder) → NoMark o.column → NoMark (format_one_order o)
unfolding format_one_order
one_order o h = ordered o.column o.order h

orders_more :
    (os : List OrderBuilder)
    → All (λ o. NoMark o.column) os
    → NoMark (join_more ", " (map format_one_order os))
orders_more [] h = refl
orders_more (o ∷ os) h = simp (placeholders-append, one_order o h.0, orders_more os h.1)

orders-NoMark :
    (os : List OrderBuilder)
    → All (λ o. NoMark o.column) os
    → NoMark (order_clause (map format_one_order os))
orders-NoMark [] h = refl
orders-NoMark (o ∷ os) h = simp (placeholders-append, one_order o h.0, orders_more os h.1)

module _ {V : Type 0} where
  wheres_more :
      (ws : List (QueryWhereType V))
      → All Counts ws
      → placeholders (join_more " and " (where_texts ws)) ≡ length (where_values ws)
  wheres_more [] h = refl
  wheres_more (w ∷ ws) h = simp (placeholders-append) (
      omega
        (arith, h.0, wheres_more ws h.1, length-append {0} (expand_query w).1 (where_values ws)))

  format-counted :
      (ws : List (QueryWhereType V))
      → All Counts ws
      → placeholders (where_clause (where_texts ws)) ≡ length (where_values ws)
  format-counted [] h = refl
  format-counted (w ∷ ws) h = simp (placeholders-append) (
      omega
        (arith, h.0, wheres_more ws h.1, length-append {0} (expand_query w).1 (where_values ws)))

  -- The statement `[WITH RECURSIVE …] start [… = ?, …] [WHERE …] [ORDER BY …]` that a builder's parts
  -- make has a placeholder for each of the builder's values, and each part takes the values that were
  -- added with it. The condition is that `start`, the names of tables, fields and columns, the
  -- separators, the static conditions and the ids given to `add_recursive` hold no `?`, and that a
  -- custom condition holds exactly one.
  pub Built-Binds :
      (show : V → String) {q : QueryBuilder V} (begin : String)
      → NoMark begin
      → Built q
      → Binds show
          (format_recursive q
            <> (begin <> (format_update q <> (" " <> (format q <> format_order q)))))
          (query_values q)
          (bind_values show (format_recursive q) q.values_recursive
            <> (begin
                <> (bind_values show (format_update q) q.values_update
                    <> (" "
                        <> (bind_values show (format q) (where_values q.wheres)
                            <> format_order q)))))
  unfolding format_recursive format_update format format_order query_values
  Built-Binds show {q} begin h built =
      let b = Built-IsBalanced built in
      let recursive : Binds show (recursive_clause q.columns_recursive) q.values_recursive _ =
        record { counted = recursive-counted q.columns_recursive ∙ b.recursive; reads = refl } in
      let update : Binds show (join ", " q.columns_update) q.values_update _ = record {
        counted = b.update;
        reads = refl;
      } in
      let wheres : Binds show (where_clause (where_texts q.wheres)) (where_values q.wheres) _ =
        record { counted = format-counted q.wheres b.wheres; reads = refl } in
      let tail =
        after-Binds show _ (order_clause (map format_one_order q.columns_orders)) _ _ wheres
          (orders-NoMark q.columns_orders b.orders) in
      let rest =
        before-Binds show begin _ _ _ h
          (Binds-append show _ _ _ _ _ _ update (before-Binds show " " _ _ _ refl tail)) in
      rw (append_assoc q.values_recursive q.values_update (where_values q.wheres))
        (Binds-append show _ _ _ _ _ _ recursive rest)
