-- ===== src/Sql/Tests.antt =====
-- The theorems on the built texts at a query with a recursive table, an update and two conditions.
use redseat_rust.Base.{◌≡◌, refl, String, ◌<>◌, some, [], ◌∷◌}
use redseat_rust.Sql.{SqlWhereType, nil, cons, between, any_of, equal_with_alt, expand}
use redseat_rust.Sql.Texts.{bind_values, Binds}
use redseat_rust.Sql.Binding.{IsPlain, meaning, expand-Binds}
use redseat_rust.Sql.Query
use redseat_rust.Sql.Query.{
  QueryWhereType, QueryWheres, expand_query, QueryBuilder, OrderBuilder, SqlOrder, asc, desc,
  new_query, add_recursive, add_update, add_nullify, add_where, add_oder, format_update, format,
  format_order, format_recursive, where_values, query_values,
}
use redseat_rust.Sql.Builder.{
  owned, Built, built_new, built_recursive, built_update, built_where, built_order, Built-Binds,
}

abbrev quoted : String → String
quoted s = "<" <> (s <> ">")

abbrev either : SqlWhereType String
either =
    any_of (cons (between "added" "1" "2") (cons (equal_with_alt "name" "alt" "|" "comedy") nil))

either_text : expand either ≡ (
  "(added BETWEEN ? and ? or ( name = ? COLLATE NOCASE or  '|' || alt || '|' LIKE '%|' || ? || '|%'))",
  "1" ∷ "2" ∷ "comedy" ∷ "comedy" ∷ [],
)
unfolding expand
either_text = refl

plain : IsPlain either
unfolding IsPlain
plain = (refl, ((refl, refl, refl), tt))

expand-Binds_example : Binds quoted (expand either).0 (expand either).1 (meaning quoted either)
expand-Binds_example = expand-Binds quoted either plain

abbrev contains_tag : QueryWhereType String
contains_tag =
    Query.any_of (QueryWheres.cons (Query.in_string_list "tags" "|" "t1") QueryWheres.nil)

abbrev title : QueryWhereType String
title = Query.like "title" "%sea%"

abbrev built_query : QueryBuilder String
built_query =
    add_oder (record { column = "added"; order = desc })
      (add_where title (
        add_update (some "2024") "modified"
          (add_recursive "tags" "media_tag_mapping" "media_ref" "tag_ref" "a-b" "a-b" new_query)))

query_text :
    format_recursive built_query
      ∷ format_update built_query
      ∷ format built_query
      ∷ format_order built_query
      ∷ []
    ≡ "WITH RECURSIVE tags_a_b(n) AS (\n                VALUES(?)\n                UNION\n                SELECT id FROM tags, tags_a_b\n                 WHERE tags.parent=tags_a_b.n) "
      ∷ "modified = ?"
      ∷ "WHERE id IN (SELECT tm.media_ref FROM media_tag_mapping tm WHERE tag_ref IN tags_a_b) and title like ?"
      ∷ " ORDER BY added DESC" ∷ []
unfolding format_recursive format_update format format_order add_oder add_where add_update
    add_recursive new_query expand_query Query.format_one_order
query_text = refl

query_values_text : query_values built_query ≡ "a-b" ∷ "2024" ∷ "%sea%" ∷ []
unfolding query_values add_oder add_where add_update add_recursive new_query expand_query
query_values_text = refl

title-IsPlain : IsPlain (owned title)
unfolding IsPlain owned
title-IsPlain = refl

query-Built : Built built_query
query-Built =
    built_order (record { column = "added"; order = desc }) refl
      (built_where title title-IsPlain (
        built_update (some "2024") "modified" refl (
          built_recursive "tags" "media_tag_mapping" "media_ref" "tag_ref" "a-b" "a-b" refl refl
            refl refl refl built_new)))

Built-Binds_example :
    Binds quoted
      (format_recursive built_query
        <> ("UPDATE medias SET "
            <> (format_update built_query
                <> (" " <> (format built_query <> format_order built_query)))))
      (query_values built_query)
      (bind_values quoted (format_recursive built_query) built_query.values_recursive
        <> ("UPDATE medias SET "
            <> (bind_values quoted (format_update built_query) built_query.values_update
                <> (" "
                    <> (bind_values quoted (format built_query) (where_values built_query.wheres)
                        <> format_order built_query)))))
Built-Binds_example = Built-Binds quoted "UPDATE medias SET " refl query-Built
