-- ===== src/Tags/Store.antt =====
-- The statements of `SqliteLibraryStore` on tags, and the trigger `cascade_delete_tag_children`.
use redseat_rust.Base.{
  ℕ, String, ◌<>◌, Bool, true, false, not, ◌&&◌, Option, none, some, List, [], ◌∷◌, ◌++◌, Result,
  ok, err, map, any, filter, find, ltb, ◌==◌, string_eq, option_eq, if◌then◌else◌, unwrap_or,
}
use redseat_rust.Collections.{replace_add_remove_from_array}
use redseat_rust.Tags.{
  Tag, TagForInsert, TagForUpdate, TagQuery, Mapping, TagStore, TagError, unable_to_find, no_rows,
  constraint, TagWorld, Op,
}

-- A condition of a query that is there only if its value is.
abbrev pub holds_if : {A : Type 0} → (A → Bool) → Option A → Bool
holds_if p none = true
holds_if p (some a) = p a

abbrev pub or_old : {A : Type 0} → Option A → A → A
or_old none old = old
or_old (some a) old = a

abbrev pub or_kept : {A : Type 0} → Option A → Option A → Option A
or_kept none old = old
or_kept (some a) old = some a

abbrev pub has_id : String → Tag → Bool
has_id id t = t.id == id

abbrev pub has_ref : String → Mapping → Bool
has_ref id r = r.tag_ref == id

-- `UPDATE OR IGNORE … SET tag_ref = ? WHERE tag_ref = ?`: a row that exists already is not made twice.
-- Then `DELETE … WHERE tag_ref = ?`.
unfoldable pub migrate : String → String → List Mapping → List Mapping
migrate old into rows =
    filter (λ r. not (has_ref old r))
      (map
        (λ r.
          if has_ref old r && not (any (λ s. s.owner == r.owner && has_ref into s) rows)
          then record r { tag_ref = into }
          else r)
        rows)

-- The columns that an update sets.
unfoldable pub updated_columns : ℕ → TagForUpdate → Tag → Tag
updated_columns now update t = record t {
  name = or_old update.name t.name;
  parent = or_kept update.parent t.parent;
  kind = or_kept update.kind t.kind;
  alt =
      or_kept (replace_add_remove_from_array t.alt update.alt update.add_alts update.remove_alts)
        t.alt;
  thumb = or_kept update.thumb t.thumb;
  params = or_kept update.params t.params;
  otherids =
      or_kept
        (replace_add_remove_from_array t.otherids update.otherids update.add_otherids
          update.remove_otherids)
        t.otherids;
  generated = unwrap_or update.generated false;
  modified = now;
}

module _ (w : TagWorld) where
  abbrev pub matches : TagQuery → Tag → Bool
  matches q t =
      holds_if (λ p. t.parent == some p) q.parent
      && (holds_if (λ p. t.path == p) q.path
          && (holds_if (λ n. ltb n t.modified) q.after && holds_if (λ n. w.named n t) q.name))

  unfoldable pub get_tags : TagQuery → TagStore → List Tag
  get_tags q st = w.in_order (filter (matches q) st.tags)

  unfoldable pub get_tag : String → TagStore → Option Tag
  get_tag id st = find (has_id id) st.tags

  -- `UPDATE tags SET path = REPLACE(path, ?, ?) WHERE path LIKE ?`, and the trigger `modified_tags`.
  abbrev pub replace_path : String → String → Tag → Tag
  replace_path from to t =
      if w.like from t.path
      then record t { path = w.replace t.path from to; modified = w.now }
      else t

  unfoldable pub rename_paths : Tag → Option String → List Tag → List Tag
  rename_paths existing none ts = ts
  rename_paths existing (some name) ts =
      map (replace_path (w.childs_path existing) (existing.path <> (name <> "/"))) ts

  abbrev pub set_path : String → String → Tag → Tag
  set_path id path t = if has_id id t then record t { path = path; modified = w.now } else t

  abbrev pub under_parent : Tag → Option Tag → List Tag → Result TagError (List Tag)
  under_parent existing none ts = err no_rows
  under_parent existing (some parent) ts = ok (
      map (replace_path (w.childs_path existing) (w.childs_path parent <> (existing.name <> "/")))
        (map (set_path existing.id (w.childs_path parent)) ts))

  unfoldable pub move_paths : Tag → Option String → List Tag → Result TagError (List Tag)
  move_paths existing none ts = ok ts
  move_paths existing (some parent) ts = under_parent existing (find (has_id parent) ts) ts

  abbrev pub migrated : String → Option String → TagStore → TagStore
  migrated id none st = st
  migrated id (some into) st = record st {
    media_tags = migrate id into st.media_tags;
    channel_tags = migrate id into st.channel_tags;
  }

  -- A transaction that fails changes nothing.
  abbrev pub commit :
      TagStore → Result TagError (List Tag) → TagStore → Result TagError (Unit {0}) × TagStore
  commit before (err e) st = (err e, before)
  commit before (ok ts) st = (ok tt, record st { tags = ts })

  abbrev pub update_found : String → TagForUpdate → Option Tag → Op (Unit {0})
  update_found id update none st = (err (unable_to_find id), st)
  update_found id update (some existing) st =
      let ts = map (λ t. if has_id id t then updated_columns w.now update t else t) st.tags in
      commit st (move_paths existing update.parent (rename_paths existing update.name ts))
        (migrated id update.migrate_to st)

  unfoldable pub update_tag : String → TagForUpdate → Op (Unit {0})
  update_tag id update st = update_found id update (get_tag id st) st

  abbrev pub path_under : Option Tag → Result TagError String
  path_under none = err no_rows
  path_under (some parent) = ok (w.childs_path parent)

  abbrev pub new_path : Option String → TagStore → Result TagError String
  new_path none st = ok "/"
  new_path (some parent) st = path_under (get_tag parent st)

  abbrev pub insert_at : TagForInsert → Result TagError String → Op (Unit {0})
  insert_at tag (err e) st = (err e, st)
  insert_at tag (ok path) st = if any (has_id tag.id) st.tags then (err constraint, st) else (
    ok tt,
    record st {
      tags =
          st.tags
          ++ (record {
            id = tag.id;
            name = tag.name;
            parent = tag.parent;
            kind = tag.kind;
            alt = tag.alt;
            thumb = tag.thumb;
            params = tag.params;
            modified = w.now;
            added = w.now;
            generated = tag.generated;
            path = path;
            otherids = tag.otherids;
          })
            ∷ [];
    },
  )

  unfoldable pub store_add_tag : TagForInsert → Op (Unit {0})
  store_add_tag tag st = insert_at tag (new_path tag.parent st) st

  abbrev pub is_below : String → Tag → Bool
  is_below prefix t = w.like (prefix <> "%") t.path

  -- `tag_ref IN (SELECT id FROM tags WHERE path LIKE ?)`
  abbrev pub refers_below : String → List Tag → Mapping → Bool
  refers_below prefix ts r = any (λ t. is_below prefix t && has_id r.tag_ref t) ts

  abbrev pub cascade_rows : Tag → List Tag → List Mapping → List Mapping
  cascade_rows old ts rows =
      filter (λ r. not (has_ref old.id r))
        (filter (λ r. not (refers_below (old.path <> (old.name <> "/")) ts r)) rows)

  -- The trigger, once the row of `old` is deleted.
  unfoldable pub cascade : Tag → TagStore → TagStore
  cascade old st = record st {
    tags = filter (λ t. not (is_below (old.path <> (old.name <> "/")) t)) st.tags;
    media_tags = cascade_rows old st.tags st.media_tags;
    book_tags = cascade_rows old st.tags st.book_tags;
    channel_tags = cascade_rows old st.tags st.channel_tags;
  }

  unfoldable pub cascade_all : List Tag → TagStore → TagStore
  cascade_all [] st = st
  cascade_all (old ∷ olds) st = cascade_all olds (cascade old st)

  -- A DELETE on tags, whose trigger runs for each row it deletes.
  unfoldable pub delete_tags : (Tag → Bool) → TagStore → TagStore
  delete_tags p st =
      cascade_all (filter p st.tags) (record st { tags = filter (λ t. not (p t)) st.tags })

  abbrev pub without_ref : String → TagStore → TagStore
  without_ref id st = record st {
    book_tags = filter (λ r. not (has_ref id r)) st.book_tags;
    media_tags = filter (λ r. not (has_ref id r)) st.media_tags;
    channel_tags = filter (λ r. not (has_ref id r)) st.channel_tags;
  }

  abbrev pub remove_found : String → Option Tag → Op (Unit {0})
  remove_found id none st = (err no_rows, st)
  remove_found id (some existing) st = (
    ok tt,
    delete_tags (is_below (w.childs_path existing)) (without_ref id (delete_tags (has_id id) st)),
  )

  unfoldable pub store_remove_tag : String → Op (Unit {0})
  store_remove_tag id st = remove_found id (get_tag id st) st
