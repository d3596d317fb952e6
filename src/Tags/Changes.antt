-- ===== src/Tags/Changes.antt =====
-- The tree of tags under every operation of `ModelController` on tags.
use redseat_rust.Base.{◌≡◌, String, Bool, none, List}
use redseat_rust.Access.Users.{ConnectedUser}
use redseat_rust.Tags.{TagForAdd, TagForUpdate, TagStore, TagWorld, IsSound}
use redseat_rust.Tags.Filing.{IsFiled}
use redseat_rust.Tags.Lookups.{PredictionTag, get_ai_tag, add_imported_tag}
use redseat_rust.Tags.Operations.{
  add_tag-TagsFiled, remove_tag-TagsFiled, update_tag-TagsFiled, merge_tag-TagsFiled,
  get_or_create_path-TagsFiled, get_ai_tag-TagsFiled, add_imported_tag-TagsFiled,
}
use redseat_rust.Tags.Paths.{get_or_create_path}
use redseat_rust.Tags.Requests.{add_tag, update_tag, remove_tag, merge_tag}

-- An operation of anybody, which fails or not. An update gives neither a name nor a parent.
pub data Change (w : TagWorld) (library_id : String) : TagStore → TagStore → Type 0 where
  adding :
      (user : ConnectedUser) (t : TagForAdd) (st : TagStore)
      → Change w library_id st (add_tag w library_id user t st).1
  removing :
      (user : ConnectedUser) (id : String) (st : TagStore)
      → Change w library_id st (remove_tag w library_id user id st).1
  updating :
      (user : ConnectedUser) (id : String) (update : TagForUpdate) (st : TagStore)
      → update.name ≡ none
      → update.parent ≡ none
      → Change w library_id st (update_tag w library_id user id update st).1
  merging :
      (user : ConnectedUser) (same_name : String → String → Bool) (old_id into : String)
      (st : TagStore)
      → Change w library_id st (merge_tag w library_id user same_name old_id into st).1
  finding :
      (user : ConnectedUser) (path : List String) (t : TagForAdd) (st : TagStore)
      → Change w library_id st (get_or_create_path w library_id user path t st).1
  predicting :
      (user : ConnectedUser) (tag : PredictionTag) (st : TagStore)
      → Change w library_id st (get_ai_tag w library_id user tag st).1
  importing :
      (user : ConnectedUser) (tag : TagForAdd) (st : TagStore)
      → Change w library_id st (add_imported_tag w library_id user tag st).1

pub data Changes (w : TagWorld) (library_id : String) : TagStore → TagStore → Type 0 where
  none_yet : (st : TagStore) → Changes w library_id st st
  then_one :
      {a b c : TagStore}
      → Changes w library_id a b
      → Change w library_id b c
      → Changes w library_id a c

Change-IsFiled :
    {w : TagWorld} {library_id : String} (s : IsSound w) {a b : TagStore}
    → Change w library_id a b
    → IsFiled w a.tags
    → IsFiled w b.tags
Change-IsFiled {w} {library_id} s (adding user t st) h =
    (add_tag-TagsFiled w s library_id user t).kept st h
Change-IsFiled {w} {library_id} s (removing user id st) h =
    (remove_tag-TagsFiled w s library_id user id).kept st h
Change-IsFiled {w} {library_id} s (updating user id update st n r) h =
    (update_tag-TagsFiled w s library_id user id update n r).kept st h
Change-IsFiled {w} {library_id} s (merging user same_name old_id into st) h =
    (merge_tag-TagsFiled w s library_id user same_name old_id into).kept st h
Change-IsFiled {w} {library_id} s (finding user path t st) h =
    (get_or_create_path-TagsFiled w s library_id user path t).kept st h
Change-IsFiled {w} {library_id} s (predicting user tag st) h =
    (get_ai_tag-TagsFiled w s library_id user tag).kept st h
Change-IsFiled {w} {library_id} s (importing user tag st) h =
    (add_imported_tag-TagsFiled w s library_id user tag).kept st h

-- No two tags get the same id, and every tag stands under its parent's path, which is there, or
-- under `/` if it has none, whatever is added, merged, removed, predicted, imported, found by its path, or updated
-- without a new name or parent.
pub Changes-IsFiled :
    {w : TagWorld} {library_id : String} (s : IsSound w) {a b : TagStore}
    → Changes w library_id a b
    → IsFiled w a.tags
    → IsFiled w b.tags
Changes-IsFiled s (none_yet st) h = h
Changes-IsFiled s (then_one cs c) h = Change-IsFiled s c (Changes-IsFiled s cs h)
