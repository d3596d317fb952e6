-- ===== src/Tags/Runs.antt =====
-- What holds of the tables before an operation of `ModelController` on tags and holds after it.
use redseat_rust.Base.{String, Option, none, some, List, [], ◌∷◌, Result, ok, err}
use redseat_rust.Access.Roles.{LibraryRole}
use redseat_rust.Access.Users.{ConnectedUser}
use redseat_rust.Access.Checks.{check_library_role}
use redseat_rust.Tags.{
  Tag, TagForAdd, TagQuery, TagStore, TagError, TagWorld, Op, go_on, ◌>>=◌, pure, fail, empty_path,
}
use redseat_rust.Tags.Store
use redseat_rust.Tags.Store.{store_add_tag, store_remove_tag}
use redseat_rust.Tags.Paths.{
  get_or_create_path, or_add, walk, find_names, create, found_or_create, pop, id_of, or_next,
}
use redseat_rust.Tags.Requests.{
  check_tags, add_tag, get_tags, get_tag, found_or, answer, reading, must, refuse_or, first,
}

pub record Keeps {A : Type 0} (P : TagStore → Type 0) (m : Op A) : Type 0 where
  pub kept : (st : TagStore) → P st → P (m st).1

module _ (P : TagStore → Type 0) where
  gone_on :
      {A B : Type 0} (f : A → Op B) (r : Result TagError A × TagStore)
      → P r.1
      → ((a : A) → Keeps P (f a))
      → P (go_on f r).1
  gone_on f (ok a, st) h k = (k a).kept st h
  gone_on f (err e, st) h k = h

  pub then-Keeps :
      {A B : Type 0} {m : Op A} {f : A → Op B}
      → Keeps P m
      → ((a : A) → Keeps P (f a))
      → Keeps P (m >>= f)
  unfolding ◌>>=◌
  then-Keeps {m = m} {f = f} h k = record { kept = λ st p. gone_on f (m st) (h.kept st p) k }

  pub answer-Keeps : {A : Type 0} (r : Result TagError A) → Keeps P (answer r)
  unfolding answer
  answer-Keeps r = record { kept = λ st p. p }

  pub reading-Keeps : {A : Type 0} (f : TagStore → A) → Keeps P (reading f)
  unfolding reading
  reading-Keeps f = record { kept = λ st p. p }

  pub pure-Keeps : {A : Type 0} (a : A) → Keeps P (pure a)
  unfolding pure
  pure-Keeps a = record { kept = λ st p. p }

  fail-Keeps : {A : Type 0} (e : TagError) → Keeps P (fail {A = A} e)
  unfolding fail
  fail-Keeps e = record { kept = λ st p. p }

  pub must-Keeps :
      (user : ConnectedUser) (library_id : String) (role : LibraryRole)
      → Keeps P (must user library_id role)
  unfolding must
  must-Keeps user library_id role =
      answer-Keeps (refuse_or (check_library_role user library_id role))

  pub found_or-Keeps : {A : Type 0} (e : TagError) (o : Option A) → Keeps P (found_or e o)
  unfolding found_or
  found_or-Keeps e none = record { kept = λ st p. p }
  found_or-Keeps e (some a) = record { kept = λ st p. p }

  pub or_next-Keeps :
      (o : Option Tag) {rest : Op (Option Tag)} → Keeps P rest → Keeps P (or_next o rest)
  unfolding or_next
  or_next-Keeps none h = h
  or_next-Keeps (some tag) h = pure-Keeps (some tag)

  module _ (w : TagWorld) (library_id : String) (user : ConnectedUser) where
    pub get_tags-Keeps : (q : TagQuery) → Keeps P (get_tags w library_id user q)
    unfolding get_tags
    get_tags-Keeps q =
        then-Keeps (answer-Keeps (check_tags user library_id LibraryRole.read))
          (λ _. reading-Keeps (Store.get_tags w q))

    pub get_tag-Keeps : (id : String) → Keeps P (get_tag w library_id user id)
    unfolding get_tag
    get_tag-Keeps id =
        then-Keeps (must-Keeps user library_id LibraryRole.read)
          (λ _. reading-Keeps (Store.get_tag w id))

    module _ (added : (t : TagForAdd) → Keeps P (add_tag w library_id user t)) where
      or_add-Keeps : (t : TagForAdd) (o : Option Tag) → Keeps P (or_add w library_id user t o)
      unfolding or_add
      or_add-Keeps t none = added t
      or_add-Keeps t (some tag) = pure-Keeps tag

      walk-Keeps :
          (t : TagForAdd) (path : List String) (parent : Option Tag)
          → Keeps P (walk w library_id user t path parent)
      unfolding walk
      walk-Keeps t [] parent = pure-Keeps parent
      walk-Keeps t (x ∷ path) parent =
          then-Keeps (get_tags-Keeps _) (λ found.
            then-Keeps (or_add-Keeps _ (first found)) (λ tag. walk-Keeps t path (some tag)))

      find_names-Keeps :
          (names : List String) (parent : Option String)
          → Keeps P (find_names w library_id user names parent)
      unfolding find_names
      find_names-Keeps [] parent = pure-Keeps none
      find_names-Keeps (n ∷ names) parent =
          then-Keeps (get_tags-Keeps _)
            (λ found. or_next-Keeps (first found) (find_names-Keeps names parent))

      create-Keeps :
          (t : TagForAdd) (o : Option (List String × String))
          → Keeps P (create w library_id user t o)
      unfolding create
      create-Keeps t none = fail-Keeps empty_path
      create-Keeps t (some (path, last)) =
          then-Keeps (walk-Keeps t path none) (λ parent.
            then-Keeps (find_names-Keeps _ (id_of parent)) (λ found. or_add-Keeps _ found))

      found_or_create-Keeps :
          (t : TagForAdd) (path : List String) (o : Option Tag)
          → Keeps P (found_or_create w library_id user t path o)
      unfolding found_or_create
      found_or_create-Keeps t path none = create-Keeps t (pop path)
      found_or_create-Keeps t path (some tag) = pure-Keeps tag

      -- What adding a tag leaves true, get_or_create_path leaves true.
      pub get_or_create_path-Keeps :
          (path : List String) (t : TagForAdd)
          → Keeps P (get_or_create_path w library_id user path t)
      unfolding get_or_create_path
      get_or_create_path-Keeps path t =
          then-Keeps (must-Keeps user library_id LibraryRole.read) (λ _.
            then-Keeps (get_tags-Keeps _) (λ found. found_or_create-Keeps t path (first found)))
