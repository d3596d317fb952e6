-- ===== src/Tags.antt =====
-- The tags of one library: the records of src/model/tags.rs and the statements of
-- src/model/store/sql/library/tags.rs with the trigger that follows a deletion. A column that stores a
-- list is seen through that list. `childs_path`, from another crate, and what SQLite does with a
-- text and the order of rows are parameters.
mod Changes
mod Deleting
mod Filing
mod Guards
mod Lookups
mod Merging
mod Operations
mod Paths
mod Removing
mod Requests
mod Runs
mod Store
mod Tests
use redseat_rust.Base.{
  ℕ, ◌≡◌, String, ◌<>◌, Bool, true, Option, none, some, List, [], ◌∷◌, ◌++◌, Result, ok, err, any,
}
use redseat_rust.Access.Users.{Error}

pub record Tag : Type 0 where
  pub id : String
  pub name : String
  pub parent : Option String
  pub kind : Option String
  pub alt : Option (List String)
  pub thumb : Option String
  pub params : Option String
  pub modified : ℕ
  pub added : ℕ
  pub generated : Bool
  pub path : String
  pub otherids : Option (List String)

pub record TagForAdd : Type 0 where
  pub name : String
  pub parent : Option String
  pub kind : Option String
  pub alt : Option (List String)
  pub thumb : Option String
  pub params : Option String
  pub generated : Bool
  pub otherids : Option (List String)

pub record TagForInsert : Type 0 where
  pub id : String
  pub name : String
  pub parent : Option String
  pub kind : Option String
  pub alt : Option (List String)
  pub thumb : Option String
  pub params : Option String
  pub generated : Bool
  pub otherids : Option (List String)

pub record TagForUpdate : Type 0 where
  pub name : Option String
  pub parent : Option String
  pub kind : Option String
  pub alt : Option (List String)
  pub add_alts : Option (List String)
  pub remove_alts : Option (List String)
  pub thumb : Option String
  pub params : Option String
  pub otherids : Option (List String)
  pub add_otherids : Option (List String)
  pub remove_otherids : Option (List String)
  pub generated : Option Bool
  pub migrate_to : Option String

pub record TagQuery : Type 0 where
  pub name : Option String
  pub parent : Option String
  pub path : Option String
  pub after : Option ℕ

-- A row of `media_tag_mapping`, `book_tag_mapping` or `channel_tag_mapping`.
pub record Mapping : Type 0 where
  pub owner : String
  pub tag_ref : String
  pub confidence : Option ℕ

pub data ElementType : Type 0 where
  media_kind tag_kind person_kind episode_kind serie_kind movie_kind book_kind : ElementType

pub record RsDeleted : Type 0 where
  pub id : String
  pub date : ℕ
  pub kind : ElementType

pub data ElementAction : Type 0 where
  was_added was_updated was_deleted : ElementAction

pub record TagWithAction : Type 0 where
  pub action : ElementAction
  pub tag : Tag

pub record TagMessage : Type 0 where
  pub library : String
  pub tags : List TagWithAction

-- The tables of the library, the messages sent, and how many ids `nanoid` has made.
pub record TagStore : Type 0 where
  pub tags : List Tag
  pub media_tags : List Mapping
  pub book_tags : List Mapping
  pub channel_tags : List Mapping
  pub deleted : List RsDeleted
  pub sent : List TagMessage
  pub drawn : ℕ

-- `no_rows` and `constraint` are SQLite's errors.
pub data TagError : Type 0 where
  refused : Error → TagError
  forbidden empty_path no_rows constraint : TagError
  unable_to_find tag_not_found : String → TagError

-- What the code is given: `like pattern text`, `named q tag` for the condition `EqualWithAlt` on name
-- and alt, SQL's REPLACE, the order in which rows are read, the ids that `nanoid` makes, and the clock.
pub record TagWorld : Type 0 where
  pub childs_path : Tag → String
  pub like : String → String → Bool
  pub named : String → Tag → Bool
  pub replace : String → String → String → String
  pub in_order : List Tag → List Tag
  pub nanoid : ℕ → String
  pub now : ℕ

-- The documented behaviour of `childs_path`, of LIKE with a `%` at its end, and of a query.
pub record IsSound (w : TagWorld) : Type 0 where
  pub childs_path_of : (t : Tag) → w.childs_path t ≡ t.path <> (t.name <> "/")
  pub like_itself : (p : String) → w.like (p <> "%") p ≡ true
  pub like_longer :
      (p s r : String) → w.like (p <> "%") s ≡ true → w.like (p <> "%") (s <> r) ≡ true
  pub read_all : (p : Tag → Bool) (ts : List Tag) → any p (w.in_order ts) ≡ any p ts

-- What an operation answers, and the tables it leaves.
abbrev pub Op : Type 0 → Type 0
Op A = TagStore → Result TagError A × TagStore

abbrev pub go_on :
    {A B : Type 0} → (A → Op B) → Result TagError A × TagStore → Result TagError B × TagStore
go_on f (ok a, st) = f a st
go_on f (err e, st) = (err e, st)

infixl 5 ◌>>=◌ ◌>>◌
unfoldable pub ◌>>=◌ : {A B : Type 0} → Op A → (A → Op B) → Op B
(m >>= f) st = go_on f (m st)

abbrev pub ◌>>◌ : {B : Type 0} → Op (Unit {0}) → Op B → Op B
m >> n = m >>= λ _. n

unfoldable pub pure : {A : Type 0} → A → Op A
pure a st = (ok a, st)

unfoldable pub fail : {A : Type 0} → TagError → Op A
fail e st = (err e, st)
