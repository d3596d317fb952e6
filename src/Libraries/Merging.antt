-- ===== src/Libraries/Merging.antt =====
-- The users whose progress is merged with a user's, and the user that a user is mapped to.
use redseat_rust.Base.{
  String, Bool, false, ◌≡◌, refl, ◌∙◌, ◌||◌, ◌&&◌, some, List, [], ◌∷◌, ok, arith, eq_iff, ◌==◌,
  string_eq, contains, any, filter, any-filter,
}
use redseat_rust.Base.Dict
use redseat_rust.Libraries.{
  UserMapping, ServerLibrary, LibraryTable, mappings_of, set_insert, insert_ends, touches,
  shares_end, insert_all, merge_loop, get_library_progress_merged_users,
}

-- `x` is one of the two users of a mapping.
abbrev pub has_end : String → UserMapping → Bool
has_end x m = m.from == x || m.to == x

contains-set_insert :
    (set : List String) (y x : String) → contains (set_insert set y) x ≡ (y == x || contains set x)
contains-set_insert set y x = ground (arith, eq_iff y x, subst_contains set y x)
  where
    subst_contains : (set : List String) (y x : String) → y ≡ x → contains set y ≡ contains set x
    subst_contains set y x e = rw e

contains-insert_all :
    (set : List String) (ms : List UserMapping) (x : String)
    → contains (insert_all set ms) x ≡ (contains set x || any (has_end x) ms)
unfolding insert_all
contains-insert_all set [] x = ground arith
contains-insert_all set (m ∷ ms) x = ground (
  arith,
  contains-insert_all (insert_ends set m) ms x,
  contains-set_insert (set_insert set m.from) m.to x,
  contains-set_insert set m.from x,
)

-- A user that the mapping `m` brings in: an end of `m`, or of a mapping that shares an end with it.
abbrev pub brings : List UserMapping → String → UserMapping → Bool
brings mapping x m = has_end x m || any (λ n. shares_end m n && has_end x n) mapping

contains-merge_loop :
    (mapping : List UserMapping) (set : List String) (rest : List UserMapping) (x : String)
    → contains (merge_loop mapping set rest) x ≡ (contains set x || any (brings mapping x) rest)
unfolding merge_loop
contains-merge_loop mapping set [] x = ground arith
contains-merge_loop mapping set (m ∷ rest) x = ground (
  arith,
  contains-merge_loop mapping (insert_all (insert_ends set m) (filter (shares_end m) mapping)) rest
      x,
  contains-insert_all (insert_ends set m) (filter (shares_end m) mapping) x,
  any-filter (has_end x) (shares_end m) mapping,
  contains-set_insert (set_insert set m.from) m.to x,
  contains-set_insert set m.from x,
)

-- The merged users of a library that is in the table are exactly the two ends of each mapping that
-- touches the user, and of each mapping that shares an end with such a one.
pub merged_users-contains :
    (table : LibraryTable) (library_id user_id x : String) (lib : ServerLibrary)
    → Dict.lookup library_id table ≡ some lib
    → (users : List String) × (get_library_progress_merged_users table library_id user_id
        ≡ ok users)
      × (contains users x
          ≡ any (λ m. touches user_id m && brings (mappings_of lib) x m) (mappings_of lib))
unfolding get_library_progress_merged_users
merged_users-contains table library_id user_id x lib e = (
  merge_loop (mappings_of lib) [] (filter (touches user_id) (mappings_of lib)),
  rw e,
  contains-merge_loop (mappings_of lib) [] (filter (touches user_id) (mappings_of lib)) x
      ∙ any-filter (brings (mappings_of lib) x) (touches user_id) (mappings_of lib),
)

filter-eq-nil :
    (mapping : List UserMapping) (user_id : String)
    → any (touches user_id) mapping ≡ false
    → filter (touches user_id) mapping ≡ []
filter-eq-nil [] user_id h = refl
filter-eq-nil (m ∷ ms) user_id h = ground (arith, filter-eq-nil ms user_id)

-- A user whom no mapping of the library touches is merged with nobody, not even with itself: the
-- set is empty.
pub merged_users-untouched :
    (table : LibraryTable) (library_id user_id : String) (lib : ServerLibrary)
    → Dict.lookup library_id table ≡ some lib
    → any (touches user_id) (mappings_of lib) ≡ false
    → get_library_progress_merged_users table library_id user_id ≡ ok []
unfolding get_library_progress_merged_users merge_loop
merged_users-untouched table library_id user_id lib e h =
    rw e (rw (filter-eq-nil (mappings_of lib) user_id h))
