-- ===== src/Search/UnionFind.antt =====
-- The union-find of `merge_result_ids` in src/model/entity_search.rs. The vector `parent` is a
-- function from the indices; the loop of `find` takes fuel, and `none` means that it ran out.
use redseat_rust.Base.{
  ℕ, zero, suc, Option, none, some, List, [], ◌∷◌, ◌==◌, nat_eq, length, ltb, and_then,
  if◌then◌else◌,
}

abbrev pub Parents : Type 0
Parents = ℕ → ℕ

-- `parent[x] = v`
unfoldable pub assign : Parents → ℕ → ℕ → Parents
assign parent x v y = if y == x then v else parent y

-- The root of `x`, and the parents with the path to it halved.
unfoldable pub find_root : ℕ → Parents → ℕ → Option (ℕ × Parents)
find_root zero parent x = none
find_root (suc fuel) parent x =
    let halved = assign parent x (parent (parent x)) in
    let rest = find_root fuel halved (halved x) in if parent x == x then some (x, parent) else rest

unfoldable pub join_roots : ℕ → ℕ → Parents → Parents
join_roots ra rb parent = if ra == rb then parent else assign parent ra rb

unfoldable pub union : ℕ → ℕ → ℕ → Parents → Option Parents
union fuel root idx parent =
    and_then (find_root fuel parent root)
      λ (ra, p). and_then (find_root fuel p idx) λ (rb, p'). some (join_roots ra rb p')

unfoldable pub union_rest : ℕ → ℕ → List ℕ → Parents → Option Parents
union_rest fuel root [] parent = some parent
union_rest fuel root (idx ∷ indices) parent =
    and_then (union fuel root idx parent) (union_rest fuel root indices)

-- The indices of one id.
unfoldable pub union_indices : ℕ → List ℕ → Parents → Option Parents
union_indices fuel [] parent = some parent
union_indices fuel (root ∷ indices) parent =
    if ltb 1 (length (root ∷ indices)) then union_rest fuel root indices parent else some parent

unfoldable pub union_all : ℕ → List (List ℕ) → Parents → Option Parents
union_all fuel [] parent = some parent
union_all fuel (indices ∷ more) parent =
    and_then (union_indices fuel indices parent) (union_all fuel more)
