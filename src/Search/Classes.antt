-- ===== src/Search/Classes.antt =====
-- The union-find computes the classes of the pairs that it joins, whatever their order.
use redseat_rust.Base.{
  ℕ, suc, ◌+◌, ◌<◌, ◌≤◌, ◌≡◌, ◌∙◌, ◌↔◌, ◌⊎◌, refl, sym, ap, true, false, Option, some, List, [],
  ◌∷◌, ◌++◌, ◌==◌, ==-refl, nat_eq, nat_beq_iff, arith, Bool-cases, inl, inr, map, length,
  length-append, Any, here, there,
}
use redseat_rust.Search.UnionFind.{Parents, join_roots, union, union_rest, union_indices, union_all}
use redseat_rust.Search.Forest.{Forest, Rooted, find_root-Forest, link, join_roots-Rooted}

abbrev pub Pairs : Type 0
Pairs = List (ℕ × ℕ)

-- The pairs that are joined for the indices of one id, and for all.
abbrev pub with_root : ℕ → List ℕ → Pairs
with_root root = map (λ i. (root, i))

abbrev pub pairs_of : List ℕ → Pairs
pairs_of [] = []
pairs_of (root ∷ indices) = with_root root indices

abbrev pub all_pairs : List (List ℕ) → Pairs
all_pairs [] = []
all_pairs (indices ∷ more) = pairs_of indices ++ all_pairs more

abbrev pub link_all : Pairs → (ℕ → ℕ) → ℕ → ℕ
link_all [] rep = rep
link_all ((a, b) ∷ ps) rep = link_all ps (link a b rep)

link_all-append :
    (ps qs : Pairs) (rep : ℕ → ℕ) → link_all (ps ++ qs) rep ≡ link_all qs (link_all ps rep)
link_all-append [] qs rep = refl
link_all-append ((a, b) ∷ ps) qs rep = link_all-append ps qs (link a b rep)

pub length-with_root : (root : ℕ) (is : List ℕ) → length (with_root root is) ≡ length is
length-with_root root [] = refl
length-with_root root (i ∷ is) = omega (arith, length-with_root root is)

Rooted-mono :
    {parent : Parents} {rep : ℕ → ℕ} {m n : ℕ} → Rooted parent rep m → m ≤ n → Rooted parent rep n
Rooted-mono (depth, f) h = (
  depth,
  record {
    root = f.root;
    same = f.same;
    top = f.top;
    falls = f.falls;
    flat = f.flat;
    bounded = λ x. omega (arith, f.bounded x);
  },
)

abbrev Joined : Option Parents → (ℕ → ℕ) → ℕ → Type 0
Joined result rep m = (parent : Parents) × (result ≡ some parent) × Rooted parent rep m

union-Joined :
    (fuel a b : ℕ) {parent : Parents} {rep : ℕ → ℕ} {m : ℕ}
    → Rooted parent rep m
    → m < fuel
    → Joined (union fuel a b parent) (link a b rep) (suc m)
unfolding union
union-Joined fuel a b {parent} {rep} {m} (depth, f) h =
    let first = find_root-Forest fuel {parent = parent} a f (enough f.bounded a) in
    let second = find_root-Forest fuel {parent = first.0} b first.2 (enough f.bounded b) in
    (join_roots (rep a) (rep b) second.0, rw first.1 (rw second.1), join_roots-Rooted second.2 a b)
  where
    enough : ((x : ℕ) → depth x ≤ m) → (x : ℕ) → depth x < fuel
    enough k x = omega (arith, k x)

union_rest-Joined :
    (fuel root : ℕ) (indices : List ℕ) {parent : Parents} {rep : ℕ → ℕ} {m : ℕ}
    → Rooted parent rep m
    → m + length indices < fuel
    → Joined
        (union_rest fuel root indices parent)
        (link_all (with_root root indices) rep)
        (m + length indices)
unfolding union_rest
union_rest-Joined fuel root [] {parent} {rep} {m} r h = (parent, refl, Rooted-mono r (omega arith))
union_rest-Joined fuel root (i ∷ is) {parent} {rep} {m} r h =
    let one = union-Joined fuel root i {parent = parent} r (omega arith) in
    let rest = union_rest-Joined fuel root is {parent = one.0} {m = suc m} one.2 (omega arith) in
    (rest.0, rw one.1 rest.1, Rooted-mono rest.2 (omega arith))

union_indices-Joined :
    (fuel : ℕ) (indices : List ℕ) {parent : Parents} {rep : ℕ → ℕ} {m : ℕ}
    → Rooted parent rep m
    → m + length (pairs_of indices) < fuel
    → Joined
        (union_indices fuel indices parent)
        (link_all (pairs_of indices) rep)
        (m + length (pairs_of indices))
unfolding union_indices
union_indices-Joined fuel [] {parent} r h = (parent, refl, Rooted-mono r (omega arith))
union_indices-Joined fuel (root ∷ []) {parent} r h = (parent, refl, Rooted-mono r (omega arith))
union_indices-Joined fuel (root ∷ i ∷ is) {parent} {rep} {m} r h =
    let rest =
      union_rest-Joined fuel root (i ∷ is) {parent = parent} {m = m} r
        (omega (arith, length-with_root root is)) in
    (rest.0, ground (arith, rest.1), Rooted-mono rest.2 (omega (arith, length-with_root root is)))

union_all-Joined :
    (fuel : ℕ) (values : List (List ℕ)) {parent : Parents} {rep : ℕ → ℕ} {m : ℕ}
    → Rooted parent rep m
    → m + length (all_pairs values) < fuel
    → Joined
        (union_all fuel values parent)
        (link_all (all_pairs values) rep)
        (m + length (all_pairs values))
unfolding union_all
union_all-Joined fuel [] {parent} r h = (parent, refl, Rooted-mono r (omega arith))
union_all-Joined fuel (indices ∷ more) {parent} {rep} {m} r h =
    let one =
      union_indices-Joined fuel indices {parent = parent} r
        (omega (arith, length-append (pairs_of indices) (all_pairs more))) in
    let rest =
      union_all-Joined fuel more {parent = one.0} one.2
        (omega (arith, length-append (pairs_of indices) (all_pairs more))) in
    (
      rest.0,
      rw one.1 rest.1,
      rw (link_all-append (pairs_of indices) (all_pairs more) rep)
          (Rooted-mono rest.2 (omega (arith, length-append (pairs_of indices) (all_pairs more)))),
    )

-- Joined by a chain of pairs, or together from the start.
pub data Linked (rep : ℕ → ℕ) (pairs : Pairs) : ℕ → ℕ → Type 0 where
  together : {x y : ℕ} → rep x ≡ rep y → Linked rep pairs x y
  paired : {x y : ℕ} → Any (λ p. p ≡ (x, y)) pairs → Linked rep pairs x y
  flip : {x y : ℕ} → Linked rep pairs x y → Linked rep pairs y x
  chain : {x y z : ℕ} → Linked rep pairs x y → Linked rep pairs y z → Linked rep pairs x z

link-Linked :
    (a b : ℕ) (rep : ℕ → ℕ) (ps : Pairs) (x y : ℕ)
    → link a b rep x ≡ link a b rep y
    → Linked rep ((a, b) ∷ ps) x y
unfolding link
link-Linked a b rep ps x y h =
    sides (nat_beq_iff (rep x) (rep a)) (nat_beq_iff (rep y) (rep a)) (Bool-cases (rep x == rep a))
      (Bool-cases (rep y == rep a))
  where
    joined : Linked rep ((a, b) ∷ ps) a b
    joined = paired (here refl)

    sides :
        ((rep x == rep a) ≡ true) ↔ (rep x ≡ rep a)
        → ((rep y == rep a) ≡ true) ↔ (rep y ≡ rep a)
        → (((rep x == rep a) ≡ true) ⊎ ((rep x == rep a) ≡ false))
        → (((rep y == rep a) ≡ true) ⊎ ((rep y == rep a) ≡ false))
        → Linked rep ((a, b) ∷ ps) x y
    sides p q (inl e) (inl g) = together (p.0 e ∙ sym (q.0 g))
    sides p q (inl e) (inr g) = chain (together (p.0 e)) (chain joined (together (ground arith)))
    sides p q (inr e) (inl g) =
        chain (together (ground arith)) (chain (flip joined) (together (sym (q.0 g))))
    sides p q (inr e) (inr g) = together (ground arith)

Linked-cons :
    (a b : ℕ) (rep : ℕ → ℕ) (ps : Pairs) {x y : ℕ}
    → Linked (link a b rep) ps x y
    → Linked rep ((a, b) ∷ ps) x y
Linked-cons a b rep ps {x} {y} (together h) = link-Linked a b rep ps x y h
Linked-cons a b rep ps (paired m) = paired (there m)
Linked-cons a b rep ps (flip l) = flip (Linked-cons a b rep ps l)
Linked-cons a b rep ps (chain l m) = chain (Linked-cons a b rep ps l) (Linked-cons a b rep ps m)

link_all→Linked :
    (ps : Pairs) (rep : ℕ → ℕ) (x y : ℕ) → link_all ps rep x ≡ link_all ps rep y → Linked rep ps x y
link_all→Linked [] rep x y h = together h
link_all→Linked ((a, b) ∷ ps) rep x y h =
    Linked-cons a b rep ps (link_all→Linked ps (link a b rep) x y h)

link-keeps : (a b : ℕ) (rep : ℕ → ℕ) (x y : ℕ) → rep x ≡ rep y → link a b rep x ≡ link a b rep y
unfolding link
link-keeps a b rep x y h = ground arith

link_all-keeps :
    (ps : Pairs) (rep : ℕ → ℕ) (x y : ℕ) → rep x ≡ rep y → link_all ps rep x ≡ link_all ps rep y
link_all-keeps [] rep x y h = h
link_all-keeps ((a, b) ∷ ps) rep x y h =
    link_all-keeps ps (link a b rep) x y (link-keeps a b rep x y h)

link_pair : (a b : ℕ) (rep : ℕ → ℕ) → link a b rep a ≡ link a b rep b
unfolding link
link_pair a b rep = ground (arith, ==-refl (rep a))

link_all_pair :
    (ps : Pairs) (rep : ℕ → ℕ) {x y : ℕ}
    → Any (λ p. p ≡ (x, y)) ps
    → link_all ps rep x ≡ link_all ps rep y
link_all_pair [] rep m = elim m [ ]
link_all_pair ((a, b) ∷ ps) rep {x} {y} (here e) = link_all-keeps ps (link a b rep) x y (
    ap (link a b rep) (sym (ap (λ p. p.0) e))
    ∙ link_pair a b rep
    ∙ ap (link a b rep) (ap (λ p. p.1) e))
link_all_pair ((a, b) ∷ ps) rep (there m) = link_all_pair ps (link a b rep) m

Linked→link_all :
    (ps : Pairs) (rep : ℕ → ℕ) {x y : ℕ} → Linked rep ps x y → link_all ps rep x ≡ link_all ps rep y
Linked→link_all ps rep {x} {y} (together h) = link_all-keeps ps rep x y h
Linked→link_all ps rep (paired m) = link_all_pair ps rep m
Linked→link_all ps rep (flip l) = sym (Linked→link_all ps rep l)
Linked→link_all ps rep (chain l m) = Linked→link_all ps rep l ∙ Linked→link_all ps rep m

-- From singletons, with more fuel than pairs, the union-find ends in a forest whose classes are
-- those of the pairs.
abbrev pub classes : List (List ℕ) → ℕ → ℕ
classes values = link_all (all_pairs values) (λ x. x)

pub union_all-classes :
    (fuel : ℕ) (values : List (List ℕ))
    → length (all_pairs values) < fuel
    → (parent : Parents) × (union_all fuel values (λ x. x) ≡ some parent)
      × Rooted parent (classes values) (length (all_pairs values))
union_all-classes fuel values h =
    let all =
      union_all-Joined fuel values {parent = λ x. x} {m = 0} (λ x. 0, singletons) (omega arith) in
    (all.0, all.1, Rooted-mono all.2 (omega arith))
  where
    singletons : Forest (λ x. x) (λ x. x) (λ x. 0) 0
    singletons = record {
      root = λ x. refl;
      same = λ x. refl;
      top = λ x e. refl;
      falls = λ x e. ground (arith, ==-refl x);
      flat = λ x. refl;
      bounded = λ x. omega arith;
    }

pub classes-Linked :
    (values : List (List ℕ)) (x y : ℕ)
    → (classes values x ≡ classes values y) ↔ Linked (λ x. x) (all_pairs values) x y
classes-Linked values x y =
    (link_all→Linked (all_pairs values) (λ x. x) x y, Linked→link_all (all_pairs values) (λ x. x))
