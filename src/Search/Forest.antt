-- ===== src/Search/Forest.antt =====
-- The parents of the union-find form a forest: `find_root` ends at the root, and `union` joins two
-- trees.
use redseat_rust.Base.{
  ℕ, zero, suc, ◌<◌, ◌≤◌, ◌≡◌, ◌∙◌, ap, true, false, some, ◌==◌, ==-refl, nat_eq, nat_beq_iff,
  if◌then◌else◌, arith, Bool-cases, inl, inr,
}
use redseat_rust.Search.UnionFind.{Parents, assign, find_root, join_roots}

-- Every node has a root `rep`, and a depth that falls on the way to it and is at most `m`.
pub record Forest (parent : Parents) (rep depth : ℕ → ℕ) (m : ℕ) : Type 0 where
  pub root : (x : ℕ) → parent (rep x) ≡ rep x
  pub same : (x : ℕ) → rep (parent x) ≡ rep x
  pub top : (x : ℕ) → parent x ≡ x → rep x ≡ x
  pub falls : (x : ℕ) → (parent x == x) ≡ false → depth (parent x) < depth x
  pub flat : (x : ℕ) → depth (rep x) ≡ 0
  pub bounded : (x : ℕ) → depth x ≤ m

assign_self : (parent : Parents) (x v : ℕ) → assign parent x v x ≡ v
unfolding assign
assign_self parent x v = ground (arith, ==-refl x)

module _ {rep depth : ℕ → ℕ} {m : ℕ} where
  halve-Forest :
      {parent : Parents} (x : ℕ)
      → Forest parent rep depth m
      → (parent x == x) ≡ false
      → Forest (assign parent x (parent (parent x))) rep depth m
  unfolding assign
  halve-Forest {parent} x f inner = record {
    root = λ y. ground (arith, f.root y, f.falls x inner);
    same = λ y. ground (arith, f.same x, f.same (parent x), f.same y);
    top = λ y e. ground (arith, f.falls x inner, f.falls (parent x), f.top y);
    falls = λ y e. ground (arith, f.falls x inner, f.falls (parent x), f.falls y);
    flat = f.flat;
    bounded = f.bounded;
  }

  -- More fuel than the depth finds the root, and leaves the trees as they are.
  pub find_root-Forest :
      (fuel : ℕ) {parent : Parents} (x : ℕ)
      → Forest parent rep depth m
      → depth x < fuel
      → (parent' : Parents) × (find_root fuel parent x ≡ some (rep x, parent'))
        × Forest parent' rep depth m
  unfolding find_root
  find_root-Forest zero x f h = elim h [ ]
  find_root-Forest (suc fuel) {parent} x f h = elim (Bool-cases (parent x == x)) [
    | inl e ↦ (parent, rw e (cc (f.top x ((nat_beq_iff (parent x) x).0 e))), f)
    | inr e ↦
        let halved : Parents = assign parent x (parent (parent x)) in
        let rest = find_root-Forest fuel {parent = halved} (halved x) (halve-Forest x f e) (
          ground
            (arith, assign_self parent x (parent (parent x)), f.falls x e, f.falls (parent x))) in
        let same_root : rep (halved x) ≡ rep x =
          ap rep (assign_self parent x (parent (parent x))) ∙ f.same (parent x) ∙ f.same x in
        (rest.0, rw e (rest.1 ∙ ap (λ r. some (r, rest.0)) same_root), rest.2)
  ]

-- The roots once the tree of `a` hangs under the root of `b`.
unfoldable pub link : ℕ → ℕ → (ℕ → ℕ) → ℕ → ℕ
link a b rep y = if rep y == rep a then rep b else rep y

abbrev pub deeper : ℕ → (ℕ → ℕ) → (ℕ → ℕ) → ℕ → ℕ
deeper a rep depth y = if rep y == rep a then suc (depth y) else depth y

-- Whatever the depths, at most `m`.
abbrev pub Rooted : Parents → (ℕ → ℕ) → ℕ → Type 0
Rooted parent rep m = (depth : ℕ → ℕ) × Forest parent rep depth m

module _ {rep depth : ℕ → ℕ} {m : ℕ} {parent : Parents} (f : Forest parent rep depth m)
    (a b : ℕ) where
  root_idem : (x : ℕ) → rep (rep x) ≡ rep x
  root_idem x = f.top (rep x) (f.root x)

  apart-Forest :
      (rep a == rep b) ≡ false
      → Forest (assign parent (rep a) (rep b)) (link a b rep) (deeper a rep depth) (suc m)
  unfolding assign link
  apart-Forest e = record {
    root = λ y. ground (arith, f.root b, f.root y, root_idem b, root_idem y);
    same = λ y. ground (arith, f.same y, root_idem a, root_idem b);
    top = λ y h. ground (arith, f.top y, root_idem a, root_idem b);
    falls = λ y h. ground (arith, f.falls y, f.same y, f.flat b, root_idem a, root_idem b);
    flat = λ y. ground (arith, f.flat b, f.flat y, root_idem b, root_idem y);
    bounded = λ y. ground (arith, f.bounded y);
  }

  link_same : (rep a == rep b) ≡ true → (y : ℕ) → link a b rep y ≡ rep y
  unfolding link
  link_same e y = ground arith

  together-Forest : (rep a == rep b) ≡ true → Forest parent (link a b rep) depth (suc m)
  together-Forest e = record {
    root = λ y. ground (arith, f.root y, link_same e y);
    same = λ y. ground (arith, f.same y, link_same e y, link_same e (parent y));
    top = λ y h. ground (arith, f.top y, link_same e y);
    falls = f.falls;
    flat = λ y. ground (arith, f.flat y, link_same e y);
    bounded = λ y. ground (arith, f.bounded y);
  }

  pub join_roots-Rooted : Rooted (join_roots (rep a) (rep b) parent) (link a b rep) (suc m)
  unfolding join_roots
  join_roots-Rooted = elim (Bool-cases (rep a == rep b)) [
    | inl e ↦ rw e (depth, together-Forest e)
    | inr e ↦ rw e (deeper a rep depth, apart-Forest e)
  ]
