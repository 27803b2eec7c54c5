-- ===== src/Data/Value/Order/Tree.antt =====
-- Trees with labels in order: by the label, then by the subtrees from the left.
use retia.Prelude.{Ordering, lt, eq, gt, ◌≡◌, refl, arith}
use retia.Prelude.Order.{Ord, then}

mutual
  pub data Tree (L : Type 0) : Type 0 where
    node : L → Trees L → Tree L

  pub data Trees (L : Type 0) : Type 0 where
    nil : Trees L
    cons : Tree L → Trees L → Trees L

module _ {L : Type 0} ⦃o : Ord L⦄ where
  unfoldable mutual
    pub cmp_tree : Tree L → Tree L → Ordering
    cmp_tree (node l ks) (node m js) = then (o.cmp l m) (cmp_trees ks js)

    pub cmp_trees : Trees L → Trees L → Ordering
    cmp_trees nil nil = eq
    cmp_trees nil (cons t ts) = lt
    cmp_trees (cons s ss) nil = gt
    cmp_trees (cons s ss) (cons t ts) = then (cmp_tree s t) (cmp_trees ss ts)

  mutual
    unfolding cmp_tree

    pub tree_self : (s : Tree L) → cmp_tree s s ≡ eq
    tree_self (node l ks) = ground (arith, o.cmp_self l, trees_self ks)

    pub trees_self : (ss : Trees L) → cmp_trees ss ss ≡ eq
    trees_self nil = refl
    trees_self (cons s ss) = ground (arith, tree_self s, trees_self ss)

  mutual
    unfolding cmp_tree

    pub tree_eq : (s t : Tree L) → cmp_tree s t ≡ eq → s ≡ t
    tree_eq (node l ks) (node m js) h = ground (arith, o.eq_of_cmp l m, trees_eq ks js)

    pub trees_eq : (ss ts : Trees L) → cmp_trees ss ts ≡ eq → ss ≡ ts
    trees_eq nil nil h = refl
    trees_eq nil (cons t ts) h = ground arith
    trees_eq (cons s ss) nil h = ground arith
    trees_eq (cons s ss) (cons t ts) h = ground (arith, tree_eq s t, trees_eq ss ts)

  mutual
    unfolding cmp_tree

    pub tree_lt : (s t : Tree L) → cmp_tree s t ≡ gt → cmp_tree t s ≡ lt
    tree_lt (node l ks) (node m js) h =
        ground (arith, o.eq_of_cmp l m, o.cmp_self l, o.lt_of_gt l m, trees_lt ks js)

    pub trees_lt : (ss ts : Trees L) → cmp_trees ss ts ≡ gt → cmp_trees ts ss ≡ lt
    trees_lt nil nil h = ground arith
    trees_lt nil (cons t ts) h = ground arith
    trees_lt (cons s ss) nil h = refl
    trees_lt (cons s ss) (cons t ts) h =
        ground (arith, tree_eq s t, tree_self s, tree_lt s t, trees_lt ss ts)

  mutual
    unfolding cmp_tree

    pub tree_gt : (s t : Tree L) → cmp_tree s t ≡ lt → cmp_tree t s ≡ gt
    tree_gt (node l ks) (node m js) h =
        ground (arith, o.eq_of_cmp l m, o.cmp_self l, o.gt_of_lt l m, trees_gt ks js)

    pub trees_gt : (ss ts : Trees L) → cmp_trees ss ts ≡ lt → cmp_trees ts ss ≡ gt
    trees_gt nil nil h = ground arith
    trees_gt nil (cons t ts) h = refl
    trees_gt (cons s ss) nil h = ground arith
    trees_gt (cons s ss) (cons t ts) h =
        ground (arith, tree_eq s t, tree_self s, tree_gt s t, trees_gt ss ts)

  mutual
    unfolding cmp_tree

    pub tree_trans : (s t u : Tree L) → cmp_tree s t ≡ lt → cmp_tree t u ≡ lt → cmp_tree s u ≡ lt
    tree_trans (node l ks) (node m js) (node n is) h k = ground (
      arith,
      o.eq_of_cmp l m,
      o.eq_of_cmp m n,
      o.cmp_self l,
      o.lt_trans l m n,
      trees_trans ks js is,
    )

    pub trees_trans :
        (ss ts us : Trees L) → cmp_trees ss ts ≡ lt → cmp_trees ts us ≡ lt → cmp_trees ss us ≡ lt
    trees_trans nil nil us h k = ground arith
    trees_trans nil (cons t ts) nil h k = ground arith
    trees_trans nil (cons t ts) (cons u us) h k = refl
    trees_trans (cons s ss) nil us h k = ground arith
    trees_trans (cons s ss) (cons t ts) nil h k = ground arith
    trees_trans (cons s ss) (cons t ts) (cons u us) h k =
        ground
          (arith, tree_eq s t, tree_eq t u, tree_self s, tree_trans s t u, trees_trans ss ts us)

  unfoldable pub tree_ord : Ord (Tree L)
  tree_ord = record {
    cmp = cmp_tree;
    cmp_self = tree_self;
    eq_of_cmp = tree_eq;
    lt_of_gt = tree_lt;
    gt_of_lt = tree_gt;
    lt_trans = tree_trans;
  }
