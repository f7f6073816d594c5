-- ===== src/Avl/Del.antt =====
-- `AvlEntry<T>::del` and `replacePtrWithGreatestOrSmallest`: one element leaves the list.
use cerius.Base.{
  ℕ, ◌+◌, ◌≤◌, ◌≡◌, refl, Bool, true, false, List, [], ◌∷◌, ◌++◌, append_assoc, max, dist, arith,
  Returns, returns, value, bind, le→leb, Bool-cases, inl, inr, ap, sym, subst, ok, ◌>>=◌, All,
  All-append,
}
use cerius.Order.{Ordered, IsSorted, ◌≈◌}
use cerius.Order.Sorted.{IsSorted-Middle, not-eq_below, not-eq_above}
use cerius.Avl.{
  AvlEntry, EntryClass, null, node, get_height, is_null, detach, rebalance, replace_ptr, del_here,
  del, tree_del,
}
use cerius.Avl.Model.{to_list, IsAvl}
use cerius.Avl.Rebalance.{rebalance-Rebalanced}

-- The list `l'` is `l` without its first or last element, which is `t`.
abbrev WithoutEnd {ℓ} : {T : Type ℓ} → Bool → List T → T → List T → Type ℓ
WithoutEnd true l t l' = l ≡ t ∷ l'
WithoutEnd false l t l' = l ≡ l' ++ (t ∷ [])

module _ {ℓ} {T : Type ℓ} ⦃o : Ordered T⦄ where
  -- One element that is `==` to `x` has left the list, or there is none and the list is the same.
  abbrev pub Removed : T → List T → Bool → List T → Type ℓ
  Removed x l true l' =
      (xs : List T) × (y : T) × (ys : List T) × (x ≈ y) × (l ≡ xs ++ (y ∷ ys)) × (l' ≡ xs ++ ys)
  Removed x l false l' = (l' ≡ l) × All (λ y. o.eq x y ≡ false) l

  Removed-behind :
      (x : T) (xs : List T) (t : T) (l l' : List T) (found : Bool)
      → All (λ y. o.eq x y ≡ false) xs
      → o.eq x t ≡ false
      → Removed x l found l'
      → Removed x (xs ++ (t ∷ l)) found (xs ++ (t ∷ l'))
  Removed-behind x xs t l l' true a n r =
      (xs ++ (t ∷ r.0), r.1, r.2, r.3, rw (r.4, append_assoc), rw (r.5, append_assoc))
  Removed-behind x xs t l l' false a n r =
      (rw r.0, All-append (λ y. o.eq x y ≡ false) xs (t ∷ l) a (n, r.1))

  Removed-before :
      (x : T) (l l' : List T) (t : T) (ys : List T) (found : Bool)
      → All (λ y. o.eq x y ≡ false) ys
      → o.eq x t ≡ false
      → Removed x l found l'
      → Removed x (l ++ (t ∷ ys)) found (l' ++ (t ∷ ys))
  Removed-before x l l' t ys true a n r =
      (r.0, r.1, r.2 ++ (t ∷ ys), r.3, rw (r.4, append_assoc), rw (r.5, append_assoc))
  Removed-before x l l' t ys false a n r =
      (rw r.0, All-append (λ y. o.eq x y ≡ false) l (t ∷ ys) r.1 (n, a))

module _ {ℓ κ} {T : Type ℓ} {C : Type κ} where
  null-height : (e : AvlEntry T C) → is_null e ≡ true → get_height e ≡ 0
  null-height null h = refl
  null-height (node e0 t height extra e1) h = absurd (cc)

  null-to_list : (e : AvlEntry T C) → is_null e ≡ true → to_list e ≡ []
  null-to_list null h = refl
  null-to_list (node e0 t height extra e1) h = absurd (cc)

module _ {ℓ κ} {T : Type ℓ} {C : Type κ} ⦃c : EntryClass T C⦄ where
  -- A valid tree of the given height or one less.
  pub record Shrunk (height : ℕ) (e : AvlEntry T C) : Type (ℓ ⊔ κ) where
    pub avl : IsAvl e
    pub least : height ≤ get_height e + 1
    pub most : get_height e ≤ height

  Shrunk-id : (e : AvlEntry T C) → IsAvl e → Shrunk (get_height e) e
  Shrunk-id e a = record { avl = a; least = omega arith; most = omega arith }

  record Rebuilt (items : List T) (height : ℕ) (e : AvlEntry T C) : Type (ℓ ⊔ κ) where
    order : to_list e ≡ items
    shrunk : Shrunk height e

  shrink :
      (e0 : AvlEntry T C) (t : T) (e1 : AvlEntry T C) (h0 h1 : ℕ)
      → Shrunk h0 e0
      → Shrunk h1 e1
      → h0 + h1 ≤ get_height e0 + get_height e1 + 1
      → dist h0 h1 ≤ 1
      → Returns (Rebuilt (to_list e0 ++ (t ∷ to_list e1)) (max h0 h1 + 1)) (rebalance e0 t e1)
  shrink e0 t e1 h0 h1 s0 s1 s d =
      let (e, eq, r) = value (
        rebalance-Rebalanced e0 t e1 s0.avl s1.avl
          (omega (arith, s0.least, s0.most, s1.least, s1.most))) in
      rw eq (
        returns (record {
          order = r.order;
          shrunk = record {
            avl = r.avl;
            least = omega (arith, s0.least, s0.most, s1.least, s1.most, r.least, r.same);
            most = omega (arith, s0.least, s0.most, s1.least, s1.most, r.most, r.same);
          };
        }))

  -- What `replacePtrWithGreatestOrSmallest` leaves, once its caller has detached an entry that has
  -- disappeared.
  record Replaced (smallest : Bool) (e : AvlEntry T C) (r : AvlEntry T C × T × Bool)
      : Type (ℓ ⊔ κ) where
    shrunk : Shrunk (get_height e) (detach r.2 r.0)
    taken : WithoutEnd smallest (to_list e) r.1 (to_list (detach r.2 r.0))

  -- The entry itself disappears: it has no children.
  Replaced-gone :
      (smallest : Bool) (e0 : AvlEntry T C) (t : T) (h : ℕ) (extra : C) (e1 : AvlEntry T C)
      → is_null e0 ≡ true
      → is_null e1 ≡ true
      → IsAvl (node e0 t h extra e1)
      → Returns
          (Replaced smallest (node e0 t h extra e1))
          (rebalance e0 t e1 >>= λ self. ok (self, t, true))
  Replaced-gone smallest e0 t h extra e1 n0 n1 a =
      bind
        (shrink e0 t e1 (get_height e0) (get_height e1) (Shrunk-id e0 a.0) (Shrunk-id e1 a.1)
          (omega arith) a.3)
        λ self r. returns (record {
          shrunk = record {
            avl = tt;
            least = omega (arith, a.2, null-height e0 n0, null-height e1 n1);
            most = omega arith;
          };
          taken = alone smallest;
        })
    where
      alone : (b : Bool) → WithoutEnd b (to_list e0 ++ (t ∷ to_list e1)) t []
      alone true = rw (null-to_list e0 n0, null-to_list e1 n1)
      alone false = rw (null-to_list e0 n0, null-to_list e1 n1)

  -- The entry stays, with a child or its own element taken from below.
  Replaced-kept :
      (smallest : Bool) (e : AvlEntry T C) (tt' : T) (e0 : AvlEntry T C) (t : T) (e1 : AvlEntry T C)
      (h0 h1 : ℕ)
      → Shrunk h0 e0
      → Shrunk h1 e1
      → h0 + h1 ≤ get_height e0 + get_height e1 + 1
      → dist h0 h1 ≤ 1
      → get_height e ≡ max h0 h1 + 1
      → WithoutEnd smallest (to_list e) tt' (to_list e0 ++ (t ∷ to_list e1))
      → Returns (Replaced smallest e) (rebalance e0 t e1 >>= λ self. ok (self, tt', false))
  Replaced-kept smallest e tt' e0 t e1 h0 h1 s0 s1 s d h w =
      bind (shrink e0 t e1 h0 h1 s0 s1 s d) λ self r. returns (record {
        shrunk = subst (λ n. Shrunk n self) (sym h) r.shrunk;
        taken = subst (WithoutEnd smallest (to_list e) tt') (sym r.order) w;
      })

  replace_ptr-Replaced :
      (smallest : Bool) (e : AvlEntry T C)
      → is_null e ≡ false
      → IsAvl e
      → Returns (Replaced smallest e) (replace_ptr smallest e)
  unfolding replace_ptr
  replace_ptr-Replaced smallest null n a = absurd (cc)
  replace_ptr-Replaced true (node e0 t h extra e1) n a = elim (Bool-cases (is_null e0)) [
    | inr more ↦
        rw (more, replace_ptr)
          (bind (replace_ptr-Replaced true e0 more a.0) λ r R.
            Replaced-kept true (node e0 t h extra e1) r.1 (detach r.2 r.0) t e1 (get_height e0)
              (get_height e1) R.shrunk (Shrunk-id e1 a.1) (omega (arith, R.shrunk.least)) a.3 a.2
              (ap (λ l. l ++ (t ∷ to_list e1)) R.taken))
    | inl last ↦ elim (Bool-cases (is_null e1)) [
      | inl leaf ↦
          rw (last, replace_ptr)
            (rw (leaf, replace_ptr) (Replaced-gone true e0 t h extra e1 last leaf a))
      | inr right ↦
          rw (last, replace_ptr)
            (rw (right, replace_ptr)
              (bind (replace_ptr-Replaced true e1 right a.1) λ r R.
                Replaced-kept true (node e0 t h extra e1) t e0 r.1 (detach r.2 r.0) (get_height e0)
                  (get_height e1) (Shrunk-id e0 a.0) R.shrunk (omega (arith, R.shrunk.least)) a.3
                  a.2 (rw (null-to_list e0 last, R.taken))))
    ]
  ]
  replace_ptr-Replaced false (node e0 t h extra e1) n a = elim (Bool-cases (is_null e1)) [
    | inr more ↦
        rw (more, replace_ptr)
          (bind (replace_ptr-Replaced false e1 more a.1) λ r R.
            Replaced-kept false (node e0 t h extra e1) r.1 e0 t (detach r.2 r.0) (get_height e0)
              (get_height e1) (Shrunk-id e0 a.0) R.shrunk (omega (arith, R.shrunk.least)) a.3 a.2
              (rw (R.taken, append_assoc)))
    | inl last ↦ elim (Bool-cases (is_null e0)) [
      | inl leaf ↦
          rw (last, replace_ptr)
            (rw (leaf, replace_ptr) (Replaced-gone false e0 t h extra e1 leaf last a))
      | inr left ↦
          rw (last, replace_ptr)
            (rw (left, replace_ptr)
              (bind (replace_ptr-Replaced false e0 left a.0) λ r R.
                Replaced-kept false (node e0 t h extra e1) t (detach r.2 r.0) r.1 e1 (get_height e0)
                  (get_height e1) R.shrunk (Shrunk-id e1 a.1) (omega (arith, R.shrunk.least)) a.3
                  a.2 (rw (null-to_list e1 last, R.taken))))
    ]
  ]

module _ {ℓ κ} {T : Type ℓ} {C : Type κ} ⦃o : Ordered T⦄ ⦃c : EntryClass T C⦄ where
  -- What `del` leaves, once its caller has detached an entry that has disappeared.
  record Deleted (x : T) (e : AvlEntry T C) (r : AvlEntry T C × Bool × Bool) : Type (ℓ ⊔ κ) where
    shrunk : Shrunk (get_height e) (detach r.2 r.0)
    removed : Removed x (to_list e) r.1 (to_list (detach r.2 r.0))

  -- The entry stays, with the given child lists.
  Deleted-kept :
      (x : T) (e e0 : AvlEntry T C) (t : T) (e1 : AvlEntry T C) (h0 h1 : ℕ) (found : Bool)
      → Shrunk h0 e0
      → Shrunk h1 e1
      → h0 + h1 ≤ get_height e0 + get_height e1 + 1
      → dist h0 h1 ≤ 1
      → get_height e ≡ max h0 h1 + 1
      → Removed x (to_list e) found (to_list e0 ++ (t ∷ to_list e1))
      → Returns (Deleted x e) (rebalance e0 t e1 >>= λ self. ok (self, found, false))
  Deleted-kept x e e0 t e1 h0 h1 found s0 s1 s d h w =
      bind (shrink e0 t e1 h0 h1 s0 s1 s d) λ self r. returns (record {
        shrunk = subst (λ n. Shrunk n self) (sym h) r.shrunk;
        removed = subst (Removed x (to_list e) found) (sym r.order) w;
      })

  del_here-Deleted :
      (x : T) (e0 : AvlEntry T C) (t : T) (h : ℕ) (extra : C) (e1 : AvlEntry T C)
      → x ≈ t
      → IsAvl (node e0 t h extra e1)
      → Returns (Deleted x (node e0 t h extra e1)) (del_here e0 t e1)
  unfolding del_here
  del_here-Deleted x e0 t h extra e1 eq a = elim (Bool-cases (is_null e0)) [
    | inr left ↦
        rw (left, del_here)
          (bind (replace_ptr-Replaced false e0 left a.0) λ r R.
            Deleted-kept x (node e0 t h extra e1) (detach r.2 r.0) r.1 e1 (get_height e0)
              (get_height e1) true R.shrunk (Shrunk-id e1 a.1) (omega (arith, R.shrunk.least)) a.3
              a.2 (to_list e0, t, to_list e1, eq, refl, rw (R.taken, append_assoc)))
    | inl no_left ↦ elim (Bool-cases (is_null e1)) [
      | inr right ↦
          rw (no_left, del_here)
            (rw (right, del_here)
              (bind (replace_ptr-Replaced true e1 right a.1) λ r R.
                Deleted-kept x (node e0 t h extra e1) e0 r.1 (detach r.2 r.0) (get_height e0)
                  (get_height e1) true (Shrunk-id e0 a.0) R.shrunk (omega (arith, R.shrunk.least))
                  a.3 a.2 (to_list e0, t, to_list e1, eq, refl, rw R.taken)))
      | inl no_right ↦
          rw (no_left, del_here)
            (rw (no_right, del_here)
              (bind
                (shrink e0 t e1 (get_height e0) (get_height e1) (Shrunk-id e0 a.0)
                  (Shrunk-id e1 a.1) (omega arith) a.3)
                λ self r. returns (record {
                  shrunk = record {
                    avl = tt;
                    least = omega (arith, a.2, null-height e0 no_left, null-height e1 no_right);
                    most = omega arith;
                  };
                  removed = (
                    to_list e0,
                    t,
                    to_list e1,
                    eq,
                    refl,
                    rw (null-to_list e0 no_left, null-to_list e1 no_right),
                  );
                })))
    ]
  ]

  del-Deleted :
      (e : AvlEntry T C) (x : T) → IsAvl e → IsSorted (to_list e) → Returns (Deleted x e) (del e x)
  unfolding del
  del-Deleted null x a s = returns (record { shrunk = Shrunk-id null tt; removed = (refl, tt) })
  del-Deleted (node e0 t h extra e1) x a s =
      let m = IsSorted-Middle (to_list e0) t (to_list e1) s in
      rw (le→leb (dist (get_height e0) (get_height e1)) 1 a.3) (elim (Bool-cases (o.eq x t)) [
        | inl here ↦ rw here (del_here-Deleted x e0 t h extra e1 here a)
        | inr ne ↦ elim (Bool-cases (o.le t x)) [
          | inl le ↦
              rw (ne, le)
                (bind (del-Deleted e1 x a.1 m.right) λ r R.
                  Deleted-kept x (node e0 t h extra e1) e0 t (detach r.2 r.0) (get_height e0)
                    (get_height e1) r.1 (Shrunk-id e0 a.0) R.shrunk (omega (arith, R.shrunk.least))
                    a.3 a.2
                    (Removed-behind x (to_list e0) t (to_list e1) (to_list (detach r.2 r.0)) r.1
                      (not-eq_below x t (to_list e0) ne le m.before) ne R.removed))
          | inr gt ↦
              rw (ne, gt)
                (bind (del-Deleted e0 x a.0 m.left) λ r R.
                  Deleted-kept x (node e0 t h extra e1) (detach r.2 r.0) t e1 (get_height e0)
                    (get_height e1) r.1 R.shrunk (Shrunk-id e1 a.1) (omega (arith, R.shrunk.least))
                    a.3 a.2
                    (Removed-before x (to_list e0) (to_list (detach r.2 r.0)) t (to_list e1) r.1
                      (not-eq_above x t (to_list e1) gt m.after) ne R.removed))
        ]
      ])

  -- On a valid tree whose elements are sorted `AvlTree::del` ends without a failed assertion; the
  -- tree is valid again. Where it returns true, one element that is `==` to the given one has left
  -- the elements, the others in the same order; where it returns false, no element is `==` to the
  -- given one and the elements are the same.
  pub tree_del-Removed :
      (e : AvlEntry T C) (x : T)
      → IsAvl e
      → IsSorted (to_list e)
      → Returns (λ (e', found). IsAvl e' × Removed x (to_list e) found (to_list e')) (tree_del e x)
  unfolding tree_del
  tree_del-Removed e x a s = bind (del-Deleted e x a s) λ r R. returns (R.shrunk.avl, R.removed)
