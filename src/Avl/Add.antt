-- ===== src/Avl/Add.antt =====
-- `AvlEntry<T>::add` is the insertion into a sorted list.
use cerius.Base.{
  ℕ, ◌+◌, ◌≤◌, ◌≡◌, refl, List, ◌∷◌, ◌++◌, max, dist, arith, Returns, returns, value, le→leb,
  Bool-cases, inl, inr,
}
use cerius.Order.{Ordered, IsSorted}
use cerius.Order.Sorted.{insert, insert-append_left, insert-append_right, IsSorted-Middle}
use cerius.Avl.{AvlEntry, EntryClass, null, node, get_height, rebalance, add}
use cerius.Avl.Model.{to_list, IsAvl}
use cerius.Avl.Rebalance.{rebalance-Rebalanced}

module _ {ℓ κ} {T : Type ℓ} {C : Type κ} ⦃o : Ordered T⦄ ⦃c : EntryClass T C⦄ where
  -- A valid tree with the given elements, of the given height or one more.
  pub record Grown (items : List T) (height : ℕ) (e : AvlEntry T C) : Type (ℓ ⊔ κ) where
    pub order : to_list e ≡ items
    pub avl : IsAvl e
    pub least : height ≤ get_height e
    pub most : get_height e ≤ height + 1

  grow :
      (e0 : AvlEntry T C) (t : T) (e1 : AvlEntry T C) (h0 h1 : ℕ)
      → IsAvl e0
      → IsAvl e1
      → h0 ≤ get_height e0
      → h1 ≤ get_height e1
      → get_height e0 + get_height e1 ≤ h0 + h1 + 1
      → dist h0 h1 ≤ 1
      → Returns (Grown (to_list e0 ++ (t ∷ to_list e1)) (max h0 h1 + 1)) (rebalance e0 t e1)
  grow e0 t e1 h0 h1 a0 a1 p0 p1 s d =
      let (e, eq, r) = value (rebalance-Rebalanced e0 t e1 a0 a1 (omega arith)) in
      rw eq (
        returns (record {
          order = r.order;
          avl = r.avl;
          least = omega (arith, r.least, r.same);
          most = omega (arith, r.most, r.same);
        }))

  -- On a valid tree whose elements are sorted `add` ends without a failed assertion; the tree is
  -- valid again, of the same height or one more, and its elements are the old ones with the new
  -- one inserted behind all that are at most it.
  pub add-insert :
      (e : AvlEntry T C) (x : T)
      → IsAvl e
      → IsSorted (to_list e)
      → Returns (Grown (insert x (to_list e)) (get_height e)) (add e x)
  unfolding add insert
  add-insert null x a s = returns (record {
    order = refl;
    avl = (tt, tt, refl, omega arith, c.construct-invcache x);
    least = omega arith;
    most = omega arith;
  })
  add-insert (node e0 t h extra e1) x a s =
      let m = IsSorted-Middle (to_list e0) t (to_list e1) s in
      rw (le→leb (dist (get_height e0) (get_height e1)) 1 a.3, a.2)
        (elim (Bool-cases (o.le t x)) [
          | inl le ↦
              let (e', eq, g) = value (add-insert e1 x a.1 m.right) in
              rw (le, eq, insert-append_right x (to_list e0) t (to_list e1) le m.before, ← g.order)
                (grow e0 t e' (get_height e0) (get_height e1) a.0 g.avl (omega arith) g.least
                  (omega (arith, g.most)) a.3)
          | inr gt ↦
              let (e', eq, g) = value (add-insert e0 x a.0 m.left) in
              rw (gt, eq, insert-append_left x (to_list e0) t (to_list e1) gt, ← g.order)
                (grow e' t e1 (get_height e0) (get_height e1) g.avl a.1 g.least (omega arith)
                  (omega (arith, g.most)) a.3)
        ])
