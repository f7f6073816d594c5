-- ===== src/Avl/Rebalance.antt =====
-- `AvlEntry<T>::rebalance`: no assertion fails, the order of the elements stays, and the entry is
-- balanced again.
use cerius.Base.{
  ◌+◌, ◌≤◌, ◌≡◌, refl, ◌∷◌, ◌++◌, append_assoc, max, dist, arith, Returns, returns, ok, Bool-cases,
  leb, le→leb, leb→le, leb→gt, ◌==◌, ==→≡, ==→≢, ≢→==, value, ◌⊎◌, inl, inr,
}
use cerius.Avl.{AvlEntry, EntryClass, null, node, get_height, lift_0, lift_1, rotate, rebalance}
use cerius.Avl.Model.{to_list, IsAvl}

module _ {ℓ κ} {T : Type ℓ} {C : Type κ} ⦃c : EntryClass T C⦄ where
  -- The parts of an entry before and after a rotation.
  record Rotated (e0 : AvlEntry T C) (t : T) (e1 : AvlEntry T C)
      (p : AvlEntry T C × T × AvlEntry T C) : Type (ℓ ⊔ κ) where
    order : to_list p.0 ++ (p.1 ∷ to_list p.2) ≡ to_list e0 ++ (t ∷ to_list e1)
    left : IsAvl p.0
    right : IsAvl p.2
    balanced : dist (get_height p.0) (get_height p.2) ≤ 1
    least : max (get_height e0) (get_height e1) ≤ max (get_height p.0) (get_height p.2) + 1
    most : max (get_height p.0) (get_height p.2) ≤ max (get_height e0) (get_height e1)

  lift_0-Rotated :
      (e0 : AvlEntry T C) (t : T) (e1 : AvlEntry T C)
      → IsAvl e0
      → IsAvl e1
      → get_height e0 ≡ get_height e1 + 2
      → Returns (Rotated e0 t e1) (lift_0 e0 t e1)
  unfolding lift_0
  lift_0-Rotated null t e1 a0 a1 h = absurd (omega arith)
  lift_0-Rotated (node ll lt lh lx null) t e1 a0 a1 h =
      rw (le→leb 0 (get_height ll) (omega arith)) (
        returns (record {
          order = simp append_assoc;
          left = a0.0;
          right = (tt, a1, refl, omega arith, refl);
          balanced = omega arith;
          least = omega arith;
          most = omega arith;
        }))
  lift_0-Rotated (node ll lt lh lx (node ml mt mh mx mr)) t e1 a0 a1 h =
      elim (Bool-cases (leb mh (get_height ll))) [
        | inl single ↦
            let q = leb→le _ _ single in
            rw single (
              returns (record {
                order = simp append_assoc;
                left = a0.0;
                right = (a0.1, a1, refl, omega arith, refl);
                balanced = omega arith;
                least = omega arith;
                most = omega arith;
              }))
        | inr double ↦
            let q = leb→gt _ _ double in
            rw double (
              returns (record {
                order = simp append_assoc;
                left = (a0.0, a0.1.0, refl, omega arith, refl);
                right = (a0.1.1, a1, refl, omega arith, refl);
                balanced = omega arith;
                least = omega arith;
                most = omega arith;
              }))
      ]

  lift_1-Rotated :
      (e0 : AvlEntry T C) (t : T) (e1 : AvlEntry T C)
      → IsAvl e0
      → IsAvl e1
      → get_height e1 ≡ get_height e0 + 2
      → Returns (Rotated e0 t e1) (lift_1 e0 t e1)
  unfolding lift_1
  lift_1-Rotated e0 t null a0 a1 h = absurd (omega arith)
  lift_1-Rotated e0 t (node null rt rh rx rr) a0 a1 h =
      rw (le→leb 0 (get_height rr) (omega arith)) (
        returns (record {
          order = simp append_assoc;
          left = (a0, tt, refl, omega arith, refl);
          right = a1.1;
          balanced = omega arith;
          least = omega arith;
          most = omega arith;
        }))
  lift_1-Rotated e0 t (node (node ml mt mh mx mr) rt rh rx rr) a0 a1 h =
      elim (Bool-cases (leb mh (get_height rr))) [
        | inl single ↦
            let q = leb→le _ _ single in
            rw single (
              returns (record {
                order = simp append_assoc;
                left = (a0, a1.0, refl, omega arith, refl);
                right = a1.1;
                balanced = omega arith;
                least = omega arith;
                most = omega arith;
              }))
        | inr double ↦
            let q = leb→gt _ _ double in
            rw double (
              returns (record {
                order = simp append_assoc;
                left = (a0, a1.0.0, refl, omega arith, refl);
                right = (a1.0.1, a1.1, refl, omega arith, refl);
                balanced = omega arith;
                least = omega arith;
                most = omega arith;
              }))
      ]

  rotate-Rotated :
      (e0 : AvlEntry T C) (t : T) (e1 : AvlEntry T C)
      → IsAvl e0
      → IsAvl e1
      → dist (get_height e0) (get_height e1) ≤ 2
      → Returns (Rotated e0 t e1) (rotate e0 t e1)
  unfolding rotate
  rotate-Rotated e0 t e1 a0 a1 h = elim (Bool-cases (dist (get_height e0) (get_height e1) == 2)) [
    | inl two ↦
        let q = ==→≡ _ _ two in
        elim (Bool-cases (get_height e0 == get_height e1 + 2)) [
          | inl l ↦ rw (two, l) (lift_0-Rotated e0 t e1 a0 a1 (==→≡ _ _ l))
          | inr r ↦ let p = ==→≢ _ _ r in rw (two, r) (lift_1-Rotated e0 t e1 a0 a1 (omega arith))
        ]
    | inr less ↦
        let p = ==→≢ _ _ less in
        rw less (
          returns (record {
            order = refl;
            left = a0;
            right = a1;
            balanced = omega arith;
            least = omega arith;
            most = omega arith;
          }))
  ]

  rotate-id :
      (e0 : AvlEntry T C) (t : T) (e1 : AvlEntry T C)
      → dist (get_height e0) (get_height e1) ≤ 1
      → rotate e0 t e1 ≡ ok (e0, t, e1)
  unfolding rotate
  rotate-id e0 t e1 h = rw (≢→== (dist (get_height e0) (get_height e1)) 2 (omega arith))

  rotate-same :
      (e0 : AvlEntry T C) (t : T) (e1 : AvlEntry T C) (p : AvlEntry T C × T × AvlEntry T C)
      → dist (get_height e0) (get_height e1) ≤ 2
      → rotate e0 t e1 ≡ ok p
      → (max (get_height p.0) (get_height p.2) + 1 ≡ max (get_height e0) (get_height e1) + 1)
        ⊎ (dist (get_height e0) (get_height e1) ≡ 2)
  rotate-same e0 t e1 p h eq = elim (Bool-cases (leb (dist (get_height e0) (get_height e1)) 1)) [
    | inl le ↦
        let q = rotate-id e0 t e1 (leb→le _ _ le) in
        let same : (e0, t, e1) ≡ p = cc in inl (rw (← same) refl)
    | inr gt ↦ let q = leb→gt _ _ gt in inr (omega arith)
  ]

  -- The entry after `rebalance`, against its parts before.
  pub record Rebalanced (e0 : AvlEntry T C) (t : T) (e1 : AvlEntry T C) (e : AvlEntry T C)
      : Type (ℓ ⊔ κ) where
    pub order : to_list e ≡ to_list e0 ++ (t ∷ to_list e1)
    pub avl : IsAvl e
    pub least : max (get_height e0) (get_height e1) ≤ get_height e
    pub most : get_height e ≤ max (get_height e0) (get_height e1) + 1
    pub same :
        (get_height e ≡ max (get_height e0) (get_height e1) + 1)
        ⊎ (dist (get_height e0) (get_height e1) ≡ 2)

  -- Of children that are valid and whose heights differ by two at most, `rebalance` makes a valid
  -- entry with the same elements in the same order, whose height is that of the higher child or
  -- one more; where the children were balanced, it is one more.
  pub rebalance-Rebalanced :
      (e0 : AvlEntry T C) (t : T) (e1 : AvlEntry T C)
      → IsAvl e0
      → IsAvl e1
      → dist (get_height e0) (get_height e1) ≤ 2
      → Returns (Rebalanced e0 t e1) (rebalance e0 t e1)
  unfolding rebalance
  rebalance-Rebalanced e0 t e1 a0 a1 h = rw (le→leb (dist (get_height e0) (get_height e1)) 2 h) (
      let (p, eq, rotated) = value (rotate-Rotated e0 t e1 a0 a1 h) in
      rw (eq, le→leb (dist (get_height p.0) (get_height p.2)) 1 rotated.balanced)
        (returns (record {
          order = rotated.order;
          avl = (rotated.left, rotated.right, refl, rotated.balanced, refl);
          least = rotated.least;
          most = omega (arith, rotated.most);
          same = rotate-same e0 t e1 p h eq;
        })))
