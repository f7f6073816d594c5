-- ===== src/Avl/Model.antt =====
-- What a tree of bootloader/memory/AvlTree stands for: its elements in order, and the invariant
-- of its caches and of its balance.
use cerius.Base.{◌+◌, ◌≤◌, ◌≡◌, List, [], ◌∷◌, ◌++◌, max, dist}
use cerius.Avl.{AvlEntry, EntryClass, null, node, get_height, get_extra}

module _ {ℓ κ} {T : Type ℓ} {C : Type κ} where
  -- The elements from left to right.
  abbrev pub to_list : AvlEntry T C → List T
  to_list null = []
  to_list (node e0 t height extra e1) = to_list e0 ++ (t ∷ to_list e1)

module _ {ℓ κ} {T : Type ℓ} {C : Type κ} ⦃c : EntryClass T C⦄ where
  -- The caches hold what `invcache` computes, and the heights of siblings differ by one at most.
  abbrev pub IsAvl : AvlEntry T C → Type κ
  IsAvl null = Unit
  IsAvl (node e0 t height extra e1) =
      IsAvl e0
      × IsAvl e1
      × (height ≡ max (get_height e0) (get_height e1) + 1)
      × (dist (get_height e0) (get_height e1) ≤ 1)
      × (extra ≡ c.invcache t (get_extra e0) (get_extra e1))
