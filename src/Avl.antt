-- ===== src/Avl.antt =====
-- bootloader/memory/AvlTree: `AvlEntry<T>` and `AvlTree<T>`.
-- A pointer to an entry is a value of `AvlEntry T C`, where `null` is the null pointer: each entry
-- has one parent, so the tree owns its entries and an assignment to `e[i]` is a new value.
-- `C` holds the fields that a subclass adds, and an `EntryClass` the virtual methods it overrides.
-- A function that the source calls on a child that it has tested for null has a clause for `null`
-- that is the branch of that test.
pub mod Model
pub mod Rebalance
pub mod Add
pub mod Del
pub mod Bound
use cerius.Base.{
  ℕ, ◌+◌, ◌≡◌, refl, Bool, true, false, Option, none, some, Result, ok, fault, Fault, kassert,
  ◌>>=◌, ◌>>◌, leb, ◌==◌, if◌then◌else◌, dist, max,
}
use cerius.Order.{Ordered}

pub data AvlEntry {ℓ κ} (T : Type ℓ) (C : Type κ) : Type (ℓ ⊔ κ) where
  null : AvlEntry T C
  -- `e[0]`, `t`, `height`, the fields of the subclass, `e[1]`
  node : AvlEntry T C → T → ℕ → C → AvlEntry T C → AvlEntry T C

-- `construct` gives the subclass's fields of a new entry, which `Clone` builds; `invcache`
-- recomputes them from the element and the fields of the children.
pub record EntryClass {ℓ κ} (T : Type ℓ) (C : Type κ) : Type (ℓ ⊔ κ) where
  pub construct : T → C
  pub invcache : T → Option C → Option C → C
  pub construct-invcache : (t : T) → construct t ≡ invcache t none none

-- `AvlEntry<T>` itself adds no fields.
instance abbrev pub plain_entry {ℓ} : {T : Type ℓ} → EntryClass T (Unit {0})
plain_entry = record { construct = λ t. tt; invcache = λ t l r. tt; construct-invcache = λ t. refl }

module _ {ℓ κ} {T : Type ℓ} {C : Type κ} where
  abbrev pub get_height : AvlEntry T C → ℕ
  get_height null = 0
  get_height (node e0 t height extra e1) = height

  abbrev pub get_extra : AvlEntry T C → Option C
  get_extra null = none
  get_extra (node e0 t height extra e1) = some extra

  abbrev pub is_null : AvlEntry T C → Bool
  is_null null = true
  is_null (node e0 t height extra e1) = false

  -- `if (childres) { e[i]->Destruct(pHeap); e[i] = NULL; }`
  abbrev pub detach : Bool → AvlEntry T C → AvlEntry T C
  detach gone e = if gone then null else e

module _ {ℓ κ} {T : Type ℓ} {C : Type κ} ⦃c : EntryClass T C⦄ where
  -- `Clone`: a new leaf
  abbrev pub clone : T → AvlEntry T C
  clone t = node null t 1 (c.construct t) null

  -- the entry with these children and this element, after `invcache()`
  abbrev pub invcache : AvlEntry T C → T → AvlEntry T C → AvlEntry T C
  invcache e0 t e1 =
      node e0 t (max (get_height e0) (get_height e1) + 1)
        (c.invcache t (get_extra e0) (get_extra e1)) e1

  -- The rotations work on the children and the element of the entry that is rebalanced, and
  -- return them anew. `left` is 0:
  lift_double_0 :
      AvlEntry T C → T → AvlEntry T C → T → AvlEntry T C → Result (AvlEntry T C × T × AvlEntry T C)
  lift_double_0 ll lt null t e1 = fault Fault.null_pointer
  lift_double_0 ll lt (node ml mt mh mx mr) t e1 = ok (invcache ll lt ml, mt, invcache mr t e1)

  lift_0 : AvlEntry T C → T → AvlEntry T C → Result (AvlEntry T C × T × AvlEntry T C)
  unfolding lift_double_0
  lift_0 null t e1 = fault Fault.null_pointer
  lift_0 (node ll lt lh lx lr) t e1 =
      if leb (get_height lr) (get_height ll)
      then ok (ll, lt, invcache lr t e1)
      else lift_double_0 ll lt lr t e1

  -- `left` is 1:
  lift_double_1 :
      AvlEntry T C → T → AvlEntry T C → T → AvlEntry T C → Result (AvlEntry T C × T × AvlEntry T C)
  lift_double_1 e0 t null rt rr = fault Fault.null_pointer
  lift_double_1 e0 t (node ml mt mh mx mr) rt rr = ok (invcache e0 t ml, mt, invcache mr rt rr)

  lift_1 : AvlEntry T C → T → AvlEntry T C → Result (AvlEntry T C × T × AvlEntry T C)
  unfolding lift_double_1
  lift_1 e0 t null = fault Fault.null_pointer
  lift_1 e0 t (node rl rt rh rx rr) =
      if leb (get_height rl) (get_height rr)
      then ok (invcache e0 t rl, rt, rr)
      else lift_double_1 e0 t rl rt rr

  rotate : AvlEntry T C → T → AvlEntry T C → Result (AvlEntry T C × T × AvlEntry T C)
  unfolding lift_0 lift_1
  rotate e0 t e1 =
      if dist (get_height e0) (get_height e1) == 2
      then (if get_height e0 == get_height e1 + 2 then lift_0 e0 t e1 else lift_1 e0 t e1)
      else ok (e0, t, e1)

  -- `rebalance()`: the entry's own caches are written anew at the end, whatever they hold.
  pub rebalance : AvlEntry T C → T → AvlEntry T C → Result (AvlEntry T C)
  unfolding rotate
  rebalance e0 t e1 = do
    kassert (leb (dist (get_height e0) (get_height e1)) 2)
    (l, m, r) ← rotate e0 t e1
    kassert (leb (dist (get_height l) (get_height r)) 1)
    ok (invcache l m r)

  -- `replacePtrWithGreatestOrSmallest(smallest, tt)`: the entry afterwards, what `tt` is set to,
  -- and whether the entry has disappeared.
  pub replace_ptr : Bool → AvlEntry T C → Result (AvlEntry T C × T × Bool)
  replace_ptr smallest null = fault Fault.null_pointer
  replace_ptr true (node e0 t height extra e1) = elim (is_null e0) [
    | false ↦ (do
      (child, tt', gone) ← replace_ptr true e0
      self ← rebalance (detach gone child) t e1
      ok (self, tt', false))
    | true ↦ elim (is_null e1) [
      | true ↦ (do self ← rebalance e0 t e1; ok (self, t, true))
      | false ↦ (do
        (child, t', gone) ← replace_ptr true e1
        self ← rebalance e0 t' (detach gone child)
        ok (self, t, false))
    ]
  ]
  replace_ptr false (node e0 t height extra e1) = elim (is_null e1) [
    | false ↦ (do
      (child, tt', gone) ← replace_ptr false e1
      self ← rebalance e0 t (detach gone child)
      ok (self, tt', false))
    | true ↦ elim (is_null e0) [
      | true ↦ (do self ← rebalance e0 t e1; ok (self, t, true))
      | false ↦ (do
        (child, t', gone) ← replace_ptr false e0
        self ← rebalance (detach gone child) t' e1
        ok (self, t, false))
    ]
  ]

  -- The branch of `del` where the element stands in this entry.
  del_here : AvlEntry T C → T → AvlEntry T C → Result (AvlEntry T C × Bool × Bool)
  del_here e0 t e1 = elim (is_null e0) [
    | false ↦ (do
      (child, t', gone) ← replace_ptr false e0
      self ← rebalance (detach gone child) t' e1
      ok (self, true, false))
    | true ↦ elim (is_null e1) [
      | true ↦ (do self ← rebalance e0 t e1; ok (self, true, true))
      | false ↦ (do
        (child, t', gone) ← replace_ptr true e1
        self ← rebalance e0 t' (detach gone child)
        ok (self, true, false))
    ]
  ]

module _ {ℓ κ} {T : Type ℓ} {C : Type κ} ⦃o : Ordered T⦄ where
  -- `findBound(tnew, upper)`: `some` of what `tnew` is set to, or `none` where the function
  -- returns false and leaves `tnew` alone.
  pub find_bound : AvlEntry T C → T → Bool → Option T
  find_bound null tnew upper = none
  find_bound (node e0 t height extra e1) tnew true = elim (o.eq t tnew) [
    | true ↦ some t
    | false ↦ elim (o.lt t tnew) [
      | false ↦ find_bound e0 tnew true
      | true ↦ elim (find_bound e1 tnew true) [ none ↦ some t | some tmp ↦ some tmp ]
    ]
  ]
  find_bound (node e0 t height extra e1) tnew false = elim (o.eq t tnew) [
    | true ↦ some t
    | false ↦ elim (o.lt t tnew) [
      | true ↦ find_bound e1 tnew false
      | false ↦ elim (find_bound e0 tnew false) [ none ↦ some t | some tmp ↦ some tmp ]
    ]
  ]

module _ {ℓ κ} {T : Type ℓ} {C : Type κ} ⦃o : Ordered T⦄ ⦃c : EntryClass T C⦄ where
  -- `add(tnew)`: the entry, or the new leaf where there was none
  pub add : AvlEntry T C → T → Result (AvlEntry T C)
  add null tnew = ok (clone tnew)
  add (node e0 t height extra e1) tnew = do
    kassert (leb (dist (get_height e0) (get_height e1)) 1)
    elim (o.le t tnew) [
      | true ↦ (do child ← add e1 tnew; rebalance e0 t child)
      | false ↦ (do child ← add e0 tnew; rebalance child t e1)
    ]

  -- `del(tnew)`: the entry afterwards, and the two results
  pub del : AvlEntry T C → T → Result (AvlEntry T C × Bool × Bool)
  del null tnew = ok (null, false, false)
  del (node e0 t height extra e1) tnew = do
    kassert (leb (dist (get_height e0) (get_height e1)) 1)
    elim (o.eq tnew t) [
      | true ↦ del_here e0 t e1
      | false ↦ elim (o.le t tnew) [
        | true ↦ (do
          (child, found, gone) ← del e1 tnew
          self ← rebalance e0 t (detach gone child)
          ok (self, found, false))
        | false ↦ (do
          (child, found, gone) ← del e0 tnew
          self ← rebalance (detach gone child) t e1
          ok (self, found, false))
      ]
    ]

  -- `AvlTree<T>::del`: the root afterwards, and whether the element was found
  pub tree_del : AvlEntry T C → T → Result (AvlEntry T C × Bool)
  tree_del root t = do (root', found, gone) ← del root t; ok (detach gone root', found)
