-- ===== src/Avl/Bound.antt =====
-- `AvlEntry<T>::findBound`: the nearest element on one side of a bound.
use cerius.Base.{
  ◌≡◌, refl, Bool, true, false, Option, none, some, List, ◌∷◌, ◌++◌, append_assoc, arith,
  Bool-cases, ◌⊎◌, inl, inr, All, All-append, All-append_right, All-imp, ap,
}
use cerius.Order.{Ordered, IsSorted, ◌≼◌, ◌≈◌}
use cerius.Order.Sorted.{Middle, IsSorted-Middle, le_refl}
use cerius.Avl.{AvlEntry, null, node, find_bound}
use cerius.Avl.Model.{to_list}

-- The element `y` stands in the list.
abbrev pub Has {ℓ} : {T : Type ℓ} → T → List T → Type ℓ
Has {T} y l = (xs : List T) × (ys : List T) × (l ≡ xs ++ (y ∷ ys))

module _ {ℓ} {T : Type ℓ} where
  pub Has-left : (y : T) (xs ys : List T) → Has y xs → Has y (xs ++ ys)
  Has-left y xs ys h = (h.0, h.1 ++ ys, rw (h.2, append_assoc))

  pub Has-right : (y : T) (xs ys : List T) → Has y ys → Has y (xs ++ ys)
  Has-right y xs ys h = (xs ++ h.0, h.1, rw (h.2, append_assoc))

  pub Has-middle : (y : T) (xs ys : List T) → Has y (xs ++ (y ∷ ys))
  Has-middle y xs ys = (xs, ys, refl)

  pub Has-behind : (y t : T) (xs ys : List T) → Has y ys → Has y (xs ++ (t ∷ ys))
  Has-behind y t xs ys h = Has-right y xs (t ∷ ys) (t ∷ h.0, h.1, ap (λ l. t ∷ l) h.2)

  pub All-Has {κ} : (P : T → Type κ) (y : T) (l : List T) → Has y l → All P l → P y
  All-Has P y l (xs, ys, e) a = (All-append_right P xs (y ∷ ys) (rw e at a)).0

module _ {ℓ} {T : Type ℓ} ⦃o : Ordered T⦄ where
  -- `y` lies on the side of `x` that `upper` asks for: at most `x`, or at least `x`.
  abbrev pub Side : Bool → T → T → Type 0
  Side true x y = y ≼ x
  Side false x y = x ≼ y

  -- The result is an element on that side of `x`, and every element on that side is at least as
  -- far from `x`; or no element lies on that side.
  pub data IsBound (upper : Bool) (x : T) (l : List T) : Option T → Type ℓ where
    nothing : All (λ z. ¬ Side upper x z) l → IsBound upper x l none
    nearest :
        {y : T}
        → Has y l
        → Side upper x y
        → All (λ z. (¬ Side upper x z) ⊎ Side upper y z) l
        → IsBound upper x l (some y)

  -- `All` over a list split round an element.
  All-middle {κ} :
      (P : T → Type κ) (xs : List T) (t : T) (ys : List T)
      → All P xs
      → P t
      → All P ys
      → All P (xs ++ (t ∷ ys))
  All-middle P xs t ys a p b = All-append P xs (t ∷ ys) a (p, b)

  module _ (x t : T) (xs ys : List T) (m : Middle xs t ys) where
    -- The element of the entry is `==` to the bound.
    found_here : t ≈ x → (upper : Bool) → IsBound upper x (xs ++ (t ∷ ys)) (some t)
    found_here eq true = nearest (Has-middle t xs ys) (ground (arith, o.eq-le t x)) (
        All-middle (λ z. (¬ (z ≼ x)) ⊎ (z ≼ t)) xs t ys (All-imp _ xs (λ z h. inr h) m.before)
          (inr (le_refl t)) (All-imp _ ys (λ z h. above z) m.after))
      where
        above : (z : T) → (¬ (z ≼ x)) ⊎ (z ≼ t)
        above z = elim (Bool-cases (o.le z x)) [
          | inl le ↦ inr (ground (arith, o.eq-le t x, o.le_trans z x t))
          | inr gt ↦ inl (λ le. cc)
        ]
    found_here eq false = nearest (Has-middle t xs ys) (ground (arith, o.eq-le t x)) (
        All-middle (λ z. (¬ (x ≼ z)) ⊎ (t ≼ z)) xs t ys (All-imp _ xs (λ z h. below z) m.before)
          (inr (le_refl t)) (All-imp _ ys (λ z h. inr h) m.after))
      where
        below : (z : T) → (¬ (x ≼ z)) ⊎ (t ≼ z)
        below z = elim (Bool-cases (o.le x z)) [
          | inl le ↦ inr (ground (arith, o.eq-le t x, o.le_trans t x z))
          | inr gt ↦ inl (λ le. cc)
        ]

    -- The entry and all behind it lie above `x`: the bound from below stands before it.
    upper_left :
        o.le t x ≡ false → {r : Option T} → IsBound true x xs r → IsBound true x (xs ++ (t ∷ ys)) r
    upper_left gt b = go b
      where
        beyond : All (λ z. ¬ (z ≼ x)) ys
        beyond = All-imp _ ys (λ z h le. ground (arith, o.le_trans t z x)) m.after

        go : {r : Option T} → IsBound true x xs r → IsBound true x (xs ++ (t ∷ ys)) r
        go (nothing none') = nothing (All-middle (λ z. ¬ (z ≼ x)) xs t ys none' (λ le. cc) beyond)
        go (nearest {y} has side rest) = nearest (Has-left y xs (t ∷ ys) has) side (
            All-middle (λ z. (¬ (z ≼ x)) ⊎ (z ≼ y)) xs t ys rest (inl (λ le. cc))
              (All-imp _ ys (λ z h. inl h) beyond))

    -- The entry lies below `x`: it is the bound, unless one behind it is nearer.
    upper_right :
        t ≼ x
        → {r : Option T} → IsBound true x ys r
        → IsBound true x (xs ++ (t ∷ ys)) (elim r [ none ↦ some t | some y ↦ some y ])
    upper_right le (nothing none') = nearest (Has-middle t xs ys) le (
        All-middle (λ z. (¬ (z ≼ x)) ⊎ (z ≼ t)) xs t ys (All-imp _ xs (λ z h. inr h) m.before)
          (inr (le_refl t)) (All-imp _ ys (λ z h. inl h) none'))
    upper_right le (nearest {y} has side rest) = nearest (Has-behind y t xs ys has) side (
        All-middle (λ z. (¬ (z ≼ x)) ⊎ (z ≼ y)) xs t ys
          (All-imp _ xs (λ z h. inr (o.le_trans z t y h up)) m.before) (inr up) rest)
      where
        up : t ≼ y
        up = All-Has (λ z. t ≼ z) y ys has m.after

    -- The entry and all before it lie below `x`: the bound from above stands behind it.
    lower_right :
        o.le x t ≡ false
        → {r : Option T} → IsBound false x ys r
        → IsBound false x (xs ++ (t ∷ ys)) r
    lower_right lt b = go b
      where
        beyond : All (λ z. ¬ (x ≼ z)) xs
        beyond = All-imp _ xs (λ z h le. ground (arith, o.le_trans x z t)) m.before

        go : {r : Option T} → IsBound false x ys r → IsBound false x (xs ++ (t ∷ ys)) r
        go (nothing none') = nothing (All-middle (λ z. ¬ (x ≼ z)) xs t ys beyond (λ le. cc) none')
        go (nearest {y} has side rest) = nearest (Has-behind y t xs ys has) side (
            All-middle (λ z. (¬ (x ≼ z)) ⊎ (y ≼ z)) xs t ys (All-imp _ xs (λ z h. inl h) beyond)
              (inl (λ le. cc)) rest)

    -- The entry lies above `x`: it is the bound, unless one before it is nearer.
    lower_left :
        x ≼ t
        → {r : Option T} → IsBound false x xs r
        → IsBound false x (xs ++ (t ∷ ys)) (elim r [ none ↦ some t | some y ↦ some y ])
    lower_left le (nothing none') = nearest (Has-middle t xs ys) le (
        All-middle (λ z. (¬ (x ≼ z)) ⊎ (t ≼ z)) xs t ys (All-imp _ xs (λ z h. inl h) none')
          (inr (le_refl t)) (All-imp _ ys (λ z h. inr h) m.after))
    lower_left le (nearest {y} has side rest) = nearest (Has-left y xs (t ∷ ys) has) side (
        All-middle (λ z. (¬ (x ≼ z)) ⊎ (y ≼ z)) xs t ys rest (inr down)
          (All-imp _ ys (λ z h. inr (o.le_trans y t z down h)) m.after))
      where
        down : y ≼ t
        down = All-Has (λ z. z ≼ t) y xs has m.before

module _ {ℓ κ} {T : Type ℓ} {C : Type κ} ⦃o : Ordered T⦄ where
  -- In a tree whose elements are sorted, `findBound` gives an element on the asked side of the
  -- bound such that every element on that side is at least as far from the bound; it fails exactly
  -- where no element lies on that side.
  pub find_bound-IsBound :
      (e : AvlEntry T C) (x : T) (upper : Bool)
      → IsSorted (to_list e)
      → IsBound upper x (to_list e) (find_bound e x upper)
  unfolding find_bound
  find_bound-IsBound null x upper s = nothing tt
  find_bound-IsBound (node e0 t h extra e1) x true s =
      let m = IsSorted-Middle (to_list e0) t (to_list e1) s in
      elim (Bool-cases (o.eq t x)) [
        | inl eq ↦ rw (eq, find_bound) (found_here x t (to_list e0) (to_list e1) m eq true)
        | inr ne ↦ elim (Bool-cases (o.lt t x)) [
          | inl lt ↦
              rw (ne, find_bound)
                (rw (lt, find_bound)
                  (upper_right x t (to_list e0) (to_list e1) m
                    (ground (arith, o.lt-not-le t x, o.le_total x t))
                    (find_bound-IsBound e1 x true m.right)))
          | inr ge ↦
              rw (ne, find_bound)
                (rw (ge, find_bound)
                  (upper_left x t (to_list e0) (to_list e1) m
                    (ground (arith, o.lt-not-le t x, o.eq-le t x))
                    (find_bound-IsBound e0 x true m.left)))
        ]
      ]
  find_bound-IsBound (node e0 t h extra e1) x false s =
      let m = IsSorted-Middle (to_list e0) t (to_list e1) s in
      elim (Bool-cases (o.eq t x)) [
        | inl eq ↦ rw (eq, find_bound) (found_here x t (to_list e0) (to_list e1) m eq false)
        | inr ne ↦ elim (Bool-cases (o.lt t x)) [
          | inl lt ↦
              rw (ne, find_bound)
                (rw (lt, find_bound)
                  (lower_right x t (to_list e0) (to_list e1) m (ground (arith, o.lt-not-le t x))
                    (find_bound-IsBound e1 x false m.right)))
          | inr ge ↦
              rw (ne, find_bound)
                (rw (ge, find_bound)
                  (lower_left x t (to_list e0) (to_list e1) m (ground (arith, o.lt-not-le t x))
                    (find_bound-IsBound e0 x false m.left)))
        ]
      ]
