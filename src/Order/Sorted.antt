-- ===== src/Order/Sorted.antt =====
-- Sorted lists over the comparison operators of an element type.
use cerius.Base.{
  ◌≡◌, false, List, [], ◌∷◌, ◌++◌, All, All-append, All-append_left, All-append_right, All-imp,
  if◌then◌else◌, Bool-cases, ap, arith, inl, inr,
}
use cerius.Order.{Ordered, ◌≼◌, IsSorted}

module _ {ℓ} {T : Type ℓ} ⦃o : Ordered T⦄ where
  pub le_refl : (a : T) → a ≼ a
  le_refl a = elim (Bool-cases (o.le a a)) [ inl yes' ↦ yes' | inr no' ↦ o.le_total a a no' ]

  -- What a sorted list says of its parts round an element.
  pub record Middle (xs : List T) (t : T) (ys : List T) : Type ℓ where
    pub before : All (λ x. x ≼ t) xs
    pub after : All (λ y. t ≼ y) ys
    pub left : IsSorted xs
    pub right : IsSorted ys

  pub IsSorted-Middle :
      (xs : List T) (t : T) (ys : List T) → IsSorted (xs ++ (t ∷ ys)) → Middle xs t ys
  IsSorted-Middle [] t ys s = record { before = tt; after = s.0; left = tt; right = s.1 }
  IsSorted-Middle (x ∷ xs) t ys s =
      let rest = IsSorted-Middle xs t ys s.1 in
      record {
        before = ((All-append_right (λ y. x ≼ y) xs (t ∷ ys) s.0).0, rest.before);
        after = rest.after;
        left = (All-append_left (λ y. x ≼ y) xs (t ∷ ys) s.0, rest.left);
        right = rest.right;
      }

  pub IsSorted-without :
      (xs : List T) (t : T) (ys : List T) → IsSorted (xs ++ (t ∷ ys)) → IsSorted (xs ++ ys)
  IsSorted-without [] t ys s = s.1
  IsSorted-without (x ∷ xs) t ys s = (
    All-append (λ y. x ≼ y) xs ys (All-append_left (λ y. x ≼ y) xs (t ∷ ys) s.0)
        (All-append_right (λ y. x ≼ y) xs (t ∷ ys) s.0).1,
    IsSorted-without xs t ys s.1,
  )

  -- The place of a new element: behind all that are at most it.
  unfoldable pub insert : T → List T → List T
  insert x [] = x ∷ []
  insert x (y ∷ ys) = if o.le y x then y ∷ insert x ys else x ∷ y ∷ ys

  All-insert {κ} : (P : T → Type κ) (x : T) (ys : List T) → P x → All P ys → All P (insert x ys)
  unfolding insert
  All-insert P x [] p a = (p, tt)
  All-insert P x (y ∷ ys) p a = elim (Bool-cases (o.le y x)) [
    | inl le ↦ rw le (a.0, All-insert P x ys p a.1)
    | inr gt ↦ rw gt (p, a)
  ]

  pub insert-IsSorted : (x : T) (ys : List T) → IsSorted ys → IsSorted (insert x ys)
  unfolding insert
  insert-IsSorted x [] s = (tt, tt)
  insert-IsSorted x (y ∷ ys) s = elim (Bool-cases (o.le y x)) [
    | inl le ↦ rw le (All-insert (λ z. y ≼ z) x ys le s.0, insert-IsSorted x ys s.1)
    | inr gt ↦
        let first = o.le_total y x gt in
        rw gt ((first, All-imp (λ z. y ≼ z) ys (λ z. o.le_trans x y z first) s.0), s)
  ]

  pub insert-append_right :
      (x : T) (xs : List T) (t : T) (ys : List T)
      → t ≼ x
      → All (λ y. y ≼ t) xs
      → insert x (xs ++ (t ∷ ys)) ≡ xs ++ (t ∷ insert x ys)
  unfolding insert
  insert-append_right x [] t ys le a = rw le
  insert-append_right x (y ∷ xs) t ys le a =
      rw (o.le_trans y t x a.0 le) (ap (λ l. y ∷ l) (insert-append_right x xs t ys le a.1))

  pub insert-append_left :
      (x : T) (xs : List T) (t : T) (ys : List T)
      → o.le t x ≡ false
      → insert x (xs ++ (t ∷ ys)) ≡ insert x xs ++ (t ∷ ys)
  unfolding insert
  insert-append_left x [] t ys gt = rw gt
  insert-append_left x (y ∷ xs) t ys gt = elim (Bool-cases (o.le y x)) [
    | inl le ↦ rw le (ap (λ l. y ∷ l) (insert-append_left x xs t ys gt))
    | inr gt' ↦ rw gt'
  ]

  -- An element that differs from `t` is not found on the wrong side of it.
  pub not-eq_below :
      (x t : T) (xs : List T)
      → o.eq x t ≡ false
      → t ≼ x
      → All (λ y. y ≼ t) xs
      → All (λ y. o.eq x y ≡ false) xs
  not-eq_below x t xs ne le =
      All-imp (λ y. y ≼ t) xs λ y below. ground (arith, o.eq-le x t, o.eq-le x y, o.le_trans x y t)

  pub not-eq_above :
      (x t : T) (ys : List T)
      → o.le t x ≡ false
      → All (λ y. t ≼ y) ys
      → All (λ y. o.eq x y ≡ false) ys
  not-eq_above x t ys gt =
      All-imp (λ y. t ≼ y) ys λ y above. ground (arith, o.eq-le x y, o.le_trans t y x)
