-- ===== src/Space/Edit.antt =====
-- A free range leaves both trees, or enters both.
use cerius.Base.{
  ℕ, ◌+◌, ◌<◌, ◌^◌, ◌≡◌, refl, Bool, true, false, List, ◌∷◌, arith, ok, Returns, value, mono, ◌⊎◌,
  inl, inr, subst, sym, ap, ◌∙◌,
}
use cerius.Order.{IsSorted}
use cerius.Order.Sorted.{insert-IsSorted, IsSorted-without}
use cerius.Range.{RangePair, eq}
use cerius.Range.Laws.{range_ordered, eq→≡}
use cerius.Range.Count.{
  count, one, one-swap, one-cases, swap, count-append, count-insert, All-count, sum_x, sum_x-append,
  sum_x-insert, sum_x-cons, count-cons,
}
use cerius.Avl.{AvlEntry, EntryClass, plain_entry, add, tree_del}
use cerius.Avl.Model.{to_list, IsAvl}
use cerius.Avl.Add.{add-insert}
use cerius.Avl.Del.{Removed, tree_del-Removed}
use cerius.Space.{Space}
use cerius.Space.Invariant.{IsSpace, times, Separate}

-- `l` is `l'` with one more `p`.
record OneMore (p : RangePair) (l l' : List RangePair) : Type 0 where
  counts : (a : RangePair) → count a l ≡ one a p + count a l'
  sum : sum_x l ≡ p.x + sum_x l'

Removed-OneMore :
    (l : List RangePair) (p : RangePair) (found : Bool) (l' : List RangePair)
    → IsSorted l
    → 0 < count p l
    → Removed p l found l'
    → (found ≡ true) × IsSorted l' × OneMore p l l'
Removed-OneMore l p true l' s h (xs, y, ys, same, e, e') =
    let is : p ≡ y = eq→≡ p y same in
    (
      refl,
      rw e' (IsSorted-without xs y ys (rw e at s)),
      record {
        counts = λ a.
            rw (e, e', is)
              (omega (arith, count-append a xs (y ∷ ys), count-cons a y ys, count-append a xs ys));
        sum =
            rw (e, e', is)
              (omega (arith, sum_x-append xs (y ∷ ys), sum_x-cons y ys, sum_x-append xs ys));
      },
    )
Removed-OneMore l p false l' s h r =
    absurd (let ne : eq p p ≡ false = All-count (λ y. eq p y ≡ false) p l r.1 h in ground arith)

module _ {κ} {C : Type κ} ⦃c : EntryClass RangePair C⦄ where
  record Edited (e : AvlEntry RangePair C) : Type κ where
    avl : IsAvl e
    sorted : IsSorted (to_list e)

  add-OneMore :
      (e : AvlEntry RangePair C) (p : RangePair)
      → IsAvl e
      → IsSorted (to_list e)
      → Returns (λ e'. Edited e' × OneMore p (to_list e') (to_list e)) (add e p)
  add-OneMore e p a s = mono (add-insert e p a s) λ e' g. (
    record { avl = g.avl; sorted = rw g.order (insert-IsSorted p (to_list e) s) },
    record {
      counts = λ q. rw g.order (count-insert q p (to_list e));
      sum = rw g.order (sum_x-insert p (to_list e));
    },
  )

  del-OneMore :
      (e : AvlEntry RangePair C) (p : RangePair)
      → IsAvl e
      → IsSorted (to_list e)
      → 0 < count p (to_list e)
      → Returns
          (λ (e', found). (found ≡ true) × Edited e' × OneMore p (to_list e) (to_list e'))
          (tree_del e p)
  del-OneMore e p a s h = mono (tree_del-Removed e p a s) λ r R.
      let (found, sorted, more) = Removed-OneMore (to_list e) p r.1 (to_list r.0) s h R.1 in
      (found, record { avl = R.0; sorted = sorted }, more)

Separate-symm : (p q : RangePair) → Separate p q → Separate q p
Separate-symm p q s = omega arith

zero-or-pos : (n : ℕ) → (n ≡ 0) ⊎ (0 < n)
zero-or-pos n = omega arith

module _ {κ} {C : Type κ} ⦃c : EntryClass RangePair C⦄ where
  -- `s` has the range `p`, given as (start, length), in addition to those of `s'`.
  pub record OneRange (s : Space C) (p : RangePair) (s' : Space C) : Type 0 where
    pub fewer : (a : RangePair) → times s a ≡ one a p + times s' a
    pub total : sum_x (to_list s.tree_length) ≡ p.y + sum_x (to_list s'.tree_length)

  -- A free range can be deleted from both trees.
  pub take_out :
      (s : Space C) (p : RangePair)
      → IsSpace s
      → 0 < times s p
      → (s' : Space C) × (tree_del s.tree_start p ≡ ok (s'.tree_start, true))
        × (tree_del s.tree_length (swap p) ≡ ok (s'.tree_length, true))
        × IsSpace s'
        × OneRange s p s'
  take_out s p i h =
      let (r, eq, R) = value (del-OneMore s.tree_start p i.start_avl i.start_sorted h) in
      let (r', eq', R') = value (
        del-OneMore s.tree_length (swap p) i.length_avl i.length_sorted
          (omega (arith, i.mirrored p))) in
      (
        record { tree_start = r.0; tree_length = r'.0 },
        eq ∙ ap (λ b. ok (r.0, b)) R.0,
        eq' ∙ ap (λ b. ok (r'.0, b)) R'.0,
        record {
          start_avl = R.1.avl;
          start_sorted = R.1.sorted;
          length_avl = R'.1.avl;
          length_sorted = R'.1.sorted;
          mirrored =
              λ a. omega (arith, i.mirrored a, R.2.counts a, R'.2.counts (swap a), one-swap a p);
          once = λ a. omega (arith, i.once a, R.2.counts a);
          proper = λ a free. i.proper a (omega (arith, R.2.counts a));
          apart =
              λ a b fa fb. i.apart a b (omega (arith, R.2.counts a)) (omega (arith, R.2.counts b));
        },
        record { fewer = R.2.counts; total = R'.2.sum },
      )

  -- A range that neither meets nor touches a free one can be added to both trees.
  pub put_in :
      (s : Space C) (p : RangePair)
      → IsSpace s
      → 0 < p.y
      → p.x + p.y < 2 ^ 64
      → ((q : RangePair) → 0 < times s q → Separate q p)
      → (s' : Space C) × (add s.tree_start p ≡ ok s'.tree_start)
        × (add s.tree_length (swap p) ≡ ok s'.tree_length)
        × IsSpace s'
        × OneRange s' p s
  put_in s p i pos fits away =
      let (e, eq, R) = value (add-OneMore s.tree_start p i.start_avl i.start_sorted) in
      let (e', eq', R') = value (add-OneMore s.tree_length (swap p) i.length_avl i.length_sorted) in
      (
        record { tree_start = e; tree_length = e' },
        eq,
        eq',
        record {
          start_avl = R.0.avl;
          start_sorted = R.0.sorted;
          length_avl = R'.0.avl;
          length_sorted = R'.0.sorted;
          mirrored =
              λ a. omega (arith, i.mirrored a, R.1.counts a, R'.1.counts (swap a), one-swap a p);
          once = λ a. elim (one-cases a p) [
            | inl (o, is) ↦
                omega (arith, R.1.counts a, o, subst (λ q. times s q ≡ 0) (sym is) fresh)
            | inr o ↦ omega (arith, R.1.counts a, o, i.once a)
          ];
          proper = λ a free. elim (one-cases a p) [
            | inl (o, is) ↦ subst (λ q. (0 < q.y) × (q.x + q.y < 2 ^ 64)) (sym is) (pos, fits)
            | inr o ↦ i.proper a (omega (arith, R.1.counts a, o))
          ];
          apart = λ a b fa fb. elim (one-cases a p) [
            | inl (o, is) ↦ elim (one-cases b p) [
              | inl (o', is') ↦ inl (is ∙ sym is')
              | inr o' ↦ inr (
                  subst (λ q. Separate q b) (sym is)
                    (Separate-symm b p (away b (omega (arith, R.1.counts b, o')))))
            ]
            | inr o ↦
                let old : 0 < times s a = omega (arith, R.1.counts a, o) in
                elim (one-cases b p) [
                  | inl (o', is') ↦ inr (subst (Separate a) (sym is') (away a old))
                  | inr o' ↦ i.apart a b old (omega (arith, R.1.counts b, o'))
                ]
          ];
        },
        record { fewer = R.1.counts; total = R'.1.sum },
      )
    where
      fresh : times s p ≡ 0
      fresh = elim (zero-or-pos (times s p)) [
        | inl none' ↦ none'
        | inr some' ↦ absurd (let sep = away p some' in omega arith)
      ]
