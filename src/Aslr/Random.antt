-- ===== src/Aslr/Random.antt =====
-- `AslrEntry::findRandomRange` finds a range wherever one is long enough.
use cerius.Base.{
  ℕ, ◌+◌, ◌-◌, ◌%◌, ◌≤◌, ◌<◌, ◌^◌, ◌≡◌, refl, Option, none, some, List, ◌∷◌, ◌++◌, arith, All,
  All-append, All-append_left, All-append_right, All-imp, Returns, returns, bind, ltb, ltb→lt,
  ltb→ge, ≢→==, Bool-cases, inl, inr, add64, sub64, ok, fault, Fault, mono, ◌∙◌, sym,
}
use cerius.Order.{IsSorted, ◌≼◌}
use cerius.Order.Sorted.{IsSorted-Middle}
use cerius.Range.{RangePair}
use cerius.Range.Laws.{range_ordered, x_mono}
use cerius.Range.Count.{sum_x, sum_x-append, sum_x-cons}
use cerius.Avl.{null, node}
use cerius.Avl.Model.{to_list, IsAvl}
use cerius.Avl.Bound.{Has-middle}
use cerius.Aslr.{AslrEntry, aslr_entry, Chosen, left_among, choose, find_random_range, rdrand}
use cerius.Aslr.Caches.{
  available, available-append, available-cons_long, available-cons_short, available_none,
  available-le-sum_x, suitable_total-available,
}
use cerius.Aslr.Nth.{Fits, Fits-left, Fits-behind, Suitable, find_nth-Fits}

-- Either no range has `size` bytes, or the block lies in a listed range and is one of as many as
-- there are places for it.
abbrev pub Answer : ℕ → List RangePair → Option Chosen → Type 0
Answer size l none = All (λ p. p.x < size) l
Answer size l (some c) = Fits size l c.start c.super × (c.among ≡ available size l)

left_among-available :
    (size : ℕ) (l : List RangePair) (r : Option Chosen)
    → Answer size l r
    → left_among r ≡ available size l
left_among-available size l none a = omega (arith, available_none size l a)
left_among-available size l (some c) a = a.1

module _ (size : ℕ) (l : List RangePair) (t : RangePair) (e1 : AslrEntry) (avl : IsAvl e1)
    (long : size + 1 ≤ t.x) (inside : t.y + t.x ≤ 2 ^ 64) (right : Suitable size (to_list e1)) where
  -- The choice lies in one of the three parts, for any number below their places.
  choose-Fits :
      (left : Option Chosen) (tot rnd : ℕ)
      → Answer (size + 1) l left
      → sum_x l < 2 ^ 63
      → rnd < available (size + 1) l + (t.x - size) + available (size + 1) (to_list e1)
      → available (size + 1) l + (t.x - size) < 2 ^ 64
      → Returns
          (λ c. Fits (size + 1) (l ++ (t ∷ to_list e1)) c.start c.super × (c.among ≡ tot))
          (choose left t e1 (size + 1) (t.x - size) tot rnd)
  unfolding choose
  choose-Fits left tot rnd a few less small = elim (Bool-cases (ltb rnd (left_among left))) [
    | inl in_left ↦ rw in_left (from_left left (ltb→lt rnd (left_among left) in_left) a)
    | inr beyond ↦
        let q = ltb→ge rnd (left_among left) beyond in
        let k = left_among-available (size + 1) l left a in
        let own : add64 (left_among left) (t.x - size) ≡ left_among left + (t.x - size) =
          omega arith in
        rw (beyond, own)
          (elim (Bool-cases (ltb rnd (left_among left + (t.x - size)))) [
            | inl here ↦
                let q' = ltb→lt rnd (left_among left + (t.x - size)) here in
                let start : sub64 (add64 t.y rnd) (left_among left)
                    ≡ t.y + (rnd - left_among left) =
                  omega arith in
                rw (here, start)
                  (returns (
                    record {
                      listed = Has-middle t l (to_list e1);
                      from = omega arith;
                      until = omega arith;
                    },
                    refl,
                  ))
            | inr behind ↦
                let q' = ltb→ge rnd (left_among left + (t.x - size)) behind in
                let n : sub64 (sub64 rnd (left_among left)) (t.x - size)
                    ≡ rnd - left_among left - (t.x - size) =
                  omega (arith, available-le-sum_x size (to_list e1), right.total) in
                rw (behind, n)
                  (bind
                    (find_nth-Fits e1 (rnd - left_among left - (t.x - size)) size avl right
                      (omega arith))
                    λ found fits. returns (Fits-behind t l (to_list e1) fits, refl))
          ])
  ]
    where
      from_left :
          (left : Option Chosen)
          → rnd < left_among left
          → Answer (size + 1) l left
          → Returns {A = Chosen}
              (λ c. Fits (size + 1) (l ++ (t ∷ to_list e1)) c.start c.super × (c.among ≡ tot))
              (elim left [
                | none ↦ fault Fault.uninitialised
                | some c ↦ ok (record { start = c.start; among = tot; super = c.super })
              ])
      from_left none h b = absurd (omega arith)
      from_left (some c) h b = returns (Fits-left l (t ∷ to_list e1) b.0, refl)

-- In a valid tree that is sorted, whose ranges end in the 64-bit space and have lengths that add up
-- to less than `2 ^ 63`, the search for a block of at least one byte ends without a failed
-- assertion. It fails only where every range is shorter than the block; else the block lies in a
-- range of the tree, and the number of choices is the number of all places for the block.
pub find_random_range-Answer :
    (e : AslrEntry) (size seed : ℕ)
    → IsAvl e
    → IsSorted (to_list e)
    → All (λ p. p.y + p.x ≤ 2 ^ 64) (to_list e)
    → sum_x (to_list e) < 2 ^ 63
    → Returns (λ (r, seed'). Answer (size + 1) (to_list e) r) (find_random_range e (size + 1) seed)
unfolding find_random_range
find_random_range-Answer null size seed a s i t = returns tt
find_random_range-Answer (node e0 t h f e1) size seed a s i total =
    let l = to_list e0 in
    let r = to_list e1 in
    let m = IsSorted-Middle l t r s in
    let sums = sum_x-append l (t ∷ r) in
    let sum_t = sum_x-cons t r in
    let places = available-append (size + 1) l (t ∷ r) in
    let inside_r = All-append_right (λ p. p.y + p.x ≤ 2 ^ 64) l (t ∷ r) i in
    elim (Bool-cases (ltb t.x (size + 1))) [
      | inl short ↦
          let q = ltb→lt t.x (size + 1) short in
          let short_l = All-imp (λ p. p ≼ t) l (λ p b. le_short p b q) m.before in
          let none_l = available_none (size + 1) l short_l in
          let none_t = available-cons_short (size + 1) t r q in
          rw (short, find_random_range)
            (mono (find_random_range-Answer e1 size seed a.1 m.right inside_r.1 (omega arith))
              λ res ans. answer_right l t r res.0 short_l q (omega arith) ans)
      | inr enough ↦
          let q = ltb→ge t.x (size + 1) enough in
          let long_t = available-cons_long size t r q in
          let right : Suitable size r = record {
            long = All-imp (λ p. t ≼ p) r (λ p b. long_right p b q) m.after;
            inside = inside_r.1;
            total = omega arith;
          } in
          let rest = suitable_total-available e1 size a.1 (omega arith) right.long in
          let le_sum = available-le-sum_x size (l ++ (t ∷ r)) in
          let this : add64 (sub64 t.x (size + 1)) 1 ≡ t.x - size = omega arith in
          rw (enough, find_random_range)
            (bind
              (find_random_range-Answer e0 size seed a.0 m.left
                (All-append_left (λ p. p.y + p.x ≤ 2 ^ 64) l (t ∷ r) i) (omega arith))
              λ res ans.
                let k = left_among-available (size + 1) l res.0 ans in
                let tot : add64 (add64 (t.x - size) (left_among res.0)) (available (size + 1) r)
                    ≡ available (size + 1) (l ++ (t ∷ r)) =
                  omega arith in
                rw (this, rest, tot, ≢→== (available (size + 1) (l ++ (t ∷ r))) 0 (omega arith))
                  (bind
                    (choose-Fits size l t e1 a.1 q inside_r.0 right res.0
                      (available (size + 1) (l ++ (t ∷ r)))
                      ((rdrand res.1).1 % available (size + 1) (l ++ (t ∷ r))) ans (omega arith)
                      (omega arith) (omega arith))
                    λ c good. returns good))
    ]
  where
    le_short : (p : RangePair) → p ≼ t → t.x < size + 1 → p.x < size + 1
    le_short p b q = omega (arith, x_mono p t b)

    long_right : (p : RangePair) → t ≼ p → size + 1 ≤ t.x → size + 1 ≤ p.x
    long_right p b q = omega (arith, x_mono t p b)

    answer_right :
        (l : List RangePair) (t : RangePair) (r : List RangePair) (res : Option Chosen)
        → All (λ p. p.x < size + 1) l
        → t.x < size + 1
        → available (size + 1) (l ++ (t ∷ r)) ≡ available (size + 1) r
        → Answer (size + 1) r res
        → Answer (size + 1) (l ++ (t ∷ r)) res
    answer_right l t r none sl st e ans = All-append (λ p. p.x < size + 1) l (t ∷ r) sl (st, ans)
    answer_right l t r (some c) sl st e ans = (Fits-behind t l r ans.0, ans.1 ∙ sym e)
