-- ===== src/Space/Free.antt =====
-- `AddressSpaceManager::free` gives a block back and merges it with the free ranges that it touches.
use cerius.Base.{
  ℕ, ◌+◌, ◌-◌, ◌≤◌, ◌<◌, ◌^◌, ◌≡◌, refl, true, false, arith, Option, Returns, returns, bind,
  Bool-cases, ◌⊎◌, inl, inr, subst, ap, ◌==◌, ==→≡, ==→≢, le→leb, lt-or-ge, add64, sub64,
}
use mathlib.Core.Logic.{◌↔◌}
use cerius.Range.{RangePair, range_pair, le}
use cerius.Range.Laws.{range_ordered, x_mono}
use cerius.Range.Count.{one-cases, one_refl, sum_x}
use cerius.Avl.{EntryClass, plain_entry}
use cerius.Avl.Model.{to_list}
use cerius.Space.{
  Space, del_start, del_length, add_start, add_length, merge_before, merge_after, free,
}
use cerius.Space.Invariant.{IsSpace, times, Covers}
use cerius.Space.Edit.{OneRange, take_out, put_in}
use cerius.Space.Lookup.{Found, missing, hit, find_bound-Found, nearest_below, nearest_above}
use cerius.Space.Alloc.{others-Separate}

module _ {κ} {C : Type κ} ⦃c : EntryClass RangePair C⦄ where
  -- `s'` is `s` less a free range that covers the addresses from `lo` up to `hi`, or `s` itself
  -- where these are none.
  record Merged (s : Space C) (lo hi : ℕ) (s' : Space C) : Type κ where
    space : IsSpace s'
    ordered : lo ≤ hi
    old : (q : RangePair) → 0 < times s' q → 0 < times s q
    inside : (a : ℕ) → lo ≤ a → a < hi → Covers s a
    split : (a : ℕ) → Covers s a → Covers s' a ⊎ ((lo ≤ a) × (a < hi))
    total : sum_x (to_list s.tree_length) ≡ (hi - lo) + sum_x (to_list s'.tree_length)

  Merged-none : (s : Space C) (a : ℕ) → IsSpace s → Merged s a a s
  Merged-none s a i = record {
    space = i;
    ordered = omega arith;
    old = λ q free. free;
    inside = λ b lo hi. absurd (omega arith);
    split = λ b covers. inl covers;
    total = omega arith;
  }

  Merged-taken :
      (s s' : Space C) (p : RangePair) (hi : ℕ)
      → IsSpace s'
      → 0 < times s p
      → OneRange s p s'
      → p.x + p.y ≡ hi
      → Merged s p.x hi s'
  Merged-taken s s' p hi i free one' end' = record {
    space = i;
    ordered = omega arith;
    old = λ q f. omega (arith, one'.fewer q);
    inside = λ a lo up. (p, free, lo, omega arith);
    split = λ a (q, f, lo, up). elim (one-cases q p) [
      | inl (o, is) ↦
          let ex = ap (λ (r : RangePair). r.x) is in
          let ey = ap (λ (r : RangePair). r.y) is in inr (omega arith)
      | inr o ↦ inl (q, omega (arith, one'.fewer q), lo, up)
    ];
    total = omega (arith, one'.total);
  }

  module _ (start size : ℕ) where
    -- The block is not free: each free range ends before it, or starts behind it.
    abbrev pub Busy : Space C → Type 0
    Busy s = (q : RangePair) → 0 < times s q → (q.x + q.y ≤ start) ⊎ (start + size ≤ q.x)

    merge_before-Merged :
        (s : Space C) {r : Option RangePair}
        → IsSpace s
        → 0 < size
        → start + size < 2 ^ 64
        → Busy s
        → Found s true (range_pair start 0) r
        → Returns
            (λ (s', lo).
              Merged s lo start s'
              × ((q : RangePair) → 0 < times s' q → (q.x + q.y < lo) ⊎ (start + size ≤ q.x)))
            (merge_before s start r)
    unfolding merge_before del_start del_length
    merge_before-Merged s i pos fits busy (missing none') = returns (
      Merged-none s start i,
      λ q f. elim (busy q f) [
        | inl before ↦
            let proper = i.proper q f in
            let low : le q (range_pair start 0) ≡ true = ground arith in absurd (none' q f low)
        | inr behind ↦ inr behind
      ],
    )
    merge_before-Merged s i pos fits busy (hit {p} f side rest) =
        let proper = i.proper p f in
        let from = x_mono p (range_pair start 0) side in
        let less : p.x < start = ground arith in
        let ends : p.x + p.y ≤ start = omega (arith, busy p f) in
        rw (le→leb (add64 p.x p.y) start (omega arith))
          (elim (Bool-cases (add64 p.x p.y == start)) [
            | inl touch ↦
                let t = ==→≡ (add64 p.x p.y) start touch in
                let (s', eq, eq', i', one') = take_out s p i f in
                rw (touch, eq, eq')
                  (returns (
                    Merged-taken s s' p start i' f one' (omega arith),
                    λ q g.
                        let sep = others-Separate s s' p q i one' g in
                        omega (arith, busy q (omega (arith, one'.fewer q))),
                  ))
            | inr apart ↦
                let t = ==→≢ (add64 p.x p.y) start apart in
                rw apart (
                  returns (
                    Merged-none s start i,
                    λ q g. elim (busy q g) [
                      | inr behind ↦ inr behind
                      | inl before ↦
                          let proper' = i.proper q g in
                          let low : le q (range_pair start 0) ≡ true = ground arith in
                          elim (nearest_below s (range_pair start 0) p q i f g (rest q g) low) [
                            | inl same ↦
                                let ex = ap (λ (r : RangePair). r.x) same in
                                let ey = ap (λ (r : RangePair). r.y) same in inl (omega arith)
                            | inr lower ↦ inl (omega arith)
                          ]
                    ],
                  ))
          ])

    merge_after-Merged :
        (s : Space C) (lo : ℕ) {r : Option RangePair}
        → IsSpace s
        → start + size < 2 ^ 64
        → lo ≤ start
        → ((q : RangePair) → 0 < times s q → (q.x + q.y < lo) ⊎ (start + size ≤ q.x))
        → Found s false (range_pair start 0) r
        → Returns
            (λ (s', hi).
              Merged s (start + size) hi s'
              × (hi < 2 ^ 64)
              × ((q : RangePair) → 0 < times s' q → (q.x + q.y < lo) ⊎ (hi < q.x)))
            (merge_after s (start + size) r)
    unfolding merge_after del_start del_length
    merge_after-Merged s lo i fits low away (missing none') = returns (
      Merged-none s (start + size) i,
      fits,
      λ q f. elim (away q f) [
        | inl before ↦ inl before
        | inr behind ↦
            let high : le (range_pair start 0) q ≡ true = ground arith in absurd (none' q f high)
      ],
    )
    merge_after-Merged s lo i fits low away (hit {p} f side rest) =
        let proper = i.proper p f in
        let from = x_mono (range_pair start 0) p side in
        let starts : start + size ≤ p.x = omega (arith, away p f) in
        rw (le→leb (start + size) p.x starts) (elim (Bool-cases (p.x == start + size)) [
          | inl touch ↦
              let t = ==→≡ p.x (start + size) touch in
              let (s', eq, eq', i', one') = take_out s p i f in
              let ends : add64 p.x p.y ≡ p.x + p.y = omega arith in
              rw (touch, eq, eq', ends)
                (returns (
                  subst (λ a. Merged s a (p.x + p.y) s') t
                      (Merged-taken s s' p (p.x + p.y) i' f one' refl),
                  proper.1,
                  λ q g.
                      let sep = others-Separate s s' p q i one' g in
                      omega (arith, away q (omega (arith, one'.fewer q))),
                ))
          | inr apart ↦
              let t = ==→≢ p.x (start + size) apart in
              rw apart (
                returns (
                  Merged-none s (start + size) i,
                  fits,
                  λ q g. elim (away q g) [
                    | inl before ↦ inl before
                    | inr behind ↦
                        let high : le (range_pair start 0) q ≡ true = ground arith in
                        elim (nearest_above s (range_pair start 0) p q i f g (rest q g) high) [
                          | inl same ↦
                              let ex = ap (λ (r : RangePair). r.x) same in inr (omega arith)
                          | inr higher ↦ inr (omega arith)
                        ]
                  ],
                ))
        ])

    -- The free set has gained exactly the block; the merged range that is returned is one of the
    -- free ranges and contains the block.
    pub record Freed (s s' : Space C) (m : RangePair) : Type κ where
      pub space : IsSpace s'
      pub covers : (a : ℕ) → Covers s' a ↔ (Covers s a ⊎ ((start ≤ a) × (a < start + size)))
      pub listed : 0 < times s' m
      pub from : m.x ≤ start
      pub until : start + size ≤ m.x + m.y
      pub total : sum_x (to_list s'.tree_length) ≡ size + sum_x (to_list s.tree_length)

    Merged-Freed :
        (s s1 s2 s3 : Space C) (lo hi : ℕ)
        → Merged s lo start s1
        → Merged s1 (start + size) hi s2
        → IsSpace s3
        → OneRange s3 (range_pair lo (hi - lo)) s2
        → Freed s s3 (range_pair lo (hi - lo))
    Merged-Freed s s1 s2 s3 lo hi m n i one' = record {
      space = i;
      covers = λ a. (gained a, elim [ inl old ↦ kept a old | inr new ↦ inside a (new.0) (new.1) ]);
      listed = omega (arith, one'.fewer p, one_refl p);
      from = m.ordered;
      until = omega (arith, m.ordered, n.ordered);
      total = omega (arith, m.total, n.total, one'.total, m.ordered, n.ordered);
    }
      where
        p : RangePair
        p = range_pair lo (hi - lo)

        inside : (a : ℕ) → start ≤ a → a < start + size → Covers s3 a
        inside a from less = (
          p,
          omega (arith, one'.fewer p, one_refl p),
          omega (arith, m.ordered),
          omega (arith, n.ordered, m.ordered),
        )

        kept : (a : ℕ) → Covers s a → Covers s3 a
        kept a c0 = elim (m.split a c0) [
          | inr b ↦ (p, omega (arith, one'.fewer p, one_refl p), b.0, omega (arith, n.ordered))
          | inl c1 ↦ elim (n.split a c1) [
            | inr b ↦
                (p, omega (arith, one'.fewer p, one_refl p), omega (arith, m.ordered), omega arith)
            | inl (q, f, lo', up) ↦ (q, omega (arith, one'.fewer q), lo', up)
          ]
        ]

        below : (a : ℕ) → Covers s1 a → Covers s a
        below a (q, f, lo', up) = (q, m.old q f, lo', up)

        gained : (a : ℕ) → Covers s3 a → Covers s a ⊎ ((start ≤ a) × (a < start + size))
        gained a (q, f, lo', up) = elim (one-cases q p) [
          | inr o ↦ inl (q, m.old q (n.old q (omega (arith, one'.fewer q))), lo', up)
          | inl (o, is) ↦
              let ex = ap (λ (r : RangePair). r.x) is in
              let ey = ap (λ (r : RangePair). r.y) is in
              elim (lt-or-ge a start) [
                | inl before ↦ inl (m.inside a (omega arith) before)
                | inr more ↦ elim (lt-or-ge a (start + size)) [
                  | inl within ↦ inr (more, within)
                  | inr behind ↦ inl (below a (n.inside a behind (omega arith)))
                ]
              ]
        ]

    -- For a block of at least one byte that ends in the 64-bit space and shares no byte with a free
    -- range, no assertion of `free` fails; afterwards the space is valid, exactly the block's
    -- addresses have become free, the merged range is free and contains the block, and the free
    -- lengths add up to more by the block's length.
    pub free-Freed :
        (s : Space C)
        → IsSpace s
        → 0 < size
        → start + size < 2 ^ 64
        → Busy s
        → Returns (λ (s', m). Freed s s' m) (free s start size)
    unfolding free add_start add_length
    free-Freed s i pos fits busy =
        bind
          (merge_before-Merged s i pos fits busy (find_bound-Found s true (range_pair start 0) i))
          λ r m.
            let end : add64 start size ≡ start + size = omega arith in
            rw end (
              bind
                (merge_after-Merged r.0 r.1 m.0.space fits m.0.ordered m.1
                  (find_bound-Found r.0 false (range_pair start 0) m.0.space))
                λ r' n.
                  let length : sub64 r'.1 r.1 ≡ r'.1 - r.1 =
                    omega (arith, m.0.ordered, n.0.ordered, n.1) in
                  let (s3, eq, eq', i', one') =
                    put_in r'.0 (range_pair r.1 (r'.1 - r.1)) n.0.space
                      (omega (arith, m.0.ordered, n.0.ordered))
                      (omega (arith, m.0.ordered, n.0.ordered, n.1))
                      (λ q f. omega (arith, n.2 q f, m.0.ordered, n.0.ordered)) in
                  rw (length, eq, eq')
                    (returns (Merged-Freed s r.0 r'.0 s3 r.1 r'.1 m.0 n.0 i' one')))
