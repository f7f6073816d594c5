-- ===== src/Space/Alloc.antt =====
-- `AddressSpaceManager::allocSubrangeFromSuperRange` and `alloc` take the addresses of one range
-- out of the free set.
use cerius.Base.{
  ℕ, ◌+◌, ◌-◌, ◌≤◌, ◌<◌, ◌^◌, ◌≡◌, refl, Bool, true, false, arith, fault, Fault, Option, ◌>>=◌,
  ◌>>◌, kassert, leb, le→leb, gt→leb, Returns, returns, bind, mono, Bool-cases, ◌⊎◌, inl, inr,
  subst, ap, ltb, ltb→lt, lt→ltb, lt-or-ge, add64, sub64, if◌then◌else◌,
}
use mathlib.Core.Logic.{◌↔◌}
use cerius.Range.{RangePair, range_pair, le}
use cerius.Range.Laws.{range_ordered, x_mono}
use cerius.Range.Count.{one, one-cases, one_refl, swap, sum_x}
use cerius.Avl.{EntryClass, plain_entry}
use cerius.Avl.Model.{to_list}
use cerius.Space.{
  Space, del_start, del_length, add_start, add_length, keep, alloc_subrange, alloc, found_range,
  uint64_max,
}
use cerius.Space.Invariant.{IsSpace, times, Covers, Separate}
use cerius.Space.Lookup.{Found, missing, hit, find_bound-Found, nearest_below}
use cerius.Space.Edit.{OneRange, take_out, put_in}

-- The address stands in the block (length, start).
abbrev pub InBlock : RangePair → ℕ → Type 0
InBlock sub a = (sub.y ≤ a) × (a < sub.y + sub.x)

-- The parts of `p`, as (start, length), before and behind the block.
abbrev before : RangePair → RangePair → RangePair
before p sub = range_pair p.x (sub.y - p.x)

abbrev behind : RangePair → RangePair → RangePair
behind p sub = range_pair (sub.y + sub.x) (p.x + p.y - (sub.y + sub.x))

module _ {κ} {C : Type κ} ⦃c : EntryClass RangePair C⦄ where
  -- The ranges that stay when `p` is deleted are separate from it.
  pub others-Separate :
      (s s' : Space C) (p q : RangePair)
      → IsSpace s
      → OneRange s p s'
      → 0 < times s' q
      → Separate q p
  others-Separate s s' p q i one' free =
      elim (i.apart q p (omega (arith, one'.fewer q)) (omega (arith, one'.fewer p, one_refl p))) [
        | inl same ↦
            let free' : 0 < times s' p = subst (λ r. 0 < times s' r) same free in
            absurd (omega (arith, i.once p, one'.fewer p, one_refl p))
        | inr sep ↦ sep
      ]

  -- `s'` has the range `p` in addition to those of `s`, if the test holds.
  pub record Kept (test : Bool) (p : RangePair) (s s' : Space C) : Type 0 where
    pub more : (a : RangePair) → times s' a ≡ (if test then one a p else 0) + times s a
    pub total :
        sum_x (to_list s'.tree_length) ≡ (if test then p.y else 0) + sum_x (to_list s.tree_length)

  keep-Kept :
      (test : Bool) (start length : ℕ) (s : Space C)
      → IsSpace s
      → (test ≡ true → (0 < length) × (start + length < 2 ^ 64))
      → (test ≡ true → (q : RangePair) → 0 < times s q → Separate q (range_pair start length))
      → Returns
          (λ s'. IsSpace s' × Kept test (range_pair start length) s s')
          (keep test start length s)
  unfolding keep add_start add_length
  keep-Kept false start length s i fits away =
      returns (i, record { more = λ a. omega arith; total = omega arith })
  keep-Kept true start length s i fits away =
      let (s', eq, eq', i', one') =
        put_in s (range_pair start length) i (fits refl).0 (fits refl).1 (away refl) in
      rw (eq', eq) (returns (i', record { more = one'.fewer; total = one'.total }))

  -- The free set has lost exactly the block.
  pub record Allocated (s : Space C) (sub : RangePair) (s' : Space C) : Type κ where
    pub space : IsSpace s'
    pub covers : (a : ℕ) → Covers s' a ↔ (Covers s a × ¬ InBlock sub a)
    pub total : sum_x (to_list s.tree_length) ≡ sub.x + sum_x (to_list s'.tree_length)

  Kept-cases :
      {test : Bool} {p : RangePair} {s s' : Space C} (q : RangePair)
      → Kept test p s s'
      → 0 < times s' q
      → ((test ≡ true) × (q ≡ p)) ⊎ (0 < times s q)
  Kept-cases {test} {p} q k free = elim (Bool-cases test) [
    | inl on ↦ elim (one-cases q p) [
      | inl (o, is) ↦ inl (on, is)
      | inr o ↦ inr (ground (arith, k.more q))
    ]
    | inr off ↦ inr (ground (arith, k.more q))
  ]

  Kept-old :
      {test : Bool} {p : RangePair} {s s' : Space C} (q : RangePair)
      → Kept test p s s'
      → 0 < times s q
      → 0 < times s' q
  Kept-old q k free = omega (arith, k.more q)

  Kept-new :
      {test : Bool} {p : RangePair} {s s' : Space C}
      → Kept test p s s'
      → test ≡ true
      → 0 < times s' p
  Kept-new {p} k on = ground (arith, k.more p, one_refl p)

  -- The four states of `allocSubrangeFromSuperRange`.
  record Steps (s : Space C) (p sub : RangePair) (s1 s2 s3 : Space C) : Type κ where
    valid : IsSpace s
    free : 0 < times s p
    some_bytes : 0 < sub.x
    from : p.x ≤ sub.y
    until : sub.y + sub.x ≤ p.x + p.y
    taken : OneRange s p s1
    kept_before : Kept (ltb p.x sub.y) (before p sub) s1 s2
    kept_behind : Kept (ltb (sub.y + sub.x) (p.x + p.y)) (behind p sub) s2 s3

  module _ {s s1 s2 s3 : Space C} {p sub : RangePair} (t : Steps s p sub s1 s2 s3) where
    Steps-only : (a : ℕ) → Covers s3 a → Covers s a × ¬ InBlock sub a
    Steps-only a (q, free, lo, hi) = elim (Kept-cases q t.kept_behind free) [
      | inl (on, is) ↦
          let ex = ap (λ (r : RangePair). r.x) is in
          let ey = ap (λ (r : RangePair). r.y) is in
          let q' = ltb→lt (sub.y + sub.x) (p.x + p.y) on in
          ((p, t.free, omega (arith, t.from), omega arith), λ b. omega arith)
      | inr free2 ↦ elim (Kept-cases q t.kept_before free2) [
        | inl (on, is) ↦
            let ex = ap (λ (r : RangePair). r.x) is in
            let ey = ap (λ (r : RangePair). r.y) is in
            let q' = ltb→lt p.x sub.y on in
            ((p, t.free, omega arith, omega (arith, t.until)), λ b. omega arith)
        | inr free1 ↦
            let sep = others-Separate s s1 p q t.valid t.taken free1 in
            ((q, omega (arith, t.taken.fewer q), lo, hi), λ b. omega (arith, t.from, t.until))
      ]
    ]

    Steps-all : (a : ℕ) → Covers s a × ¬ InBlock sub a → Covers s3 a
    Steps-all a ((q, free, lo, hi), out) = elim (one-cases q p) [
      | inl (o, is) ↦
          let ex = ap (λ (r : RangePair). r.x) is in
          let ey = ap (λ (r : RangePair). r.y) is in
          elim (lt-or-ge a sub.y) [
            | inl less ↦
                let new = Kept-new t.kept_before (lt→ltb p.x sub.y (omega arith)) in
                (before p sub, Kept-old (before p sub) t.kept_behind new, omega arith, omega arith)
            | inr more ↦ elim (lt-or-ge a (sub.y + sub.x)) [
              | inl less ↦ absurd (out (more, less))
              | inr past ↦ (
                behind p sub,
                Kept-new t.kept_behind (lt→ltb (sub.y + sub.x) (p.x + p.y) (omega arith)),
                omega arith,
                omega arith,
              )
            ]
          ]
      | inr o ↦
          let free1 : 0 < times s1 q = omega (arith, t.taken.fewer q) in
          (q, Kept-old q t.kept_behind (Kept-old q t.kept_before free1), lo, hi)
    ]

    Steps-total : sum_x (to_list s.tree_length) ≡ sub.x + sum_x (to_list s3.tree_length)
    Steps-total =
        ground (arith, t.taken.total, t.kept_before.total, t.kept_behind.total, t.from, t.until)

  -- Given a free range and a block of at least one byte inside it, no assertion fails, and
  -- afterwards the space is valid, the block's addresses are no longer free, all others are free
  -- exactly if they were, and the free lengths add up to less by the block's length.
  pub alloc_subrange-Allocated :
      (s : Space C) (sub p : RangePair)
      → IsSpace s
      → 0 < times s p
      → 0 < sub.x
      → p.x ≤ sub.y
      → sub.y + sub.x ≤ p.x + p.y
      → Returns (Allocated s sub) (alloc_subrange s sub (swap p))
  unfolding alloc_subrange del_start del_length
  alloc_subrange-Allocated s sub p i free some' from until =
      let fits = i.proper p free in
      let (s1, eq, eq', i1, taken) = take_out s p i free in
      let super_end : add64 p.x p.y ≡ p.x + p.y = omega arith in
      let sub_end : add64 sub.y sub.x ≡ sub.y + sub.x = omega arith in
      let part : sub64 sub.y p.x ≡ sub.y - p.x = omega arith in
      let rest : sub64 (p.x + p.y) (sub.y + sub.x) ≡ p.x + p.y - (sub.y + sub.x) = omega arith in
      rw (super_end, sub_end, eq', eq, part, rest)
        (bind
          (keep-Kept (ltb p.x sub.y) p.x (sub.y - p.x) s1 i1
            (λ on. let less = ltb→lt p.x sub.y on in (omega arith, omega arith))
            (λ on q fq.
              let less = ltb→lt p.x sub.y on in
              let sep = others-Separate s s1 p q i taken fq in omega arith))
          λ s2 K.
            mono
              (keep-Kept (ltb (sub.y + sub.x) (p.x + p.y)) (sub.y + sub.x)
                (p.x + p.y - (sub.y + sub.x)) s2 K.0
                (λ on.
                  let less = ltb→lt (sub.y + sub.x) (p.x + p.y) on in (omega arith, omega arith))
                (λ on q fq.
                  let less = ltb→lt (sub.y + sub.x) (p.x + p.y) on in
                  elim (Kept-cases q K.1 fq) [
                    | inl (on', is) ↦
                        let ex = ap (λ (r : RangePair). r.x) is in
                        let ey = ap (λ (r : RangePair). r.y) is in inl (omega arith)
                    | inr old ↦ let sep = others-Separate s s1 p q i taken old in omega arith
                  ]))
              λ s3 L.
                let steps : Steps s p sub s1 s2 s3 = record {
                  valid = i;
                  free = free;
                  some_bytes = some';
                  from = from;
                  until = until;
                  taken = taken;
                  kept_before = K.1;
                  kept_behind = L.1;
                } in
                record {
                  space = L.0;
                  covers = λ a. (Steps-only steps a, Steps-all steps a);
                  total = Steps-total steps;
                })

  -- `kassert(treeStart.findBound(...))` and what follows, for what the lookup has found.
  alloc-Found :
      (s : Space C) (range p : RangePair) {r : Option RangePair}
      → IsSpace s
      → 0 < times s p
      → 0 < range.x
      → p.x ≤ range.y
      → range.y + range.x ≤ p.x + p.y
      → Found s true (range_pair range.y uint64_max) r
      → Returns (Allocated s range) (
          found_range r >>= λ super.
          kassert (leb (add64 range.y range.x) (add64 super.x super.y))
          >> alloc_subrange s range (range_pair super.y super.x))
  alloc-Found s range p i free some' from until (missing none') =
      let fits = i.proper p free in absurd (none' p free (ground arith))
  alloc-Found s range p i free some' from until (hit {p = q} fq side rest) =
      let fits = i.proper p free in
      let below : le p (range_pair range.y uint64_max) ≡ true = ground arith in
      let q_from = x_mono q (range_pair range.y uint64_max) side in
      elim (nearest_below s (range_pair range.y uint64_max) q p i fq free (rest p free) below) [
        | inl same ↦
            let ex = ap (λ (r : RangePair). r.x) same in
            let ey = ap (λ (r : RangePair). r.y) same in
            rw (le→leb (add64 range.y range.x) (add64 q.x q.y) (omega arith))
              (alloc_subrange-Allocated s range q i fq some' (omega arith) (omega arith))
        | inr before ↦ absurd (omega arith)
      ]

  -- If a block of at least one byte lies in a free range, `alloc` finds that range, no assertion
  -- fails, and the free set loses exactly the block.
  pub alloc-Allocated :
      (s : Space C) (range p : RangePair)
      → IsSpace s
      → 0 < times s p
      → 0 < range.x
      → p.x ≤ range.y
      → range.y + range.x ≤ p.x + p.y
      → Returns (Allocated s range) (alloc s range)
  unfolding alloc
  alloc-Allocated s range p i free some' from until =
      alloc-Found s range p i free some' from until
        (find_bound-Found s true (range_pair range.y uint64_max) i)

  -- For valid free ranges and a block that ends below 2 ^ 64: if no free range contains the
  -- block, an assertion of `alloc` fails.
  pub alloc_fault :
      (s : Space C) (range : RangePair)
      → IsSpace s
      → range.y + range.x < 2 ^ 64
      → ((p : RangePair) → 0 < times s p → ¬ ((p.x ≤ range.y) × (range.y + range.x ≤ p.x + p.y)))
      → alloc s range ≡ fault Fault.assertion
  unfolding alloc
  alloc_fault s range i fits out = go (find_bound-Found s true (range_pair range.y uint64_max) i)
    where
      go :
          {r : Option RangePair}
          → Found s true (range_pair range.y uint64_max) r
          → (found_range r >>= λ super.
              kassert (leb (add64 range.y range.x) (add64 super.x super.y))
              >> alloc_subrange s range (range_pair super.y super.x))
            ≡ fault Fault.assertion
      go (missing none') = refl
      go (hit {p = q} fq side rest) =
          let q_from = x_mono q (range_pair range.y uint64_max) side in
          let q_fits = i.proper q fq in
          elim (lt-or-ge (q.x + q.y) (range.y + range.x)) [
            | inl short ↦ rw (gt→leb (add64 range.y range.x) (add64 q.x q.y) (omega arith))
            | inr long ↦ absurd (out q fq (q_from, long))
          ]
