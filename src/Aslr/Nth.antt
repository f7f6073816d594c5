-- ===== src/Aslr/Nth.antt =====
-- `AslrEntry::findNThSuitableByteInSubtree` ends in a range of the subtree, and the block fits.
use cerius.Base.{
  ok, if◌then◌else◌, ℕ, ◌+◌, ◌-◌, ◌≤◌, ◌<◌, ◌^◌, ◌≡◌, List, ◌∷◌, ◌++◌, arith, All, All-append_left,
  All-append_right, Returns, returns, ltb, lt→ltb, ltb→lt, ltb→ge, le→leb, Bool-cases, inl, inr,
  add64, sub64, mono,
}
use cerius.Range.{RangePair}
use cerius.Range.Count.{sum_x, sum_x-append, sum_x-cons}
use cerius.Avl.{null, node}
use cerius.Avl.Model.{to_list, IsAvl}
use cerius.Avl.Bound.{Has, Has-left, Has-middle, Has-behind}
use cerius.Aslr.{AslrEntry, AslrFields, aslr_entry, find_nth}
use cerius.Aslr.Caches.{
  available, available-append, available_all, available-nil, available-cons_long, IsAvl-Caches,
  suitable_total-available,
}

-- The block of `size` bytes from `start` lies in the range `super`, which is one of the list.
pub record Fits (size : ℕ) (l : List RangePair) (start : ℕ) (super : RangePair) : Type 0 where
  pub listed : Has super l
  pub from : super.y ≤ start
  pub until : start + size ≤ super.y + super.x

pub Fits-left :
    {size start : ℕ} {super : RangePair} (xs ys : List RangePair)
    → Fits size xs start super
    → Fits size (xs ++ ys) start super
Fits-left {super} xs ys f = record {
  listed = Has-left super xs ys f.listed;
  from = f.from;
  until = f.until;
}

pub Fits-behind :
    {size start : ℕ} {super : RangePair} (t : RangePair) (xs ys : List RangePair)
    → Fits size ys start super
    → Fits size (xs ++ (t ∷ ys)) start super
Fits-behind {super} t xs ys f = record {
  listed = Has-behind super t xs ys f.listed;
  from = f.from;
  until = f.until;
}

-- What the search needs of a list of ranges: each is longer than `size`, ends in the 64-bit space,
-- and the lengths add up to less than `2 ^ 63`.
pub record Suitable (size : ℕ) (l : List RangePair) : Type 0 where
  pub long : All (λ p. size + 1 ≤ p.x) l
  pub inside : All (λ p. p.y + p.x ≤ 2 ^ 64) l
  pub total : sum_x l < 2 ^ 63

-- The parts of such a list round a range.
record Split (size : ℕ) (l : List RangePair) (t : RangePair) (r : List RangePair) : Type 0 where
  left : Suitable size l
  right : Suitable size r
  long : size + 1 ≤ t.x
  inside : t.y + t.x ≤ 2 ^ 64
  places :
      available (size + 1) (l ++ (t ∷ r))
      ≡ available (size + 1) l + (t.x - size + available (size + 1) r)
  few : available (size + 1) (l ++ (t ∷ r)) ≤ sum_x (l ++ (t ∷ r))

Suitable-Split :
    (size : ℕ) (l : List RangePair) (t : RangePair) (r : List RangePair)
    → Suitable size (l ++ (t ∷ r))
    → Split size l t r
Suitable-Split size l t r s =
    let long_r = All-append_right (λ p. size + 1 ≤ p.x) l (t ∷ r) s.long in
    let inside_r = All-append_right (λ p. p.y + p.x ≤ 2 ^ 64) l (t ∷ r) s.inside in
    let sums = sum_x-append l (t ∷ r) in
    record {
      left = record {
        long = All-append_left (λ p. size + 1 ≤ p.x) l (t ∷ r) s.long;
        inside = All-append_left (λ p. p.y + p.x ≤ 2 ^ 64) l (t ∷ r) s.inside;
        total = omega (arith, s.total);
      };
      right = record {
        long = long_r.1;
        inside = inside_r.1;
        total = omega (arith, s.total, sum_x-cons t r);
      };
      long = long_r.0;
      inside = inside_r.0;
      places =
          omega
            (arith, available-append (size + 1) l (t ∷ r), available-cons_long size t r long_r.0);
      few = omega (arith, available_all size (l ++ (t ∷ r)) s.long);
    }

-- One round of the loop, on numbers that do not wrap.
find_nth-node :
    (e0 : AslrEntry) (t : RangePair) (h : ℕ) (f : AslrFields) (e1 : AslrEntry) (n size : ℕ)
    → IsAvl (node e0 t h f e1)
    → Suitable size (to_list (node e0 t h f e1))
    → n < available (size + 1) (to_list (node e0 t h f e1))
    → find_nth (node e0 t h f e1) n (size + 1) ≡ (
        if ltb n (t.x - size)
        then ok (t.y + n, t)
        else (if ltb n (t.x - size + available (size + 1) (to_list e0))
            then find_nth e0 (n - (t.x - size)) (size + 1)
            else find_nth e1 (n - (t.x - size + available (size + 1) (to_list e0))) (size + 1)))
unfolding find_nth
find_nth-node e0 t h f e1 n size a s less =
    let p = Suitable-Split size (to_list e0) t (to_list e1) s in
    let caches = IsAvl-Caches (node e0 t h f e1) a (omega (arith, s.total)) in
    let this : add64 (sub64 t.x (size + 1)) 1 ≡ t.x - size = omega (arith, p.long, p.inside) in
    let places = available (size + 1) (to_list e0) in
    rw
      (
        lt→ltb n (2 ^ 63) (omega (arith, s.total, p.few)),
        lt→ltb n f.x_total (omega (arith, caches.0, p.few)),
        le→leb (size + 1) t.x p.long,
        suitable_total-available e0 size a.0 (omega (arith, p.left.total)) p.left.long,
        lt→ltb places (2 ^ 63) (omega (arith, s.total, p.few, p.places)),
        this,
      )
      (elim (Bool-cases (ltb n (t.x - size))) [
        | inl own ↦
            let q = ltb→lt n (t.x - size) own in
            let start : add64 t.y n ≡ t.y + n = omega (arith, p.inside, p.long) in rw (own, start)
        | inr other ↦
            let q = ltb→ge n (t.x - size) other in
            let both : add64 (t.x - size) places ≡ t.x - size + places =
              omega (arith, s.total, p.few, p.places) in
            let behind : sub64 n (t.x - size) ≡ n - (t.x - size) = omega (arith, s.total, p.few) in
            rw (other, both, behind)
              (elim (Bool-cases (ltb n (t.x - size + places))) [
                | inl in_left ↦ rw in_left
                | inr in_right ↦
                    let q' = ltb→ge n (t.x - size + places) in_right in
                    let rest : sub64 n (t.x - size + places) ≡ n - (t.x - size + places) =
                      omega (arith, s.total, p.few) in
                    rw (in_right, rest)
              ])
      ])

-- Of a valid subtree whose ranges all have more than `size` bytes, lie within 64 bits and have
-- fewer than 2 ^ 63 bytes together, for `n` less than the number of places for a block of `size
-- + 1` bytes, no assertion fails and the block that is found lies in a range of the subtree.
pub find_nth-Fits :
    (e : AslrEntry) (n size : ℕ)
    → IsAvl e
    → Suitable size (to_list e)
    → n < available (size + 1) (to_list e)
    → Returns (λ (start, super). Fits (size + 1) (to_list e) start super) (find_nth e n (size + 1))
find_nth-Fits null n size a s h = absurd (omega (arith, available-nil (size + 1)))
find_nth-Fits (node e0 t h f e1) n size a s less =
    let p = Suitable-Split size (to_list e0) t (to_list e1) s in
    let places = available (size + 1) (to_list e0) in
    rw (find_nth-node e0 t h f e1 n size a s less) (elim (Bool-cases (ltb n (t.x - size))) [
      | inl own ↦
          let q = ltb→lt n (t.x - size) own in
          rw own (
            returns (record {
              listed = Has-middle t (to_list e0) (to_list e1);
              from = omega arith;
              until = omega (arith, p.long);
            }))
      | inr other ↦
          let q = ltb→ge n (t.x - size) other in
          rw other (elim (Bool-cases (ltb n (t.x - size + places))) [
            | inl in_left ↦
                let q' = ltb→lt n (t.x - size + places) in_left in
                rw in_left (
                  mono (find_nth-Fits e0 (n - (t.x - size)) size a.0 p.left (omega arith))
                    λ found fits. Fits-left (to_list e0) (t ∷ to_list e1) fits)
            | inr in_right ↦
                let q' = ltb→ge n (t.x - size + places) in_right in
                rw in_right (
                  mono
                    (find_nth-Fits e1 (n - (t.x - size + places)) size a.1 p.right
                      (omega (arith, p.places)))
                    λ found fits. Fits-behind t (to_list e0) (to_list e1) fits)
          ])
    ])
