-- ===== src/Aslr/Caches.antt =====
-- What the cached fields of `AslrEntry` stand for.
use cerius.Base.{
  ℕ, ◌+◌, ◌-◌, ◌*◌, ◌≤◌, ◌<◌, ◌^◌, ◌≡◌, refl, List, [], ◌∷◌, ◌++◌, length, length-append, arith,
  All, All-append_right, if◌then◌else◌, sub64, mul64, ap, leb, le→leb, ◌∙◌,
}
use cerius.Range.{RangePair}
use cerius.Range.Count.{sum_x, sum_x-append}
use cerius.Avl.{null, node, get_extra}
use cerius.Avl.Model.{to_list, IsAvl}
use cerius.Aslr.{AslrEntry, AslrFields, aslr_entry, suitable_total, add_child}

-- At how many addresses a block of `size` bytes can start in the ranges that are long enough.
unfoldable pub available : ℕ → List RangePair → ℕ
available size [] = 0
available size (p ∷ l) = (if leb size p.x then p.x - size + 1 else 0) + available size l

pub available-append :
    (size : ℕ) (xs ys : List RangePair)
    → available size (xs ++ ys) ≡ available size xs + available size ys
unfolding available
available-append size [] ys = omega arith
available-append size (p ∷ xs) ys = omega (arith, available-append size xs ys)

pub available_all :
    (size : ℕ) (l : List RangePair)
    → All (λ p. size + 1 ≤ p.x) l
    → available (size + 1) l + length l * size ≡ sum_x l
unfolding available sum_x
available_all size [] a = omega arith
available_all size (p ∷ l) a =
    rw (le→leb (size + 1) p.x a.0) (omega (arith, a.0, available_all size l a.1))

pub available_none :
    (size : ℕ) (l : List RangePair) → All (λ p. p.x < size) l → available size l ≡ 0
unfolding available
available_none size [] a = refl
available_none size (p ∷ l) a = ground (arith, available_none size l a.1)

-- The fields of an entry are the sum and the count over its subtree.
abbrev pub Caches : AslrEntry → Type 0
Caches null = Unit
Caches (node e0 t h f e1) =
    (f.x_total ≡ sum_x (to_list (node e0 t h f e1)))
    × (f.num_children ≡ length (to_list (node e0 t h f e1)))

-- What `invcache` adds for a child is the sum and the count over the child's subtree.
add_child-sum :
    (f : AslrFields) (e : AslrEntry)
    → Caches e
    → f.x_total + sum_x (to_list e) < 2 ^ 64
    → ((add_child f (get_extra e)).x_total ≡ f.x_total + sum_x (to_list e))
      × ((add_child f (get_extra e)).num_children ≡ f.num_children + length (to_list e))
unfolding sum_x
add_child-sum f null a b = (omega arith, omega arith)
add_child-sum f (node e0 t h x e1) a b = (omega arith, omega arith)

-- In a valid tree whose lengths add up to less than `2 ^ 64`, the caches of an entry are the sum
-- of the lengths and the number of the ranges in its subtree.
pub IsAvl-Caches : (e : AslrEntry) → IsAvl e → sum_x (to_list e) < 2 ^ 64 → Caches e
unfolding sum_x
IsAvl-Caches null a b = tt
IsAvl-Caches (node e0 t h x e1) a b =
    let own : AslrFields = record { x_total = t.x; num_children = 1 } in
    let both = sum_x-append (to_list e0) (t ∷ to_list e1) in
    let count = length-append (to_list e0) (t ∷ to_list e1) in
    let l = add_child-sum own e0 (IsAvl-Caches e0 a.0 (omega arith)) (omega arith) in
    let r =
      add_child-sum (add_child own (get_extra e0)) e1 (IsAvl-Caches e1 a.1 (omega arith))
        (omega arith) in
    let x_total : x.x_total ≡ t.x + sum_x (to_list e0) + sum_x (to_list e1) =
      ap (λ (g : AslrFields). g.x_total) a.4 ∙ omega (arith, l.0, r.0) in
    let num : x.num_children ≡ 1 + length (to_list e0) + length (to_list e1) =
      ap (λ (g : AslrFields). g.num_children) a.4 ∙ omega (arith, l.1, r.1) in
    (omega (arith, x_total), omega (arith, num))

sub64_product :
    (n size s a : ℕ)
    → size < 2 ^ 64
    → a + n * size ≡ s
    → s < 2 ^ 64
    → sub64 s (mul64 n (sub64 (size + 1) 1)) ≡ a
sub64_product n size s a small e b =
    let less : sub64 (size + 1) 1 ≡ size = omega arith in rw less (omega arith)

pub suitable_total-available :
    (e : AslrEntry) (size : ℕ)
    → IsAvl e
    → sum_x (to_list e) < 2 ^ 64
    → All (λ p. size + 1 ≤ p.x) (to_list e)
    → suitable_total e (size + 1) ≡ available (size + 1) (to_list e)
unfolding available sum_x
suitable_total-available null size a b all = refl
suitable_total-available (node e0 t h f e1) size a b all =
    let s = IsAvl-Caches (node e0 t h f e1) a b in
    let p = available_all size (to_list (node e0 t h f e1)) all in
    let own = (All-append_right (λ p. size + 1 ≤ p.x) (to_list e0) (t ∷ to_list e1) all).0 in
    let both = sum_x-append (to_list e0) (t ∷ to_list e1) in
    rw (s.0, s.1)
      (sub64_product (length (to_list (node e0 t h f e1))) size (sum_x (to_list (node e0 t h f e1)))
        (available (size + 1) (to_list (node e0 t h f e1))) (omega arith) p b)

pub available-nil : (size : ℕ) → available size [] ≡ 0
unfolding available
available-nil size = refl

pub available-cons_long :
    (size : ℕ) (p : RangePair) (l : List RangePair)
    → size + 1 ≤ p.x
    → available (size + 1) (p ∷ l) ≡ p.x - size + available (size + 1) l
unfolding available
available-cons_long size p l long = rw (le→leb (size + 1) p.x long) (omega arith)

pub available-cons_short :
    (size : ℕ) (p : RangePair) (l : List RangePair)
    → p.x < size
    → available size (p ∷ l) ≡ available size l
unfolding available
available-cons_short size p l short = ground arith

pub available-le-sum_x : (size : ℕ) (l : List RangePair) → available (size + 1) l ≤ sum_x l
unfolding available sum_x
available-le-sum_x size [] = omega arith
available-le-sum_x size (p ∷ l) = ground (arith, available-le-sum_x size l)
