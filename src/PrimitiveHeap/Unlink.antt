-- ===== src/PrimitiveHeap/Unlink.antt =====
-- `PrimitiveHeap::removeChunkFromLL` takes a chunk out of its list, wherever it stands.
use cerius.Base.{
  IsDistinct, ℕ, ◌<◌, ◌≡◌, ◌≢◌, refl, sym, arith, ◌⊎◌, inl, inr, Returns, returns, Result, ok, ◌==◌,
  ≡→==, ≢→==, List, [], ◌∷◌, ◌++◌, All, All-imp, All-append_right, append_assoc, ap, ◌∙◌,
  if◌then◌else◌,
}
use cerius.PrimitiveHeap.{PrimitiveHeapChunk, Chunks, write, unlink_before, remove_chunk_from_ll}
use cerius.PrimitiveHeap.Links.{
  IsLinked, SameContents, SameContents-trans, write-SameContents, write_here, write_else, write-All,
  IsLinked-same, relink_head,
}

-- The second half of the function: `next->prev = b`, if there is a next chunk.
back_link : Chunks → (b next root : ℕ) → Result (Chunks × ℕ)
back_link m b next root =
    if next == 0 then ok (m, root) else ok (write m next (record (m next) { prev = b }), root)

record BackLinked (m : Chunks) (b next root : ℕ) (l : List ℕ) (m' : Chunks) : Type 0 where
  run : back_link m b next root ≡ ok (m', root)
  linked : IsLinked m' b next l
  contents : SameContents m m'
  frame : (a : ℕ) → All (λ d. d ≢ a) l → m' a ≡ m a

back_link-BackLinked :
    (m : Chunks) (b c next root : ℕ) (l : List ℕ)
    → IsDistinct l
    → IsLinked m c next l
    → (m' : Chunks) × BackLinked m b next root l m'
unfolding back_link
back_link-BackLinked m b c next root [] distinct none' = (
  m,
  record {
    run = rw (≡→== next 0 none') refl;
    linked = none';
    contents = λ a. (refl, refl);
    frame = λ a away. refl;
  },
)
back_link-BackLinked m b c next root (d ∷ l) distinct linked =
    let is : next ≡ d = linked.0 in
    let new : PrimitiveHeapChunk = record (m d) { prev = b } in
    (
      write m d new,
      record {
        run = rw (is, ≢→== d 0 (omega (arith, linked.1))) refl;
        linked = rw is (relink_head m c b d l distinct (rw is at linked));
        contents = write-SameContents m d new refl refl;
        frame = λ a away. write_else m d new a (λ e. away.0 (sym e));
      },
    )

-- The chunk at which the list is cut, and its neighbours.
record Gap (m : Chunks) (b c : ℕ) (ys : List ℕ) : Type 0 where
  some_before : 0 < b
  some_here : 0 < c
  forth : (m b).next ≡ c
  back : (m c).prev ≡ b
  tail : IsLinked m c (m c).next ys

gap :
    (m : Chunks) (back root b c : ℕ) (xs ys : List ℕ)
    → IsLinked m back root (xs ++ (b ∷ c ∷ ys))
    → Gap m b c ys
gap m back root b c [] ys (is, pos, prev, (forth, pos', prev', rest)) = record {
  some_before = pos;
  some_here = pos';
  forth = forth;
  back = prev';
  tail = rest;
}
gap m back root b c (a ∷ xs) ys (is, pos, prev, rest) = gap m a (m a).next b c xs ys rest

-- The list without the chunk behind `b`, in a memory that has the same chunks before `b` and in
-- which `b` is followed by the rest.
join :
    (m m' : Chunks) (back root b c next : ℕ) (xs ys : List ℕ)
    → IsLinked m back root (xs ++ (b ∷ c ∷ ys))
    → All (λ a. m' a ≡ m a) xs
    → (m' b).prev ≡ (m b).prev
    → (m' b).next ≡ next
    → IsLinked m' b next ys
    → IsLinked m' back root (xs ++ (b ∷ ys))
join m m' back root b c next [] ys (is, pos, prev, rest) same ep en tail =
    (is, pos, ep ∙ prev, rw en tail)
join m m' back root b c next (a ∷ xs) ys (is, pos, prev, rest) same ep en tail = (
  is,
  pos,
  ap (λ (d : PrimitiveHeapChunk). d.prev) same.0 ∙ prev,
  rw same.0 (join m m' a (m a).next b c next xs ys rest same.1 ep en tail),
)

-- What of a list without repetitions stands apart from what.
record Apart (b c : ℕ) (xs ys : List ℕ) : Type 0 where
  other : c ≢ b
  b_tail : All (λ d. d ≢ b) ys
  c_tail : All (λ d. d ≢ c) ys
  tail : IsDistinct ys
  front : All (λ a. (a ≢ b) × All (λ d. d ≢ a) ys) xs

apart : (b c : ℕ) (xs ys : List ℕ) → IsDistinct (xs ++ (b ∷ c ∷ ys)) → Apart b c xs ys
apart b c [] ys d = record {
  other = d.0.0;
  b_tail = d.0.1;
  c_tail = d.1.0;
  tail = d.1.1;
  front = tt;
}
apart b c (a ∷ xs) ys d =
    let r = apart b c xs ys d.1 in
    let away = All-append_right (λ x. x ≢ a) xs (b ∷ c ∷ ys) d.0 in
    record {
      other = r.other;
      b_tail = r.b_tail;
      c_tail = r.c_tail;
      tail = r.tail;
      front = ((λ e. away.0 (sym e), away.1.1), r.front);
    }

-- The two cases: the chunk is the first one, or it stands behind another.
remove_first :
    (m : Chunks) (c : ℕ) (ys : List ℕ)
    → IsDistinct (c ∷ ys)
    → IsLinked m 0 c (c ∷ ys)
    → Returns
        (λ (m', root'). IsLinked m' 0 root' ys × SameContents m m')
        (remove_chunk_from_ll m c c)
unfolding remove_chunk_from_ll unlink_before back_link
remove_first m c ys distinct (is, pos, prev, rest) =
    let (m', l) = back_link-BackLinked m 0 c (m c).next (m c).next ys distinct.1 rest in
    rw (≡→== (m c).prev 0 prev, ≡→== c c refl, prev, l.run) (returns (l.linked, l.contents))

remove_behind :
    (m : Chunks) (root b c : ℕ) (xs ys : List ℕ)
    → IsDistinct (xs ++ (b ∷ c ∷ ys))
    → IsLinked m 0 root (xs ++ (b ∷ c ∷ ys))
    → Returns
        (λ (m', root'). IsLinked m' 0 root' (xs ++ (b ∷ ys)) × SameContents m m')
        (remove_chunk_from_ll m c root)
unfolding remove_chunk_from_ll unlink_before back_link
remove_behind m root b c xs ys distinct linked =
    let g = gap m 0 root b c xs ys linked in
    let d = apart b c xs ys distinct in
    let next = (m c).next in
    let new : PrimitiveHeapChunk = record (m b) { next = next } in
    let m1 = write m b new in
    let at_b : m1 b ≡ new = write_here m b new in
    let at_c : m1 c ≡ m c = write_else m b new c d.other in
    let rest = IsLinked-same m m1 c next ys (write-All m b new ys d.b_tail) g.tail in
    let (m2, l) = back_link-BackLinked m1 b c next root ys d.tail rest in
    let kept = l.frame b d.b_tail ∙ at_b in
    rw (g.back, ≢→== b 0 (omega (arith, g.some_before)), at_c, g.back, l.run)
      (returns (
        join m m2 0 root b c next xs ys linked
            (All-imp (λ a. (a ≢ b) × All (λ d. d ≢ a) ys) xs
              (λ a (ne, away). l.frame a away ∙ write_else m b new a ne) d.front)
            (ap (λ (k : PrimitiveHeapChunk). k.prev) kept)
            (ap (λ (k : PrimitiveHeapChunk). k.next) kept) l.linked,
        SameContents-trans m m1 m2 (write-SameContents m b new refl refl) l.contents,
      ))

-- A list is empty or has a last element.
last-cases : (l : List ℕ) → (l ≡ []) ⊎ ((front : List ℕ) × (b : ℕ) × (l ≡ front ++ (b ∷ [])))
last-cases [] = inl refl
last-cases (x ∷ l) = elim (last-cases l) [
  | inl none' ↦ inr ([], x, ap (λ r. x ∷ r) none')
  | inr (front, b, e) ↦ inr (x ∷ front, b, ap (λ r. x ∷ r) e)
]

-- From a linked list without repetitions that starts at the root, a chunk that stands anywhere in
-- it is taken out: no assertion fails, the other chunks are linked in the same order from the new
-- root on, and only links change.
pub remove_chunk_from_ll-IsLinked :
    (m : Chunks) (c root : ℕ) (xs ys : List ℕ)
    → IsDistinct (xs ++ (c ∷ ys))
    → IsLinked m 0 root (xs ++ (c ∷ ys))
    → Returns
        (λ (m', root'). IsLinked m' 0 root' (xs ++ ys) × SameContents m m')
        (remove_chunk_from_ll m c root)
remove_chunk_from_ll-IsLinked m c root xs ys distinct linked = elim (last-cases xs) [
  | inl e ↦
      let linked' : IsLinked m 0 root (c ∷ ys) = rw e at linked in
      rw (e, linked'.0) (remove_first m c ys (rw e at distinct) (rw linked'.0 at linked'))
  | inr (front, b, e) ↦
      rw (e, append_assoc)
        (remove_behind m root b c front ys (rw (e, append_assoc) at distinct)
          (rw (e, append_assoc) at linked))
]
