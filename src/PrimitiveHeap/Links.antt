-- ===== src/PrimitiveHeap/Links.antt =====
-- The doubly linked lists of chunks: `addChunkToLL` and `removeChunkFromLL`.
use cerius.Base.{
  IsDistinct, ℕ, ◌<◌, ◌≡◌, ◌≢◌, refl, sym, arith, Bool-cases, inl, inr, Returns, returns, ◌==◌,
  ==→≡, ≡→==, ≢→==, List, [], ◌∷◌, All, ap, ◌∙◌,
}
use cerius.PrimitiveHeap.{PrimitiveHeapChunk, Chunks, write, add_chunk_to_ll}

-- From `root` on, the chunks of the list are linked by `next`, and `prev` leads back, to `back` at
-- the first one.
abbrev pub IsLinked : Chunks → (back root : ℕ) → List ℕ → Type 0
IsLinked m back root [] = root ≡ 0
IsLinked m back root (a ∷ l) =
    (root ≡ a) × (0 < a) × ((m a).prev ≡ back) × IsLinked m a (m a).next l

-- Only links have changed.
abbrev pub SameContents : Chunks → Chunks → Type 0
SameContents m m' =
    (a : ℕ) → ((m' a).numavailableentry ≡ (m a).numavailableentry) × ((m' a).bm ≡ (m a).bm)

pub write_here : (m : Chunks) (p : ℕ) (c : PrimitiveHeapChunk) → write m p c p ≡ c
write_here m p c = rw (≡→== p p refl) refl

pub write_else : (m : Chunks) (p : ℕ) (c : PrimitiveHeapChunk) (q : ℕ) → q ≢ p → write m p c q ≡ m q
write_else m p c q ne = rw (≢→== q p ne) refl

-- A list is linked in any memory that has the same chunks on it.
pub IsLinked-same :
    (m m' : Chunks) (back root : ℕ) (l : List ℕ)
    → All (λ a. m' a ≡ m a) l
    → IsLinked m back root l
    → IsLinked m' back root l
IsLinked-same m m' back root [] same h = h
IsLinked-same m m' back root (a ∷ l) same (is, pos, prev, rest) = (
  is,
  pos,
  ap (λ (c : PrimitiveHeapChunk). c.prev) same.0 ∙ prev,
  IsLinked-same m m' a (m' a).next l same.1 (rw same.0 rest),
)

pub write-SameContents :
    (m : Chunks) (p : ℕ) (c : PrimitiveHeapChunk)
    → c.numavailableentry ≡ (m p).numavailableentry
    → c.bm ≡ (m p).bm
    → SameContents m (write m p c)
write-SameContents m p c num bm a = elim (Bool-cases (a == p)) [
  | inl here ↦ let is : a ≡ p = ==→≡ a p here in rw (here, is) (num, bm)
  | inr else' ↦ rw else' (refl, refl)
]

pub SameContents-trans :
    (m m' m'' : Chunks) → SameContents m m' → SameContents m' m'' → SameContents m m''
SameContents-trans m m' m'' h h' a = ((h' a).0 ∙ (h a).0, (h' a).1 ∙ (h a).1)

-- A write at a place that is not in the list changes no chunk of it.
pub write-All :
    (m : Chunks) (p : ℕ) (c : PrimitiveHeapChunk) (l : List ℕ)
    → All (λ a. a ≢ p) l
    → All (λ a. write m p c a ≡ m a) l
write-All m p c [] away = tt
write-All m p c (a ∷ l) away = (write_else m p c a away.0, write-All m p c l away.1)

-- The first chunk's `prev` is written.
pub relink_head :
    (m : Chunks) (back back' r : ℕ) (l : List ℕ)
    → IsDistinct (r ∷ l)
    → IsLinked m back r (r ∷ l)
    → IsLinked (write m r (record (m r) { prev = back' })) back' r (r ∷ l)
relink_head m back back' r l distinct (is, pos, prev, rest) =
    let c : PrimitiveHeapChunk = record (m r) { prev = back' } in
    let here = write_here m r c in
    (
      refl,
      pos,
      ap (λ (d : PrimitiveHeapChunk). d.prev) here,
      IsLinked-same m (write m r c) r (write m r c r).next l (write-All m r c l distinct.0)
          (rw here rest),
    )

add_before :
    (m : Chunks) (c r : ℕ) (l : List ℕ)
    → 0 < c
    → All (λ a. a ≢ c) (r ∷ l)
    → IsDistinct (r ∷ l)
    → IsLinked m 0 r (r ∷ l)
    → Returns
        (λ (m', root'). IsLinked m' 0 root' (c ∷ r ∷ l) × SameContents m m')
        (add_chunk_to_ll m c r)
unfolding add_chunk_to_ll
add_before m c r l pos away distinct linked =
    let new : PrimitiveHeapChunk = record (m c) { prev = 0; next = r } in
    let m1 = write m c new in
    let old = IsLinked-same m m1 0 r (r ∷ l) (write-All m c new (r ∷ l) away) linked in
    let back : PrimitiveHeapChunk = record (m1 r) { prev = c } in
    let m2 = write m1 r back in
    let head = relink_head m1 0 c r l distinct old in
    let at_c : m2 c ≡ new = write_else m1 r back c (λ e. away.0 (sym e)) ∙ write_here m c new in
    rw (≢→== r 0 (omega (arith, linked.1)), ≡→== (m1 r).prev 0 old.2)
      (returns (
        (
          refl,
          pos,
          ap (λ (d : PrimitiveHeapChunk). d.prev) at_c,
          rw (ap (λ (d : PrimitiveHeapChunk). d.next) at_c) head,
        ),
        SameContents-trans m m1 m2 (write-SameContents m c new refl refl)
            (write-SameContents m1 r back refl refl),
      ))

-- Putting a chunk that is not in a list before it makes a linked list with the chunk in front; no
-- assertion fails and only links change.
pub add_chunk_to_ll-IsLinked :
    (m : Chunks) (c root : ℕ) (l : List ℕ)
    → 0 < c
    → All (λ a. a ≢ c) l
    → IsDistinct l
    → IsLinked m 0 root l
    → Returns
        (λ (m', root'). IsLinked m' 0 root' (c ∷ l) × SameContents m m')
        (add_chunk_to_ll m c root)
unfolding add_chunk_to_ll
add_chunk_to_ll-IsLinked m c root [] pos away distinct none' =
    let new : PrimitiveHeapChunk = record (m c) { prev = 0; next = root } in
    let here = write_here m c new in
    rw (≡→== root 0 none') (
      returns (
        (
          refl,
          pos,
          ap (λ (d : PrimitiveHeapChunk). d.prev) here,
          ap (λ (d : PrimitiveHeapChunk). d.next) here ∙ none',
        ),
        write-SameContents m c new refl refl,
      ))
add_chunk_to_ll-IsLinked m c root (r ∷ l) pos away distinct linked =
    rw linked.0 (add_before m c r l pos away distinct (rw linked.0 at linked))
