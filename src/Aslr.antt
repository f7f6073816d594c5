-- ===== src/Aslr.antt =====
-- bootloader/memory/AslrTree: the tree of free ranges, ordered by length, from which a range is
-- chosen at random. A range pair of this tree has the length in `x` and the start in `y`.
pub mod Caches
pub mod Nth
pub mod Random
use Prim.Native.Nat.{bit_xor}
use cerius.Base.{
  ℕ, zero, suc, ◌+◌, ◌*◌, ◌/◌, ◌%◌, ◌^◌, ◌≡◌, refl, Bool, true, false, Option, none, some, Result,
  ok, fault, Fault, kassert, ◌>>=◌, ◌>>◌, ltb, leb, ◌==◌, not, if◌then◌else◌, add64, sub64, mul64,
}
use cerius.Range.{RangePair}
use cerius.Avl.{AvlEntry, EntryClass, null, node, get_extra}

-- The fields that `AslrEntry` adds. `num_children` is an `int` that counts the entries.
pub record AslrFields : Type 0 where
  pub x_total : ℕ
  pub num_children : ℕ

-- One step `xTotal += child->xTotal; numChildren += child->numChildren;` of `invcache`
abbrev pub add_child : AslrFields → Option AslrFields → AslrFields
add_child f none = f
add_child f (some child) = record {
  x_total = add64 f.x_total child.x_total;
  num_children = f.num_children + child.num_children;
}

-- `AslrEntry::AslrEntry`
abbrev pub aslr_construct : RangePair → AslrFields
aslr_construct p = record { x_total = p.x; num_children = 1 }

-- `AslrEntry::invcache`, without the height
abbrev pub aslr_invcache : RangePair → Option AslrFields → Option AslrFields → AslrFields
aslr_invcache t l r = add_child (add_child (record { x_total = t.x; num_children = 1 }) l) r

instance abbrev pub aslr_entry : EntryClass RangePair AslrFields
aslr_entry = record {
  construct = aslr_construct;
  invcache = aslr_invcache;
  construct-invcache = λ t. refl;
}

abbrev pub AslrEntry : Type 0
AslrEntry = AvlEntry RangePair AslrFields

-- `rdrand_raw`: the next seed, the number drawn, and `true`
pub rdrand_raw : ℕ → ℕ × ℕ × Bool
rdrand_raw seed =
    let a = bit_xor seed (seed / 2 ^ 5) in
    let b = bit_xor a (mul64 a (2 ^ 5)) in let c = add64 b 0x1039847572921348 in (c, c, true)

-- The loop of `rdrand`, with the rounds left: the next seed and the number
rdrand_loop : ℕ → ℕ → ℕ × ℕ
rdrand_loop zero seed = (seed, 0)
rdrand_loop (suc rounds) seed =
    let (seed', r, done) = rdrand_raw seed in
    let again = rdrand_loop rounds seed' in if done then (seed', r) else again

pub rdrand : ℕ → ℕ × ℕ
unfolding rdrand_raw rdrand_loop
rdrand seed = rdrand_loop 10 seed

-- `xTotal - numChildren*(size-1)`, or 0 where there is no child
abbrev pub suitable_total : AslrEntry → ℕ → ℕ
suitable_total e size = elim (get_extra e) [
  | none ↦ 0
  | some f ↦ sub64 f.x_total (mul64 f.num_children (sub64 size 1))
]

-- `findNThSuitableByteInSubtree`: `start` and `super`. `n` is an `int64_t`, here its bit pattern;
-- a pattern below `2 ^ 63` stands for a number that is not negative.
pub find_nth : AslrEntry → ℕ → ℕ → Result (ℕ × RangePair)
find_nth null n size = do kassert (ltb n (2 ^ 63)); kassert false; fault Fault.null_pointer
find_nth (node e0 t height f e1) n size = do
  kassert (ltb n (2 ^ 63))
  kassert (ltb n f.x_total)
  kassert (leb size t.x)
  let left_suitable_x_total = suitable_total e0 size
  kassert (ltb left_suitable_x_total (2 ^ 63))
  let this_suitable_x = add64 (sub64 t.x size) 1
  let left = find_nth e0 (sub64 n this_suitable_x) size
  let right = find_nth e1 (sub64 n (add64 this_suitable_x left_suitable_x_total)) size
  if ltb n this_suitable_x
      then ok (add64 t.y n, t)
      else (if ltb n (add64 this_suitable_x left_suitable_x_total) then left else right)

-- The output parameters of `findRandomRange`
pub record Chosen : Type 0 where
  pub start : ℕ
  pub among : ℕ
  pub super : RangePair

abbrev pub left_among : Option Chosen → ℕ
left_among none = 0
left_among (some c) = c.among

-- The end of `findRandomRange`, where `rnd` has been drawn: the choice from the left subtree, from
-- this range, or from the right subtree.
choose : Option Chosen → RangePair → AslrEntry → (size this_among tot rnd : ℕ) → Result Chosen
choose left t e1 size this_among tot rnd =
    let from_right = (do
      (start, super) ← find_nth e1 (sub64 (sub64 rnd (left_among left)) this_among) size
      ok (record { start = start; among = tot; super = super })) in
    if ltb rnd (left_among left)
    then elim left [
      | none ↦ fault Fault.uninitialised
      | some c ↦ ok (record { start = c.start; among = tot; super = c.super })
    ]
    else (if ltb rnd (add64 (left_among left) this_among)
        then ok (record { start = sub64 (add64 t.y rnd) (left_among left); among = tot; super = t })
        else from_right)

-- `AslrEntry::findRandomRange`, on the seed of the generator: `none` stands for `false`. The
-- clause for the null pointer is the test of the callers, `AslrTree::findRandomRange` among them.
pub find_random_range : AslrEntry → ℕ → ℕ → Result (Option Chosen × ℕ)
find_random_range null size seed = ok (none, seed)
find_random_range (node e0 t height f e1) size seed = elim (ltb t.x size) [
  | true ↦ find_random_range e1 size seed
  | false ↦ (do
    let this_among = add64 (sub64 t.x size) 1
    (left, seed') ← find_random_range e0 size seed
    let tot = add64 (add64 this_among (left_among left)) (suitable_total e1 size)
    let (seed'', r) = rdrand seed'
    (if tot == 0 then fault Fault.division else ok tt)
    chosen ← choose left t e1 size this_among tot (r % tot)
    ok (some chosen, seed''))
]
