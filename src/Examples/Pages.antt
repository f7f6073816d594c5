-- ===== src/Examples/Pages.antt =====
-- Page tables for bootloader/memory/Pager: a root and one table, whose entry of 1 GiB maps low memory.
use cerius.Base.{
  ℕ, suc, ◌+◌, ◌*◌, ◌%◌, ◌^◌, ◌<◌, ◌≡◌, ◌≢◌, inl, inr, ◌∙◌, sym, ap, refl, subst, arith, none, some,
  Bool-cases, List, [], ◌∷◌, Result, ok, fault, Fault, Returns, ◌==◌, ==→≡, ==→≢, ≢→==, ≡→==, ltb,
  true, false, if◌then◌else◌,
}
use cerius.Pager.{
  PageTreeNode, Nodes, Paging, pagein, walk, lintophy, is_present, is_large, index, page_address,
  check_large,
}
use cerius.Pager.Blocks.{block}
use cerius.Pager.Leaf.{leaf, leaf_missing, Place, IsTree, one_table, none≢some}
use cerius.Pager.Moved.{Invariant, Usable, IsEmpty}
use cerius.Pager.Steps.{sum_from}
use cerius.Pager.Children.{tables, IsRequest}
use cerius.Pager.Mapped.{IsMapped, pagein-IsMapped}
use cerius.Pageout.{pageout}
use cerius.Pageout.Removal.{IsPaged}
use cerius.Pageout.Unmapped.{IsUnmapped, pageout-IsUnmapped}

abbrev take_first : List ℕ → Result (List ℕ × ℕ)
take_first [] = fault Fault.null_pointer
take_first (n ∷ ns) = ok (ns, n)

abbrev no_settle : Paging (List ℕ) → Result (Paging (List ℕ))
no_settle s = ok s

abbrev root_table : PageTreeNode
root_table = record { phy = λ i. if i == 0 then 0x3003 else 0; lin = λ i. 0x3000 }

abbrev low_table : PageTreeNode
low_table = record { phy = λ i. if i == 0 then 0x83 else 0; lin = λ i. 0 }

abbrev two_tables : Nodes
two_tables a = if a == 0x1000 then root_table else low_table

abbrev places : Place
places a = if a == 0x1000 then some (3, 0) else if a == 0x3000 then some (2, 0) else none

abbrev spare : List ℕ
spare = 0x6000 ∷ 0x8000 ∷ 0xa000 ∷ []

abbrev paging : Paging (List ℕ)
paging = record { nodes = two_tables; pml4 = 0x1000; reserve = spare; lock_cnt = 1 }

abbrev from : ℕ
from = 2 ^ 39

clash : ¬ (true ≡ false)
clash e = cc e

-- Beyond entry 0 the tables are empty.
no_more : (a i : ℕ) → i ≢ 0 → is_present ((two_tables a).phy i) ≡ false
no_more a i ne = elim (Bool-cases (a == 0x1000)) [
  | inl root ↦ rw (root, ≢→== i 0 ne) refl
  | inr other ↦ rw (other, ≢→== i 0 ne) refl
]

first_entry :
    (a h q : ℕ)
    → places a ≡ some (suc h, q)
    → is_large ((two_tables a).phy 0) ≡ false
    → places ((two_tables a).lin 0) ≡ some (h, 512 * q + 0)
first_entry a h q on small = elim (Bool-cases (a == 0x1000)) [
  | inl root ↦
      let one =
        one_table places 0x1000 (suc h) q 3 0 (ap places (sym (==→≡ a 0x1000 root)) ∙ on) refl in
      let up : h ≡ 2 = omega (arith, one.0) in
      let here : 512 * q + 0 ≡ 0 = omega (arith, one.1) in rw (root, up, here) refl
  | inr other ↦
      let large : is_large ((two_tables a).phy 0) ≡ true = rw other refl in
      absurd (clash (sym large ∙ small))
]

two_tables-IsTree : IsTree places two_tables
two_tables-IsTree = record {
  edge = λ a h q i on few present small. elim (Bool-cases (i == 0)) [
    | inr later ↦ absurd (clash (sym present ∙ no_more a i (==→≢ i 0 later)))
    | inl first ↦
        let e = ==→≡ i 0 first in
        rw e (first_entry a h q on (subst (λ i. is_large ((two_tables a).phy i) ≡ false) e small))
  ];
}

usable :
    (n : ℕ)
    → places n ≡ none
    → n < 2 ^ 21
    → n % 4096 ≡ 0
    → 0 < n
    → Usable take_first from (from + 8192) places paging n
unfolding lintophy walk page_address check_large
usable n free low page some' = record {
  fresh = free;
  low = omega arith;
  outside = inl (omega arith);
  frame = n;
  mapped =
      rw (≡→== (index 3 n) 0 (omega arith), ≡→== (index 2 n) 0 (omega arith)) (ap ok (omega arith));
  present = omega arith;
  aligned = page;
}

paging-Invariant : Invariant take_first from (from + 8192) places paging spare
paging-Invariant = record {
  tree = two_tables-IsTree;
  root = refl;
  locked = omega arith;
  gives = (_, refl, (_, refl, (_, refl, tt)));
  distinct = ((omega arith, (omega arith, tt)), ((omega arith, tt), (tt, tt)));
  usable = (
    usable 0x6000 refl (omega arith) refl (omega arith),
    (
      usable 0x8000 refl (omega arith) refl (omega arith),
      (usable 0xa000 refl (omega arith) refl (omega arith), tt),
    ),
  );
}

request : IsRequest 0x200000 from 8192 4
request = record {
  some_page = omega arith;
  range = omega arith;
  phy_range = omega arith;
  few = omega arith;
  aligned = refl;
  whole = refl;
  pages = refl;
  is_prefs = (omega arith, omega arith);
}

paging-IsEmpty : IsEmpty take_first from (from + 8192) 3 0 512 0x1000 paging
paging-IsEmpty p low above below lo hi =
    let second : index 3 p ≡ 1 = omega arith in leaf_missing two_tables 0x1000 p 3 (rw second refl)

three_tables : tables 3 from (from + 8192) 0 ≡ 3
unfolding tables sum_from block
three_tables = refl

pagein_example :
    Returns
      (IsMapped take_first 0x200000 from 8192 (tables 3 from (from + 8192) 0) spare paging)
      (pagein take_first no_settle 0x200000 from 8192 4 paging)
pagein_example =
    pagein-IsMapped take_first no_settle 0x200000 from 8192 4 request places paging spare
      paging-Invariant paging-IsEmpty (omega (arith, three_tables))

-- A root, two tables and a table of two pages, at 0x200000 and 0x201000
abbrev next_table : ℕ → ℕ
next_table a = if a == 0x1000 then 0x3000 else if a == 0x3000 then 0x5000 else 0x7000

abbrev two_pages : Nodes
two_pages a =
    if a == 0x7000
    then record { phy = λ i. if ltb i 2 then 0x200003 + i * 4096 else 0; lin = λ i. 0 }
    else record { phy = λ i. if i == 0 then next_table a + 3 else 0; lin = λ i. next_table a }

abbrev page_places : Place
page_places a =
    if a == 0x1000
    then some (3, 0)
    else if a == 0x3000
    then some (2, 0)
    else if a == 0x5000
    then some (1, 0)
    else if a == 0x7000
    then some (0, 0)
    else none

abbrev page_paging : Paging (List ℕ)
page_paging = record { nodes = two_pages; pml4 = 0x1000; reserve = []; lock_cnt = 1 }

abbrev put_first : List ℕ → ℕ → Result (List ℕ)
put_first ns n = ok (n ∷ ns)

chain_edge :
    (a h q : ℕ)
    → page_places a ≡ some (suc h, q)
    → (a ≢ 0x7000) × (page_places (next_table a) ≡ some (h, 512 * q + 0))
chain_edge a h q on = elim (Bool-cases (a == 0x1000)) [
  | inl top ↦
      let one =
        one_table page_places 0x1000 (suc h) q 3 0 (ap page_places (sym (==→≡ a 0x1000 top)) ∙ on)
          refl in
      let up : h ≡ 2 = omega (arith, one.0) in
      let here : 512 * q + 0 ≡ 0 = omega (arith, one.1) in
      (omega (arith, ==→≡ a 0x1000 top), rw (top, up, here) refl)
  | inr not1 ↦ elim (Bool-cases (a == 0x3000)) [
    | inl second ↦
        let one =
          one_table page_places 0x3000 (suc h) q 2 0
            (ap page_places (sym (==→≡ a 0x3000 second)) ∙ on) refl in
        let up : h ≡ 1 = omega (arith, one.0) in
        let here : 512 * q + 0 ≡ 0 = omega (arith, one.1) in
        (omega (arith, ==→≡ a 0x3000 second), rw (not1, second, up, here) refl)
    | inr not2 ↦ elim (Bool-cases (a == 0x5000)) [
      | inl third ↦
          let one =
            one_table page_places 0x5000 (suc h) q 1 0
              (ap page_places (sym (==→≡ a 0x5000 third)) ∙ on) refl in
          let up : h ≡ 0 = omega (arith, one.0) in
          let here : 512 * q + 0 ≡ 0 = omega (arith, one.1) in
          (omega (arith, ==→≡ a 0x5000 third), rw (not1, not2, up, here) refl)
      | inr not3 ↦ absurd (chain_end a h q not1 not2 not3 on)
    ]
  ]
]
  where
    chain_end :
        (a h q : ℕ)
        → (a == 0x1000) ≡ false
        → (a == 0x3000) ≡ false
        → (a == 0x5000) ≡ false
        → ¬ (page_places a ≡ some (suc h, q))
    chain_end a h q n1 n2 n3 on = elim (Bool-cases (a == 0x7000)) [
      | inl last ↦
          let one =
            one_table page_places 0x7000 (suc h) q 0 0
              (ap page_places (sym (==→≡ a 0x7000 last)) ∙ on) refl in
          absurd (omega (arith, one.0))
      | inr n4 ↦
          let nothing : page_places a ≡ none = rw (n1, n2, n3, n4) refl in
          absurd (none≢some (sym nothing ∙ on))
    ]

two_pages-IsTree : IsTree page_places two_pages
two_pages-IsTree = record {
  edge = λ a h q i on few present small.
      let link = chain_edge a h q on in
      let chain = ≢→== a 0x7000 link.0 in
      elim (Bool-cases (i == 0)) [
        | inl first ↦ rw (chain, ==→≡ i 0 first) link.1
        | inr later ↦
            let off : is_present ((two_pages a).phy i) ≡ false = rw (chain, later) refl in
            absurd (clash (sym present ∙ off))
      ];
}

second_page : IsPaged take_first 4096 8192 page_places 3 0 512 0x1000 page_paging
unfolding leaf
second_page p low above below lo hi =
    let a : index 3 p ≡ 0 = omega arith in
    let b : index 2 p ≡ 0 = omega arith in
    let c : index 1 p ≡ 0 = omega arith in
    let d : index 0 p ≡ 1 = omega arith in (0x201003, rw (a, b, c, d) refl)

pageout_example :
    Returns
      (IsUnmapped 4096 4096 page_places page_paging)
      (pageout take_first put_first no_settle no_settle 4096 4096 page_paging)
pageout_example =
    pageout-IsUnmapped take_first put_first no_settle no_settle 4096 4096
      (record {
        some_page = omega arith;
        range = omega arith;
        few = omega arith;
        aligned = refl;
        whole = refl;
      })
      page_places (λ r node h q on. (node ∷ r, refl)) page_paging two_pages-IsTree refl
      (omega arith) second_page
