-- ===== src/Initializer/Faults.antt =====
-- Where `PartitionRange` and the page bounds do not do what they are for.
use cerius.Base.{
  ℕ, ◌%◌, ◌≤◌, ◌<◌, ◌^◌, ◌≡◌, ◌≢◌, ◌⊎◌, refl, ap, subst, arith, inl, inr, Bool-cases, List, [], ◌∷◌,
  All, Result, ok, fault, Fault, ◌>>=◌, ltb, ltb→lt, ltb→ge, leb, ≢→==, if◌then◌else◌, max, min,
  add64, sub64, Option, none, some,
}
use cerius.Initializer.{MmiRange, partition_range, page_bounds}

-- No forbidden range holds the address.
abbrev pub IsAllowed : List MmiRange → ℕ → Type 0
IsAllowed forbids a = All (λ f. (a < f.s) ⊎ (f.e ≤ a)) forbids

-- A part of the range that is not empty and that no forbidden range touches
pub record IsPart (forbids : List MmiRange) (range part : MmiRange) : Type 0 where
  pub some_address : part.s < part.e
  pub from : range.s ≤ part.s
  pub until : part.e ≤ range.e
  pub apart : All (λ f. (part.e ≤ f.s) ⊎ (f.e ≤ part.s)) forbids

bind_fault {ℓ} :
    {S : Type ℓ} (r : Result S) (e : Fault) (k : S → Result S)
    → ((r >>= λ s. fault e) >>= k) ≡ (r >>= λ s. fault e)
bind_fault (ok s) e k = refl
bind_fault (fault e') e k = refl

module _ {ℓ} {S : Type ℓ} (callback : MmiRange → S → Result S) where
  -- The two ways in which `PartitionRange` ends
  pub data PartitionAnswer (forbids : List MmiRange) (range : MmiRange) (state : S)
      : Result S → Type ℓ where
    nothing :
        ((a : ℕ) → range.s ≤ a → a < range.e → ¬ IsAllowed forbids a)
        → PartitionAnswer forbids range state (ok state)
    first :
        (part : MmiRange)
        → IsPart forbids range part
        → PartitionAnswer forbids range state
            (callback part state >>= λ state'. fault Fault.out_of_bounds)

  -- The part of the range below the next forbidden one, followed by the rest of the function
  before-PartitionAnswer :
      (f : MmiRange) (fs : List MmiRange) (range : MmiRange) (state : S) {r : Result S}
      (k : S → Result S)
      → range.s < f.s
      → PartitionAnswer fs (record { s = range.s; e = min range.e f.s }) state r
      → (((a : ℕ) → range.s ≤ a → a < range.e → a < f.s → ¬ IsAllowed fs a)
          → PartitionAnswer (f ∷ fs) range state (k state))
      → PartitionAnswer (f ∷ fs) range state (r >>= k)
  before-PartitionAnswer f fs range state k below (nothing none') rest =
      rest λ a from until under. none' a from (omega arith)
  before-PartitionAnswer f fs range state k below (first part p) rest =
      rw (bind_fault (callback part state) Fault.out_of_bounds k) (
        first part (record {
          some_address = p.some_address;
          from = p.from;
          until = omega (arith, p.until);
          apart = (inl (omega (arith, p.until)), p.apart);
        }))

  -- The part of the range behind the next forbidden one, where the part below it has no allowed address
  behind-PartitionAnswer :
      (f : MmiRange) (fs : List MmiRange) (range : MmiRange) (state : S) {r : Result S}
      → ((a : ℕ) → range.s ≤ a → a < range.e → a < f.s → ¬ IsAllowed fs a)
      → PartitionAnswer fs (record { s = max range.s f.e; e = range.e }) state r
      → PartitionAnswer (f ∷ fs) range state r
  behind-PartitionAnswer f fs range state below (nothing none') = nothing λ a from until allowed.
      elim allowed.0 [
        | inl under ↦ below a from until under allowed.1
        | inr over ↦ none' a (omega arith) until allowed.1
      ]
  behind-PartitionAnswer f fs range state below (first part p) = first part (record {
    some_address = p.some_address;
    from = omega (arith, p.from);
    until = p.until;
    apart = (inr (omega (arith, p.from)), p.apart);
  })

  -- Of a range that is not empty, with any forbidden ranges and any callback: if no address of the range
  -- is allowed, `PartitionRange` ends and has not called the callback. Otherwise it calls the callback
  -- once, on a part of the range that is not empty and that no forbidden range touches, and then, if
  -- the callback returns, it reads beyond the array of forbidden ranges: no second part is ever reached.
  pub partition_range-PartitionAnswer :
      (forbids : List MmiRange) (range : MmiRange) (state : S)
      → range.s < range.e
      → PartitionAnswer forbids range state (partition_range callback forbids range state)
  unfolding partition_range
  partition_range-PartitionAnswer [] range state some' =
      first range
        (record { some_address = some'; from = omega arith; until = omega arith; apart = tt })
  partition_range-PartitionAnswer (f ∷ fs) range state some' =
      let rest : MmiRange = record { s = max range.s f.e; e = range.e } in
      let k : S → Result S =
        λ s. if ltb f.e range.e then partition_range callback fs rest s else ok s in
      let behind : ((a : ℕ) → range.s ≤ a → a < range.e → a < f.s → ¬ IsAllowed fs a)
          → PartitionAnswer (f ∷ fs) range state (k state) =
        λ below. elim (Bool-cases (ltb f.e range.e)) [
          | inl on ↦
              let more = ltb→lt f.e range.e on in
              rw on (
                behind-PartitionAnswer f fs range state below
                  (partition_range-PartitionAnswer fs rest state (omega arith)))
          | inr off ↦
              let end = ltb→ge f.e range.e off in
              rw off (
                nothing λ a from until allowed. elim allowed.0 [
                  | inl under ↦ below a from until under allowed.1
                  | inr over ↦ absurd (omega arith)
                ])
        ] in
      elim (Bool-cases (ltb range.s f.s)) [
        | inl on ↦
            let below = ltb→lt range.s f.s on in
            rw on (
              before-PartitionAnswer f fs range state k below
                (partition_range-PartitionAnswer fs (record { s = range.s; e = min range.e f.s })
                  state (omega arith))
                behind)
        | inr off ↦
            let over = ltb→ge range.s f.s off in
            rw off (behind λ a from until under. absurd (omega arith))
      ]

-- A base below 2 ^ 63 that is not a multiple of the page size is not one afterwards either:
-- where the range is kept, its bounds start as far from a page as the range of the memory map
-- did.
pub page_bounds-unaligned :
    (base size : ℕ) (range : MmiRange)
    → base < 2 ^ 63
    → base % 4096 ≢ 0
    → page_bounds base size ≡ some range
    → range.s % 4096 ≡ base % 4096
unfolding page_bounds
page_bounds-unaligned base size range small odd is =
    let start = add64 base (sub64 base (base % 4096)) in
    let end = sub64 (add64 base size) (add64 base size % 4096) in
    let known : (if leb end start then none else some (record { s = start; e = end }))
        ≡ some range =
      rw (≢→== (base % 4096) 0 odd) at is in
    elim (Bool-cases (leb end start)) [
      | inl empty ↦ absurd (none-some range (rw empty at known))
      | inr some' ↦
          let same : start ≡ range.s = ap (start_or start) (rw some' at known) in
          subst (λ n. n % 4096 ≡ base % 4096) same (omega arith)
    ]
  where
    start_or : ℕ → Option MmiRange → ℕ
    start_or n none = n
    start_or n (some r) = r.s

    is_some : Option MmiRange → ℕ
    is_some none = 0
    is_some (some r) = 1

    none-some : (r : MmiRange) → ¬ (none ≡ some r)
    none-some r e = absurd (omega (arith, ap is_some e))
