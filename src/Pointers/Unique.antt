-- ===== src/Pointers/Unique.antt =====
-- Whatever is done with `unique_ptr`s, no object is deleted twice or while a pointer holds it.
use cerius.Base.{
  IsDistinct, ℕ, ◌≡◌, ◌≢◌, ◌⊎◌, inl, inr, refl, sym, subst, Bool-cases, List, All, ◌==◌, ==→≡, ==→≢,
  ◌∙◌,
}
use cerius.Pointers.{
  UniqueStore, update, dispose, unique_construct, unique_move, unique_destroy, unique_assign,
  unique_reset, unique_reset_to,
}

-- No object is held twice, held after it has been deleted, or deleted twice.
pub record IsOwned (s : UniqueStore) : Type 0 where
  pub single : (a b : ℕ) → s.held a ≢ 0 → s.held a ≡ s.held b → a ≡ b
  pub alive : (a : ℕ) → s.held a ≢ 0 → All (λ p. p ≢ s.held a) s.deleted
  pub once : IsDistinct s.deleted

-- The object is not held and has not been deleted.
pub record IsFresh (s : UniqueStore) (p : ℕ) : Type 0 where
  pub not_held : (a : ℕ) → s.held a ≢ p
  pub not_deleted : All (λ q. q ≢ p) s.deleted

-- One operation. A pointer object is constructed where none holds anything; it is given objects that
-- are fresh, or null.
pub data UniqueStep (s : UniqueStore) : UniqueStore → Type 0 where
  construct :
      (a p : ℕ) → s.held a ≡ 0 → (p ≡ 0) ⊎ IsFresh s p → UniqueStep s (unique_construct s a p)
  move : (a o : ℕ) → s.held a ≡ 0 → a ≢ o → UniqueStep s (unique_move s a o)
  destroy : (a : ℕ) → UniqueStep s (unique_destroy s a)
  assign : (a o : ℕ) → UniqueStep s (unique_assign s a o)
  reset : (a : ℕ) → UniqueStep s (unique_reset s a)
  reset_to :
      (a p : ℕ) → (p ≡ 0) ⊎ IsFresh s p ⊎ (p ≡ s.held a) → UniqueStep s (unique_reset_to s a p)

dispose-All : (P : ℕ → Type 0) (p : ℕ) (l : List ℕ) → (p ≢ 0 → P p) → All P l → All P (dispose p l)
dispose-All P p l h all = elim (Bool-cases (p == 0)) [
  | inl null ↦ rw null all
  | inr some' ↦ rw some' (h (==→≢ p 0 some'), all)
]

module _ (s : UniqueStore) (a p : ℕ) (i : IsOwned s) (fresh : (p ≡ 0) ⊎ IsFresh s p) where
  unheld : p ≢ 0 → (b : ℕ) → s.held b ≢ p
  unheld ne b = elim fresh [ inl null ↦ absurd (ne null) | inr f ↦ f.not_held b ]

  undeleted : p ≢ 0 → All (λ q. q ≢ p) s.deleted
  undeleted ne = elim fresh [ inl null ↦ absurd (ne null) | inr f ↦ f.not_deleted ]

  replace_single :
      (b c : ℕ) → update s.held a p b ≢ 0 → update s.held a p b ≡ update s.held a p c → b ≡ c
  replace_single b c = elim (Bool-cases (b == a)) [
    | inl here ↦ elim (Bool-cases (c == a)) [
      | inl here' ↦ λ ne e. ==→≡ b a here ∙ sym (==→≡ c a here')
      | inr else' ↦ rw (here, else') λ ne e. absurd (unheld ne c (sym e))
    ]
    | inr else' ↦ elim (Bool-cases (c == a)) [
      | inl here' ↦ rw (else', here') λ ne e. absurd (unheld (λ z. ne (e ∙ z)) b e)
      | inr else'' ↦ rw (else', else'') λ ne e. i.single b c ne e
    ]
  ]

  replace_alive :
      (b : ℕ)
      → update s.held a p b ≢ 0
      → All (λ q. q ≢ update s.held a p b) (dispose (s.held a) s.deleted)
  replace_alive b = elim (Bool-cases (b == a)) [
    | inl here ↦
        rw here
          λ ne. dispose-All (λ q. q ≢ p) (s.held a) s.deleted (λ some'. unheld ne a) (undeleted ne)
    | inr else' ↦ rw else' λ ne.
        dispose-All (λ q. q ≢ s.held b) (s.held a) s.deleted
          (λ some' e. ==→≢ b a else' (sym (i.single a b some' e))) (i.alive b ne)
  ]

  -- The object at one address is given up and the address takes another one or none.
  replace-IsOwned :
      IsOwned (record { held = update s.held a p; deleted = dispose (s.held a) s.deleted })
  replace-IsOwned = record {
    single = replace_single;
    alive = replace_alive;
    once = elim (Bool-cases (s.held a == 0)) [
      | inl null ↦ rw null i.once
      | inr some' ↦ rw some' (i.alive a (==→≢ (s.held a) 0 some'), i.once)
    ];
  }

module _ (s : UniqueStore) (a o : ℕ) (i : IsOwned s) (apart : a ≢ o) where
  abbrev handed : ℕ → ℕ
  handed = update (update s.held a (s.held o)) o 0

  -- What an address holds after the object of `o` has been handed to `a` was held before, by `o` or
  -- by the address itself.
  handed-cases :
      (b : ℕ)
      → handed b ≢ 0
      → ((b ≡ a) × (handed b ≡ s.held o)) ⊎ ((b ≢ a) × (b ≢ o) × (handed b ≡ s.held b))
  handed-cases b = elim (Bool-cases (b == o)) [
    | inl gone ↦ rw gone λ ne. absurd (ne refl)
    | inr kept ↦ elim (Bool-cases (b == a)) [
      | inl here ↦ rw (kept, here) λ ne. inl (==→≡ b a here, refl)
      | inr else' ↦ rw (kept, else') λ ne. inr (==→≢ b a else', ==→≢ b o kept, refl)
    ]
  ]

  handed_single : (b c : ℕ) → handed b ≢ 0 → handed b ≡ handed c → b ≡ c
  handed_single b c ne e = elim (handed-cases b ne) [
    | inl (is, eb) ↦ elim (handed-cases c (λ z. ne (e ∙ z))) [
      | inl (is', ec) ↦ is ∙ sym is'
      | inr (na, not_o, ec) ↦
          absurd (not_o (sym (i.single o c (λ z. ne (eb ∙ z)) (sym eb ∙ e ∙ ec))))
    ]
    | inr (na, not_o, eb) ↦ elim (handed-cases c (λ z. ne (e ∙ z))) [
      | inl (is', ec) ↦ absurd (not_o (i.single b o (λ z. ne (eb ∙ z)) (sym eb ∙ e ∙ ec)))
      | inr (na', not_o', ec) ↦ i.single b c (λ z. ne (eb ∙ z)) (sym eb ∙ e ∙ ec)
    ]
  ]

  handed_alive : (b : ℕ) → handed b ≢ 0 → All (λ q. q ≢ handed b) (dispose (s.held a) s.deleted)
  handed_alive b ne = elim (handed-cases b ne) [
    | inl (is, eb) ↦ rw eb (
        dispose-All (λ q. q ≢ s.held o) (s.held a) s.deleted
          (λ some' e. apart (i.single a o some' e)) (i.alive o (λ z. ne (eb ∙ z))))
    | inr (na, not_o, eb) ↦ rw eb (
        dispose-All (λ q. q ≢ s.held b) (s.held a) s.deleted
          (λ some' e. na (sym (i.single a b some' e))) (i.alive b (λ z. ne (eb ∙ z))))
  ]

  handed-IsOwned : IsOwned (record { held = handed; deleted = dispose (s.held a) s.deleted })
  handed-IsOwned = record {
    single = handed_single;
    alive = handed_alive;
    once = (replace-IsOwned s a 0 i (inl refl)).once;
  }

-- An address that holds nothing gives nothing up.
nothing_disposed :
    (s : UniqueStore) (a : ℕ) → s.held a ≡ 0 → dispose (s.held a) s.deleted ≡ s.deleted
nothing_disposed s a null = rw null refl

-- The operations on `unique_ptr`s keep the invariant that no object is held by two of them, held
-- after it has been deleted, or deleted twice: construction from a raw pointer and move
-- construction from another `unique_ptr`, each at an address that holds nothing; destruction;
-- move assignment, also from itself; `reset()`; and `reset(p)`. A raw pointer that is given to a
-- construction or to `reset(p)` is null or fresh, that is neither held nor deleted before;
-- `reset(p)` may also be given what the pointer holds already.
pub UniqueStep-IsOwned : (s s' : UniqueStore) → IsOwned s → UniqueStep s s' → IsOwned s'
UniqueStep-IsOwned s s' i (construct a p null fresh) =
    subst (λ d. IsOwned (record { held = update s.held a p; deleted = d }))
      (nothing_disposed s a null) (replace-IsOwned s a p i fresh)
UniqueStep-IsOwned s s' i (move a o null apart) =
    subst (λ d. IsOwned (record { held = update (update s.held a (s.held o)) o 0; deleted = d }))
      (nothing_disposed s a null) (handed-IsOwned s a o i apart)
UniqueStep-IsOwned s s' i (destroy a) = replace-IsOwned s a 0 i (inl refl)
UniqueStep-IsOwned s s' i (assign a o) = elim (Bool-cases (o == a)) [
  | inl self ↦ rw self i
  | inr other ↦ rw other (handed-IsOwned s a o i (λ e. ==→≢ o a other (sym e)))
]
UniqueStep-IsOwned s s' i (reset a) = elim (Bool-cases (s.held a == 0)) [
  | inl null ↦ rw null i
  | inr some' ↦ let h = replace-IsOwned s a 0 i (inl refl) in rw some' (rw some' at h)
]
UniqueStep-IsOwned s s' i (reset_to a p fresh) = elim (Bool-cases (s.held a == p)) [
  | inl same ↦ rw same i
  | inr other ↦ rw other (
      replace-IsOwned s a p i (elim fresh [
        | inl null ↦ inl null
        | inr (inl f) ↦ inr f
        | inr (inr e) ↦ absurd (==→≢ (s.held a) p other (sym e))
      ]))
]
