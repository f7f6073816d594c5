-- ===== src/Pointers/Shared.antt =====
-- `shared_ptr`: a copy and its destruction leave the counts as they were; `reset()` of one of two
-- owners keeps the object in reach of both.
use cerius.Base.{
  ℕ, ◌+◌, ◌<◌, ◌^◌, ◌≡◌, ◌≢◌, refl, sym, ap, arith, Bool-cases, inl, inr, ◌∷◌, ok, ◌>>=◌, Returns,
  returns, ◌==◌, ≡→==, ≢→==, ==→≡, ◌∙◌, add64, sub64,
}
use cerius.Pointers.{
  SharedStore, update, empty, give_up, shared_reset, shared_assign, shared_copy, shared_destroy,
}

update_here {ℓ} : {A : Type ℓ} (f : ℕ → A) (a : ℕ) (x : A) → update f a x a ≡ x
update_here f a x = rw (≡→== a a refl) refl

update_else {ℓ} : {A : Type ℓ} (f : ℕ → A) (a : ℕ) (x : A) (b : ℕ) → b ≢ a → update f a x b ≡ f b
update_else f a x b ne = rw (≢→== b a ne) refl

-- The pointer at `a` owns an object with `count` owners.
pub record IsOwner (s : SharedStore) (a count : ℕ) : Type 0 where
  pub some_object : (s.ptrs a).p ≢ 0
  pub some_counter : (s.ptrs a).cnt ≢ 0
  pub counted : s.counters (s.ptrs a).cnt ≡ count

-- What `reset()` does to an owner.
shared_reset-give_up :
    (s : SharedStore) (a count : ℕ)
    → IsOwner s a count
    → shared_reset s a ≡ ok (give_up s a (sub64 count 1))
unfolding shared_reset
shared_reset-give_up s a count o =
    rw (≢→== (s.ptrs a).cnt 0 o.some_counter, ≢→== (s.ptrs a).p 0 o.some_object, o.counted) refl

-- What the first `reset()` leaves: one owner is counted, and all pointers are as they were, the one that
-- was reset too; nothing is deleted.
pub record IsCountedDown (s : SharedStore) (a : ℕ) (s' : SharedStore) : Type 0 where
  pub ptrs : (b : ℕ) → s'.ptrs b ≡ s.ptrs b
  pub count : s'.counters (s.ptrs a).cnt ≡ 1
  pub deleted : s'.deleted ≡ s.deleted

-- Of one of two owners of an object, the first `reset()` counts down to one owner, deletes nothing and
-- leaves all pointers as they were, the one that was reset too. A second `reset()` of it then deletes
-- the object and empties this pointer, while the other owner still points to the object.
pub shared_reset-twice :
    (s : SharedStore) (a b : ℕ)
    → a ≢ b
    → IsOwner s a 2
    → s.ptrs b ≡ s.ptrs a
    → Returns
        (λ s'.
          IsCountedDown s a s'
          × Returns
              (λ s''.
                (s''.deleted ≡ (s.ptrs a).p ∷ s.deleted)
                × (s''.ptrs a ≡ empty)
                × (s''.ptrs b ≡ s.ptrs a))
              (shared_reset s' a))
        (shared_reset s a)
unfolding give_up
shared_reset-twice s a b apart owner same =
    let cnt = (s.ptrs a).cnt in
    let once = give_up s a (sub64 2 1) in
    let owner' : IsOwner once a 1 = record {
      some_object = owner.some_object;
      some_counter = owner.some_counter;
      counted = update_here s.counters cnt 1;
    } in
    rw (shared_reset-give_up s a 2 owner) (
      returns (
        record { ptrs = λ c. refl; count = update_here s.counters cnt 1; deleted = refl },
        rw (shared_reset-give_up once a 1 owner') (
            returns (
              refl,
              update_here s.ptrs a empty,
              update_else s.ptrs a empty b (λ e. apart (sym e)) ∙ same,
            )),
      ))

-- The store after `a` has become a copy of `o`, whose object has `count` owners then.
abbrev copied : SharedStore → (a o count : ℕ) → SharedStore
copied s a o count = record s {
  ptrs = update (update s.ptrs a empty) a (s.ptrs o);
  counters = update s.counters (s.ptrs o).cnt count;
}

shared_copy-copied :
    (s : SharedStore) (a o count : ℕ)
    → a ≢ o
    → IsOwner s o count
    → 0 < count
    → count + 1 < 2 ^ 63
    → shared_copy s a o ≡ ok (copied s a o (count + 1))
unfolding shared_copy shared_assign shared_reset
shared_copy-copied s a o count apart owner some' small =
    let more : add64 count 1 ≡ count + 1 = omega arith in
    let kept = update_else s.ptrs a empty o (λ e. apart (sym e)) in
    rw
      (
        ≢→== o a (λ e. apart (sym e)),
        ≡→== a a refl,
        kept,
        ≢→== (s.ptrs o).cnt 0 owner.some_counter,
        owner.counted,
        more,
      )
      refl

-- A copy of an owner, destroyed again, leaves every count and every other pointer as it was, and
-- deletes nothing.
pub shared_destroy-copy :
    (s : SharedStore) (a o count : ℕ)
    → a ≢ o
    → IsOwner s o count
    → 0 < count
    → count + 1 < 2 ^ 63
    → Returns
        (λ s'.
          ((c : ℕ) → s'.counters c ≡ s.counters c)
          × ((b : ℕ) → b ≢ a → s'.ptrs b ≡ s.ptrs b)
          × (s'.deleted ≡ s.deleted))
        (shared_copy s a o >>= λ s'. shared_destroy s' a)
unfolding shared_destroy give_up
shared_destroy-copy s a o count apart owner some' small =
    let cnt = (s.ptrs o).cnt in
    let s1 = copied s a o (count + 1) in
    let at_a : s1.ptrs a ≡ s.ptrs o = update_here (update s.ptrs a empty) a (s.ptrs o) in
    let owner' : IsOwner s1 a (count + 1) = record {
      some_object = rw at_a owner.some_object;
      some_counter = rw at_a owner.some_counter;
      counted = rw at_a (update_here s.counters cnt (count + 1));
    } in
    let back : sub64 (count + 1) 1 ≡ count = omega arith in
    rw (shared_copy-copied s a o count apart owner some' small) (
      rw (shared_reset-give_up s1 a (count + 1) owner', back, ≢→== count 0 (omega arith), at_a)
        (returns (
          λ c. elim (Bool-cases (c == cnt)) [
            | inl here ↦ rw here (sym owner.counted ∙ ap s.counters (sym (==→≡ c cnt here)))
            | inr other ↦ rw other refl
          ],
          λ b ne. rw (≢→== b a ne) refl,
          refl,
        )))
