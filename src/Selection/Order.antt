-- ===== src/Selection/Order.antt =====
-- packages/router/src/selection.ts: the order of preference.
use goatrouter.Common.{
  ◌≡◌, ◌≢◌, refl, sym, subst, ◌∙◌, text_eq, text_eq_iff, true, false, List, [], ◌∷◌, arith,
  text_lt_asymm, text_lt_trans, text_lt_total, All, Bool-cases, inl, inr,
}
use mathlib.Core.List.{Mem, Permᴰ, mem-cons_self, mem-cons_of_mem}
use mathlib.Core.List.Perm
use mathlib.Core.List.Permᴰ
use mathlib.Core.Path.{ap₂}
use goatrouter.Route.{Route}
use goatrouter.Selection.{goes_before, insert, sort}

pub goes_before_asymm : (r s : Route) → goes_before r s ≡ true → goes_before s r ≡ false
unfolding goes_before
goes_before_asymm r s h = ground (arith, text_lt_asymm r.id s.id)

pub goes_before_trans :
    (r s t : Route) → goes_before r s ≡ true → goes_before s t ≡ true → goes_before r t ≡ true
unfolding goes_before
goes_before_trans r s t h k = ground (arith, text_lt_trans r.id s.id t.id)

-- Of two routes with different ids one goes before the other.
pub goes_before_total :
    (r s : Route) → r.id ≢ s.id → goes_before r s ≡ false → goes_before s r ≡ true
unfolding goes_before
goes_before_total r s other h = ground (arith, text_lt_total r.id s.id)

-- What does not follow another goes before all that the other goes before.
goes_before_weak :
    (r s t : Route) → goes_before r s ≡ false → goes_before r t ≡ true → goes_before s t ≡ true
unfolding goes_before
goes_before_weak r s t h k = ground (arith, text_lt_total r.id s.id, text_lt_trans s.id r.id t.id)

-- Two routes with one key are one route.
abbrev pub Keyed : List Route → Type 0
Keyed routes = (r s : Route) → Mem r routes → Mem s routes → r.id ≡ s.id → r ≡ s

Keyed-tail : (r : Route) (xs : List Route) → Keyed (r ∷ xs) → Keyed xs
Keyed-tail r xs key s t hs ht e = key s t (mem-cons_of_mem r hs) (mem-cons_of_mem r ht) e

Keyed-perm : (xs ys : List Route) → Permᴰ xs ys → Keyed xs → Keyed ys
Keyed-perm xs ys p key s t hs ht e =
    key s t ((Perm.mem_iff ∣ p ∣₁).1 hs) ((Perm.mem_iff ∣ p ∣₁).1 ht) e

insert_swap :
    (r s : Route) (xs : List Route)
    → goes_before r s ≡ true
    → insert r (insert s xs) ≡ insert s (insert r xs)
unfolding insert
insert_swap r s [] before = ground (arith, goes_before_asymm r s before)
insert_swap r s (x ∷ xs) before = ground (
  arith,
  goes_before_asymm r s before,
  goes_before_trans x r s,
  goes_before_weak x s r,
  insert_swap r s xs before,
)

-- The order of two insertions does not show in the result.
pub insert_comm :
    (r s : Route) (xs : List Route)
    → (r.id ≡ s.id → r ≡ s)
    → insert r (insert s xs) ≡ insert s (insert r xs)
insert_comm r s xs key = elim (Bool-cases (text_eq r.id s.id)) [
  | inl same ↦
      subst (λ u. insert r (insert u xs) ≡ insert u (insert r xs))
        (key ((text_eq_iff r.id s.id).0 same)) refl
  | inr other ↦ elim (Bool-cases (goes_before r s)) [
    | inl before ↦ insert_swap r s xs before
    | inr tied ↦ sym (
        insert_swap s r xs
          (goes_before_total r s (λ e. ground (arith, text_eq_iff r.id s.id)) tied))
  ]
]

-- Sorting forgets the order of the registry.
pub sort-eq_of_perm : (xs ys : List Route) → Permᴰ xs ys → Keyed xs → sort xs ≡ sort ys
unfolding sort
sort-eq_of_perm xs ys Permᴰ.nil key = refl
sort-eq_of_perm xs ys (Permᴰ.cons {a} {b} {l₁} {l₂} e p) key =
    ap₂ insert e (sort-eq_of_perm l₁ l₂ p (Keyed-tail a l₁ key))
sort-eq_of_perm xs ys (Permᴰ.swap {a} {b} {a'} {b'} {l} e f) key =
    rw (← e, ← f)
      (insert_comm a b (sort l) (key a b mem-cons_self (mem-cons_of_mem a mem-cons_self)))
sort-eq_of_perm xs ys (Permᴰ.trans {l₁} {l₂} {l₃} p q) key =
    sort-eq_of_perm l₁ l₂ p key ∙ sort-eq_of_perm l₂ l₃ q (Keyed-perm l₁ l₂ p key)

-- No candidate goes before one that stands ahead of it.
abbrev pub IsSorted : List Route → Type 0
IsSorted [] = Unit
IsSorted (r ∷ rest) = All (λ s. goes_before s r ≡ false) rest × IsSorted rest

insert-All :
    (t r : Route) (xs : List Route)
    → goes_before r t ≡ false
    → All (λ s. goes_before s t ≡ false) xs
    → All (λ s. goes_before s t ≡ false) (insert r xs)
unfolding insert
insert-All t r [] h a = (h, tt)
insert-All t r (x ∷ xs) h a = ground (arith, insert-All t r xs h a.1)

All-weaken :
    (r x : Route) (xs : List Route)
    → goes_before x r ≡ false
    → All (λ s. goes_before s x ≡ false) xs
    → All (λ s. goes_before s r ≡ false) xs
All-weaken r x [] h a = tt
All-weaken r x (y ∷ ys) h a = (ground (arith, goes_before_weak y x r a.0), All-weaken r x ys h a.1)

insert-IsSorted : (r : Route) (xs : List Route) → IsSorted xs → IsSorted (insert r xs)
unfolding insert
insert-IsSorted r [] v = (tt, tt)
insert-IsSorted r (x ∷ xs) v = elim (Bool-cases (goes_before x r)) [
  | inl before ↦
      rw before (insert-All x r xs (goes_before_asymm x r before) v.0, insert-IsSorted r xs v.1)
  | inr after ↦ rw after ((after, All-weaken r x xs after v.0), v)
]

pub sort-IsSorted : (xs : List Route) → IsSorted (sort xs)
unfolding sort
sort-IsSorted [] = tt
sort-IsSorted (x ∷ xs) = insert-IsSorted x (sort xs) (sort-IsSorted xs)

insert-perm : (r : Route) (xs : List Route) → Permᴰ (r ∷ xs) (insert r xs)
unfolding insert
insert-perm r [] = Permᴰ.cons refl Permᴰ.nil
insert-perm r (x ∷ xs) = elim (Bool-cases (goes_before x r)) [
  | inl before ↦ rw before (Permᴰ.trans (Permᴰ.swap refl refl) (Permᴰ.cons refl (insert-perm r xs)))
  | inr after ↦ rw after (Permᴰ.refl (r ∷ x ∷ xs))
]

pub sort-perm : (xs : List Route) → Permᴰ xs (sort xs)
unfolding sort
sort-perm [] = Permᴰ.nil
sort-perm (x ∷ xs) = Permᴰ.trans (Permᴰ.cons refl (sort-perm xs)) (insert-perm x (sort xs))
