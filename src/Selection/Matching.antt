-- ===== src/Selection/Matching.antt =====
-- packages/router/src/selection.ts: the filter of the candidates.
use mathlib.Core.List.{Permᴰ, Mem, Mem-prop, mem-cons, not-mem-nil, mem-cons_self, mem-cons_of_mem}
use mathlib.Core.List.Permᴰ
use mathlib.Core.HLevel.{×_prop}
use mathlib.Core.Logic.Or
use text.Mathlib.TextEquality.{IsScalar-prop}
use Prim.Native.Char.{IsScalar}
use goatrouter.Common.{
  ℕ, ◌≡◌, ◌↔◌, refl, sym, subst, ◌∙◌, Bool, true, false, List, [], ◌∷◌, arith, Text, if◌then◌else◌,
  Bool-cases, inl, inr,
}
use goatrouter.Errors.{>>=-eq-ok, Result, ok, err, ◌>>=◌}
use goatrouter.Route.{Route}
use goatrouter.Model.{matches_model_pattern, assert_model_id}
use goatrouter.Selection.{matching}

pub Route-set : IsSet Route
Route-set = hlevel

Char-set : (n : ℕ) → IsSet (IsScalar n)
Char-set n = hlevel (IsScalar-prop n)

pub Routes-set : IsSet (Result (List Route))
Routes-set = hlevel Char-set

-- Whether a route is enabled and its pattern matches; a pattern is looked at only if it is enabled.
abbrev pub serves : Route → Text → Result Bool
serves r model = if r.enabled then matches_model_pattern r.model model else ok false

abbrev keep : Bool → Route → List Route → List Route
keep b r rest = if b then r ∷ rest else rest

Result-Bool-set : IsSet (Result Bool)
Result-Bool-set = hlevel Char-set

pub ok_injective {ℓ} : {A : Type ℓ} {a b : A} → ok a ≡ ok b → a ≡ b
ok_injective h = cc

ok_false : ok false ≡ ok true → ⊥
ok_false h = cc

pub serves_parts :
    (r : Route) (model : Text)
    → serves r model ≡ ok true
    → (r.enabled ≡ true) × (matches_model_pattern r.model model ≡ ok true)
serves_parts r model h = ground arith

pub assert_model_id-eq : (model m : Text) → assert_model_id model ≡ ok m → m ≡ model
unfolding assert_model_id
assert_model_id-eq model m h = ground arith

ok_unit {ℓ} : {A : Type ℓ} (m : Result A) → m ≡ (m >>= ok)
ok_unit (ok a) = refl
ok_unit (err e) = refl

matching-cons :
    (r : Route) (rest : List Route) (model : Text)
    → matching (r ∷ rest) model
      ≡ (serves r model >>= λ b. matching rest model >>= λ others. ok (keep b r others))
unfolding matching
matching-cons r rest model = elim (Bool-cases r.enabled) [
  | inl on ↦ rw on refl
  | inr off ↦ rw off (ok_unit (matching rest model))
]

matching-cons_ok :
    (r : Route) (rest : List Route) (model : Text) {found : List Route}
    → matching (r ∷ rest) model ≡ ok found
    → (b : Bool) × (others : List Route) × (serves r model ≡ ok b)
      × (matching rest model ≡ ok others)
      × (found ≡ keep b r others)
matching-cons_ok r rest model e =
    let (b, fits, e') = >>=-eq-ok (serves r model) _ (sym (matching-cons r rest model) ∙ e) in
    let (others, found, last) = >>=-eq-ok (matching rest model) _ e' in
    (b, others, fits, found, cc last)

matching-cons_of_ok :
    (r : Route) (rest : List Route) (model : Text) (b : Bool) (others : List Route)
    → serves r model ≡ ok b
    → matching rest model ≡ ok others
    → matching (r ∷ rest) model ≡ ok (keep b r others)
matching-cons_of_ok r rest model b others fits found =
    matching-cons r rest model ∙ rw (fits, found) refl

keep_swap :
    (a b : Route) (p q : Bool) (xs : List Route)
    → Permᴰ (keep p a (keep q b xs)) (keep q b (keep p a xs))
keep_swap a b true true xs = Permᴰ.swap refl refl
keep_swap a b true false xs = Permᴰ.refl (a ∷ xs)
keep_swap a b false true xs = Permᴰ.refl (b ∷ xs)
keep_swap a b false false xs = Permᴰ.refl xs

keep_perm :
    (a : Route) (p : Bool) (xs ys : List Route) → Permᴰ xs ys → Permᴰ (keep p a xs) (keep p a ys)
keep_perm a true xs ys h = Permᴰ.cons refl h
keep_perm a false xs ys h = h

-- A registry in another order yields the same routes in another order.
pub matching-perm :
    (xs ys : List Route) (model : Text) (found : List Route)
    → Permᴰ xs ys
    → matching xs model ≡ ok found
    → (others : List Route) × (matching ys model ≡ ok others) × Permᴰ found others
matching-perm xs ys model found Permᴰ.nil e = (found, e, Permᴰ.refl found)
matching-perm xs ys model found (Permᴰ.cons {a} {b} {l₁} {l₂} same p) e =
    let (t, rest, fits, e', shape) = matching-cons_ok a l₁ model e in
    let (rest', e'', q) = matching-perm l₁ l₂ model rest p e' in
    (
      keep t a rest',
      rw (← same) (matching-cons_of_ok a l₂ model t rest' fits e''),
      rw shape (keep_perm a t rest rest' q),
    )
matching-perm xs ys model found (Permᴰ.swap {a} {b} {a'} {b'} {l} e₁ e₂) e =
    let (s, rest, fits_a, e', shape) = matching-cons_ok a (b ∷ l) model e in
    let (t, last, fits_b, e'', shape') = matching-cons_ok b l model e' in
    (
      keep t b (keep s a last),
      rw (← e₁, ← e₂)
          (matching-cons_of_ok b (a ∷ l) model t (keep s a last) fits_b
            (matching-cons_of_ok a l model s last fits_a e'')),
      rw (shape, shape') (keep_swap a b s t last),
    )
matching-perm xs ys model found (Permᴰ.trans {l₁} {l₂} {l₃} p q) e =
    let (mid, e', h) = matching-perm l₁ l₂ model found p e in
    let (last, e'', k) = matching-perm l₂ l₃ model mid q e' in (last, e'', Permᴰ.trans h k)

Serves-prop : (r : Route) (model : Text) → IsProp (serves r model ≡ ok true)
Serves-prop r model = Result-Bool-set (serves r model) (ok true)

abbrev pub Chosen : Text → List Route → List Route → Type 0
Chosen model xs found = (r : Route) → Mem r found ↔ (Mem r xs × (serves r model ≡ ok true))

keep-Chosen :
    (x : Route) (b : Bool) (xs others : List Route) (model : Text)
    → serves x model ≡ ok b
    → Chosen model xs others
    → Chosen model (x ∷ xs) (keep b x others)
keep-Chosen x true xs others model fits ih r = (
  λ m.
      Or.elim (×_prop Mem-prop (Serves-prop r model)) (mem-cons.0 m)
        (λ e. (rw e mem-cons_self, rw e fits))
        (λ n. let (listed, serving) = (ih r).0 n in (mem-cons_of_mem x listed, serving)),
  λ p.
      Or.elim Mem-prop (mem-cons.0 p.0) (λ e. rw e mem-cons_self)
        (λ n. mem-cons_of_mem x ((ih r).1 (n, p.1))),
)
keep-Chosen x false xs others model fits ih r = (
  λ m. let (listed, serving) = (ih r).0 m in (mem-cons_of_mem x listed, serving),
  λ p.
      Or.elim Mem-prop (mem-cons.0 p.0)
        (λ e. absurd (ok_false (sym fits ∙ subst (λ u. serves u model ≡ ok true) e p.1)))
        (λ n. (ih r).1 (n, p.1)),
)

pub matching-Chosen :
    (xs : List Route) (model : Text) (found : List Route)
    → matching xs model ≡ ok found
    → Chosen model xs found
matching-Chosen [] model found e r =
    let empty : [] ≡ found = ok_injective (unfold matching in e) in
    (λ m. absurd (not-mem-nil (subst (Mem r) (sym empty) m)), λ p. absurd (not-mem-nil p.0))
matching-Chosen (x ∷ xs) model found e r =
    let (b, others, fits, e', shape) = matching-cons_ok x xs model e in
    rw shape (keep-Chosen x b xs others model fits (matching-Chosen xs model others e') r)
