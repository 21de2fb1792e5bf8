-- ===== src/Scopes/Assert.antt =====
-- packages/identity/src/scopes.ts: what `assertScopes` accepts.
use mathlib.Core.List.{append_assoc, append-nil}
use goatrouter.Common.{
  ◌≤◌, ◌≡◌, ◌↔◌, refl, sym, ◌∙◌, ap, subst, true, false, ◌||◌, List, [], ◌∷◌, ◌++◌, Text, text_eq,
  text_eq_sym, length, All, All-append, inl, inr, arith, Bool-cases, ltb, ◌==◌, suc,
}
use goatrouter.Scopes.{has, is_client_scope, valid, collect, count, assert_scopes, client_scopes}
use goatrouter.Value.{
  Value, undefined, null, scalar, boolean, string, array, object, Items, no_items, item,
}

-- The array of these strings.
abbrev pub items_of : List Text → Items
items_of [] = no_items
items_of (s ∷ ss) = item (string s) (items_of ss)

-- No string stands twice.
abbrev pub Distinct : List Text → Type 0
Distinct [] = Unit
Distinct (s ∷ ss) = (has ss s ≡ false) × Distinct ss

abbrev pub Known : Text → Type 0
Known s = is_client_scope s ≡ true

has-append :
    (ss : List Text) (t s : Text)
    → has ss s ≡ false
    → text_eq s t ≡ false
    → has (ss ++ t ∷ []) s ≡ false
unfolding has
has-append [] t s absent other = ground arith
has-append (x ∷ ss) t s absent other = ground (arith, has-append ss t s)

append-Distinct :
    (ss : List Text) (s : Text) → Distinct ss → has ss s ≡ false → Distinct (ss ++ s ∷ [])
unfolding has
append-Distinct [] s d absent = (refl, tt)
append-Distinct (x ∷ ss) s (fresh, d) absent = (
  has-append ss s x fresh (text_eq_sym s x (ground arith)),
  append-Distinct ss s d (ground arith),
)

record Accepts (scopes : List Text) (items : Items) (ss : List Text) : Type 0 where
  rest : List Text
  read : items ≡ items_of rest
  joined : ss ≡ scopes ++ rest
  distinct : Distinct ss
  known : All Known ss

collect-Accepts :
    (scopes : List Text) (items : Items) (ss : List Text)
    → collect scopes items ≡ valid ss
    → Distinct scopes
    → All Known scopes
    → Accepts scopes items ss
unfolding collect
collect-Accepts scopes no_items ss h d k =
    let e : scopes ≡ ss = cc h in
    record {
      rest = [];
      read = refl;
      joined = sym e ∙ sym (append-nil scopes);
      distinct = subst Distinct e d;
      known = subst (All Known) e k;
    }
collect-Accepts scopes (item (string s) rest) ss h d k = elim (Bool-cases (is_client_scope s)) [
  | inr unknown ↦ cc (rw unknown at h)
  | inl known ↦ elim (Bool-cases (has scopes s)) [
    | inl twice ↦ cc (rw (known, twice) at h)
    | inr fresh ↦
        let more =
          collect-Accepts (scopes ++ s ∷ []) rest ss (rw (known, fresh) at h)
            (append-Distinct scopes s d fresh) (All-append Known scopes (s ∷ []) k (known, tt)) in
        record {
          rest = s ∷ more.rest;
          read = ap (item (string s)) more.read;
          joined = more.joined ∙ append_assoc scopes (s ∷ []) more.rest;
          distinct = more.distinct;
          known = more.known;
        }
  ]
]
collect-Accepts scopes (item undefined rest) ss h d k = cc h
collect-Accepts scopes (item null rest) ss h d k = cc h
collect-Accepts scopes (item scalar rest) ss h d k = cc h
collect-Accepts scopes (item (boolean b) rest) ss h d k = cc h
collect-Accepts scopes (item (array items) rest) ss h d k = cc h
collect-Accepts scopes (item (object plain props) rest) ss h d k = cc h

has_inside : (ss ts : List Text) (s x : Text) → has (ss ++ s ∷ ts) x ≡ false → text_eq x s ≡ false
unfolding has
has_inside [] ts s x absent = ground arith
has_inside (y ∷ ss) ts s x absent = has_inside ss ts s x (ground arith)

Distinct-before : (ss ts : List Text) (s : Text) → Distinct (ss ++ s ∷ ts) → has ss s ≡ false
unfolding has
Distinct-before [] ts s d = refl
Distinct-before (x ∷ ss) ts s (fresh, d) =
    ground (arith, text_eq_sym x s (has_inside ss ts s x fresh), Distinct-before ss ts s d)

collect-items_of :
    (scopes ts : List Text)
    → Distinct (scopes ++ ts)
    → All Known ts
    → collect scopes (items_of ts) ≡ valid (scopes ++ ts)
unfolding collect
collect-items_of scopes [] d k = ap valid (sym (append-nil scopes))
collect-items_of scopes (s ∷ ts) d (known, k) =
    rw (known, Distinct-before scopes ts s d)
      (collect-items_of (scopes ++ s ∷ []) ts
          (subst Distinct (sym (append_assoc scopes (s ∷ []) ts)) d) k
        ∙ ap valid (append_assoc scopes (s ∷ []) ts))

count-items_of : (ss : List Text) → count (items_of ss) ≡ length ss
count-items_of [] = refl
count-items_of (s ∷ ss) = ap suc (count-items_of ss)

-- The payloads that may be accepted as these scopes.
pub record IsScopes (v : Value) (ss : List Text) : Type 0 where
  pub read : v ≡ array (items_of ss)
  pub distinct : Distinct ss
  pub known : All Known ss
  pub nonempty : 1 ≤ length ss
  pub bounded : length ss ≤ 10

array_accepted :
    (items : Items) (ss : List Text)
    → assert_scopes (array items) ≡ valid ss
    → IsScopes (array items) ss
unfolding assert_scopes
array_accepted items ss h =
    elim (Bool-cases (count items == 0 || ltb (length client_scopes) (count items))) [
      | inl outside ↦ cc (rw outside at h)
      | inr inside ↦
          let a = collect-Accepts [] items ss (rw inside at h) tt tt in
          let e : items ≡ items_of ss = a.read ∙ ap items_of (sym a.joined) in
          let n : count items ≡ length ss = ap count e ∙ count-items_of ss in
          record {
            read = ap array e;
            distinct = a.distinct;
            known = a.known;
            nonempty = ground arith;
            bounded = ground arith;
          }
    ]

assert_scopes-IsScopes : (v : Value) (ss : List Text) → assert_scopes v ≡ valid ss → IsScopes v ss
unfolding assert_scopes
assert_scopes-IsScopes (array items) ss h = array_accepted items ss h
assert_scopes-IsScopes undefined ss h = cc h
assert_scopes-IsScopes null ss h = cc h
assert_scopes-IsScopes scalar ss h = cc h
assert_scopes-IsScopes (boolean b) ss h = cc h
assert_scopes-IsScopes (string s) ss h = cc h
assert_scopes-IsScopes (object plain props) ss h = cc h

IsScopes-assert_scopes : (v : Value) (ss : List Text) → IsScopes v ss → assert_scopes v ≡ valid ss
unfolding assert_scopes
IsScopes-assert_scopes v ss i =
    let n = count-items_of ss in
    let inside : (count (items_of ss) == 0 || ltb (length client_scopes) (count (items_of ss)))
        ≡ false =
      ground (arith, i.nonempty, i.bounded) in
    ap assert_scopes i.read ∙ rw inside (collect-items_of [] ss i.distinct i.known)

-- A payload is accepted as a list of scopes exactly if it is an array of these strings, in that
-- order, each of the vocabulary and none twice, at least one and at most ten of them.
pub assert_scopes_iff : (v : Value) (ss : List Text) → (assert_scopes v ≡ valid ss) ↔ IsScopes v ss
assert_scopes_iff v ss = (assert_scopes-IsScopes v ss, IsScopes-assert_scopes v ss)
