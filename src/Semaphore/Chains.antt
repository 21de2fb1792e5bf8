-- ===== src/Semaphore/Chains.antt =====
-- Lists of callers in order of arrival, the queue without its vacated slots, and the count of
-- unused release closures.
use goatrouter.Common.{
  ℕ, zero, suc, ◌+◌, ◌≤◌, ◌<◌, ◌≡◌, refl, Bool, true, false, Option, none, some, List, [], ◌∷◌,
  ◌++◌, arith, ◌==◌, if◌then◌else◌, length, get_elem?, set,
}
use goatrouter.Semaphore.{contains}

-- The list rises strictly from `lo` and stays below `hi`.
abbrev pub Chain : ℕ → List ℕ → ℕ → Type 0
Chain lo [] hi = lo ≤ hi
Chain lo (x ∷ xs) hi = (lo ≤ x) × Chain (suc x) xs hi

pub Chain-le : (lo : ℕ) (xs : List ℕ) (hi : ℕ) → Chain lo xs hi → lo ≤ hi
Chain-le lo [] hi c = c
Chain-le lo (x ∷ xs) hi c = omega (arith, Chain-le (suc x) xs hi c.1)

pub Chain-mono : (lo lo' : ℕ) (xs : List ℕ) (hi : ℕ) → lo' ≤ lo → Chain lo xs hi → Chain lo' xs hi
Chain-mono lo lo' [] hi h c = omega arith
Chain-mono lo lo' (x ∷ xs) hi h c = (omega arith, c.1)

pub Chain-raise : (lo : ℕ) (xs : List ℕ) (hi : ℕ) → Chain lo xs hi → Chain lo xs (suc hi)
Chain-raise lo [] hi c = omega arith
Chain-raise lo (x ∷ xs) hi c = (c.0, Chain-raise (suc x) xs hi c.1)

pub Chain-snoc :
    (lo : ℕ) (xs : List ℕ) (hi : ℕ) → Chain lo xs hi → Chain lo (xs ++ hi ∷ []) (suc hi)
Chain-snoc lo [] hi c = (c, omega arith)
Chain-snoc lo (x ∷ xs) hi c = (c.0, Chain-snoc (suc x) xs hi c.1)

-- The callers whose slots are not vacated.
abbrev pub queued : List (Option ℕ) → List ℕ
queued [] = []
queued (none ∷ ws) = queued ws
queued (some c ∷ ws) = c ∷ queued ws

pub queued-append :
    (ws : List (Option ℕ)) (c : ℕ) → queued (ws ++ some c ∷ []) ≡ queued ws ++ c ∷ []
queued-append [] c = refl
queued-append (none ∷ ws) c = queued-append ws c
queued-append (some d ∷ ws) c = rw (queued-append ws c)

-- To vacate an occupied slot takes one caller out, wherever it stands.
pub length-queued-set :
    (ws : List (Option ℕ)) (i c : ℕ)
    → get_elem? ws i ≡ some (some c)
    → length (queued (set ws i none)) + 1 ≡ length (queued ws)
length-queued-set [] i c h = ground arith
length-queued-set (none ∷ ws) zero c h = ground arith
length-queued-set (some d ∷ ws) zero c h = omega arith
length-queued-set (none ∷ ws) (suc i) c h = length-queued-set ws i c h
length-queued-set (some d ∷ ws) (suc i) c h = omega (arith, length-queued-set ws i c h)

Chain-vacate_tail :
    (ws : List (Option ℕ)) (i lo hi : ℕ)
    → Chain lo (queued ws) hi
    → Chain lo (queued (set ws i none)) hi
Chain-vacate_tail [] i lo hi c = c
Chain-vacate_tail (none ∷ ws) zero lo hi c = c
Chain-vacate_tail (some d ∷ ws) zero lo hi c =
    Chain-mono (suc d) lo (queued ws) hi (omega arith) c.1
Chain-vacate_tail (none ∷ ws) (suc i) lo hi c = Chain-vacate_tail ws i lo hi c
Chain-vacate_tail (some d ∷ ws) (suc i) lo hi c = (c.0, Chain-vacate_tail ws i (suc d) hi c.1)

pub Chain-vacate :
    (served : List ℕ) (ws : List (Option ℕ)) (i lo hi : ℕ)
    → Chain lo (served ++ queued ws) hi
    → Chain lo (served ++ queued (set ws i none)) hi
Chain-vacate [] ws i lo hi c = Chain-vacate_tail ws i lo hi c
Chain-vacate (x ∷ xs) ws i lo hi c = (c.0, Chain-vacate xs ws i (suc x) hi c.1)

-- The closures whose flag is not set.
abbrev pub unreleased : (ℕ → Bool) → List ℕ → ℕ
unreleased flag [] = 0
unreleased flag (x ∷ xs) = if flag x then unreleased flag xs else suc (unreleased flag xs)

abbrev pub mark : (ℕ → Bool) → ℕ → ℕ → Bool
mark flag p k = if p == k then true else flag k

not_contains_below : (p lo hi : ℕ) (xs : List ℕ) → p < lo → Chain lo xs hi → contains p xs ≡ false
unfolding contains
not_contains_below p lo hi [] h c = refl
not_contains_below p lo hi (x ∷ xs) h c =
    ground (arith, not_contains_below p (suc x) hi xs (omega arith) c.1)

unreleased-mark_below :
    (flag : ℕ → Bool) (p lo hi : ℕ) (xs : List ℕ)
    → p < lo
    → Chain lo xs hi
    → unreleased (mark flag p) xs ≡ unreleased flag xs
unreleased-mark_below flag p lo hi [] h c = refl
unreleased-mark_below flag p lo hi (x ∷ xs) h c =
    ground (arith, unreleased-mark_below flag p (suc x) hi xs (omega arith) c.1)

-- To set one unused closure's flag lowers the count by one.
pub unreleased-mark :
    (flag : ℕ → Bool) (p lo hi : ℕ) (xs : List ℕ)
    → Chain lo xs hi
    → contains p xs ≡ true
    → flag p ≡ false
    → unreleased (mark flag p) xs + 1 ≡ unreleased flag xs
unfolding contains
unreleased-mark flag p lo hi [] c h f = ground arith
unreleased-mark flag p lo hi (x ∷ xs) c h f = ground (
  arith,
  unreleased-mark flag p (suc x) hi xs c.1,
  unreleased-mark_below flag p (suc x) hi xs,
  Chain-mono (suc x) (suc p) xs hi,
)

pub unreleased-append :
    (flag : ℕ → Bool) (xs : List ℕ) (c : ℕ)
    → flag c ≡ false
    → unreleased flag (xs ++ c ∷ []) ≡ unreleased flag xs + 1
unreleased-append flag [] c f = ground arith
unreleased-append flag (x ∷ xs) c f = ground (arith, unreleased-append flag xs c f)
