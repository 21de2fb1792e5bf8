-- ===== src/Semaphore/Idempotent.antt =====
-- packages/router/src/concurrency.ts: a release closure called a second time.
use goatrouter.Common.{
  ℕ, ◌-◌, ◌≡◌, refl, ◌∙◌, inl, inr, Bool, true, not, ◌&&◌, Option, none, some, List, [], ◌∷◌, arith,
  Bool-cases, ap, subst,
}
use goatrouter.Semaphore.{
  Semaphore, contains, hand_over, may_pump, pump_loop, compact, pump, release,
}
use goatrouter.Semaphore.Chains.{mark}

-- The state that a step leaves, if it ends, has these flags.
abbrev Flagged : (ℕ → Bool) → Option Semaphore → Type 0
Flagged flags none = Unit
Flagged flags (some t) = t.released ≡ flags

pump_loop-Flagged :
    (s : Semaphore) (slots : List (Option ℕ)) → Flagged s.released (pump_loop s slots)
unfolding pump_loop
pump_loop-Flagged s [] = elim (Bool-cases (may_pump s)) [
  | inl go ↦ rw go tt
  | inr stop ↦ rw stop refl
]
pump_loop-Flagged s (none ∷ rest) = elim (Bool-cases (may_pump s)) [
  | inl go ↦ rw go (pump_loop-Flagged s rest)
  | inr stop ↦ rw stop refl
]
pump_loop-Flagged s (some d ∷ rest) = elim (Bool-cases (may_pump s)) [
  | inl go ↦ rw go (pump_loop-Flagged (hand_over s d) rest)
  | inr stop ↦ rw stop refl
]

compact-released : (s : Semaphore) → (compact s).released ≡ s.released
unfolding compact
compact-released s = ground arith

pump-Flagged : (s : Semaphore) → Flagged s.released (pump s)
unfolding pump
pump-Flagged s = go (pump_loop s s.waiters) (pump_loop-Flagged s s.waiters)
  where
    go :
        (o : Option Semaphore)
        → Flagged s.released o
        → Flagged s.released (elim o [ none ↦ none | some t ↦ some (compact t) ])
    go none h = tt
    go (some t) h = compact-released t ∙ h

release-Flagged :
    (s t : Semaphore) (c : ℕ)
    → (contains c s.served && not (s.released c)) ≡ true
    → release s c ≡ some t
    → t.released ≡ mark s.released c
unfolding release
release-Flagged s t c held e =
    subst (Flagged (mark s.released c)) (rw held at e)
      (pump-Flagged (record s { in_flight = s.in_flight - 1; released = mark s.released c }))

-- Calling the release closure of a caller a second time changes nothing, whatever the first call
-- did: it returns no second permit and hands none over.
pub release_twice : (s t : Semaphore) (c : ℕ) → release s c ≡ some t → release t c ≡ some t
unfolding release
release_twice s t c e = elim (Bool-cases (contains c s.served && not (s.released c))) [
  | inl held ↦ ground (arith, ap (λ f. f c) (release-Flagged s t c held e))
  | inr spent ↦
      let same : s ≡ t = cc (rw spent at e) in
      subst (λ u. release u c ≡ some u) same (rw (spent, release) refl)
]
