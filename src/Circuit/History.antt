-- ===== src/Circuit/History.antt =====
-- packages/router/src/circuit.ts against its history: what a provider's circuit is, told from the
-- calls made for that provider alone.
use goatrouter.Common.{
  ℕ, suc, ◌+◌, ◌≤◌, ◌<◌, ◌≡◌, refl, inl, inr, Bool, true, false, ◌&&◌, ◌||◌, not, Option, none,
  some, List, [], ◌∷◌, arith, Text, text_eq, text_eq_iff, update, leb, ltb, if◌then◌else◌,
  Bool-cases,
}
use goatrouter.Circuit.{
  CircuitState, closed, open_state, half_open, Entry, counting, opened, probing, CircuitBreaker,
  state_of, state, allow_entry, allow, on_success, failure_entry, on_transient_failure, Call, asks,
  succeeds, fails, call, after,
}

-- The calls that a history makes for one provider.
unfoldable pub calls_for : Text → List (Text × Call) → List Call
calls_for id [] = []
calls_for id ((j, k) ∷ past) = if text_eq j id then k ∷ calls_for id past else calls_for id past

-- How many transient failures were reported since the last success.
unfoldable pub failures : List Call → ℕ
failures [] = 0
failures (asks now ∷ past) = failures past
failures (succeeds ∷ past) = 0
failures (fails now ∷ past) = suc (failures past)

-- When the latest failure was reported.
unfoldable pub last_failure : List Call → Option ℕ
last_failure [] = none
last_failure (asks now ∷ past) = last_failure past
last_failure (succeeds ∷ past) = none
last_failure (fails now ∷ past) = some now

-- Whether the cooldown after the latest failure is over.
unfoldable pub cooled : ℕ → ℕ → List Call → Bool
unfolding last_failure
cooled cooldown now past = elim (last_failure past) [
  | none ↦ false
  | some at ↦ leb (at + cooldown) now
]

-- Whether a request came since the latest failure, after the cooldown.
unfoldable pub probed : ℕ → List Call → Bool
unfolding cooled
probed cooldown [] = false
probed cooldown (asks now ∷ past) = probed cooldown past || cooled cooldown now past
probed cooldown (succeeds ∷ past) = false
probed cooldown (fails now ∷ past) = false

-- The label that a history gives.
unfoldable pub expected : ℕ → ℕ → List Call → CircuitState
unfolding failures probed
expected threshold cooldown past =
    if ltb (failures past) threshold
    then closed
    else if probed cooldown past
    then half_open
    else open_state

-- The entry that one call leaves.
abbrev entry_after : ℕ → ℕ → Call → Option Entry → Entry
entry_after threshold cooldown (asks now) entry = (allow_entry cooldown now entry).0
entry_after threshold cooldown succeeds entry = counting 0
entry_after threshold cooldown (fails now) entry = failure_entry threshold now entry

-- What the stored entry says of the history; a used probe is the only half-open entry.
abbrev pub Records : ℕ → ℕ → List Call → Option Entry → Type 0
Records threshold cooldown past none = failures past ≡ 0
Records threshold cooldown past (some (counting streak)) =
    (failures past ≡ streak) × (streak < threshold)
Records threshold cooldown past (some (opened at)) =
    (threshold ≤ failures past) × (last_failure past ≡ some at) × (probed cooldown past ≡ false)
Records threshold cooldown past (some (probing used)) =
    (used ≡ true) × (threshold ≤ failures past) × (probed cooldown past ≡ true)

module _ (threshold cooldown : ℕ) (positive : 0 < threshold) where
  entry_after-Records :
      (past : List Call) (k : Call) (entry : Option Entry)
      → Records threshold cooldown past entry
      → Records threshold cooldown (k ∷ past) (some (entry_after threshold cooldown k entry))
  unfolding allow_entry failure_entry failures last_failure probed
  entry_after-Records past (asks now) none r = ground arith
  entry_after-Records past (asks now) (some (counting streak)) r = ground arith
  entry_after-Records past (asks now) (some (opened at)) r = ground arith
  entry_after-Records past (asks now) (some (probing true)) r = ground arith
  entry_after-Records past (asks now) (some (probing false)) r = ground arith
  entry_after-Records past succeeds entry r = ground arith
  entry_after-Records past (fails now) none r = ground arith
  entry_after-Records past (fails now) (some (counting streak)) r = ground arith
  entry_after-Records past (fails now) (some (opened at)) r = ground arith
  entry_after-Records past (fails now) (some (probing used)) r = ground arith

-- A call changes the entry of its own provider and no other.
call-entry :
    (c : CircuitBreaker) (j id : Text) (k : Call)
    → (call c (j, k)).by_provider id ≡ (
        if text_eq j id
        then some (entry_after c.threshold c.cooldown_ms k (c.by_provider id))
        else c.by_provider id)
unfolding call allow on_success on_transient_failure update
call-entry c j id (asks now) = ground (arith, text_eq_iff j id)
call-entry c j id succeeds = ground (arith, text_eq_iff j id)
call-entry c j id (fails now) = ground (arith, text_eq_iff j id)

call_keeps_config :
    (c : CircuitBreaker) (k : Text × Call)
    → ((call c k).threshold ≡ c.threshold) × ((call c k).cooldown_ms ≡ c.cooldown_ms)
unfolding call allow on_success on_transient_failure
call_keeps_config c (id, asks now) = (refl, refl)
call_keeps_config c (id, succeeds) = (refl, refl)
call_keeps_config c (id, fails now) = (refl, refl)

pub after_keeps_config :
    (c : CircuitBreaker) (past : List (Text × Call))
    → ((after c past).threshold ≡ c.threshold) × ((after c past).cooldown_ms ≡ c.cooldown_ms)
unfolding after
after_keeps_config c [] = (refl, refl)
after_keeps_config c (k ∷ past) =
    ground (arith, call_keeps_config (after c past) k, after_keeps_config c past)

Records-state_of :
    (threshold cooldown : ℕ) (past : List Call) (entry : Option Entry)
    → 0 < threshold
    → Records threshold cooldown past entry
    → state_of entry ≡ expected threshold cooldown past
unfolding state_of expected
Records-state_of threshold cooldown past none positive r = ground arith
Records-state_of threshold cooldown past (some (counting streak)) positive r = ground arith
Records-state_of threshold cooldown past (some (opened at)) positive r = ground arith
Records-state_of threshold cooldown past (some (probing used)) positive r = ground arith

abbrev pub admits : ℕ → ℕ → ℕ → List Call → Bool
admits threshold cooldown now past =
    ltb (failures past) threshold || (not (probed cooldown past) && cooled cooldown now past)

Records-admits :
    (threshold cooldown now : ℕ) (past : List Call) (entry : Option Entry)
    → 0 < threshold
    → Records threshold cooldown past entry
    → (allow_entry cooldown now entry).1 ≡ admits threshold cooldown now past
unfolding allow_entry cooled
Records-admits threshold cooldown now past none positive r = ground arith
Records-admits threshold cooldown now past (some (counting streak)) positive r = ground arith
Records-admits threshold cooldown now past (some (opened at)) positive r = ground arith
Records-admits threshold cooldown now past (some (probing true)) positive r = ground arith
Records-admits threshold cooldown now past (some (probing false)) positive r = ground arith

-- A breaker that has seen no call, with a positive threshold.
module _ (c : CircuitBreaker) (fresh : (j : Text) → c.by_provider j ≡ none)
    (positive : 0 < c.threshold) (id : Text) where
  pub after-Records :
      (past : List (Text × Call))
      → Records c.threshold c.cooldown_ms (calls_for id past) ((after c past).by_provider id)
  unfolding after calls_for failures
  after-Records [] = rw (fresh id) refl
  after-Records ((j, k) ∷ past) =
      let (same_threshold, same_cooldown) = after_keeps_config c past in
      let next =
        entry_after-Records c.threshold c.cooldown_ms positive (calls_for id past) k _
          (after-Records past) in
      rw (call-entry (after c past) j id k, same_threshold, same_cooldown)
        (elim (Bool-cases (text_eq j id)) [
          | inl same ↦ rw same next
          | inr other ↦ rw other (after-Records past)
        ])

  -- From a breaker that has seen no call and has a positive threshold, the label of a provider is
  -- `closed` exactly while fewer failures than the threshold were reported since its last success;
  -- past that it is half open if a request came since the latest failure and after the cooldown,
  -- and open if not. Calls for other providers play no part.
  pub state-after :
      (past : List (Text × Call))
      → state (after c past) id ≡ expected c.threshold c.cooldown_ms (calls_for id past)
  unfolding state
  state-after past = Records-state_of c.threshold c.cooldown_ms _ _ positive (after-Records past)

  -- From a breaker that has seen no call and has a positive threshold, after any history, a request
  -- is let through exactly if fewer failures than the threshold were reported since the last success
  -- of its provider, or if the cooldown after the latest failure is over and no request came after
  -- that cooldown yet.
  pub allow-after :
      (past : List (Text × Call)) (now : ℕ)
      → (allow (after c past) id now).1 ≡ admits c.threshold c.cooldown_ms now (calls_for id past)
  unfolding allow
  allow-after past now =
      rw (after_keeps_config c past).1
        (Records-admits c.threshold c.cooldown_ms now _ _ positive (after-Records past))
