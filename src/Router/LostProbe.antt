-- ===== src/Router/LostProbe.antt =====
-- packages/router/src/router.ts and circuit.ts: a half-open probe whose attempt fails with a code
-- outside the failover set. Neither `onSuccess` nor `onTransientFailure` is called for it.
use Prim.Native.String.{String}
use goatrouter.Circuit.{
  half_open, opened, probing, CircuitBreaker, state, state_of, allow, allow_entry,
}
use goatrouter.Common.{
  ℕ, ◌+◌, ◌≤◌, ◌≡◌, refl, ◌∙◌, true, false, Option, some, arith, Text, update, update_self,
}
use goatrouter.Route.{Route}
use goatrouter.Router.{catch_failure, try_candidate, gate_candidate, round, give_up, launch}
use goatrouter.Router.Types.{
  Provider, World, throws, Mode, Progress, Finish, rethrown, done, effective_proxy_id,
  is_failover_code,
}
use goatrouter.Router.Rounds.{may_not_spend}

-- What the breaker holds after it admitted a probe.
pub allow_probe :
    (c : CircuitBreaker) (id : Text) (at now : ℕ)
    → c.by_provider id ≡ some (opened at)
    → at + c.cooldown_ms ≤ now
    → ((allow c id now).1 ≡ true) × ((allow c id now).0.by_provider id ≡ some (probing true))
unfolding allow allow_entry update
allow_probe c id at now open_entry over =
    ground (arith, update_self c.by_provider id (probing true))

pub probing_refuses :
    (c : CircuitBreaker) (id : Text)
    → c.by_provider id ≡ some (probing true)
    → (state c id ≡ half_open) × ((now : ℕ) → (allow c id now).1 ≡ false)
unfolding state state_of allow allow_entry
probing_refuses c id e = (rw (e, state_of) refl, λ now. rw (e, allow_entry) refl)

tried_fails :
    {R : Type 0} (w : World R) (base : Mode) (n : ℕ) (route : Route) (provider : Provider)
    (code : Option String) (p : Progress)
    → w.send n route provider (effective_proxy_id route provider) ≡ throws code
    → is_failover_code code ≡ false
    → try_candidate w base n route provider p.breaker p
      ≡ done (give_up w base route provider code (launch w base n route provider p.breaker p))
unfolding try_candidate catch_failure
tried_fails w base n route provider code p failed fixed = rw (failed, try_candidate) (rw fixed refl)

-- Let a candidate come to its turn at a provider known and enabled, without being refused as not
-- free, with its circuit open and the cooldown over, so that its attempt is the half-open probe, and
-- let no other request touch that circuit during the attempt. If the
-- attempt throws a code outside the failover set, the chat rethrows it, and leaves the circuit half
-- open with its probe used: from then on it refuses at every time.
pub lost_probe :
    {R : Type 0} (w : World R) (base : Mode) (n at : ℕ) (route : Route) (provider : Provider)
    (code : Option String) (p : Progress)
    → w.provider n route.provider_id ≡ some provider
    → provider.enabled ≡ true
    → may_not_spend w base n route ≡ false
    → p.breaker.by_provider provider.id ≡ some (opened at)
    → at + p.breaker.cooldown_ms ≤ w.gate_clock n
    → ((b : CircuitBreaker) → (w.meanwhile n b).by_provider provider.id ≡ b.by_provider provider.id)
    → w.send n route provider (effective_proxy_id route provider) ≡ throws code
    → is_failover_code code ≡ false
    → (f : Finish R) × (round w base n route p ≡ done f)
      × (f.ending ≡ rethrown code)
      × (state f.progress.breaker provider.id ≡ half_open)
      × ((now : ℕ) → (allow f.progress.breaker provider.id now).1 ≡ false)
unfolding round gate_candidate
lost_probe w base n at route provider code p known on free open_entry over alone failed fixed =
    let (admitted, probing_entry) =
      allow_probe p.breaker provider.id at (w.gate_clock n) open_entry over in
    let after = launch w base n route provider p.breaker p in
    let (half, refuses) =
      probing_refuses after.breaker provider.id
        (alone (allow p.breaker provider.id (w.gate_clock n)).0 ∙ probing_entry) in
    (
      give_up w base route provider code after,
      rw (known, round)
          (simp on (rw (free, admitted) (tried_fails w base n route provider code p failed fixed))),
      refl,
      half,
      refuses,
    )
