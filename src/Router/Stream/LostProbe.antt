-- ===== src/Router/Stream/LostProbe.antt =====
-- packages/router/src/router.ts: a half-open probe whose stream is not read to its end.
use goatrouter.Circuit.{CircuitBreaker, opened, allow, state, half_open}
use goatrouter.Common.{ℕ, ◌+◌, ◌≤◌, ◌≡◌, ◌≢◌, refl, true, false, some, ◌∙◌, ap}
use goatrouter.Route.{Route}
use goatrouter.Router.{launch}
use goatrouter.Router.Types.{Provider, Mode, Progress, responds, effective_proxy_id}
use goatrouter.Router.Rounds.{may_not_spend}
use goatrouter.Router.LostProbe.{allow_probe, probing_refuses}
use goatrouter.Router.Stream.{
  Close, delivered, abandoned, breaks, Delivery, StreamWorld, StreamFinish, final, served,
  close_stream, deliver, open_candidate, stream_gate, stream_round,
}

unfinished_unreported :
    {C : Type 0} (v : StreamWorld C) (base : Mode) (route : Route) (provider : Provider)
    (close : Close) (p : Progress)
    → close ≢ delivered
    → (close_stream v base route provider close p).breaker ≡ p.breaker
unfolding close_stream
unfinished_unreported v base route provider delivered p ends = absurd (ends refl)
unfinished_unreported v base route provider abandoned p ends = refl
unfinished_unreported v base route provider (breaks code) p ends = refl

opens_final :
    {C : Type 0} (v : StreamWorld C) (base : Mode) (n : ℕ) (route : Route) (provider : Provider)
    (d : Delivery C) (p : Progress)
    → v.world.send n route provider (effective_proxy_id route provider) ≡ responds d
    → open_candidate v base n route provider p.breaker p
      ≡ final (deliver v base n route provider d (launch v.world base n route provider p.breaker p))
unfolding open_candidate
opens_final v base n route provider d p opens = rw (opens, open_candidate) refl

-- Let a candidate come to its turn at a provider known and enabled, without being refused as not
-- free, with its circuit open and the cooldown over, so that its attempt is the half-open probe, and
-- let no other request touch that circuit meanwhile. If the attempt
-- opens a stream that is not read to its end, since it breaks, with whatever code, or since the
-- consumer leaves it, the circuit is left half open with its probe used: from then on it refuses at
-- every time.
pub lost_stream_probe :
    {C : Type 0} (v : StreamWorld C) (base : Mode) (n at : ℕ) (route : Route) (provider : Provider)
    (d : Delivery C) (p : Progress)
    → v.world.provider n route.provider_id ≡ some provider
    → provider.enabled ≡ true
    → may_not_spend v.world base n route ≡ false
    → p.breaker.by_provider provider.id ≡ some (opened at)
    → at + p.breaker.cooldown_ms ≤ v.world.gate_clock n
    → ((b : CircuitBreaker)
        → (v.world.meanwhile n b).by_provider provider.id ≡ b.by_provider provider.id)
    → ((b : CircuitBreaker)
        → (v.while_streaming n b).by_provider provider.id ≡ b.by_provider provider.id)
    → v.world.send n route provider (effective_proxy_id route provider) ≡ responds d
    → d.close ≢ delivered
    → (f : StreamFinish C) × (stream_round v base n route p ≡ final f)
      × (f.ending ≡ served d.close)
      × (state f.progress.breaker provider.id ≡ half_open)
      × ((now : ℕ) → (allow f.progress.breaker provider.id now).1 ≡ false)
unfolding stream_round stream_gate deliver
lost_stream_probe v base n at route provider d p known on free open_entry over alone quiet opens
      unfinished =
    let (admitted, probing_entry) =
      allow_probe p.breaker provider.id at (v.world.gate_clock n) open_entry over in
    let after = launch v.world base n route provider p.breaker p in
    let f = deliver v base n route provider d after in
    let kept = unfinished_unreported v base route provider d.close _ unfinished in
    let (half, refuses) = probing_refuses f.progress.breaker provider.id (
      ap (λ b. b.by_provider provider.id) kept
      ∙ (quiet after.breaker
          ∙ (alone (allow p.breaker provider.id (v.world.gate_clock n)).0 ∙ probing_entry))) in
    (
      f,
      rw (known, stream_round)
          (simp on (rw (free, admitted) (opens_final v base n route provider d p opens))),
      refl,
      half,
      refuses,
    )
