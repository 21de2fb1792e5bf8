-- ===== src/Router/Stream/Commit.antt =====
-- packages/router/src/router.ts: a streamed chat is committed to the attempt that opens.
use Prim.Native.String.{String}
use goatrouter.Circuit.{CircuitBreaker}
use goatrouter.Common.{
  ℕ, ◌+◌, ◌≡◌, refl, true, Option, none, some, List, [], ◌∷◌, ◌++◌, Text, length, length-append,
  All, All-append, inl, inr, arith, Option-cases, map, sym, ◌∙◌,
}
use goatrouter.Route.{Route}
use goatrouter.Router.{base_mode, launch, start}
use goatrouter.Router.Types.{
  Attempt, responds, throws, Mode, Progress, Provider, Sent, effective_proxy_id,
}
use goatrouter.Router.Stream.{
  Delivery, StreamWorld, StreamFinish, StreamEnding, Close, served, stopped, unopened, none_tried,
  tag, deliver, stream_round, stream_exhausted, stream_refuse, chat_stream,
}
use goatrouter.Router.Stream.Rounds.{
  StreamKeeps, fails_over, stream_round_rule, open_rule, stream_loop_rule, stream_rule,
  close_keeps_sent,
}

module _ {C : Type 0} (v : StreamWorld C) where
  -- How the opening of an attempt went.
  abbrev pub opening_of : Sent → Attempt (Delivery C)
  opening_of s = v.world.send s.turn s.route s.provider s.proxy

  -- The attempt failed to open with one of the codes after which another provider may succeed, and
  -- the client had not cancelled.
  pub record PassedOn (s : Sent) : Type 0 where
    pub code : Option String
    pub failed : opening_of s ≡ throws code
    pub transient : fails_over v s.turn code ≡ true

  -- The attempts ended with one that went like this, and all before it were passed on.
  pub record EndsAt (sent : List Sent) (a : Attempt (Delivery C)) : Type 0 where
    pub before : List Sent
    pub last : Sent
    pub split : sent ≡ before ++ last ∷ []
    pub passed : All PassedOn before
    pub opening : opening_of last ≡ a

  -- The consumer received the chunks of one delivery, each marked with the route, the provider and
  -- the proxy of the last attempt and with the number of attempts.
  pub record Committed (f : StreamFinish C) (close : Close) : Type 0 where
    pub delivery : Delivery C
    pub ends : EndsAt f.progress.sent (responds delivery)
    pub closed : delivery.close ≡ close
    pub received :
        f.received
        ≡ map (tag ends.last.route ends.last.provider (length f.progress.sent)) delivery.chunks
    pub proxied : ends.last.proxy ≡ effective_proxy_id ends.last.route ends.last.provider

  -- What an ending says of the attempts and of what the consumer received.
  abbrev pub Accounts : (f : StreamFinish C) → StreamEnding → Type 0
  Accounts f (served close) = Committed f close
  Accounts f (unopened code) = EndsAt f.progress.sent (throws code) × (f.received ≡ [])
  Accounts f (stopped error) = All PassedOn f.progress.sent × (f.received ≡ [])
  Accounts f (none_tried n) = (f.progress.sent ≡ []) × (f.received ≡ [])

  abbrev LastFailure : Option (Option String) → List Sent → Type 0
  LastFailure none sent = sent ≡ []
  LastFailure (some code) sent = EndsAt sent (throws code)

  record Going (p : Progress) : Type 0 where
    counted : p.attempts ≡ length p.sent
    passed : All PassedOn p.sent
    kept : LastFailure p.last_failure p.sent

  abbrev Ended : StreamFinish C → Type 0
  Ended f = Accounts f f.ending

  deliver-Committed :
      (base : Mode) (n : ℕ) (route : Route) (provider : Provider) (d : Delivery C) (p : Progress)
      (before : List Sent) (s : Sent)
      → p.sent ≡ before ++ s ∷ []
      → p.attempts ≡ length p.sent
      → All PassedOn before
      → opening_of s ≡ responds d
      → s.route ≡ route
      → s.provider ≡ provider
      → s.proxy ≡ effective_proxy_id route provider
      → Committed (deliver v base n route provider d p) d.close
  unfolding deliver
  deliver-Committed base n route provider d p before s split counted passed opening r q proxied =
      let same = close_keeps_sent v base route provider d.close _ in
      record {
        delivery = d;
        ends = record {
          before = before;
          last = s;
          split = same ∙ split;
          passed = passed;
          opening = opening;
        };
        closed = refl;
        received = rw (same, r, q, sym counted) refl;
        proxied = rw (r, q) proxied;
      }

  deliver-Ended :
      (base : Mode) (n : ℕ) (route : Route) (provider : Provider) (d : Delivery C) (p : Progress)
      → Committed (deliver v base n route provider d p) d.close
      → Ended (deliver v base n route provider d p)
  unfolding deliver
  deliver-Ended base n route provider d p committed = committed

  round-Going :
      (base : Mode) (n : ℕ) (route : Route) (p : Progress)
      → Going p
      → StreamKeeps Going Ended (stream_round v base n route p)
  round-Going base n route p g =
      stream_round_rule v base Going Ended n route p
        (record { counted = g.counted; passed = g.passed; kept = g.kept }) (g.passed, refl)
        (λ b. record { counted = g.counted; passed = g.passed; kept = g.kept })
        λ provider known on free admitted.
          let s : Sent = record {
            turn = n;
            route = route;
            provider = provider;
            proxy = effective_proxy_id route provider;
            gate = p.breaker;
          } in
          let more : p.attempts + 1 ≡ length (p.sent ++ s ∷ []) =
            omega (arith, g.counted, length-append p.sent (s ∷ [])) in
          let ends : (a : Attempt (Delivery C)) → opening_of s ≡ a → EndsAt (p.sent ++ s ∷ []) a =
            λ a e. record {
              before = p.sent;
              last = s;
              split = refl;
              passed = g.passed;
              opening = e;
            } in
          open_rule v base Going Ended n route provider p
            (λ d e.
              deliver-Ended base n route provider d
                (launch v.world base n route provider p.breaker p)
                (deliver-Committed base n route provider d
                  (launch v.world base n route provider p.breaker p) p.sent s refl more g.passed e
                  refl refl refl))
            (λ code e transient. record {
              counted = more;
              passed =
                  All-append PassedOn p.sent (s ∷ []) g.passed
                    (record { code = code; failed = e; transient = transient }, tt);
              kept = ends (throws code) e;
            })
            (λ code e fixed. (ends (throws code) e, refl))

  exhausted-Ended : (base : Mode) (p : Progress) → Going p → Ended (stream_exhausted v base p)
  unfolding stream_exhausted
  exhausted-Ended base p g = elim (Option-cases p.last_failure) [
    | inl quiet ↦ rw (quiet, stream_exhausted) (rw quiet at g.kept, refl)
    | inr (code, failed) ↦ rw (failed, stream_exhausted) (rw failed at g.kept, refl)
  ]

-- The ending of a streamed chat follows from its attempts, all but the last of which failed to open
-- with a code of the failover set while the client had not cancelled. Once an attempt opens, it is
-- the last, whether its stream is read to the end, breaks or is left: what the consumer receives
-- are the chunks of that one delivery, each marked with the route, the provider and the proxy of
-- that attempt and the number of attempts. In every other ending the consumer receives nothing: an
-- error that is rethrown is that of the last attempt, when every candidate was skipped there was no
-- attempt, and after any other refusal every attempt made had been passed on.
pub chat_stream-Accounts :
    {C : Type 0} (v : StreamWorld C) (breaker : CircuitBreaker) (routes : List Route) (model : Text)
    → Accounts v (chat_stream v breaker routes model) (chat_stream v breaker routes model).ending
unfolding stream_refuse
chat_stream-Accounts v breaker routes model =
    stream_rule v breaker (λ f. Accounts v f f.ending) routes model (λ e _. (tt, refl)) (tt, refl)
      (tt, refl)
      λ found r rest resolved kept.
        stream_loop_rule v (base_mode (r ∷ rest)) (Going v) (λ f. Accounts v f f.ending) (r ∷ rest)
          (λ n route p m g. round-Going v (base_mode (r ∷ rest)) n route p g)
          (λ p g. exhausted-Ended v (base_mode (r ∷ rest)) p g) 0 (r ∷ rest) (start breaker)
          (λ x m. m) (record { counted = refl; passed = tt; kept = refl })
