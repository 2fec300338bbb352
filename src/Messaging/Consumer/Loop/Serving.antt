-- ===== src/Messaging/Consumer/Loop/Serving.antt =====
-- What the loop of `Consume` does with the deliveries, and how it ends.
use stockflow_erp_mock.Common.{
  ℕ, length, ◌≢◌, suc, ◌+◌, ◌≡◌, ◌⊎◌, inl, inr, refl, ap, ◌∙◌, true, false, Option, none, some,
  List, [], ◌∷◌, ◌++◌, arith, Bool-cases,
}
use stockflow_erp_mock.Common.Int.{ℤ}
use stockflow_erp_mock.Inventory.Errors.{Error, other}
use stockflow_erp_mock.Messaging.Amqp.{Codec}
use stockflow_erp_mock.Messaging.Consumer.{World}
use stockflow_erp_mock.Messaging.Consumer.Requests.{handle_delivery}
use stockflow_erp_mock.Messaging.Consumer.Releases.{handle_release_delivery}
use stockflow_erp_mock.Messaging.Consumer.Settlement.{settlements}
use stockflow_erp_mock.Messaging.Consumer.Settlement.OfRequests.{handle_delivery_settles_once}
use stockflow_erp_mock.Messaging.Consumer.Settlement.OfReleases.{
  handle_release_delivery_settles_once,
}
use stockflow_erp_mock.Messaging.Consumer.Loop.{
  Cancelled, done, was_closed, failed, Choice, context_done, request, release, requests_closed,
  releases_closed, Outcome, running, returned, after_delivery, cancel_consumers, consume_loop,
}
use stockflow_erp_mock.Messaging.Consumer.Loop.Returns.{
  handle_delivery-error, handle_release_delivery-error,
}

-- A delivery whose `Ack` or `Nack` succeeds.
abbrev pub GoesOn : Choice → Type 0
GoesOn (request env delivery) = env.settles ≡ true
GoesOn (release env delivery) = env.settles ≡ true
GoesOn _ = ⊥

abbrev pub AllGoOn : List Choice → Type 0
AllGoOn [] = Unit
AllGoOn (c ∷ choices) = GoesOn c × AllGoOn choices

abbrev pub IsError : Option Error → Type 0
IsError o = (e : Error) × (o ≡ some e)

-- What a choice ends the loop with. The loop returns no error exactly where the context has ended
-- it, and each `Cancel` has succeeded or met a closed channel.
abbrev pub EndsWith : Choice → Option Error → Type 0
EndsWith (context_done a b) o =
    ((a ≢ failed) × (b ≢ failed) × (o ≡ none)) ⊎ (((a ≡ failed) ⊎ (b ≡ failed)) × IsError o)
EndsWith (requests_closed context_err) o =
    ((context_err ≡ true) × (o ≡ none)) ⊎ ((context_err ≡ false) × IsError o)
EndsWith (releases_closed context_err) o =
    ((context_err ≡ true) × (o ≡ none)) ⊎ ((context_err ≡ false) × IsError o)
EndsWith (request env delivery) o = (env.settles ≡ false) × IsError o
EndsWith (release env delivery) o = (env.settles ≡ false) × IsError o

-- The calls of `Ack` and `Nack` for a choice.
abbrev pub settled_for : Choice → ℕ
settled_for (request env delivery) = 1
settled_for (release env delivery) = 1
settled_for _ = 0

cancel_consumers_lem : (a b : Cancelled) → EndsWith (context_done a b) (cancel_consumers a b)
unfolding cancel_consumers
cancel_consumers_lem failed b = inr (inl refl, (_, refl))
cancel_consumers_lem done failed = inr (inr refl, (_, refl))
cancel_consumers_lem was_closed failed = inr (inr refl, (_, refl))
cancel_consumers_lem done done = inl (ground arith, ground arith, refl)
cancel_consumers_lem done was_closed = inl (ground arith, ground arith, refl)
cancel_consumers_lem was_closed done = inl (ground arith, ground arith, refl)
cancel_consumers_lem was_closed was_closed = inl (ground arith, ground arith, refl)

pub after_delivery-none :
    (loop : World → Outcome × World) (p : Option Error × World)
    → p.0 ≡ none
    → after_delivery loop p ≡ loop p.1
after_delivery-none loop (o, w) e = rw e refl

pub after_delivery-some :
    (loop : World → Outcome × World) (p : Option Error × World) (e : Error)
    → p.0 ≡ some e
    → after_delivery loop p ≡ (returned (some e), p.1)
after_delivery-some loop (o, w) e h = rw h refl

module _ (codec : Codec) (max_retry_count : ℤ) where
  -- What a choice makes of the world: a request is handled by `handleDelivery`, a release request by
  -- `handleReleaseDelivery`, and what ends the loop changes nothing.
  abbrev pub world_of : Choice → World → World
  world_of (request env delivery) w = (handle_delivery codec max_retry_count env delivery w).1
  world_of (release env delivery) w =
      (handle_release_delivery codec max_retry_count env delivery w).1
  world_of _ w = w

  -- The world after some choices, in their order.
  abbrev pub world_after : List Choice → World → World
  world_after [] w = w
  world_after (c ∷ choices) w = world_after choices (world_of c w)

  -- The loop has served all choices, and runs on.
  pub record Serves (choices : List Choice) (w : World) : Type 0 where
    pub goes_on : AllGoOn choices
    pub outcome : (consume_loop codec max_retry_count choices w).0 ≡ running
    pub world : (consume_loop codec max_retry_count choices w).1 ≡ world_after choices w
    pub settles :
        settlements (consume_loop codec max_retry_count choices w).1.log
        ≡ length choices + settlements w.log

  -- The loop has served the choices in front of `last`, which has ended it.
  pub record Ended (choices : List Choice) (w : World) : Type 0 where
    pub front : List Choice
    pub last : Choice
    pub back : List Choice
    pub error : Option Error
    pub parts : choices ≡ front ++ last ∷ back
    pub goes_on : AllGoOn front
    pub ends : EndsWith last error
    pub outcome : (consume_loop codec max_retry_count choices w).0 ≡ returned error
    pub world :
        (consume_loop codec max_retry_count choices w).1 ≡ world_of last (world_after front w)
    pub settles :
        settlements (consume_loop codec max_retry_count choices w).1.log
        ≡ length front + (settled_for last + settlements w.log)

  serve_one :
      (c : Choice) (choices : List Choice) (w : World)
      → GoesOn c
      → consume_loop codec max_retry_count (c ∷ choices) w
        ≡ consume_loop codec max_retry_count choices (world_of c w)
      → settlements (world_of c w).log ≡ suc (settlements w.log)
      → Serves choices (world_of c w) ⊎ Ended choices (world_of c w)
      → Serves (c ∷ choices) w ⊎ Ended (c ∷ choices) w
  serve_one c choices w g e n (inl s) = inl (record {
    goes_on = (g, s.goes_on);
    outcome = rw e s.outcome;
    world = rw e s.world;
    settles = rw (e, s.settles, n) (omega arith);
  })
  serve_one c choices w g e n (inr s) = inr (record {
    front = c ∷ s.front;
    last = s.last;
    back = s.back;
    error = s.error;
    parts = ap (λ cs. c ∷ cs) s.parts;
    goes_on = (g, s.goes_on);
    ends = s.ends;
    outcome = rw e s.outcome;
    world = rw e s.world;
    settles = rw (e, s.settles, n) (omega arith);
  })

  end_here :
      (c : Choice) (choices : List Choice) (w : World) (o : Option Error)
      → EndsWith c o
      → (consume_loop codec max_retry_count (c ∷ choices) w).0 ≡ returned o
      → (consume_loop codec max_retry_count (c ∷ choices) w).1 ≡ world_of c w
      → settlements (world_of c w).log ≡ settled_for c + settlements w.log
      → Serves (c ∷ choices) w ⊎ Ended (c ∷ choices) w
  end_here c choices w o ends outcome world settles = inr (record {
    front = [];
    last = c;
    back = choices;
    error = o;
    parts = refl;
    goes_on = tt;
    ends = ends;
    outcome = outcome;
    world = world;
    settles = rw (world, settles) (omega arith);
  })

  -- Whatever the choices, the loop serves the deliveries in their order: a request by
  -- `handleDelivery` and a release request by `handleReleaseDelivery`, in the world that those before
  -- it have left, each with one call of `Ack` or `Nack`. It runs on for as long as those calls
  -- succeed, and ends at the first choice that is no such delivery. It returns no error exactly where
  -- that choice is the end of the context, with no failed `Cancel`, or a closed channel while the
  -- context has an error.
  pub consume_loop_lem : (choices : List Choice) (w : World) → Serves choices w ⊎ Ended choices w
  unfolding consume_loop
  consume_loop_lem [] w =
      inl (record { goes_on = tt; outcome = refl; world = refl; settles = omega arith })
  consume_loop_lem (context_done a b ∷ choices) w =
      end_here _ choices w _ (cancel_consumers_lem a b) refl refl (omega arith)
  consume_loop_lem (requests_closed true ∷ choices) w =
      end_here _ choices w none (inl (refl, refl)) refl refl (omega arith)
  consume_loop_lem (requests_closed false ∷ choices) w =
      end_here _ choices w _ (inr (refl, (_, refl))) refl refl (omega arith)
  consume_loop_lem (releases_closed true ∷ choices) w =
      end_here _ choices w none (inl (refl, refl)) refl refl (omega arith)
  consume_loop_lem (releases_closed false ∷ choices) w =
      end_here _ choices w _ (inr (refl, (_, refl))) refl refl (omega arith)
  consume_loop_lem (request env delivery ∷ choices) w =
      let p = handle_delivery codec max_retry_count env delivery w in
      let error = handle_delivery-error codec max_retry_count env delivery w in
      let once = handle_delivery_settles_once codec max_retry_count env delivery w in
      elim (Bool-cases env.settles) [
        | inl g ↦
            serve_one (request env delivery) choices w g
              (after_delivery-none (consume_loop codec max_retry_count choices) p
                (error ∙ rw g refl))
              once (consume_loop_lem choices p.1)
        | inr g ↦
            let e =
              after_delivery-some (consume_loop codec max_retry_count choices) p
                (other "settle delivery") (error ∙ rw g refl) in
            end_here (request env delivery) choices w (some (other "settle delivery"))
              (g, (_, refl)) (ap (λ x. x.0) e) (ap (λ x. x.1) e) (once ∙ omega arith)
      ]
  consume_loop_lem (release env delivery ∷ choices) w =
      let p = handle_release_delivery codec max_retry_count env delivery w in
      let error = handle_release_delivery-error codec max_retry_count env delivery w in
      let once = handle_release_delivery_settles_once codec max_retry_count env delivery w in
      elim (Bool-cases env.settles) [
        | inl g ↦
            serve_one (release env delivery) choices w g
              (after_delivery-none (consume_loop codec max_retry_count choices) p
                (error ∙ rw g refl))
              once (consume_loop_lem choices p.1)
        | inr g ↦
            let e =
              after_delivery-some (consume_loop codec max_retry_count choices) p
                (other "settle delivery") (error ∙ rw g refl) in
            end_here (release env delivery) choices w (some (other "settle delivery"))
              (g, (_, refl)) (ap (λ x. x.0) e) (ap (λ x. x.1) e) (once ∙ omega arith)
      ]
