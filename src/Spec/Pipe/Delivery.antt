-- ===== src/Spec/Pipe/Delivery.antt =====
-- What the consumers of spec/pipe.go get, and what happens where the loop has not been started.
use mathlib.Core.List.{append_assoc, append-nil}
use toh.Base.{
  ◌<◌, ◌≤◌, ◌≡◌, refl, sym, ap, ◌∙◌, subst, Bool, true, false, List, [], ◌∷◌, ◌++◌, length, map,
  length-append, arith,
}
use toh.Spec.Pipe.{TrafficEvent, capacity, Engine, notify, ChannelStep, sends, consumes}

module _ {W : Type 0} where
  -- The consumers have had these events, one after the other.
  abbrev pub notify_all : List (TrafficEvent → W → W) → List TrafficEvent → W → W
  notify_all cs [] w = w
  notify_all cs (e ∷ es) w = notify_all cs es (notify cs e w)

  notify_all-append :
      (cs : List (TrafficEvent → W → W)) (es : List TrafficEvent) (e : TrafficEvent) (w : W)
      → notify_all cs (es ++ e ∷ []) w ≡ notify cs e (notify_all cs es w)
  notify_all-append cs [] e w = refl
  notify_all-append cs (d ∷ es) e w = notify_all-append cs es e (notify cs d w)

  -- The calls of the consumers for these events: for each event one of every consumer, in order.
  abbrev pub calls : List (TrafficEvent → W → W) → List TrafficEvent → List (W → W)
  calls cs [] = []
  calls cs (e ∷ es) = map (λ c. c e) cs ++ calls cs es

  abbrev pub called : List (W → W) → W → W
  called [] w = w
  called (f ∷ fs) w = called fs (f w)

  called-append : (fs gs : List (W → W)) (w : W) → called (fs ++ gs) w ≡ called gs (called fs w)
  called-append [] gs w = refl
  called-append (f ∷ fs) gs w = called-append fs gs (f w)

  notify-calls :
      (cs : List (TrafficEvent → W → W)) (e : TrafficEvent) (w : W)
      → notify cs e w ≡ called (map (λ c. c e) cs) w
  notify-calls [] e w = refl
  notify-calls (c ∷ cs) e w = notify-calls cs e (c e w)

  notify_all-calls :
      (cs : List (TrafficEvent → W → W)) (es : List TrafficEvent) (w : W)
      → notify_all cs es w ≡ called (calls cs es) w
  notify_all-calls cs [] w = refl
  notify_all-calls cs (e ∷ es) w =
      notify_all-calls cs es (notify cs e w)
      ∙ ap (called (calls cs es)) (notify-calls cs e w)
      ∙ sym (called-append (map (λ c. c e) cs) (calls cs es) w)

  -- The runs from `s`, with the events that have been sent and those that have been consumed.
  pub data Run (looping : Bool) (s : Engine W)
      : List TrafficEvent → List TrafficEvent → Engine W → Type 0 where
    here : Run looping s [] [] s
    sent :
        {xs ys : List TrafficEvent} {t : Engine W}
        → Run looping s xs ys t
        → (e : TrafficEvent) → length t.event_chan < capacity
        → Run looping s (xs ++ e ∷ []) ys (record t { event_chan = t.event_chan ++ e ∷ [] })
    consumed :
        {xs ys : List TrafficEvent} {t : Engine W}
        → Run looping s xs ys t
        → (e : TrafficEvent) (rest : List TrafficEvent) → looping ≡ true
        → t.event_chan ≡ e ∷ rest
        → Run looping s xs
            (ys ++ e ∷ [])
            (record t { event_chan = rest; world = notify t.consumers e t.world })

  -- The runs are those of the steps.
  Run-ChannelStep :
      {looping : Bool} {s t : Engine W} {xs ys : List TrafficEvent}
      → Run looping s xs ys t
      → (u : Engine W) → ChannelStep looping t u
      → (xs' ys' : List TrafficEvent) × Run looping s xs' ys' u
  Run-ChannelStep {looping} {s} {xs} {ys} r u (sends e room next) =
      (xs ++ e ∷ [], ys, subst (λ v. Run looping s (xs ++ e ∷ []) ys v) (sym next) (sent r e room))
  Run-ChannelStep {looping} {s} {xs} {ys} r u (consumes e rest on head next) = (
    xs,
    ys ++ e ∷ [],
    subst (λ v. Run looping s xs (ys ++ e ∷ []) v) (sym next) (consumed r e rest on head),
  )

  -- In every run from an empty channel: the channel holds the events that have been sent and not
  -- been consumed, in order and at most 4096 of them, and every consumer has had the consumed ones,
  -- in order.
  Run-order :
      {looping : Bool} {s t : Engine W} {xs ys : List TrafficEvent}
      → Run looping s xs ys t
      → s.event_chan ≡ []
      → (xs ≡ ys ++ t.event_chan)
        × (length t.event_chan ≤ capacity)
        × (t.consumers ≡ s.consumers)
        × (t.world ≡ notify_all s.consumers ys s.world)
  Run-order here empty =
      (sym empty, subst (λ c. length c ≤ capacity) (sym empty) (omega arith), refl, refl)
  Run-order {s} (sent {xs} {ys} {t} r e room) empty =
      let (order, fits, same_consumers, world) = Run-order r empty in
      let longer = length-append t.event_chan (e ∷ []) in
      (
        ap (λ l. l ++ e ∷ []) order ∙ append_assoc ys t.event_chan (e ∷ []),
        omega arith,
        same_consumers,
        world,
      )
  Run-order {s} (consumed {xs} {ys} {t} r e rest on head) empty =
      let (order, fits, same_consumers, world) = Run-order r empty in
      let shorter = ap length head in
      (
        order ∙ ap (λ l. ys ++ l) head ∙ sym (append_assoc ys (e ∷ []) rest),
        omega arith,
        same_consumers,
        ap (λ c. notify c e t.world) same_consumers
            ∙ ap (notify s.consumers e) world
            ∙ sym (notify_all-append s.consumers ys e s.world),
      )

  -- The loop takes what the channel holds.
  drains :
      {s : Engine W} (es : List TrafficEvent) {t : Engine W} {xs ys : List TrafficEvent}
      → Run true s xs ys t
      → t.event_chan ≡ es
      → (u : Engine W) × Run true s xs (ys ++ es) u × (u.event_chan ≡ [])
  drains {s} [] {t} {xs} {ys} r holds =
      (t, subst (λ l. Run true s xs l t) (sym (append-nil ys)) r, holds)
  drains {s} (e ∷ es) {xs = xs} {ys} r holds =
      let (u, there, done) = drains es (consumed r e es refl holds) refl in
      (u, subst (λ l. Run true s xs l u) (append_assoc ys (e ∷ []) es) there, done)

  -- Where the loop has been started, every run from an empty channel can be continued, without
  -- another send, to a state in which the channel is empty and the consumers have been called for
  -- all the events that have been sent, in the order in which they were sent, and for each event
  -- every consumer once.
  pub Run_drains :
      {s t : Engine W} {xs ys : List TrafficEvent}
      → Run true s xs ys t
      → s.event_chan ≡ []
      → (u : Engine W) × Run true s xs xs u
        × (u.event_chan ≡ [])
        × (u.world ≡ called (calls s.consumers xs) s.world)
  Run_drains {s} {t} {xs} {ys} r empty =
      let (order, fits, same_consumers, world) = Run-order r empty in
      let (u, there, done) = drains t.event_chan r refl in
      let all = subst (λ l. Run true s xs l u) (sym order) there in
      let (all_order, all_fits, all_consumers, all_world) = Run-order all empty in
      (u, all, done, all_world ∙ notify_all-calls s.consumers xs s.world)

  -- A run without the loop consumes nothing.
  idle : {s t : Engine W} {xs ys : List TrafficEvent} → Run false s xs ys t → (ys ≡ [])
  idle here = refl
  idle (sent r e room) = idle r
  idle (consumed r e rest on head) = absurd (cc on)

  -- The loop, which has not been started, takes nothing, and a send waits.
  full_stuck :
      {t : Engine W} → length t.event_chan ≡ capacity → (u : Engine W) → ¬ ChannelStep false t u
  full_stuck full u (sends e room next) = omega arith
  full_stuck full u (consumes e rest on head next) = cc on

  -- Where the loop has not been started, no consumer gets an event in any run from an empty channel, at
  -- most 4096 events are sent, and after 4096 of them neither a send nor anything else can happen.
  pub Run_blocks :
      {s t : Engine W} {xs ys : List TrafficEvent}
      → Run false s xs ys t
      → s.event_chan ≡ []
      → (t.world ≡ s.world)
        × (length xs ≤ capacity)
        × (length xs ≡ capacity → (u : Engine W) → ¬ ChannelStep false t u)
  Run_blocks {s} {t} {xs} {ys} r empty =
      let (order, fits, same_consumers, world) = Run-order r empty in
      let none_consumed = idle r in
      let as_sent = ap length (order ∙ ap (λ l. l ++ t.event_chan) none_consumed) in
      (
        world ∙ ap (λ l. notify_all s.consumers l s.world) none_consumed,
        omega arith,
        λ all. full_stuck (omega arith),
      )
