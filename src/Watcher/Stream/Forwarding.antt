-- ===== src/Watcher/Stream/Forwarding.antt =====
-- Which events the channel takes, over all connections (`run`, `connect_and_pump` and the mock stream of
-- watcher/src/subscribe.rs).
use mathlib.Core.List.{append-nil}
use proof_of_thought.Prelude.{
  ℕ, ◌≡◌, refl, List, [], ◌∷◌, ◌++◌, Option, none, some, Bool, true, false, inl, inr, ◌⊎◌, ◌+◌, suc,
  length, arith, ◌∙◌,
}
use proof_of_thought.Watcher.Types.{Bytes, ThoughtSubmittedEvent}
use proof_of_thought.Watcher.Stream.{
  Connection, refused, responses, Pumped, channel_closed, drained, Running, event_of, pump_lines,
  pump, taken_by, connect_and_pump, turn, run, send, unless_closed,
}

abbrev Events : Type 0
Events = List ThoughtSubmittedEvent

-- The lines of every connection that was made, in order.
abbrev pub lines_of_stream : List (List Bytes) → List Bytes
lines_of_stream [] = []
lines_of_stream (logs ∷ stream) = logs ++ lines_of_stream stream

abbrev pub lines_of : List (Connection × ℕ) → List Bytes
lines_of [] = []
lines_of ((refused, nanos) ∷ connections) = lines_of connections
lines_of ((responses stream, nanos) ∷ connections) = lines_of_stream stream ++ lines_of connections

append_assoc : (xs ys zs : Events) → xs ++ ys ++ zs ≡ xs ++ (ys ++ zs)
append_assoc [] ys zs = refl
append_assoc (x ∷ xs) ys zs = cc (append_assoc xs ys zs)

module _ (is_utf8 : Bytes → Bool) (discriminator : Bytes) (decode_b64 : Bytes → Option Bytes)
    (trim : Bytes → Bytes) where
  abbrev keep : Option ThoughtSubmittedEvent → Events → Events
  keep none events = events
  keep (some event) events = event ∷ events

  keep-append :
      (o : Option ThoughtSubmittedEvent) (xs ys : Events) → keep o (xs ++ ys) ≡ keep o xs ++ ys
  keep-append none xs ys = refl
  keep-append (some event) xs ys = refl

  -- The events that some lines hold, in order.
  unfoldable pub events_in : List Bytes → Events
  events_in [] = []
  events_in (line ∷ lines) =
      keep (event_of is_utf8 discriminator decode_b64 trim line) (events_in lines)

  events_in-append : (xs ys : List Bytes) → events_in (xs ++ ys) ≡ events_in xs ++ events_in ys
  unfolding events_in
  events_in-append [] ys = refl
  events_in-append (line ∷ xs) ys = rw (events_in-append xs ys) (
      keep-append (event_of is_utf8 discriminator decode_b64 trim line) (events_in xs)
        (events_in ys))

  -- A receiver that stays.
  module _ (is_open : Events → Bool) (stays : (taken : Events) → is_open taken ≡ true) where
    send-keep :
        (o : Option ThoughtSubmittedEvent) (taken rest : Events) (k : Events → Pumped)
        → ((now : Events) → k now ≡ drained (now ++ rest))
        → unless_closed is_utf8 discriminator decode_b64 trim is_open
            (send is_utf8 discriminator decode_b64 trim is_open o taken)
            k
          ≡ drained (taken ++ keep o rest)
    send-keep none taken rest k h = h taken
    send-keep (some event) taken rest k h =
        rw (stays taken, h (taken ++ event ∷ []), append_assoc taken (event ∷ []) rest) refl

    pump_lines-events_in :
        (lines : List Bytes) (taken : Events)
        → pump_lines is_utf8 discriminator decode_b64 trim is_open lines taken
          ≡ drained (taken ++ events_in lines)
    unfolding pump_lines events_in
    pump_lines-events_in [] taken = rw (append-nil taken) refl
    pump_lines-events_in (line ∷ lines) taken =
        send-keep (event_of is_utf8 discriminator decode_b64 trim line) taken (events_in lines)
          (pump_lines is_utf8 discriminator decode_b64 trim is_open lines)
          (pump_lines-events_in lines)

    pump-events_in :
        (stream : List (List Bytes)) (taken : Events)
        → pump is_utf8 discriminator decode_b64 trim is_open stream taken
          ≡ drained (taken ++ events_in (lines_of_stream stream))
    unfolding pump
    pump-events_in [] taken = unfold events_in in rw (append-nil taken) refl
    pump-events_in (logs ∷ stream) taken =
        rw
          (
            pump_lines-events_in logs taken,
            pump-events_in stream (taken ++ events_in logs),
            append_assoc taken (events_in logs) (events_in (lines_of_stream stream)),
            events_in-append logs (lines_of_stream stream),
          )
          refl

    -- While the receiver stays, the channel takes the events of all lines of all connections that
    -- were made, each once and in order, after those it had taken.
    pub run-events_in :
        (connections : List (Connection × ℕ)) (r : Running)
        → (run is_utf8 discriminator decode_b64 trim is_open connections r).taken
          ≡ r.taken ++ events_in (lines_of connections)
    unfolding run turn connect_and_pump
    run-events_in [] r = unfold events_in in rw (append-nil r.taken) refl
    run-events_in ((refused, nanos) ∷ connections) r = run-events_in connections _
    run-events_in ((responses stream, nanos) ∷ connections) r =
        rw
          (
            run-events_in connections _,
            pump-events_in stream r.taken,
            append_assoc r.taken (events_in (lines_of_stream stream))
                (events_in (lines_of connections)),
            events_in-append (lines_of_stream stream) (lines_of connections),
          )
          refl

  -- Every connection answers.
  abbrev pub HaveAnswered : List (Connection × ℕ) → Type 0
  HaveAnswered [] = Unit
  HaveAnswered ((refused, nanos) ∷ connections) = ⊥
  HaveAnswered ((responses stream, nanos) ∷ connections) = HaveAnswered connections

  module _ (is_open : Events → Bool) (taken : Events) (closed : is_open taken ≡ false) where
    send-closed :
        (o : Option ThoughtSubmittedEvent)
        → (send is_utf8 discriminator decode_b64 trim is_open o taken ≡ drained taken)
          ⊎ (send is_utf8 discriminator decode_b64 trim is_open o taken ≡ channel_closed taken)
    send-closed none = inl refl
    send-closed (some event) = inr (rw closed refl)

    pump_lines-closed :
        (lines : List Bytes)
        → (pump_lines is_utf8 discriminator decode_b64 trim is_open lines taken ≡ drained taken)
          ⊎ (pump_lines is_utf8 discriminator decode_b64 trim is_open lines taken
              ≡ channel_closed taken)
    unfolding pump_lines
    pump_lines-closed [] = inl refl
    pump_lines-closed (line ∷ lines) =
        elim (send-closed (event_of is_utf8 discriminator decode_b64 trim line)) [
          | inl skipped ↦ rw skipped (pump_lines-closed lines)
          | inr stopped ↦ inr (rw stopped refl)
        ]

    pump-closed :
        (stream : List (List Bytes))
        → taken_by is_utf8 discriminator decode_b64 trim is_open
            (pump is_utf8 discriminator decode_b64 trim is_open stream taken)
          ≡ taken
    unfolding pump
    pump-closed [] = refl
    pump-closed (logs ∷ stream) = elim (pump_lines-closed logs) [
      | inl passed ↦ rw passed (pump-closed stream)
      | inr stopped ↦ rw stopped refl
    ]

    -- Once the receiver is gone, with no failure counted: over any number of connections that answer,
    -- the loop makes every one of them. It takes nothing, counts no failure and sleeps no delay, so
    -- the state it is left in is the one it had, but for as many more connections made.
    pub run_goes_on_when_closed :
        (connections : List (Connection × ℕ)) (r : Running)
        → HaveAnswered connections
        → r.attempt ≡ 0
        → r.taken ≡ taken
        → run is_utf8 discriminator decode_b64 trim is_open connections r
          ≡ record r { made = r.made + length connections }
    unfolding run turn connect_and_pump
    run_goes_on_when_closed [] r h first same =
        let whole : r.made + 0 ≡ r.made = omega arith in rw whole refl
    run_goes_on_when_closed ((refused, nanos) ∷ connections) r h first same = elim h [ ]
    run_goes_on_when_closed ((responses stream, nanos) ∷ connections) r h first same =
        let kept : taken_by is_utf8 discriminator decode_b64 trim is_open
              (pump is_utf8 discriminator decode_b64 trim is_open stream r.taken)
            ≡ r.taken =
          rw same (pump-closed stream) in
        let after : Running = record r { made = r.made + 1 } in
        let whole : record r { made = r.made + 1; attempt = 0; taken = r.taken } ≡ after =
          rw (← first) refl in
        let count : r.made + 1 + length connections ≡ r.made + suc (length connections) =
          omega arith in
        rw (kept, whole) (run_goes_on_when_closed connections after h first same ∙ rw count refl)
