-- ===== src/Watcher/Stream.antt =====
-- The log subscription (watcher/src/subscribe.rs, the live half). A run over the connections that are made
-- is an explicit sequence: what each connection brings, and the clock's nanoseconds when it fails. The
-- base64 decoder, `trim`, the websocket and the channel's receiver are parameters.
pub mod Forwarding
pub mod Backoff
pub mod Emission
use proof_of_thought.Prelude.{
  ℕ, zero, suc, ◌+◌, ◌*◌, ◌%◌, ◌^◌, List, [], ◌∷◌, ◌++◌, Option, none, some, Bool, true, false,
  if◌then◌else◌, ltb, min, max,
}
use proof_of_thought.Prelude.Word.{saturating_add}
use proof_of_thought.Watcher.Types.{Bytes, strip_prefix, ThoughtSubmittedEvent}
use proof_of_thought.Watcher.Subscribe.{
  Parsed, parsed, bad, base64_decode, ◌>>=◌, parse_anchor_event_bytes,
}

abbrev pub program_data : Bytes
program_data = 80 ∷ 114 ∷ 111 ∷ 103 ∷ 114 ∷ 97 ∷ 109 ∷ 32 ∷ 100 ∷ 97 ∷ 116 ∷ 97 ∷ 58 ∷ 32 ∷ []

abbrev pub decoded : Option Bytes → Parsed Bytes
decoded none = bad base64_decode
decoded (some bytes) = parsed bytes

-- `1_000u64.checked_shl(attempt.min(6)).unwrap_or(60_000).min(60_000)`; a shift by less than 64 is
-- not `None`.
abbrev pub bound_ms : ℕ → ℕ
bound_ms attempt = min (1_000 * 2 ^ min attempt 6 % 2 ^ 64) 60_000

-- With the nanoseconds of the clock.
unfoldable pub jittered_backoff : ℕ → ℕ → ℕ
jittered_backoff nanos attempt = nanos % max (bound_ms attempt) 1

-- What a connection brings: an error, or the log lines of each response until the stream ends.
pub data Connection : Type 0 where
  refused : Connection
  responses : List (List Bytes) → Connection

-- How the pump over some lines ended, with the events that the channel has taken so far.
pub data Pumped : Type 0 where
  channel_closed drained : List ThoughtSubmittedEvent → Pumped

-- A live stream's loop: the connections made so far, the failures in a row, the events that the channel has
-- taken, and the delays slept. The first is no variable of the loop: it counts the calls of
-- `connect_and_pump`.
pub record Running : Type 0 where
  pub made : ℕ
  pub attempt : ℕ
  pub taken : List ThoughtSubmittedEvent
  pub delays : List ℕ

module _ (is_utf8 : Bytes → Bool) (discriminator : Bytes) (decode_b64 : Bytes → Option Bytes)
    (trim : Bytes → Bytes) where
  abbrev pub parse_payload : Option Bytes → Parsed (Option ThoughtSubmittedEvent)
  parse_payload none = parsed none
  parse_payload (some b64) =
      decoded (decode_b64 (trim b64)) >>= parse_anchor_event_bytes is_utf8 discriminator

  unfoldable pub parse_anchor_event_line : Bytes → Parsed (Option ThoughtSubmittedEvent)
  parse_anchor_event_line line = parse_payload (strip_prefix program_data line)

  -- A malformed line is skipped.
  abbrev pub or_skip : Parsed (Option ThoughtSubmittedEvent) → Option ThoughtSubmittedEvent
  or_skip (parsed maybe) = maybe
  or_skip (bad reason) = none

  abbrev pub event_of : Bytes → Option ThoughtSubmittedEvent
  event_of line = or_skip (parse_anchor_event_line line)

  -- Whether the receiver is still there once it has taken some events.
  module _ (is_open : List ThoughtSubmittedEvent → Bool) where
    -- `tx.send(event)`, if the line holds one.
    abbrev pub send : Option ThoughtSubmittedEvent → List ThoughtSubmittedEvent → Pumped
    send none taken = drained taken
    send (some event) taken =
        if is_open taken then drained (taken ++ event ∷ []) else channel_closed taken

    -- `return` leaves the loops.
    abbrev pub unless_closed : Pumped → (List ThoughtSubmittedEvent → Pumped) → Pumped
    unless_closed (channel_closed now) rest = channel_closed now
    unless_closed (drained now) rest = rest now

    -- `for line in logs`
    unfoldable pub pump_lines : List Bytes → List ThoughtSubmittedEvent → Pumped
    pump_lines [] taken = drained taken
    pump_lines (line ∷ lines) taken = unless_closed (send (event_of line) taken) (pump_lines lines)

    -- `while let Some(resp) = stream.next().await`
    unfoldable pub pump : List (List Bytes) → List ThoughtSubmittedEvent → Pumped
    pump [] taken = drained taken
    pump (logs ∷ stream) taken = unless_closed (pump_lines logs taken) (pump stream)

    -- Both ends of the pump are `Ok(())`.
    abbrev pub taken_by : Pumped → List ThoughtSubmittedEvent
    taken_by (channel_closed now) = now
    taken_by (drained now) = now

    -- `connect_and_pump`: the events taken, or `none` for an error.
    unfoldable pub connect_and_pump :
        Connection → List ThoughtSubmittedEvent → Option (List ThoughtSubmittedEvent)
    connect_and_pump refused taken = none
    connect_and_pump (responses stream) taken = some (taken_by (pump stream taken))

    abbrev pub after_pump : ℕ → Running → Option (List ThoughtSubmittedEvent) → Running
    after_pump nanos r (some now) = record r { made = r.made + 1; attempt = 0; taken = now }
    after_pump nanos r none = record r {
      made = r.made + 1;
      attempt = saturating_add 32 r.attempt 1;
      delays = r.delays ++ jittered_backoff nanos r.attempt ∷ [];
    }

    -- One turn of the `loop` of `WebsocketLogStream::run`.
    unfoldable pub turn : Connection × ℕ → Running → Running
    turn (connection, nanos) r = after_pump nanos r (connect_and_pump connection r.taken)

    unfoldable pub run : List (Connection × ℕ) → Running → Running
    run [] r = r
    run (c ∷ connections) r = run connections (turn c r)

    -- `MockLogStream::run` on the events it holds.
    unfoldable pub send_all :
        List ThoughtSubmittedEvent → List ThoughtSubmittedEvent → List ThoughtSubmittedEvent
    send_all [] taken = taken
    send_all (event ∷ events) taken =
        let rest = send_all events (taken ++ event ∷ []) in if is_open taken then rest else taken
