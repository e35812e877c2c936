-- ===== src/Watcher/Subscribe.antt =====
-- Decoding of the program's events (watcher/src/subscribe.rs, the parsing half). The UTF-8 check of
-- the standard library and the event's discriminator are parameters.
pub mod RoundTrip
pub mod Fields
pub mod Exact
use proof_of_thought.Prelude.{
  ℕ, ◌+◌, List, [], ◌∷◌, ◌++◌, Option, none, some, Bool, true, false, ltb, if◌then◌else◌, not, ◌==◌,
  length, take, drop, ◌&&◌,
}
use proof_of_thought.Watcher.Types.{Bytes, le_bytes, from_le, same_bytes, ThoughtSubmittedEvent}

-- `SubscribeError::BadPayload`, its texts as constructors.
pub data BadPayload : Type 0 where
  unexpected_eof non_utf8_trace_uri short_payload base64_decode : BadPayload

pub data Parsed {ℓ} (T : Type ℓ) : Type ℓ where
  parsed : T → Parsed T
  bad : BadPayload → Parsed T

infixl 5 ◌>>=◌
abbrev pub ◌>>=◌ {ℓ₁ ℓ₂} :
    {T : Type ℓ₁} {U : Type ℓ₂} (first : Parsed T) (rest : T → Parsed U) → Parsed U
bad reason >>= rest = bad reason
parsed value >>= rest = rest value

pub record Cursor : Type 0 where
  pub buf : Bytes
  pub pos : ℕ

-- `Cursor::take`: the slice, and the cursor behind it.
unfoldable pub take_bytes : ℕ → Cursor → Parsed (Bytes × Cursor)
take_bytes n c =
    if ltb (length c.buf) (c.pos + n)
    then bad unexpected_eof
    else parsed (take n (drop c.pos c.buf), record c { pos = c.pos + n })

unfoldable pub read_number : ℕ → Cursor → Parsed (ℕ × Cursor)
read_number n c = do (s, c') ← take_bytes n c; parsed (from_le s, c')

abbrev pub read_pubkey : Cursor → Parsed (ℕ × Cursor)
read_pubkey c = read_number 32 c

abbrev pub read_array32 : Cursor → Parsed (ℕ × Cursor)
read_array32 c = read_number 32 c

abbrev pub read_u64_le : Cursor → Parsed (ℕ × Cursor)
read_u64_le c = read_number 8 c

abbrev pub read_u32_le : Cursor → Parsed (ℕ × Cursor)
read_u32_le c = read_number 4 c

module _ (is_utf8 : Bytes → Bool) where
  unfoldable pub read_borsh_string : Cursor → Parsed (Bytes × Cursor)
  read_borsh_string c = do
    (len, c₁) ← read_u32_le c
    (s, c₂) ← take_bytes len c₁
    if is_utf8 s then parsed (s, c₂) else bad non_utf8_trace_uri

  unfoldable pub decode_thought_submitted_body : Bytes → Parsed ThoughtSubmittedEvent
  decode_thought_submitted_body body = do
    (agent, c₁) ← read_pubkey (record { buf = body; pos = 0 })
    (thought_pda, c₂) ← read_pubkey c₁
    (model_id, c₃) ← read_array32 c₂
    (input_commitment, c₄) ← read_array32 c₃
    (output_commitment, c₅) ← read_array32 c₄
    (trace_uri_hash, c₆) ← read_array32 c₅
    (vrf_seed, c₇) ← read_array32 c₆
    (policy_id, c₈) ← read_array32 c₇
    (slot, c₉) ← read_u64_le c₈
    (trace_uri, _) ← read_borsh_string c₉
    parsed (record {
      agent = agent;
      thought_pda = thought_pda;
      model_id = model_id;
      input_commitment = input_commitment;
      output_commitment = output_commitment;
      trace_uri_hash = trace_uri_hash;
      vrf_seed = vrf_seed;
      policy_id = policy_id;
      slot = slot;
      trace_uri = trace_uri;
    })

  module _ (discriminator : Bytes) where
    -- `some` an event of this kind, `none` an event of another.
    unfoldable pub parse_anchor_event_bytes : Bytes → Parsed (Option ThoughtSubmittedEvent)
    parse_anchor_event_bytes bytes =
        if ltb (length bytes) 8
        then bad short_payload
        else if same_bytes (take 8 bytes) discriminator
        then (do event ← decode_thought_submitted_body (drop 8 bytes); parsed (some event))
        else parsed none

-- The event's Borsh form, after its discriminator.
unfoldable pub encode : ThoughtSubmittedEvent → Bytes
encode ev =
    le_bytes 32 ev.agent
    ++ le_bytes 32 ev.thought_pda
    ++ le_bytes 32 ev.model_id
    ++ le_bytes 32 ev.input_commitment
    ++ le_bytes 32 ev.output_commitment
    ++ le_bytes 32 ev.trace_uri_hash
    ++ le_bytes 32 ev.vrf_seed
    ++ le_bytes 32 ev.policy_id
    ++ le_bytes 8 ev.slot
    ++ le_bytes 4 (length ev.trace_uri)
    ++ ev.trace_uri
