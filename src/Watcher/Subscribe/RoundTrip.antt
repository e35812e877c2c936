-- ===== src/Watcher/Subscribe/RoundTrip.antt =====
-- The decoder on the Borsh form of an event.
use proof_of_thought.Prelude.{
  ℕ, zero, suc, ◌+◌, ◌/◌, ◌^◌, ◌<◌, ◌≡◌, refl, [], ◌∷◌, ◌++◌, length, take, drop, length-append,
  arith,
}
use proof_of_thought.Prelude.{Bool, true, some}
use proof_of_thought.Watcher.Types.{
  Bytes, le_bytes, from_le, same_bytes_refl, ThoughtSubmittedEvent,
}
use proof_of_thought.Watcher.Subscribe.{
  Cursor, parsed, take_bytes, read_number, read_borsh_string, encode, decode_thought_submitted_body,
  parse_anchor_event_bytes,
}

pub length-le_bytes : (n x : ℕ) → length (le_bytes n x) ≡ n
unfolding le_bytes
length-le_bytes zero x = refl
length-le_bytes (suc n) x = omega (arith, length-le_bytes n (x / 256))

pub from_le-le_bytes : (n x : ℕ) → x < 256 ^ n → from_le (le_bytes n x) ≡ x
unfolding le_bytes from_le
from_le-le_bytes zero x h = omega arith
from_le-le_bytes (suc n) x h = omega (arith, from_le-le_bytes n (x / 256))

pub take-++ : (xs ys : Bytes) → take (length xs) (xs ++ ys) ≡ xs
take-++ [] [] = refl
take-++ [] (y ∷ ys) = refl
take-++ (x ∷ xs) ys = cc (take-++ xs ys)

pub drop-++ : (xs ys : Bytes) → drop (length xs) (xs ++ ys) ≡ ys
drop-++ [] ys = refl
drop-++ (x ∷ xs) ys = drop-++ xs ys

pub ++-assoc : (xs ys zs : Bytes) → xs ++ ys ++ zs ≡ xs ++ (ys ++ zs)
++-assoc [] ys zs = refl
++-assoc (x ∷ xs) ys zs = cc (++-assoc xs ys zs)

-- A cursor with `rest` still to read.
abbrev pub Before : Cursor → Bytes → Type 0
Before c rest = (done : Bytes) × (c.buf ≡ done ++ rest) × (c.pos ≡ length done)

take_bytes-Before :
    (c : Cursor) (n : ℕ) (mid rest : Bytes)
    → length mid ≡ n
    → Before c (mid ++ rest)
    → (c' : Cursor) × (take_bytes n c ≡ parsed (mid, c')) × Before c' rest
unfolding take_bytes
take_bytes-Before c n mid rest e (done, at, pos) =
    let sized : length c.buf ≡ length done + (n + length rest) =
      grind (arith, length-append done (mid ++ rest), length-append mid rest) in
    let cut : take n (drop c.pos c.buf) ≡ mid =
      grind (arith, drop-++ done (mid ++ rest), take-++ mid rest) in
    (
      record c { pos = c.pos + n },
      ground arith,
      (done ++ mid, cc (++-assoc done mid rest), omega (arith, length-append done mid)),
    )

read_number-Before :
    (c : Cursor) (n x : ℕ) (rest : Bytes)
    → x < 256 ^ n
    → Before c (le_bytes n x ++ rest)
    → (c' : Cursor) × (read_number n c ≡ parsed (x, c')) × Before c' rest
unfolding read_number
read_number-Before c n x rest small before =
    let (c', taken, after) =
      take_bytes-Before c n (le_bytes n x) rest (length-le_bytes n x) before in
    (c', ground (arith, from_le-le_bytes n x), after)

-- An event whose fields fit their widths, with a URI that is text.
pub record IsEncodable (is_utf8 : Bytes → Bool) (ev : ThoughtSubmittedEvent) : Type 0 where
  pub agent_fits : ev.agent < 2 ^ 256
  pub thought_pda_fits : ev.thought_pda < 2 ^ 256
  pub model_id_fits : ev.model_id < 2 ^ 256
  pub input_commitment_fits : ev.input_commitment < 2 ^ 256
  pub output_commitment_fits : ev.output_commitment < 2 ^ 256
  pub trace_uri_hash_fits : ev.trace_uri_hash < 2 ^ 256
  pub vrf_seed_fits : ev.vrf_seed < 2 ^ 256
  pub policy_id_fits : ev.policy_id < 2 ^ 256
  pub slot_fits : ev.slot < 2 ^ 64
  pub trace_uri_fits : length ev.trace_uri < 2 ^ 32
  pub trace_uri_text : is_utf8 ev.trace_uri ≡ true

pub encode_fields :
    (ev : ThoughtSubmittedEvent) (rest : Bytes)
    → encode ev ++ rest
      ≡ le_bytes 32 ev.agent
        ++ (le_bytes 32 ev.thought_pda
            ++ (le_bytes 32 ev.model_id
                ++ (le_bytes 32 ev.input_commitment
                    ++ (le_bytes 32 ev.output_commitment
                        ++ (le_bytes 32 ev.trace_uri_hash
                            ++ (le_bytes 32 ev.vrf_seed
                                ++ (le_bytes 32 ev.policy_id
                                    ++ (le_bytes 8 ev.slot
                                        ++ (le_bytes 4 (length ev.trace_uri)
                                            ++ (ev.trace_uri ++ rest))))))))))
unfolding encode
encode_fields ev rest = simp ++-assoc

module _ (is_utf8 : Bytes → Bool) where
  read_borsh_string-Before :
      (c : Cursor) (s rest : Bytes)
      → length s < 2 ^ 32
      → is_utf8 s ≡ true
      → Before c (le_bytes 4 (length s) ++ (s ++ rest))
      → (c' : Cursor) × (read_borsh_string is_utf8 c ≡ parsed (s, c')) × Before c' rest
  unfolding read_borsh_string
  read_borsh_string-Before c s rest small text before =
      let (c₁, len, b₁) = read_number-Before c 4 (length s) (s ++ rest) (omega arith) before in
      let (c₂, taken, b₂) = take_bytes-Before c₁ (length s) s rest refl b₁ in (c₂, ground arith, b₂)

  decode-encode :
      (ev : ThoughtSubmittedEvent) (rest : Bytes)
      → IsEncodable is_utf8 ev
      → decode_thought_submitted_body is_utf8 (encode ev ++ rest) ≡ parsed ev
  unfolding decode_thought_submitted_body
  decode-encode ev rest h =
      let c₀ : Cursor = record { buf = encode ev ++ rest; pos = 0 } in
      let (c₁, e₁, b₁) =
        read_number-Before c₀ 32 ev.agent _ (omega (arith, h.agent_fits))
          ([], encode_fields ev rest, refl) in
      let (c₂, e₂, b₂) =
        read_number-Before c₁ 32 ev.thought_pda _ (omega (arith, h.thought_pda_fits)) b₁ in
      let (c₃, e₃, b₃) =
        read_number-Before c₂ 32 ev.model_id _ (omega (arith, h.model_id_fits)) b₂ in
      let (c₄, e₄, b₄) =
        read_number-Before c₃ 32 ev.input_commitment _ (omega (arith, h.input_commitment_fits))
          b₃ in
      let (c₅, e₅, b₅) =
        read_number-Before c₄ 32 ev.output_commitment _ (omega (arith, h.output_commitment_fits))
          b₄ in
      let (c₆, e₆, b₆) =
        read_number-Before c₅ 32 ev.trace_uri_hash _ (omega (arith, h.trace_uri_hash_fits)) b₅ in
      let (c₇, e₇, b₇) =
        read_number-Before c₆ 32 ev.vrf_seed _ (omega (arith, h.vrf_seed_fits)) b₆ in
      let (c₈, e₈, b₈) =
        read_number-Before c₇ 32 ev.policy_id _ (omega (arith, h.policy_id_fits)) b₇ in
      let (c₉, e₉, b₉) = read_number-Before c₈ 8 ev.slot _ (omega (arith, h.slot_fits)) b₈ in
      let (c₁₀, e₁₀, b₁₀) =
        read_borsh_string-Before c₉ ev.trace_uri rest h.trace_uri_fits h.trace_uri_text b₉ in
      ground arith

  -- Of an event whose fields fit their widths and whose URI is text: the bytes of an 8-byte
  -- discriminator, the event's Borsh form and whatever follows decode to just this event.
  pub parse_anchor_event_bytes-encode :
      (discriminator : Bytes) (ev : ThoughtSubmittedEvent) (rest : Bytes)
      → length discriminator ≡ 8
      → IsEncodable is_utf8 ev
      → parse_anchor_event_bytes is_utf8 discriminator (discriminator ++ (encode ev ++ rest))
        ≡ parsed (some ev)
  unfolding parse_anchor_event_bytes
  parse_anchor_event_bytes-encode discriminator ev rest e h =
      let payload = encode ev ++ rest in
      let same : take 8 (discriminator ++ payload) ≡ discriminator =
        grind (arith, take-++ discriminator payload) in
      let body : drop 8 (discriminator ++ payload) ≡ payload =
        grind (arith, drop-++ discriminator payload) in
      ground (
        arith,
        length-append discriminator payload,
        same_bytes_refl discriminator,
        decode-encode ev rest h,
      )
