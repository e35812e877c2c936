-- ===== src/Watcher/Verify/Attestation.antt =====
-- What the attested verifier accepts (watcher/src/verify/attested.rs).
use proof_of_thought.Prelude.{
  ℕ, ◌+◌, ◌<◌, ◌≡◌, ◌≢◌, ◌⊎◌, ◌↔◌, inl, inr, refl, List, length, take, drop, some, arith, ◌++◌,
  replicate, sym, ◌∙◌,
}
use proof_of_thought.Watcher.Types.{
  Bytes, le_bytes, from_le, ThoughtSubmittedEvent, TraceBundle, matched,
}
use proof_of_thought.Prelude.{
  zero, suc, Bool, false, ltb, if◌then◌else◌, [], ◌∷◌, ◌≤◌, Option-cases, true,
}
use proof_of_thought.Watcher.Types.{same_bytes, same_bytes_sound, same_bytes_refl}
use proof_of_thought.Watcher.Verify.{
  TdxParseError, missing_body, parse_tdx_header, Quoted, quoted, malformed, TdxQuoteHeader, slice,
  header_of, validate_quote_structure, extract_report_data, judge_quote, judge_binding, attested,
  expected_report_data,
}

-- A quote in order: long enough for its header, body and a signature, of a known version and key
-- type, for TDX.
pub record IsQuote (raw : Bytes) : Type 0 where
  pub sized : 48 + 584 < length raw
  pub version : (from_le (take 2 raw) ≡ 4) ⊎ (from_le (take 2 raw) ≡ 5)
  pub key_type : (from_le (take 2 (drop 2 raw)) ≡ 2) ⊎ (from_le (take 2 (drop 2 raw)) ≡ 3)
  pub tee : from_le (take 4 (drop 4 raw)) ≡ 129

-- The 64 bytes that bind a thought: the hash of its commitments and its seed, and 32 zeros.
abbrev pub bound_data : (Bytes → ℕ) → ℕ → ℕ → ℕ → Bytes
bound_data blake3 input_commitment output_commitment vrf_seed =
    le_bytes 32 (
      blake3
        (le_bytes 32 input_commitment ++ le_bytes 32 output_commitment ++ le_bytes 32 vrf_seed))
    ++ replicate 32 0

expected_report_data-bound_data :
    (blake3 : Bytes → ℕ) (input_commitment output_commitment vrf_seed : ℕ)
    → expected_report_data blake3 input_commitment output_commitment vrf_seed
      ≡ bound_data blake3 input_commitment output_commitment vrf_seed
unfolding expected_report_data
expected_report_data-bound_data blake3 input_commitment output_commitment vrf_seed = refl

drop-take : (n k m : ℕ) (xs : Bytes) → k ≡ n + m → drop n (take k xs) ≡ take m (drop n xs)
drop-take zero k m xs e = let same : k ≡ m = omega arith in rw same refl
drop-take (suc n) zero m xs e = absurd (omega arith)
drop-take (suc n) (suc k) zero [] e = refl
drop-take (suc n) (suc k) (suc m) [] e = refl
drop-take (suc n) (suc k) m (x ∷ xs) e = drop-take n k m xs (omega arith)

take-take : (n : ℕ) (xs : Bytes) → take n (take n xs) ≡ take n xs
take-take zero xs = refl
take-take (suc n) [] = refl
take-take (suc n) (x ∷ xs) = cc (take-take n xs)

slice-take : (n m : ℕ) (xs : Bytes) → slice n m (take (n + m) xs) ≡ take m (drop n xs)
slice-take n m xs = rw (drop-take n (n + m) m xs refl) (take-take m (drop n xs))

length-drop : (n : ℕ) (xs : Bytes) → n ≤ length xs → length (drop n xs) + n ≡ length xs
length-drop zero xs h = omega arith
length-drop (suc n) [] h = absurd (omega arith)
length-drop (suc n) (x ∷ xs) h = omega (arith, length-drop n xs (omega arith))

validate_quote_structure-IsQuote :
    (raw : Bytes) (header : TdxQuoteHeader)
    → validate_quote_structure raw ≡ quoted header
    → IsQuote raw
unfolding validate_quote_structure parse_tdx_header
validate_quote_structure-IsQuote raw header h = record {
  sized = ground (arith, length-drop 48 raw);
  version = ground arith;
  key_type = ground arith;
  tee = ground arith;
}

IsQuote-validate_quote_structure :
    (raw : Bytes) → IsQuote raw → validate_quote_structure raw ≡ quoted (header_of raw)
unfolding validate_quote_structure parse_tdx_header
IsQuote-validate_quote_structure raw q = ground (arith, length-drop 48 raw)

quoted_unless-quoted {ℓ} :
    {T : Type ℓ} (refused : Bool) (e : TdxParseError) (x y : T)
    → (if refused then malformed e else quoted x) ≡ quoted y
    → x ≡ y
quoted_unless-quoted true e x y h = absurd (cc)
quoted_unless-quoted false e x y h = cc

quoted_unless-false {ℓ} :
    {T : Type ℓ} (refused : Bool) (e : TdxParseError) (x : T)
    → refused ≡ false
    → (if refused then malformed e else quoted x) ≡ quoted x
quoted_unless-false refused e x h = rw h

extract_report_data-data :
    (body found : Bytes) → extract_report_data body ≡ quoted found → take 64 (drop 520 body) ≡ found
unfolding extract_report_data
extract_report_data-data body found h =
    sym (slice-take 520 64 body)
    ∙ quoted_unless-quoted (ltb (length body) 584) missing_body (slice 520 64 (take 584 body)) found
        h

extract_report_data-long :
    (body : Bytes) → 584 ≤ length body → extract_report_data body ≡ quoted (take 64 (drop 520 body))
unfolding extract_report_data
extract_report_data-long body h = rw (← slice-take 520 64 body) (
    quoted_unless-false (ltb (length body) 584) missing_body (slice 520 64 (take 584 body))
      (ground arith))

-- The report data of a quote: 64 bytes from byte 520 of its body, which begins at byte 48.
abbrev pub report_data : Bytes → Bytes
report_data quote = take 64 (drop 520 (drop 48 quote))

module _ {V : Type 0} (blake3 : Bytes → ℕ) (trusted_root_cas : List ℕ)
    (event : ThoughtSubmittedEvent) (bundle : TraceBundle V) where
  abbrev bound : Bytes
  bound = bound_data blake3 event.input_commitment event.output_commitment event.vrf_seed

  abbrev expected : Bytes
  expected =
      expected_report_data blake3 event.input_commitment event.output_commitment event.vrf_seed

  judge_binding-matched :
      (d : Quoted Bytes)
      → judge_binding blake3 trusted_root_cas event d ≡ matched
      → (d ≡ quoted expected) × (trusted_root_cas ≢ [])
  judge_binding-matched (malformed e) h = absurd (cc)
  judge_binding-matched (quoted found) h =
      let same : same_bytes found expected ≡ true = ground arith in
      (cc (same_bytes_sound found expected same), ground arith)

  judge_quote-matched :
      (quote : Bytes) (v : Quoted TdxQuoteHeader)
      → judge_quote blake3 trusted_root_cas event quote v ≡ matched
      → (header : TdxQuoteHeader) × (v ≡ quoted header)
        × (extract_report_data (drop 48 quote) ≡ quoted expected)
        × (trusted_root_cas ≢ [])
  judge_quote-matched quote (malformed e) h = absurd (cc)
  judge_quote-matched quote (quoted header) h =
      let (bound, trusted) = judge_binding-matched (extract_report_data (drop 48 quote)) h in
      (header, refl, bound, trusted)

  judge_binding_passes :
      trusted_root_cas ≢ []
      → judge_binding blake3 trusted_root_cas event (quoted expected) ≡ matched
  judge_binding_passes trusted = ground (arith, same_bytes_refl expected)

  same_binding : expected ≡ bound
  same_binding =
      expected_report_data-bound_data blake3 event.input_commitment event.output_commitment
        event.vrf_seed

  -- If the attested verifier reports a match, then the trace carries a quote in order, the quote's
  -- report data is the hash of the event's input and output commitments and its seed with 32 zeros, and a
  -- trusted root is configured.
  attested_accepts_only_bound :
      attested blake3 trusted_root_cas event bundle ≡ matched
      → (quote : Bytes) × (bundle.attestation ≡ some quote)
        × IsQuote quote
        × (report_data quote ≡ bound)
        × (trusted_root_cas ≢ [])
  unfolding attested
  attested_accepts_only_bound h = elim (Option-cases bundle.attestation) [
    | inl missing ↦ absurd (ground arith)
    | inr (quote, carried) ↦
        let judged : judge_quote blake3 trusted_root_cas event quote
              (validate_quote_structure quote)
            ≡ matched =
          rw carried at h in
        let (header, valid, found, trusted) =
          judge_quote-matched quote (validate_quote_structure quote) judged in
        (
          quote,
          carried,
          validate_quote_structure-IsQuote quote header valid,
          extract_report_data-data (drop 48 quote) expected found ∙ same_binding,
          trusted,
        )
  ]

  -- If the trace carries a quote in order, the quote's report data is the one expected of the
  -- event's input and output commitments and its seed, and a trusted root is configured, then the
  -- attested verifier reports a match.
  attested_accepts_every_bound :
      (quote : Bytes)
      → bundle.attestation ≡ some quote
      → IsQuote quote
      → report_data quote ≡ bound
      → trusted_root_cas ≢ []
      → attested blake3 trusted_root_cas event bundle ≡ matched
  unfolding attested
  attested_accepts_every_bound quote carried q same trusted =
      let valid = IsQuote-validate_quote_structure quote q in
      let found =
        extract_report_data-long (drop 48 quote)
          (omega (arith, length-drop 48 quote (omega (arith, q.sized)), q.sized)) in
      rw (carried, valid, found, same, ← same_binding) (judge_binding_passes trusted)

  -- The attested verifier reports a match exactly if the trace carries a quote that is longer than a
  -- header of 48 bytes and a body of 584, has version 4 or 5, key type 2 or 3 and TEE type 129 in its
  -- first 8 bytes, and has as its report data the hash of the event's input commitment, output
  -- commitment and seed, followed by 32 zeros; and a trusted root is configured, whichever it is.
  pub attested_exact : (attested blake3 trusted_root_cas event bundle ≡ matched) ↔ (
      (quote : Bytes) × (bundle.attestation ≡ some quote)
      × IsQuote quote
      × (report_data quote ≡ bound)
      × (trusted_root_cas ≢ []))
  attested_exact = (
    attested_accepts_only_bound,
    λ (quote, carried, q, same, trusted). attested_accepts_every_bound quote carried q same trusted,
  )
