-- ===== src/Watcher/Verify.antt =====
-- The verifiers of the strict and the attested regime (watcher/src/verify/strict.rs,
-- watcher/src/verify/attested.rs). The BLAKE3 hash and the inference engine are parameters.
pub mod Accusation
pub mod Attestation
use proof_of_thought.Prelude.{
  ℕ, ◌+◌, List, [], ◌∷◌, ◌++◌, Option, none, some, Bool, true, false, ltb, if◌then◌else◌, not, ◌==◌,
  length, take, drop, replicate, ◌&&◌, is_empty,
}
use proof_of_thought.Program.State.{output_mismatch, inconsistent_commitments}
use proof_of_thought.Watcher.Types.{
  Bytes, le_bytes, from_le, same_bytes, ThoughtSubmittedEvent, TraceBundle, VerifyOutcome, matched,
  mismatch, inconclusive,
}

pub data EngineResult : Type 0 where
  output : Bytes → EngineResult
  unavailable : ℕ → EngineResult

-- `NoopEngine::execute`
abbrev pub noop_execute : ℕ → Bytes → ℕ → EngineResult
noop_execute model_id canonical_input vrf_seed = unavailable 0

pub record TdxQuoteHeader : Type 0 where
  pub version : ℕ
  pub attestation_key_type : ℕ
  pub tee_type : ℕ
  pub qe_svn : ℕ
  pub pce_svn : ℕ
  pub qe_vendor_id : Bytes
  pub user_data : Bytes

abbrev pub tdx_header_len : ℕ
tdx_header_len = 48

abbrev pub tdx_body_len : ℕ
tdx_body_len = 584

abbrev pub tdx_report_data_offset_in_body : ℕ
tdx_report_data_offset_in_body = 520

abbrev pub tdx_report_data_len : ℕ
tdx_report_data_len = 64

pub data TdxParseError : Type 0 where
  too_short unsupported_version unsupported_akt : ℕ → TdxParseError
  unsupported_tee_type missing_body missing_signature : TdxParseError

pub data Quoted {ℓ} (T : Type ℓ) : Type ℓ where
  quoted : T → Quoted T
  malformed : TdxParseError → Quoted T

-- `&raw[from..from + n]`
abbrev pub slice : ℕ → ℕ → Bytes → Bytes
slice from n raw = take n (drop from raw)

-- The header that a quote's first 48 bytes hold.
abbrev pub header_of : Bytes → TdxQuoteHeader
header_of raw = record {
  version = from_le (slice 0 2 raw);
  attestation_key_type = from_le (slice 2 2 raw);
  tee_type = from_le (slice 4 4 raw);
  qe_svn = from_le (slice 8 2 raw);
  pce_svn = from_le (slice 10 2 raw);
  qe_vendor_id = slice 12 16 raw;
  user_data = slice 28 20 raw;
}

unfoldable pub parse_tdx_header : Bytes → Quoted (TdxQuoteHeader × Bytes)
parse_tdx_header raw =
    let h = header_of raw in
    if ltb (length raw) tdx_header_len
    then malformed (too_short (length raw))
    else if not (h.version == 4) && not (h.version == 5)
    then malformed (unsupported_version h.version)
    else if not (h.attestation_key_type == 2) && not (h.attestation_key_type == 3)
    then malformed (unsupported_akt h.attestation_key_type)
    else if not (h.tee_type == 129)
    then malformed unsupported_tee_type
    else quoted (h, drop tdx_header_len raw)

unfoldable pub extract_report_data : Bytes → Quoted Bytes
extract_report_data body_and_sig =
    if ltb (length body_and_sig) tdx_body_len
    then malformed missing_body
    else quoted
        (slice tdx_report_data_offset_in_body tdx_report_data_len (take tdx_body_len body_and_sig))

abbrev pub check_rest : Quoted (TdxQuoteHeader × Bytes) → Quoted TdxQuoteHeader
check_rest (malformed e) = malformed e
check_rest (quoted (header, rest)) =
    if ltb (length rest) tdx_body_len
    then malformed missing_body
    else if length rest == tdx_body_len
    then malformed missing_signature
    else quoted header

unfoldable pub validate_quote_structure : Bytes → Quoted TdxQuoteHeader
unfolding parse_tdx_header
validate_quote_structure raw = check_rest (parse_tdx_header raw)

module _ (blake3 : Bytes → ℕ) where
  -- `ByteCompareVerifier::verify`
  unfoldable pub byte_compare : {V : Type 0} → ThoughtSubmittedEvent → TraceBundle V → VerifyOutcome
  byte_compare event bundle =
      if blake3 bundle.raw_canonical_output == event.output_commitment
      then matched
      else mismatch inconsistent_commitments event.trace_uri

  abbrev pub judge_rerun : ThoughtSubmittedEvent → EngineResult → VerifyOutcome
  judge_rerun event (unavailable reason) = inconclusive reason
  judge_rerun event (output bytes) =
      if blake3 bytes == event.output_commitment
      then matched
      else mismatch output_mismatch event.trace_uri

  abbrev pub gate : VerifyOutcome → VerifyOutcome → VerifyOutcome
  gate (mismatch claim uri) rerun = mismatch claim uri
  gate (inconclusive reason) rerun = inconclusive reason
  gate matched rerun = rerun

  -- `StrictVerifier::verify`, with the engine's `execute model_id canonical_input vrf_seed`.
  unfoldable pub strict :
      {V : Type 0}
      → (ℕ → Bytes → ℕ → EngineResult)
      → ThoughtSubmittedEvent
      → TraceBundle V
      → VerifyOutcome
  unfolding byte_compare
  strict execute event bundle =
      gate (byte_compare event bundle)
        (judge_rerun event (execute event.model_id bundle.raw_canonical_input event.vrf_seed))

  -- `StrictVerifier::new(NoopEngine)`, which `main` builds.
  abbrev pub noop_strict : {V : Type 0} → ThoughtSubmittedEvent → TraceBundle V → VerifyOutcome
  noop_strict = strict noop_execute

  unfoldable pub expected_report_data : ℕ → ℕ → ℕ → Bytes
  expected_report_data input_commitment output_commitment vrf_seed =
      le_bytes 32 (
        blake3
          (le_bytes 32 input_commitment ++ le_bytes 32 output_commitment ++ le_bytes 32 vrf_seed))
      ++ replicate 32 0

  abbrev pub judge_binding : List ℕ → ThoughtSubmittedEvent → Quoted Bytes → VerifyOutcome
  judge_binding trusted_root_cas event (malformed e) = mismatch output_mismatch event.trace_uri
  judge_binding trusted_root_cas event (quoted report_data) =
      let expected =
        expected_report_data event.input_commitment event.output_commitment event.vrf_seed in
      if not (same_bytes report_data expected)
      then mismatch output_mismatch event.trace_uri
      else if is_empty trusted_root_cas
      then inconclusive 1
      else matched

  abbrev pub judge_quote :
      List ℕ → ThoughtSubmittedEvent → Bytes → Quoted TdxQuoteHeader → VerifyOutcome
  judge_quote trusted_root_cas event quote (malformed e) = mismatch output_mismatch event.trace_uri
  judge_quote trusted_root_cas event quote (quoted header) =
      judge_binding trusted_root_cas event (extract_report_data (drop tdx_header_len quote))

  abbrev pub judge_attestation : List ℕ → ThoughtSubmittedEvent → Option Bytes → VerifyOutcome
  judge_attestation trusted_root_cas event none = inconclusive 0
  judge_attestation trusted_root_cas event (some quote) =
      judge_quote trusted_root_cas event quote (validate_quote_structure quote)

  -- `AttestedVerifier::verify`
  unfoldable pub attested :
      {V : Type 0} → List ℕ → ThoughtSubmittedEvent → TraceBundle V → VerifyOutcome
  unfolding validate_quote_structure extract_report_data expected_report_data
  attested trusted_root_cas event bundle =
      judge_attestation trusted_root_cas event bundle.attestation

-- `AttestedVerifier::with_test_cas`
abbrev pub test_cas : List ℕ
test_cas = 0 ∷ []
