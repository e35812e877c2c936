-- ===== src/Tests/Decoding.antt =====
-- The theorems on the watcher's decoder and verifiers, applied at concrete bytes.
use proof_of_thought.Prelude.{
  ℕ, ◌%◌, ◌^◌, ◌≡◌, ◌≢◌, ◌⊎◌, ◌↔◌, refl, [], ◌∷◌, ◌++◌, some, arith, Bool, false, inl, not, any,
  leb, replicate, List,
}
use proof_of_thought.Program.State.{output_mismatch, inconsistent_commitments}
use proof_of_thought.Watcher.Types.{
  Bytes, le_bytes, from_le, ThoughtSubmittedEvent, TraceBundle, matched,
}
use proof_of_thought.Watcher.Subscribe.{parsed, encode, parse_anchor_event_bytes}
use proof_of_thought.Watcher.Subscribe.RoundTrip.{IsEncodable, parse_anchor_event_bytes-encode}
use proof_of_thought.Watcher.Subscribe.Fields.{AreBytes}
use proof_of_thought.Watcher.Subscribe.Exact.{parse_anchor_event_bytes_exact}
use proof_of_thought.Prelude.{Option, ◌+◌, ◌*◌}
use proof_of_thought.Watcher.Filer.{Filer, ChallengeArgs, conservative, new, reserve_bond}
use proof_of_thought.Watcher.Filer.Decision.{IsSound}
use proof_of_thought.Watcher.Pipeline.{handle_event}
use proof_of_thought.Watcher.Pipeline.Filing.{handle_event_files_exact, handle_event_files_every}
use proof_of_thought.Watcher.Verify.{EngineResult, output, strict, noop_strict, attested, test_cas}
use proof_of_thought.Watcher.Verify.Accusation.{strict_accuses_only_fraud, noop_strict_exact}
use proof_of_thought.Watcher.Verify.Attestation.{IsQuote, bound_data, report_data, attested_exact}

-- Stand-ins: ASCII for UTF-8, a number of 32 bytes for the hash.
abbrev is_ascii : Bytes → Bool
is_ascii s = not (any (leb 128) s)

abbrev hash : Bytes → ℕ
hash s = from_le s % 2 ^ 256

abbrev seen : ThoughtSubmittedEvent
seen = record {
  agent = 11;
  thought_pda = 12;
  model_id = 13;
  input_commitment = 14;
  output_commitment = 515;
  trace_uri_hash = 16;
  vrf_seed = 17;
  policy_id = 18;
  slot = 1234;
  trace_uri = 97 ∷ 114 ∷ [];
}

abbrev tag : Bytes
tag = 1 ∷ 2 ∷ 3 ∷ 4 ∷ 5 ∷ 6 ∷ 7 ∷ 8 ∷ []

seen-IsEncodable : IsEncodable is_ascii seen
seen-IsEncodable = record {
  agent_fits = omega arith;
  thought_pda_fits = omega arith;
  model_id_fits = omega arith;
  input_commitment_fits = omega arith;
  output_commitment_fits = omega arith;
  trace_uri_hash_fits = omega arith;
  vrf_seed_fits = omega arith;
  policy_id_fits = omega arith;
  slot_fits = omega arith;
  trace_uri_fits = omega arith;
  trace_uri_text = refl;
}

none_large-AreBytes : (s : Bytes) → any (leb 256) s ≡ false → AreBytes s
none_large-AreBytes [] h = tt
none_large-AreBytes (b ∷ bs) h = (ground arith, none_large-AreBytes bs (ground arith))

-- The event with a byte behind it.
parse_anchor_event_bytes_exact_example :
    (parse_anchor_event_bytes is_ascii tag (tag ++ (encode seen ++ 9 ∷ [])) ≡ parsed (some seen))
    ↔ ((rest : Bytes) × (tag ++ (encode seen ++ 9 ∷ []) ≡ tag ++ (encode seen ++ rest))
        × IsEncodable is_ascii seen)
unfolding encode le_bytes
parse_anchor_event_bytes_exact_example =
    parse_anchor_event_bytes_exact is_ascii tag (tag ++ (encode seen ++ 9 ∷ [])) seen refl
      (none_large-AreBytes (tag ++ (encode seen ++ 9 ∷ [])) refl)

it_decodes :
    parse_anchor_event_bytes is_ascii tag (tag ++ (encode seen ++ 9 ∷ [])) ≡ parsed (some seen)
it_decodes = parse_anchor_event_bytes-encode is_ascii tag seen (9 ∷ []) refl seen-IsEncodable

-- A trace whose output hashes to the commitment, and an engine that disagrees.
abbrev bundle : Bytes → TraceBundle ℕ
bundle quote = record {
  raw_canonical_output = 3 ∷ 2 ∷ [];
  raw_canonical_input = 1 ∷ [];
  attestation = some quote;
  manifest = 0;
}

abbrev engine : ℕ → Bytes → ℕ → EngineResult
engine model input seed = output (4 ∷ [])

strict_accuses_only_fraud_example :
    (seen.trace_uri ≡ seen.trace_uri)
    × (((output_mismatch ≡ inconsistent_commitments) × (hash (3 ∷ 2 ∷ []) ≢ 515))
        ⊎ ((output_mismatch ≡ output_mismatch)
            × (hash (3 ∷ 2 ∷ []) ≡ 515)
            × (bytes : Bytes) × (output (4 ∷ []) ≡ output bytes)
            × (hash bytes ≢ 515)))
unfolding strict from_le
strict_accuses_only_fraud_example =
    strict_accuses_only_fraud hash seen engine (bundle []) output_mismatch (97 ∷ 114 ∷ []) refl

-- What `main` builds: the output hashes to the commitment, and no accusation is made.
it_never_matches : noop_strict hash seen (bundle []) ≢ matched
it_never_matches = (noop_strict_exact hash seen (bundle []) output_mismatch (97 ∷ 114 ∷ [])).1

-- The CA list of the demo fixtures.
abbrev roots : List ℕ
roots = test_cas

-- A quote that binds the event's commitments.
abbrev quote : Bytes
quote =
    4 ∷ 0 ∷ 2 ∷ 0 ∷ 129 ∷ 0 ∷ 0 ∷ 0 ∷ []
    ++ (replicate 560 0 ++ (bound_data hash 14 515 17 ++ 1 ∷ []))

quote-IsQuote : IsQuote quote
unfolding le_bytes from_le
quote-IsQuote = record { sized = omega arith; version = inl refl; key_type = inl refl; tee = refl }

attested_exact_example : (attested hash roots seen (bundle quote) ≡ matched) ↔ (
    (q : Bytes) × (some quote ≡ some q)
    × IsQuote q
    × (report_data q ≡ bound_data hash 14 515 17)
    × (roots ≢ []))
attested_exact_example = attested_exact hash roots seen (bundle quote)

it_accepts : attested hash roots seen (bundle quote) ≡ matched
unfolding le_bytes
it_accepts =
    (attested_exact hash roots seen (bundle quote)).1
      (quote, refl, quote-IsQuote, refl, ground arith)

-- An event that commits to another output than the trace's.
abbrev lying : ThoughtSubmittedEvent
lying = record seen { output_commitment = 1; trace_uri_hash = 97 + 256 * 114 }

abbrev answer : Bytes → Option (TraceBundle ℕ)
answer uri = some (bundle [])

abbrev signed : ChallengeArgs → Option ℕ
signed args = some 7

abbrev careful : Filer
careful = new conservative 10_000_000_000

handle_event_files_exact_example :
    (handle_event hash signed answer careful lying
      ≡ (reserve_bond 500_000_000 careful, some (some 7)))
    ↔ ((b : TraceBundle ℕ) × (args : ChallengeArgs) × (hash lying.trace_uri ≡ lying.trace_uri_hash)
        × (answer lying.trace_uri ≡ some b)
        × (hash b.raw_canonical_output ≢ 1)
        × (signed args ≡ some 7)
        × IsSound hash careful inconsistent_commitments lying.trace_uri 100_000_000_000 12
            500_000_000 args
        × (reserve_bond 500_000_000 careful ≡ reserve_bond args.bond careful))
unfolding new
handle_event_files_exact_example =
    handle_event_files_exact hash signed answer careful lying (reserve_bond 500_000_000 careful) 7
      (omega arith)

it_files :
    handle_event hash signed answer careful lying
    ≡ (reserve_bond 500_000_000 careful, some (some 7))
unfolding new from_le
it_files =
    handle_event_files_every hash signed answer careful lying (bundle []) 7 refl refl (ground arith)
      (ground arith) (omega arith) (omega arith) refl
