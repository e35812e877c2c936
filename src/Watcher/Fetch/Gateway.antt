-- ===== src/Watcher/Fetch/Gateway.antt =====
-- The fetchers (watcher/src/trace_fetch.rs): the Arweave and the Shadow Drive gateways over an HTTP client,
-- and the mock. What the client answers to a URL is a parameter.
pub mod Address
pub mod Exact
pub mod Filing
use proof_of_thought.Prelude.{
  ℕ, List, [], ◌∷◌, ◌++◌, Option, none, some, Bool, if◌then◌else◌, not, ◌==◌, ◌&&◌, is_empty,
}
use proof_of_thought.Watcher.Types.{Bytes, strip_prefix, ThoughtSubmittedEvent, TraceBundle}
use proof_of_thought.Watcher.Pipeline.{verify_uri_hash, after_fetch}
use proof_of_thought.Watcher.Filer.{Filer, ChallengeArgs}
use proof_of_thought.Watcher.Fetch.{
  Ciborium, Fetched, fetched, failed, http, uri_hash_mismatch, unsupported_scheme, not_found, bind,
  ok_or, get, insert, decode_manifest,
}

-- A `Result` of the client, with its error's text.
pub data Received {ℓ} (T : Type ℓ) : Type ℓ where
  received : T → Received T
  lost : Bytes → Received T

-- `status().as_u16()`, `status().is_success()`, the status as text, and `bytes()`.
pub record Response : Type 0 where
  pub status : ℕ
  pub is_success : Bool
  pub status_text : Bytes
  pub body : Received Bytes

-- `.map_err(|e| FetchError::Http(e.to_string()))`
abbrev pub or_http {ℓ} : {T : Type ℓ} → Received T → Fetched T
or_http (received t) = fetched t
or_http (lost text) = failed (http text)

abbrev pub or_else : Option Bytes → Option Bytes → Option Bytes
or_else none o = o
or_else (some s) o = some s

-- `trim_end_matches('/')`
abbrev pub trim_end_slashes : Bytes → Bytes
trim_end_slashes [] = []
trim_end_slashes (b ∷ s) =
    let rest = trim_end_slashes s in if is_empty rest && (b == 47) then [] else b ∷ rest

abbrev pub ar_scheme : Bytes
ar_scheme = 97 ∷ 114 ∷ 58 ∷ 47 ∷ 47 ∷ []

abbrev pub arweave_scheme : Bytes
arweave_scheme = 97 ∷ 114 ∷ 119 ∷ 101 ∷ 97 ∷ 118 ∷ 101 ∷ 58 ∷ 47 ∷ 47 ∷ []

abbrev pub shdw_scheme : Bytes
shdw_scheme = 115 ∷ 104 ∷ 100 ∷ 119 ∷ 58 ∷ 47 ∷ 47 ∷ []

abbrev pub shadow_scheme : Bytes
shadow_scheme = 115 ∷ 104 ∷ 97 ∷ 100 ∷ 111 ∷ 119 ∷ 58 ∷ 47 ∷ 47 ∷ []

abbrev pub http_text : Bytes
http_text = 72 ∷ 84 ∷ 84 ∷ 80 ∷ 32 ∷ []

-- `format!("{}/{}", gateway.trim_end_matches('/'), path)`
abbrev pub url_at : Bytes → Bytes → Bytes
url_at gateway path = trim_end_slashes gateway ++ (47 ∷ path)

abbrev pub arweave_txid : Bytes → Option Bytes
arweave_txid uri = or_else (strip_prefix ar_scheme uri) (strip_prefix arweave_scheme uri)

abbrev pub shadow_path : Bytes → Option Bytes
shadow_path uri = or_else (strip_prefix shdw_scheme uri) (strip_prefix shadow_scheme uri)

module _ {V : Type 0} (cbor : Ciborium V) where
  -- `if !resp.status().is_success() { .. }` and what follows.
  abbrev pub read_body : Response → Fetched (TraceBundle V)
  read_body resp =
      if not resp.is_success
      then failed (http (http_text ++ resp.status_text))
      else bind (or_http resp.body) (decode_manifest cbor)

  module _ (client : Bytes → Received Response) (gateway : Bytes) where
    abbrev pub ask_arweave : Bytes → Fetched (TraceBundle V)
    ask_arweave uri = bind (ok_or (arweave_txid uri) (unsupported_scheme uri)) λ txid.
        bind (or_http (client (url_at gateway txid))) λ resp.
          if resp.status == 404 then failed (not_found (url_at gateway txid)) else read_body resp

    abbrev pub ask_shadow : Bytes → Fetched (TraceBundle V)
    ask_shadow uri =
        bind (ok_or (shadow_path uri) (unsupported_scheme uri))
          λ path. bind (or_http (client (url_at gateway path))) read_body

    module _ (blake3 : Bytes → ℕ) where
      -- `ArweaveFetcher::fetch`
      unfoldable pub arweave_fetch : Bytes → ℕ → Fetched (TraceBundle V)
      unfolding verify_uri_hash
      arweave_fetch uri expected =
          if verify_uri_hash blake3 uri expected
          then ask_arweave uri
          else failed (uri_hash_mismatch expected (blake3 uri))

      -- `ShadowFetcher::fetch`
      unfoldable pub shadow_fetch : Bytes → ℕ → Fetched (TraceBundle V)
      unfolding verify_uri_hash
      shadow_fetch uri expected =
          if verify_uri_hash blake3 uri expected
          then ask_shadow uri
          else failed (uri_hash_mismatch expected (blake3 uri))

-- `MockFetcher`: the bundles it holds.
pub record MockFetcher (V : Type 0) : Type 0 where
  pub bundles : List (Bytes × TraceBundle V)

unfoldable pub mock_insert : {V : Type 0} → Bytes → TraceBundle V → MockFetcher V → MockFetcher V
mock_insert uri bundle f = record { bundles = insert uri bundle f.bundles }

unfoldable pub mock_fetch :
    {V : Type 0} → (Bytes → ℕ) → MockFetcher V → Bytes → ℕ → Fetched (TraceBundle V)
unfolding verify_uri_hash
mock_fetch blake3 f uri expected =
    if verify_uri_hash blake3 uri expected
    then ok_or (get uri f.bundles) (not_found uri)
    else failed (uri_hash_mismatch expected (blake3 uri))

-- What `handle_event` makes of a `Result`.
abbrev pub to_option {ℓ} : {T : Type ℓ} → Fetched T → Option T
to_option (fetched t) = some t
to_option (failed e) = none

-- `handle_event` with the Arweave fetcher.
unfoldable pub handle_from_arweave :
    {V : Type 0}
    → Ciborium V
    → (Bytes → Received Response)
    → Bytes
    → (Bytes → ℕ)
    → (ChallengeArgs → Option ℕ)
    → Filer
    → ThoughtSubmittedEvent
    → Filer × Option (Option ℕ)
handle_from_arweave cbor client gateway blake3 submit f event =
    after_fetch blake3 submit f event
      (to_option (arweave_fetch cbor client gateway blake3 event.trace_uri event.trace_uri_hash))
