-- ===== src/Watcher/Fetch/Gateway/Exact.antt =====
-- What a fetch returns and why, and the fetchers inside the watcher's pipeline.
use proof_of_thought.Prelude.{
  ℕ, ◌≡◌, ◌≢◌, ◌↔◌, ◌⊎◌, inl, inr, refl, Option, none, some, true, false, if◌then◌else◌, ◌==◌, ◌&&◌,
  Bool-cases, arith, ◌∷◌, ◌++◌,
}
use proof_of_thought.Watcher.Types.{Bytes, same_bytes, TraceBundle}
use proof_of_thought.Watcher.Fetch.{
  Ciborium, Fetched, fetched, failed, FetchError, unsupported_scheme, bind, ok_or, decode_manifest,
}
use proof_of_thought.Watcher.Fetch.Manifest.{get-insert, IsManifest, decode_manifest_exact}
use proof_of_thought.Watcher.Fetch.Gateway.{
  Received, received, lost, Response, or_http, arweave_txid, shadow_path, url_at, read_body,
  ask_arweave, ask_shadow, arweave_fetch, trim_end_slashes, MockFetcher, mock_insert, mock_fetch,
}
use proof_of_thought.Watcher.Fetch.Gateway.Address.{
  HasTxid, IsBase, arweave_txid-HasTxid, HasTxid-arweave_txid, trim_end_slashes-IsBase,
  IsBase-trim_end_slashes,
}

Received-cases {ℓ} :
    {T : Type ℓ} (r : Received T) → ((e : Bytes) × (r ≡ lost e)) ⊎ ((t : T) × (r ≡ received t))
Received-cases (lost e) = inl (e, refl)
Received-cases (received t) = inr (t, refl)

module _ {V : Type 0} (cbor : Ciborium V) where
  -- An answer in order, with a manifest of the bundle for a body.
  pub record IsDownload (answer : Received Response) (resp : Response) (bundle : TraceBundle V)
      : Type 0 where
    pub bytes : Bytes
    pub answered : answer ≡ received resp
    pub success : resp.is_success ≡ true
    pub read : resp.body ≡ received bytes
    pub manifest : IsManifest cbor bytes bundle

  read_body-decode_manifest :
      (resp : Response) (bundle : TraceBundle V)
      → read_body cbor resp ≡ fetched bundle
      → (bytes : Bytes) × (resp.is_success ≡ true)
        × (resp.body ≡ received bytes)
        × (decode_manifest cbor bytes ≡ fetched bundle)
  read_body-decode_manifest resp bundle h = elim (Received-cases resp.body) [
    | inl (e, bad) ↦ absurd (ground arith)
    | inr (bytes, read) ↦ (bytes, ground arith, read, ground arith)
  ]

  bind-fetched {ℓ} :
      {A : Type ℓ} (r : Fetched A) (k : A → Fetched (TraceBundle V)) (bundle : TraceBundle V)
      → bind r k ≡ fetched bundle
      → (a : A) × (r ≡ fetched a) × (k a ≡ fetched bundle)
  bind-fetched (failed e) k bundle h = absurd (cc)
  bind-fetched (fetched a) k bundle h = (a, refl, h)

  or_http-received {ℓ} :
      {T : Type ℓ} (r : Received T) (t : T) → or_http r ≡ fetched t → r ≡ received t
  or_http-received (lost e) t h = absurd (cc)
  or_http-received (received u) t h = cc

  ok_or-some {ℓ} :
      {A : Type ℓ} (o : Option A) (e : FetchError) (a : A) → ok_or o e ≡ fetched a → o ≡ some a
  ok_or-some none e a h = absurd (cc)
  ok_or-some (some b) e a h = cc

  read_body-IsDownload :
      (answer : Received Response) (resp : Response) (bundle : TraceBundle V)
      → answer ≡ received resp
      → read_body cbor resp ≡ fetched bundle
      → IsDownload answer resp bundle
  read_body-IsDownload answer resp bundle answered h =
      let (bytes, success, read, decoded) = read_body-decode_manifest resp bundle h in
      record {
        bytes = bytes;
        answered = answered;
        success = success;
        read = read;
        manifest = (decode_manifest_exact cbor bytes bundle).0 decoded;
      }

  IsDownload-read_body :
      (answer : Received Response) (resp : Response) (bundle : TraceBundle V)
      → IsDownload answer resp bundle
      → read_body cbor resp ≡ fetched bundle
  IsDownload-read_body answer resp bundle d =
      rw (d.success, d.read) ((decode_manifest_exact cbor d.bytes bundle).1 d.manifest)

  module _ (client : Bytes → Received Response) (gateway : Bytes) where
    ask_shadow-IsDownload :
        (uri : Bytes) (bundle : TraceBundle V)
        → ask_shadow cbor client gateway uri ≡ fetched bundle
        → (path : Bytes) × (resp : Response) × (shadow_path uri ≡ some path)
          × IsDownload (client (url_at gateway path)) resp bundle
    ask_shadow-IsDownload uri bundle h =
        let (path, found, asked) = bind-fetched _ _ bundle h in
        let (resp, answered, ran) = bind-fetched _ _ bundle asked in
        let answer = or_http-received (client (url_at gateway path)) resp answered in
        (
          path,
          resp,
          ok_or-some (shadow_path uri) (unsupported_scheme uri) path found,
          read_body-IsDownload (client (url_at gateway path)) resp bundle answer ran,
        )

    pub ask_arweave-IsDownload :
        (uri : Bytes) (bundle : TraceBundle V)
        → ask_arweave cbor client gateway uri ≡ fetched bundle
        → (txid : Bytes) × (resp : Response) × (arweave_txid uri ≡ some txid)
          × (resp.status ≢ 404)
          × IsDownload (client (url_at gateway txid)) resp bundle
    ask_arweave-IsDownload uri bundle h =
        let (txid, found, asked) = bind-fetched _ _ bundle h in
        let (resp, answered, ran) = bind-fetched _ _ bundle asked in
        let answer = or_http-received (client (url_at gateway txid)) resp answered in
        let split = Bool-cases (resp.status == 404) in
        let other : resp.status ≢ 404 = ground arith in
        let checked : (resp.status == 404) ≡ false = ground arith in
        let read : read_body cbor resp ≡ fetched bundle = rw checked at ran in
        (
          txid,
          resp,
          ok_or-some (arweave_txid uri) (unsupported_scheme uri) txid found,
          other,
          read_body-IsDownload (client (url_at gateway txid)) resp bundle answer read,
        )

    module _ (blake3 : Bytes → ℕ) (uri : Bytes) (expected : ℕ) (bundle : TraceBundle V) where
      arweave_fetch_passes :
          arweave_fetch cbor client gateway blake3 uri expected ≡ fetched bundle
          → (blake3 uri ≡ expected) × (ask_arweave cbor client gateway uri ≡ fetched bundle)
      unfolding arweave_fetch
      arweave_fetch_passes h = elim (Bool-cases (blake3 uri == expected)) [
        | inl same ↦ (ground arith, rw same at h)
        | inr differs ↦ absurd (ground arith)
      ]

      -- The Arweave fetcher returns a bundle exactly when the URI has the expected hash, it is "ar://"
      -- or "arweave://" followed by some bytes, and the URL made of the gateway without its last
      -- slashes, a slash and those bytes is answered with a status other than 404 that counts as
      -- success and a body that is a manifest of the bundle.
      pub arweave_fetch_exact :
          (arweave_fetch cbor client gateway blake3 uri expected ≡ fetched bundle) ↔ (
            (blake3 uri ≡ expected)
            × (txid : Bytes) × (base : Bytes) × (resp : Response) × HasTxid uri txid
            × IsBase gateway base
            × (resp.status ≢ 404)
            × IsDownload (client (base ++ 47 ∷ txid)) resp bundle)
      unfolding arweave_fetch
      arweave_fetch_exact = (
        λ h.
            let (same, asked) = arweave_fetch_passes h in
            let (txid, resp, found, there, d) = ask_arweave-IsDownload uri bundle asked in
            (
              same,
              txid,
              trim_end_slashes gateway,
              resp,
              arweave_txid-HasTxid uri txid found,
              trim_end_slashes-IsBase gateway,
              there,
              d,
            ),
        λ (same, txid, base, resp, named, trimmed, there, d).
            let hashed : (blake3 uri == expected) ≡ true = ground arith in
            let other : (resp.status == 404) ≡ false = ground arith in
            let found = HasTxid-arweave_txid uri txid named in
            let at = IsBase-trim_end_slashes gateway base trimmed in
            rw (hashed, found, at, d.answered, other)
              (IsDownload-read_body (client (base ++ 47 ∷ txid)) resp bundle d),
      )

-- The mock fetcher, after an insertion, returns the bundle at the URI inserted if the hash is the one
-- expected, and answers at every other URI as before.
pub mock_fetch-mock_insert :
    {V : Type 0} (blake3 : Bytes → ℕ) (f : MockFetcher V) (uri : Bytes) (bundle : TraceBundle V)
    (other : Bytes) (expected : ℕ)
    → mock_fetch blake3 (mock_insert uri bundle f) other expected ≡ (
        if (blake3 other == expected) && same_bytes uri other
        then fetched bundle
        else mock_fetch blake3 f other expected)
unfolding mock_fetch mock_insert
mock_fetch-mock_insert blake3 f uri bundle other expected =
    ground (arith, get-insert other uri bundle f.bundles)
