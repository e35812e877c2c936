-- ===== src/Watcher/Fetch/Gateway/Address.antt =====
-- The prefixes of an Arweave URI and the trimming of a gateway (watcher/src/trace_fetch.rs), described
-- by how the bytes are put together.
use proof_of_thought.Prelude.{
  ℕ, ◌≡◌, ◌⊎◌, inl, inr, refl, some, false, if◌then◌else◌, ◌==◌, ◌&&◌, Bool-cases, arith,
  Option-cases, ap, ◌∙◌, suc, zero, [], ◌∷◌, ◌++◌, replicate, is_empty,
}
use proof_of_thought.Watcher.Types.{Bytes, strip_prefix}
use proof_of_thought.Watcher.Fetch.Gateway.{
  arweave_txid, ar_scheme, arweave_scheme, trim_end_slashes,
}

-- What follows the prefix, for the two schemes of Arweave: "ar://" and "arweave://".
abbrev pub HasTxid : Bytes → Bytes → Type 0
HasTxid uri txid =
    (uri ≡ 97 ∷ 114 ∷ 58 ∷ 47 ∷ 47 ∷ txid)
    ⊎ (uri ≡ 97 ∷ 114 ∷ 119 ∷ 101 ∷ 97 ∷ 118 ∷ 101 ∷ 58 ∷ 47 ∷ 47 ∷ txid)

abbrev pub EndsInSlash : Bytes → Type 0
EndsInSlash [] = ⊥
EndsInSlash (b ∷ []) = b ≡ 47
EndsInSlash (b ∷ c ∷ s) = EndsInSlash (c ∷ s)

-- The gateway without the slashes it ends in.
pub record IsBase (gateway base : Bytes) : Type 0 where
  pub slashes : ℕ
  pub trimmed : gateway ≡ base ++ replicate slashes 47
  pub bare : ¬ EndsInSlash base

strip_prefix-append :
    (prefix uri rest : Bytes) → strip_prefix prefix uri ≡ some rest → uri ≡ prefix ++ rest
strip_prefix-append [] uri rest h = cc
strip_prefix-append (p ∷ prefix) [] rest h = absurd (cc)
strip_prefix-append (p ∷ prefix) (b ∷ uri) rest h = elim (Bool-cases (p == b)) [
  | inl same ↦
      let e : p ≡ b = ground arith in
      let tail = strip_prefix-append prefix uri rest (rw same at h) in cc
  | inr other ↦ absurd (ground arith)
]

pub arweave_txid-HasTxid : (uri txid : Bytes) → arweave_txid uri ≡ some txid → HasTxid uri txid
arweave_txid-HasTxid uri txid h = elim (Option-cases (strip_prefix ar_scheme uri)) [
  | inl other ↦ inr (strip_prefix-append arweave_scheme uri txid (rw other at h))
  | inr (rest, short) ↦ inl (strip_prefix-append ar_scheme uri txid (short ∙ (rw short at h)))
]

pub HasTxid-arweave_txid : (uri txid : Bytes) → HasTxid uri txid → arweave_txid uri ≡ some txid
HasTxid-arweave_txid uri txid (inl e) = rw e refl
HasTxid-arweave_txid uri txid (inr e) = rw e refl

-- One step of the trimming.
abbrev keep : ℕ → Bytes → Bytes
keep b rest = if is_empty rest && (b == 47) then [] else b ∷ rest

keep-bare : (b : ℕ) (rest : Bytes) → ¬ EndsInSlash rest → ¬ EndsInSlash (keep b rest)
keep-bare b (c ∷ rest) h = h
keep-bare b [] h = elim (Bool-cases (b == 47)) [
  | inl slash ↦ rw slash λ e. e
  | inr other ↦ rw other λ e. absurd (ground arith)
]

keep-slashes :
    (b n : ℕ) (rest : Bytes)
    → (m : ℕ) × (b ∷ (rest ++ replicate n 47) ≡ keep b rest ++ replicate m 47)
keep-slashes b n (c ∷ rest) = (n, refl)
keep-slashes b n [] = elim (Bool-cases (b == 47)) [
  | inl slash ↦ let e : b ≡ 47 = ground arith in (suc n, rw (slash, e) refl)
  | inr other ↦ (n, rw other refl)
]

pub trim_end_slashes-IsBase : (gateway : Bytes) → IsBase gateway (trim_end_slashes gateway)
trim_end_slashes-IsBase [] = record { slashes = 0; trimmed = refl; bare = λ e. e }
trim_end_slashes-IsBase (b ∷ gateway) =
    let r = trim_end_slashes-IsBase gateway in
    let rest = trim_end_slashes gateway in
    let (m, split) = keep-slashes b r.slashes rest in
    record {
      slashes = m;
      trimmed = ap (λ s. b ∷ s) r.trimmed ∙ split;
      bare = keep-bare b rest r.bare;
    }

trim_end_slashes-replicate : (n : ℕ) → trim_end_slashes (replicate n 47) ≡ []
trim_end_slashes-replicate zero = refl
trim_end_slashes-replicate (suc n) = rw (trim_end_slashes-replicate n) refl

trim_end_slashes-append :
    (base : Bytes) (n : ℕ) → ¬ EndsInSlash base → trim_end_slashes (base ++ replicate n 47) ≡ base
trim_end_slashes-append [] n h = trim_end_slashes-replicate n
trim_end_slashes-append (b ∷ []) n h =
    let other : (b == 47) ≡ false = ground arith in rw (trim_end_slashes-replicate n, other) refl
trim_end_slashes-append (b ∷ c ∷ base) n h = rw (trim_end_slashes-append (c ∷ base) n h) refl

pub IsBase-trim_end_slashes :
    (gateway base : Bytes) → IsBase gateway base → trim_end_slashes gateway ≡ base
IsBase-trim_end_slashes gateway base t =
    ap trim_end_slashes t.trimmed ∙ trim_end_slashes-append base t.slashes t.bare
