-- ===== src/Watcher/Sha256/Equivalence.antt =====
-- The watcher's hash against the standard: the loop over the blocks, the words written out, and the
-- discriminators.
use proof_of_thought.Prelude.{
  ℕ, zero, suc, ◌+◌, ◌-◌, ◌*◌, ◌/◌, ◌%◌, ◌^◌, ◌≤◌, ◌<◌, ◌≡◌, refl, true, List, [], ◌∷◌, ◌++◌, some,
  ltb, length, take, drop, get_or, replicate, length-append, arith, ap, ◌∙◌, sym, ◌⊎◌, inl, inr,
}
use proof_of_thought.Watcher.Types.{Bytes}
use proof_of_thought.Watcher.Sha256.{
  Vars, initial_h, wrapping_add, blocks, add_to, padded_len, write_out, const_sha256,
}
use proof_of_thought.Watcher.Sha256.Standard.{
  standard_block, standard_blocks, be_bytes, padded, bytes_of, sha256, initial_hash, root_fraction,
  root_from,
}
use proof_of_thought.Watcher.Sha256.Schedule.{drop-append, drop-drop, compress-standard}
use proof_of_thought.Watcher.Sha256.Padding.{length-replicate, pad-padded}

take-drop : (m rest : Bytes) (n : ℕ) → take n m ++ (drop n m ++ rest) ≡ m ++ rest
take-drop m rest zero = refl
take-drop [] rest (suc n) = refl
take-drop (x ∷ m) rest (suc n) = cc (take-drop m rest n)

length-take : (m : Bytes) (n : ℕ) → n ≤ length m → length (take n m) ≡ n
length-take m zero h = refl
length-take [] (suc n) h = absurd (omega arith)
length-take (x ∷ m) (suc n) h = omega (arith, length-take m n (omega arith))

length-drop : (m : Bytes) (n : ℕ) → length (drop n m) ≡ length m - n
length-drop m zero = omega arith
length-drop [] (suc n) = omega arith
length-drop (x ∷ m) (suc n) = omega (arith, length-drop m n)

-- Fuel above the number of blocks is enough.
blocks-standard :
    (n fuel block : ℕ) (buf m rest : Bytes) (h : List ℕ)
    → drop block buf ≡ m ++ rest
    → length m ≡ n * 64
    → n < fuel
    → blocks fuel block (block + n * 64) buf h ≡ standard_blocks n m h
unfolding blocks standard_blocks
blocks-standard n zero block buf m rest h split size enough = absurd (omega arith)
blocks-standard zero (suc fuel) block buf m rest h split size enough = ground arith
blocks-standard (suc n) (suc fuel) block buf m rest h split size enough =
    let more : ltb block (block + suc n * 64) ≡ true = ground arith in
    let long : 64 ≤ length m = omega arith in
    let first : drop block buf ≡ take 64 m ++ (drop 64 m ++ rest) =
      split ∙ sym (take-drop m rest 64) in
    let next : drop (block + 64) buf ≡ drop 64 m ++ rest =
      sym (drop-drop buf block 64) ∙ ap (drop 64) split ∙ drop-append m rest 64 long in
    let end : block + suc n * 64 ≡ block + 64 + n * 64 = omega arith in
    let one =
      compress-standard block buf (take 64 m) (drop 64 m ++ rest) h first (length-take m 64 long) in
    rw (more, one, end)
      (blocks-standard n fuel (block + 64) buf (drop 64 m) rest _ next
        (omega (arith, length-drop m 64)) (omega arith))

be_bytes-four :
    (x : ℕ)
    → x < 2 ^ 32
    → be_bytes 4 x ≡ x / 2 ^ 24 ∷ x / 2 ^ 16 % 256 ∷ x / 2 ^ 8 % 256 ∷ x % 256 ∷ []
unfolding be_bytes
be_bytes-four x small =
    let e3 : x / 256 / 256 / 256 % 256 ≡ x / 2 ^ 24 = omega arith in
    let e2 : x / 256 / 256 ≡ x / 2 ^ 16 = omega arith in rw (e3, e2) refl

write_out-add_to :
    (h : List ℕ) (v : Vars) → write_out 8 0 (add_to h v) (replicate 32 0) ≡ bytes_of (add_to h v)
unfolding write_out bytes_of
write_out-add_to h v =
    let word = λ (x y : ℕ). be_bytes-four (wrapping_add x y) (omega arith) in
    rw
      (
        word (get_or h 0 0) v.a,
        word (get_or h 1 0) v.b,
        word (get_or h 2 0) v.c,
        word (get_or h 3 0) v.d,
        word (get_or h 4 0) v.e,
        word (get_or h 5 0) v.f,
        word (get_or h 6 0) v.g,
        word (get_or h 7 0) v.hh,
      )
      refl

write_out-standard_block :
    (m : Bytes) (h : List ℕ)
    → write_out 8 0 (standard_block m h) (replicate 32 0) ≡ bytes_of (standard_block m h)
unfolding standard_block
write_out-standard_block m h = write_out-add_to h _

write_out-standard_blocks :
    (n : ℕ) (m : Bytes) (h : List ℕ)
    → write_out 8 0 (standard_blocks (suc n) m h) (replicate 32 0)
      ≡ bytes_of (standard_blocks (suc n) m h)
unfolding standard_blocks
write_out-standard_blocks zero m h = write_out-standard_block (take 64 m) h
write_out-standard_blocks (suc n) m h =
    write_out-standard_blocks n (drop 64 m) (standard_block (take 64 m) h)

length-be_bytes : (n x : ℕ) → length (be_bytes n x) ≡ n
unfolding be_bytes
length-be_bytes zero x = refl
length-be_bytes (suc n) x =
    omega (arith, length-be_bytes n (x / 256), length-append (be_bytes n (x / 256)) (x % 256 ∷ []))

length-padded :
    (input : Bytes) → length input < 120 → length (padded input) ≡ padded_len (length input)
unfolding padded
length-padded input small =
    let len = length input in
    let zs : Bytes = replicate ((119 - len % 64) % 64) 0 in
    let be = be_bytes 8 (len * 8) in
    ground (
      arith,
      length-append input (128 ∷ (zs ++ be)),
      length-append zs be,
      length-replicate ((119 - len % 64) % 64) 0,
      length-be_bytes 8 (len * 8),
    )

initial_h-initial_hash : initial_h ≡ initial_hash
unfolding initial_hash root_fraction root_from
initial_h-initial_hash = refl

const_sha256-blocks :
    (k : ℕ) (input : Bytes)
    → length input < 120
    → k < 2
    → padded_len (length input) ≡ suc k * 64
    → const_sha256 input ≡ some (sha256 input)
unfolding const_sha256 sha256
const_sha256-blocks k input small few size =
    let m = padded input in
    let rest : Bytes = replicate (128 - padded_len (length input)) 0 in
    let long : length m ≡ suc k * 64 = length-padded input small ∙ size in
    let count : length m / 64 ≡ suc k = omega arith in
    let end : padded_len (length input) ≡ 0 + suc k * 64 = omega arith in
    let run : blocks 3 0 (padded_len (length input)) (m ++ rest) initial_h
        ≡ standard_blocks (suc k) m initial_h =
      ap (λ p. blocks 3 0 p (m ++ rest) initial_h) end
      ∙ blocks-standard (suc k) 3 0 (m ++ rest) m rest initial_h refl long (omega arith) in
    rw
      (
        ← initial_h-initial_hash,
        pad-padded input small,
        run,
        write_out-standard_blocks k m initial_h,
        count,
      )
      refl

-- For every input of fewer than 120 bytes, the compile-time hash returns the SHA-256 of the input as
-- FIPS 180-4 defines it, with the round constants computed from the cube roots of the first 64 primes
-- and the initial hash value from the square roots of the first 8: no write leaves the buffer, and the fuel for its blocks is enough.
pub const_sha256-sha256 :
    (input : Bytes) → length input < 120 → const_sha256 input ≡ some (sha256 input)
const_sha256-sha256 input small =
    let split : padded_len (length input) ≡ 1 * 64 ⊎ padded_len (length input) ≡ 2 * 64 =
      ground arith in
    elim split [
      | inl e ↦ const_sha256-blocks 0 input small (omega arith) e
      | inr e ↦ const_sha256-blocks 1 input small (omega arith) e
    ]
