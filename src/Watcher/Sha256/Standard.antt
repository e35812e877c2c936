-- ===== src/Watcher/Sha256/Standard.antt =====
-- SHA-256 as FIPS 180-4 states it, without the source's buffers and loops: the padding of a message of
-- any length, the blocks, the growing schedule and the rounds over it.
use Prim.Native.Nat.{bit_and, bit_xor}
use proof_of_thought.Prelude.{
  ℕ, zero, suc, ◌+◌, ◌-◌, ◌*◌, ◌/◌, ◌%◌, ◌^◌, List, [], ◌∷◌, ◌++◌, length, take, drop, get_or,
  replicate, ltb, if◌then◌else◌,
}
use proof_of_thought.Watcher.Types.{Bytes}
use proof_of_thought.Watcher.Sha256.{Vars}

abbrev primes : List ℕ
primes =
    2 ∷ 3 ∷ 5 ∷ 7 ∷ 11 ∷ 13 ∷ 17 ∷ 19 ∷ 23 ∷ 29 ∷ 31 ∷ 37 ∷ 41 ∷ 43 ∷ 47 ∷ 53 ∷ 59 ∷ 61 ∷ 67 ∷ 71
    ∷ 73 ∷ 79 ∷ 83 ∷ 89 ∷ 97 ∷ 101 ∷ 103 ∷ 107 ∷ 109 ∷ 113 ∷ 127 ∷ 131 ∷ 137 ∷ 139 ∷ 149 ∷ 151 ∷ 157
    ∷ 163 ∷ 167 ∷ 173 ∷ 179 ∷ 181 ∷ 191 ∷ 193 ∷ 197 ∷ 199 ∷ 211 ∷ 223 ∷ 227 ∷ 229 ∷ 233 ∷ 239 ∷ 241
    ∷ 251 ∷ 257 ∷ 263 ∷ 269 ∷ 271 ∷ 277 ∷ 281 ∷ 283 ∷ 293 ∷ 307 ∷ 311 ∷ []

-- The greatest number whose power is at most `x`, from its bits below `bits` upon `found`.
unfoldable pub root_from : (bits power x found : ℕ) → ℕ
root_from zero power x found = found
root_from (suc bits) power x found =
    let next = found + 2 ^ bits in
    root_from bits power x (if ltb x (next ^ power) then found else next)

-- The first 32 bits of the fractional part of a root of `p` below 2 ^ 8.
unfoldable pub root_fraction : (power p : ℕ) → ℕ
root_fraction power p = root_from 40 power (p * 2 ^ (32 * power)) 0 % 2 ^ 32

abbrev root_fractions : ℕ → List ℕ → List ℕ
root_fractions power [] = []
root_fractions power (p ∷ ps) = root_fraction power p ∷ root_fractions power ps

-- From the cube roots of the first 64 primes.
unfoldable pub round_constants : List ℕ
round_constants = root_fractions 3 primes

-- From the square roots of the first 8 primes.
unfoldable pub initial_hash : List ℕ
initial_hash = root_fractions 2 (take 8 primes)

-- The low `n` bits of a word of 32 move to the top.
abbrev rotr : ℕ → ℕ → ℕ
rotr n x = x / 2 ^ n + x % 2 ^ n * 2 ^ (32 - n)

abbrev shr : ℕ → ℕ → ℕ
shr n x = x / 2 ^ n

abbrev inverse : ℕ → ℕ
inverse x = 2 ^ 32 - 1 - x

abbrev ch : ℕ → ℕ → ℕ → ℕ
ch x y z = bit_xor (bit_and x y) (bit_and (inverse x) z)

abbrev maj : ℕ → ℕ → ℕ → ℕ
maj x y z = bit_xor (bit_xor (bit_and x y) (bit_and x z)) (bit_and y z)

abbrev big_sigma0 : ℕ → ℕ
big_sigma0 x = bit_xor (bit_xor (rotr 2 x) (rotr 13 x)) (rotr 22 x)

abbrev big_sigma1 : ℕ → ℕ
big_sigma1 x = bit_xor (bit_xor (rotr 6 x) (rotr 11 x)) (rotr 25 x)

abbrev small_sigma0 : ℕ → ℕ
small_sigma0 x = bit_xor (bit_xor (rotr 7 x) (rotr 18 x)) (shr 3 x)

abbrev small_sigma1 : ℕ → ℕ
small_sigma1 x = bit_xor (bit_xor (rotr 17 x) (rotr 19 x)) (shr 10 x)

-- T1 and T2 are sums modulo 2 ^ 32, reduced where they are used.
abbrev pub standard_round : ℕ → ℕ → Vars → Vars
standard_round k w v =
    let t1 = v.hh + big_sigma1 v.e + ch v.e v.f v.g + k + w in
    let t2 = big_sigma0 v.a + maj v.a v.b v.c in
    record {
      a = (t1 + t2) % 2 ^ 32;
      b = v.a;
      c = v.b;
      d = v.c;
      e = (v.d + t1) % 2 ^ 32;
      f = v.e;
      g = v.f;
      hh = v.g;
    }

abbrev pub standard_rounds : List ℕ → List ℕ → Vars → Vars
standard_rounds [] ws v = v
standard_rounds (k ∷ ks) [] v = v
standard_rounds (k ∷ ks) (w ∷ ws) v = standard_rounds ks ws (standard_round k w v)

-- The word after `ws`.
abbrev pub standard_word : List ℕ → ℕ
standard_word ws =
    let t = length ws in
    (small_sigma1 (get_or ws (t - 2) 0)
      + get_or ws (t - 7) 0
      + small_sigma0 (get_or ws (t - 15) 0)
      + get_or ws (t - 16) 0)
    % 2 ^ 32

unfoldable pub grow : ℕ → List ℕ → List ℕ
grow zero ws = ws
grow (suc n) ws = grow n (ws ++ standard_word ws ∷ [])

-- The words of a block, each of four bytes, the first the highest.
unfoldable pub words : ℕ → Bytes → List ℕ
words zero m = []
words (suc n) m =
    (get_or m 0 0 * 2 ^ 24 + get_or m 1 0 * 2 ^ 16 + get_or m 2 0 * 2 ^ 8 + get_or m 3 0)
    ∷ words n (drop 4 m)

-- The working variables of a block, from the hash value so far.
abbrev pub working : List ℕ → Vars
working hash = record {
  a = get_or hash 0 0;
  b = get_or hash 1 0;
  c = get_or hash 2 0;
  d = get_or hash 3 0;
  e = get_or hash 4 0;
  f = get_or hash 5 0;
  g = get_or hash 6 0;
  hh = get_or hash 7 0;
}

-- The hash value after a block.
abbrev pub intermediate : List ℕ → Vars → List ℕ
intermediate hash v =
    (get_or hash 0 0 + v.a) % 2 ^ 32
    ∷ (get_or hash 1 0 + v.b) % 2 ^ 32
    ∷ (get_or hash 2 0 + v.c) % 2 ^ 32
    ∷ (get_or hash 3 0 + v.d) % 2 ^ 32
    ∷ (get_or hash 4 0 + v.e) % 2 ^ 32
    ∷ (get_or hash 5 0 + v.f) % 2 ^ 32
    ∷ (get_or hash 6 0 + v.g) % 2 ^ 32
    ∷ (get_or hash 7 0 + v.hh) % 2 ^ 32
    ∷ []

unfoldable pub standard_block : Bytes → List ℕ → List ℕ
standard_block m h =
    intermediate h (standard_rounds round_constants (grow 48 (words 16 m)) (working h))

unfoldable pub standard_blocks : ℕ → Bytes → List ℕ → List ℕ
standard_blocks zero m h = h
standard_blocks (suc n) m h = standard_blocks n (drop 64 m) (standard_block (take 64 m) h)

-- A number as `n` bytes, the highest first.
unfoldable pub be_bytes : ℕ → ℕ → Bytes
be_bytes zero x = []
be_bytes (suc n) x = be_bytes n (x / 256) ++ (x % 256) ∷ []

-- The zeros up to 8 bytes below a multiple of 64, and the length in bits.
unfoldable pub padded : Bytes → Bytes
padded message =
    let len = length message in
    message ++ (128 ∷ (replicate ((119 - len % 64) % 64) 0 ++ be_bytes 8 (len * 8)))

unfoldable pub bytes_of : List ℕ → Bytes
bytes_of [] = []
bytes_of (x ∷ xs) = be_bytes 4 x ++ bytes_of xs

unfoldable pub sha256 : Bytes → Bytes
sha256 message = let m = padded message in bytes_of (standard_blocks (length m / 64) m initial_hash)
