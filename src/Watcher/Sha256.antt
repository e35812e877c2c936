-- ===== src/Watcher/Sha256.antt =====
-- The SHA-256 of short inputs that the watcher evaluates at compile time, and Anchor's discriminators
-- (watcher/src/types.rs). The arrays are lists that the loops write by index; each loop recurs on the
-- rounds left, and the loop over the blocks on fuel. A write of the input out of bounds is
-- a panic, `none`; the indices that the loops keep in range are read and written without a check.
pub mod Standard
pub mod Schedule
pub mod Padding
pub mod Equivalence
use Prim.Native.Nat.{bit_and, bit_xor}
use proof_of_thought.Prelude.{
  ℕ, zero, suc, ◌+◌, ◌-◌, ◌*◌, ◌/◌, ◌%◌, ◌^◌, List, [], ◌∷◌, Option, none, some, ltb, if◌then◌else◌,
  length, take, get_or, set, replicate,
}
use proof_of_thought.Watcher.Types.{Bytes}

abbrev pub k_table : List ℕ
k_table =
    0x428a2f98 ∷ 0x71374491 ∷ 0xb5c0fbcf ∷ 0xe9b5dba5 ∷ 0x3956c25b ∷ 0x59f111f1 ∷ 0x923f82a4
    ∷ 0xab1c5ed5 ∷ 0xd807aa98 ∷ 0x12835b01 ∷ 0x243185be ∷ 0x550c7dc3 ∷ 0x72be5d74 ∷ 0x80deb1fe
    ∷ 0x9bdc06a7 ∷ 0xc19bf174 ∷ 0xe49b69c1 ∷ 0xefbe4786 ∷ 0x0fc19dc6 ∷ 0x240ca1cc ∷ 0x2de92c6f
    ∷ 0x4a7484aa ∷ 0x5cb0a9dc ∷ 0x76f988da ∷ 0x983e5152 ∷ 0xa831c66d ∷ 0xb00327c8 ∷ 0xbf597fc7
    ∷ 0xc6e00bf3 ∷ 0xd5a79147 ∷ 0x06ca6351 ∷ 0x14292967 ∷ 0x27b70a85 ∷ 0x2e1b2138 ∷ 0x4d2c6dfc
    ∷ 0x53380d13 ∷ 0x650a7354 ∷ 0x766a0abb ∷ 0x81c2c92e ∷ 0x92722c85 ∷ 0xa2bfe8a1 ∷ 0xa81a664b
    ∷ 0xc24b8b70 ∷ 0xc76c51a3 ∷ 0xd192e819 ∷ 0xd6990624 ∷ 0xf40e3585 ∷ 0x106aa070 ∷ 0x19a4c116
    ∷ 0x1e376c08 ∷ 0x2748774c ∷ 0x34b0bcb5 ∷ 0x391c0cb3 ∷ 0x4ed8aa4a ∷ 0x5b9cca4f ∷ 0x682e6ff3
    ∷ 0x748f82ee ∷ 0x78a5636f ∷ 0x84c87814 ∷ 0x8cc70208 ∷ 0x90befffa ∷ 0xa4506ceb ∷ 0xbef9a3f7
    ∷ 0xc67178f2 ∷ []

abbrev pub initial_h : List ℕ
initial_h =
    0x6a09e667 ∷ 0xbb67ae85 ∷ 0x3c6ef372 ∷ 0xa54ff53a ∷ 0x510e527f ∷ 0x9b05688c ∷ 0x1f83d9ab
    ∷ 0x5be0cd19 ∷ []

-- `wrapping_add`, `rotate_right`, `>>` and `!` on 32 bits.
abbrev pub wrapping_add : ℕ → ℕ → ℕ
wrapping_add a b = (a + b) % 2 ^ 32

abbrev pub rotate_right : ℕ → ℕ → ℕ
rotate_right x k = x / 2 ^ k + x % 2 ^ k * 2 ^ (32 - k)

abbrev pub shift_right : ℕ → ℕ → ℕ
shift_right x k = x / 2 ^ k

abbrev pub complement : ℕ → ℕ
complement x = 2 ^ 32 - 1 - x

-- The working variables `a` to `hh`.
pub record Vars : Type 0 where
  pub a : ℕ
  pub b : ℕ
  pub c : ℕ
  pub d : ℕ
  pub e : ℕ
  pub f : ℕ
  pub g : ℕ
  pub hh : ℕ

-- One round, with its constant and its word.
unfoldable pub round : ℕ → ℕ → Vars → Vars
round k w v =
    let s1 = bit_xor (bit_xor (rotate_right v.e 6) (rotate_right v.e 11)) (rotate_right v.e 25) in
    let ch = bit_xor (bit_and v.e v.f) (bit_and (complement v.e) v.g) in
    let temp1 = wrapping_add (wrapping_add (wrapping_add (wrapping_add v.hh s1) ch) k) w in
    let s0 = bit_xor (bit_xor (rotate_right v.a 2) (rotate_right v.a 13)) (rotate_right v.a 22) in
    let maj = bit_xor (bit_xor (bit_and v.a v.b) (bit_and v.a v.c)) (bit_and v.b v.c) in
    let temp2 = wrapping_add s0 maj in
    record {
      a = wrapping_add temp1 temp2;
      b = v.a;
      c = v.b;
      d = v.c;
      e = wrapping_add v.d temp1;
      f = v.e;
      g = v.f;
      hh = v.g;
    }

-- `while t < 64 { .. }` over the rounds, from `t`.
unfoldable pub rounds : List ℕ → ℕ → ℕ → List ℕ → Vars → Vars
rounds k zero t w v = v
rounds k (suc n) t w v = rounds k n (suc t) w (round (get_or k t 0) (get_or w t 0) v)

-- The word that four bytes make, the first the highest: `|` of bytes that do not overlap is their sum.
abbrev pub word_at : Bytes → ℕ → ℕ
word_at buf i =
    get_or buf i 0 * 2 ^ 24
    + get_or buf (i + 1) 0 * 2 ^ 16
    + get_or buf (i + 2) 0 * 2 ^ 8
    + get_or buf (i + 3) 0

-- `while t < 16 { .. }`
unfoldable pub load : ℕ → ℕ → ℕ → Bytes → List ℕ → List ℕ
load zero t block buf w = w
load (suc n) t block buf w = load n (suc t) block buf (set w t (word_at buf (block + t * 4)))

-- The word `t` of the schedule from the words before it.
unfoldable pub next_word : List ℕ → ℕ → ℕ
next_word w t =
    let w15 = get_or w (t - 15) 0 in
    let w2 = get_or w (t - 2) 0 in
    let s0 = bit_xor (bit_xor (rotate_right w15 7) (rotate_right w15 18)) (shift_right w15 3) in
    let s1 = bit_xor (bit_xor (rotate_right w2 17) (rotate_right w2 19)) (shift_right w2 10) in
    wrapping_add (wrapping_add (wrapping_add (get_or w (t - 16) 0) s0) (get_or w (t - 7) 0)) s1

-- `while t < 64 { .. }` over the schedule.
unfoldable pub extend : ℕ → ℕ → List ℕ → List ℕ
extend zero t w = w
extend (suc n) t w = extend n (suc t) (set w t (next_word w t))

abbrev pub start : List ℕ → Vars
start h = record {
  a = get_or h 0 0;
  b = get_or h 1 0;
  c = get_or h 2 0;
  d = get_or h 3 0;
  e = get_or h 4 0;
  f = get_or h 5 0;
  g = get_or h 6 0;
  hh = get_or h 7 0;
}

abbrev pub add_to : List ℕ → Vars → List ℕ
add_to h v =
    wrapping_add (get_or h 0 0) v.a
    ∷ wrapping_add (get_or h 1 0) v.b
    ∷ wrapping_add (get_or h 2 0) v.c
    ∷ wrapping_add (get_or h 3 0) v.d
    ∷ wrapping_add (get_or h 4 0) v.e
    ∷ wrapping_add (get_or h 5 0) v.f
    ∷ wrapping_add (get_or h 6 0) v.g
    ∷ wrapping_add (get_or h 7 0) v.hh
    ∷ []

-- The body of the loop over the blocks.
unfoldable pub compress : ℕ → Bytes → List ℕ → List ℕ
compress block buf h =
    let w = extend 48 16 (load 16 0 block buf (replicate 64 0)) in
    add_to h (rounds k_table 64 0 w (start h))

-- `while block < padded_len { .. }`
unfoldable pub blocks : ℕ → ℕ → ℕ → Bytes → List ℕ → List ℕ
blocks zero block padded_len buf h = h
blocks (suc fuel) block padded_len buf h =
    let rest = blocks fuel (block + 64) padded_len buf (compress block buf h) in
    if ltb block padded_len then rest else h

-- `buf[i] = b`
abbrev pub store : Bytes → ℕ → ℕ → Option Bytes
store buf i b = if ltb i (length buf) then some (set buf i b) else none

abbrev pub and_then : Option Bytes → (Bytes → Option Bytes) → Option Bytes
and_then none k = none
and_then (some buf) k = k buf

-- `while i < len { .. }`: the input copied into the buffer.
unfoldable pub copy : Bytes → ℕ → Bytes → Option Bytes
copy [] i buf = some buf
copy (b ∷ input) i buf = and_then (store buf i b) (copy input (suc i))

-- `while j < 8 { .. }`: the bit length, the highest byte first.
unfoldable pub put_length : ℕ → ℕ → ℕ → ℕ → Bytes → Bytes
put_length zero j padded_len bit_len buf = buf
put_length (suc n) j padded_len bit_len buf =
    put_length n (suc j) padded_len bit_len
      (set buf (padded_len - 1 - j) (bit_len / 2 ^ (j * 8) % 256))

abbrev pub padded_len : ℕ → ℕ
padded_len len = if ltb len 56 then 64 else 128

unfoldable pub pad : Bytes → Option Bytes
pad input =
    let len = length input in
    and_then (copy input 0 (replicate 128 0)) λ copied.
      and_then (store copied len 128)
        λ marked. some (put_length 8 0 (padded_len len) (len * 8 % 2 ^ 64) marked)

-- `while i < 8 { .. }`: the words written out.
unfoldable pub write_out : ℕ → ℕ → List ℕ → Bytes → Bytes
write_out zero i h out = out
write_out (suc n) i h out =
    let x = get_or h i 0 in
    write_out n (suc i) h (
      set
        (set (set (set out (i * 4) (x / 2 ^ 24)) (i * 4 + 1) (x / 2 ^ 16 % 256)) (i * 4 + 2)
          (x / 2 ^ 8 % 256))
        (i * 4 + 3) (x % 256))

unfoldable pub const_sha256 : Bytes → Option Bytes
const_sha256 input = and_then (pad input) λ buf.
    some (write_out 8 0 (blocks 3 0 (padded_len (length input)) buf initial_h) (replicate 32 0))

unfoldable pub compute_anchor_discriminator : Bytes → Option Bytes
compute_anchor_discriminator prefix = and_then (const_sha256 prefix) λ digest. some (take 8 digest)

-- The ASCII of `event:ThoughtSubmitted` and of `global:challenge`.
abbrev pub thought_submitted_discriminator : Option Bytes
thought_submitted_discriminator = compute_anchor_discriminator (
    101 ∷ 118 ∷ 101 ∷ 110 ∷ 116 ∷ 58 ∷ 84 ∷ 104 ∷ 111 ∷ 117 ∷ 103 ∷ 104 ∷ 116 ∷ 83 ∷ 117 ∷ 98 ∷ 109
    ∷ 105 ∷ 116 ∷ 116 ∷ 101 ∷ 100 ∷ [])

abbrev pub challenge_ix_discriminator : Option Bytes
challenge_ix_discriminator =
    compute_anchor_discriminator (
      103 ∷ 108 ∷ 111 ∷ 98 ∷ 97 ∷ 108 ∷ 58 ∷ 99 ∷ 104 ∷ 97 ∷ 108 ∷ 108 ∷ 101 ∷ 110 ∷ 103 ∷ 101 ∷ [])
