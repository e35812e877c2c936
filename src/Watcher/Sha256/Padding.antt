-- ===== src/Watcher/Sha256/Padding.antt =====
-- The buffer of 128 bytes against the standard's padding.
use proof_of_thought.Prelude.{
  ℕ, zero, suc, ◌+◌, ◌-◌, ◌*◌, ◌/◌, ◌%◌, ◌^◌, ◌<◌, ◌≡◌, refl, [], ◌∷◌, ◌++◌, some, length, set,
  replicate, length-append, arith, ap, ◌∙◌, sym,
}
use proof_of_thought.Watcher.Types.{Bytes}
use proof_of_thought.Watcher.Sha256.{copy, put_length, pad, padded_len, store}
use proof_of_thought.Watcher.Sha256.Standard.{be_bytes, padded}
use proof_of_thought.Watcher.Sha256.Schedule.{set-length, snoc}

pub length-replicate : (n x : ℕ) → length (replicate n x) ≡ n
length-replicate zero x = refl
length-replicate (suc n) x = omega (arith, length-replicate n x)

replicate-add : (m n x : ℕ) → replicate (m + n) x ≡ replicate m x ++ replicate n x
replicate-add zero n x = let e : 0 + n ≡ n = omega arith in rw e refl
replicate-add (suc m) n x =
    let e : suc m + n ≡ suc (m + n) = omega arith in rw (e, replicate-add m n x) refl

pub append_assoc : (xs ys zs : Bytes) → xs ++ ys ++ zs ≡ xs ++ (ys ++ zs)
append_assoc [] ys zs = refl
append_assoc (x ∷ xs) ys zs = cc (append_assoc xs ys zs)

store-append : (xs ys : Bytes) (y v : ℕ) → store (xs ++ y ∷ ys) (length xs) v ≡ some (xs ++ v ∷ ys)
store-append xs ys y v = ground (arith, length-append xs (y ∷ ys), set-length xs ys y v)

copy-append :
    (input done zs : Bytes)
    → copy input (length done) (done ++ (replicate (length input) 0 ++ zs))
      ≡ some (done ++ (input ++ zs))
unfolding copy
copy-append [] done zs = refl
copy-append (b ∷ input) done zs =
    let longer : suc (length done) ≡ length (done ++ b ∷ []) =
      omega (arith, length-append done (b ∷ [])) in
    rw
      (
        store-append done (replicate (length input) 0 ++ zs) 0 b,
        snoc done (replicate (length input) 0 ++ zs) b,
        longer,
        copy-append input (done ++ b ∷ []) zs,
        snoc done (input ++ zs) b,
      )
      refl

set-append : (xs ys : Bytes) (i v : ℕ) → set (xs ++ ys) (length xs + i) v ≡ xs ++ set ys i v
set-append [] ys i v = let e : 0 + i ≡ i = omega arith in rw e refl
set-append (x ∷ xs) ys i v =
    let e : suc (length xs) + i ≡ suc (length xs + i) = omega arith in
    rw (e, set-append xs ys i v) refl

-- The length is written behind `front`, the last byte first.
put_length-append :
    (n j bit_len : ℕ) (front ys : Bytes)
    → j + n ≡ 8
    → put_length n j (length front + 8) bit_len (front ++ ys) ≡ front ++ put_length n j 8 bit_len ys
unfolding put_length
put_length-append zero j bit_len front ys e = refl
put_length-append (suc n) j bit_len front ys e =
    let at : length front + 8 - 1 - j ≡ length front + (8 - 1 - j) = omega arith in
    rw (at, set-append front ys (8 - 1 - j) (bit_len / 2 ^ (j * 8) % 256))
      (put_length-append n (suc j) bit_len front _ (omega arith))

put_length-be_bytes :
    (bit_len : ℕ) (zs : Bytes)
    → put_length 8 0 8 bit_len (0 ∷ 0 ∷ 0 ∷ 0 ∷ 0 ∷ 0 ∷ 0 ∷ 0 ∷ zs) ≡ be_bytes 8 bit_len ++ zs
unfolding put_length be_bytes
put_length-be_bytes bit_len zs =
    let e0 : bit_len / 2 ^ 0 ≡ bit_len = omega arith in
    let e2 : bit_len / 2 ^ 16 ≡ bit_len / 256 / 256 = omega arith in
    let e3 : bit_len / 2 ^ 24 ≡ bit_len / 256 / 256 / 256 = omega arith in
    let e4 : bit_len / 2 ^ 32 ≡ bit_len / 256 / 256 / 256 / 256 = omega arith in
    let e5 : bit_len / 2 ^ 40 ≡ bit_len / 256 / 256 / 256 / 256 / 256 = omega arith in
    let e6 : bit_len / 2 ^ 48 ≡ bit_len / 256 / 256 / 256 / 256 / 256 / 256 = omega arith in
    let e7 : bit_len / 2 ^ 56 ≡ bit_len / 256 / 256 / 256 / 256 / 256 / 256 / 256 = omega arith in
    rw (e0, e2, e3, e4, e5, e6, e7) refl

pub pad-padded :
    (input : Bytes)
    → length input < 120
    → pad input ≡ some (padded input ++ replicate (128 - padded_len (length input)) 0)
unfolding pad padded
pad-padded input small =
    let len = length input in
    let k = (119 - len % 64) % 64 in
    let z = 128 - padded_len len in
    let ks : Bytes = replicate k 0 in
    let zs : Bytes = replicate z 0 in
    let ls : Bytes = replicate len 0 in
    let ts : Bytes = replicate (127 - len) 0 in
    let front : Bytes = input ++ (128 ∷ ks) in
    let split : 127 - len ≡ k + (8 + z) = ground arith in
    let eight : replicate (8 + z) 0 ≡ 0 ∷ 0 ∷ 0 ∷ 0 ∷ 0 ∷ 0 ∷ 0 ∷ 0 ∷ zs = replicate-add 8 z 0 in
    let tail : ts ≡ ks ++ (0 ∷ 0 ∷ 0 ∷ 0 ∷ 0 ∷ 0 ∷ 0 ∷ 0 ∷ zs) =
      rw (split, replicate-add k (8 + z) 0, eight) refl in
    let whole : 128 ≡ len + suc (127 - len) = omega arith in
    let one : replicate (suc (127 - len)) 0 ≡ 0 ∷ ts = refl in
    let zeros : replicate {A = ℕ} 128 0 ≡ ls ++ (0 ∷ ts) =
      ap (λ n. replicate {A = ℕ} n 0) whole ∙ replicate-add len (suc (127 - len)) 0 in
    let copied : copy input 0 (replicate 128 0) ≡ some (input ++ (0 ∷ ts)) =
      rw zeros (copy-append input [] (0 ∷ ts)) in
    let at : padded_len len ≡ length front + 8 =
      ground (arith, length-append input (128 ∷ ks), length-replicate k 0) in
    let bits : len * 8 % 2 ^ 64 ≡ len * 8 = omega arith in
    let be = be_bytes 8 (len * 8) in
    let after : Bytes = 0 ∷ 0 ∷ 0 ∷ 0 ∷ 0 ∷ 0 ∷ 0 ∷ 0 ∷ zs in
    let put : put_length 8 0 (padded_len len) (len * 8) (front ++ after) ≡ front ++ (be ++ zs) =
      ap (λ p. put_length 8 0 p (len * 8) (front ++ after)) at
      ∙ put_length-append 8 0 (len * 8) front after refl
      ∙ ap (λ b. front ++ b) (put_length-be_bytes (len * 8) zs) in
    let joined : front ++ (be ++ zs) ≡ padded input ++ zs =
      cc (append_assoc front be zs, append_assoc input (128 ∷ ks) be) in
    rw (copied, store-append input ts 0 128, bits, tail)
      (ap some (
        ap (put_length 8 0 (padded_len len) (len * 8)) (sym (append_assoc input (128 ∷ ks) after))
        ∙ put
        ∙ joined))
