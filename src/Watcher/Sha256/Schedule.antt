-- ===== src/Watcher/Sha256/Schedule.antt =====
-- The loops over the schedule and the rounds against the standard's recursions.
use proof_of_thought.Prelude.{
  ℕ, zero, suc, ◌+◌, ◌-◌, ◌*◌, ◌%◌, ◌^◌, ◌≤◌, ◌<◌, ◌≡◌, refl, List, [], ◌∷◌, ◌++◌, length, drop,
  get_or, set, replicate, length-append, arith, ap, ◌∙◌,
}
use mathlib.Core.List.{append-nil}
use proof_of_thought.Watcher.Types.{Bytes}
use proof_of_thought.Watcher.Sha256.{
  Vars, k_table, round, rounds, word_at, load, next_word, extend, compress, start, add_to,
}
use proof_of_thought.Watcher.Sha256.Standard.{
  standard_round, standard_rounds, standard_word, grow, words, standard_block, round_constants,
  root_fraction, root_from,
}

pub set-length : (xs ys : List ℕ) (y v : ℕ) → set (xs ++ y ∷ ys) (length xs) v ≡ xs ++ v ∷ ys
set-length [] ys y v = refl
set-length (x ∷ xs) ys y v = cc (set-length xs ys y v)

pub snoc : (xs ys : List ℕ) (v : ℕ) → xs ++ v ∷ ys ≡ xs ++ v ∷ [] ++ ys
snoc [] ys v = refl
snoc (x ∷ xs) ys v = cc (snoc xs ys v)

get_or-append : (xs ys : List ℕ) (i : ℕ) → i < length xs → get_or (xs ++ ys) i 0 ≡ get_or xs i 0
get_or-append [] ys i h = absurd (omega arith)
get_or-append (x ∷ xs) ys zero h = refl
get_or-append (x ∷ xs) ys (suc i) h = get_or-append xs ys i (omega arith)

pub get_or-drop : (xs : List ℕ) (p i : ℕ) → get_or (drop p xs) i 0 ≡ get_or xs (p + i) 0
get_or-drop xs zero i = grind arith
get_or-drop [] (suc p) i = ground arith
get_or-drop (x ∷ xs) (suc p) i = ground (arith, get_or-drop xs p i)

-- Sums reduced at each step, and at the end.
sum_of_five :
    (a b c d e : ℕ)
    → ((((a + b) % 2 ^ 32 + c) % 2 ^ 32 + d) % 2 ^ 32 + e) % 2 ^ 32 ≡ (a + b + c + d + e) % 2 ^ 32
sum_of_five a b c d e = omega arith

sum_of_four :
    (a b c d : ℕ) → (((a + b) % 2 ^ 32 + c) % 2 ^ 32 + d) % 2 ^ 32 ≡ (d + c + b + a) % 2 ^ 32
sum_of_four a b c d = omega arith

sum_left : (a b : ℕ) → (a + b % 2 ^ 32) % 2 ^ 32 ≡ (a + b) % 2 ^ 32
sum_left a b = omega arith

sum_right : (a b : ℕ) → (a % 2 ^ 32 + b) % 2 ^ 32 ≡ (a + b) % 2 ^ 32
sum_right a b = omega arith

round-standard : (k w : ℕ) (v : Vars) → round k w v ≡ standard_round k w v
unfolding round
round-standard k w v = simp (sum_left, sum_right)

drop-cons : (xs : List ℕ) (t : ℕ) → t < length xs → drop t xs ≡ get_or xs t 0 ∷ drop (suc t) xs
drop-cons [] t h = absurd (omega arith)
drop-cons (x ∷ xs) zero h = refl
drop-cons (x ∷ xs) (suc t) h = drop-cons xs t (omega arith)

drop-length : (xs : List ℕ) (t : ℕ) → t ≡ length xs → drop t xs ≡ []
drop-length [] zero h = refl
drop-length [] (suc t) h = refl
drop-length (x ∷ xs) zero h = absurd (omega arith)
drop-length (x ∷ xs) (suc t) h = drop-length xs t (omega arith)

pub rounds-standard :
    (ks : List ℕ) (n t : ℕ) (ws : List ℕ) (v : Vars)
    → t + n ≡ length ks
    → length ws ≡ length ks
    → rounds ks n t ws v ≡ standard_rounds (drop t ks) (drop t ws) v
unfolding rounds
rounds-standard ks zero t ws v e f = rw (drop-length ks t (omega arith)) refl
rounds-standard ks (suc n) t ws v e f =
    rw
      (
        drop-cons ks t (omega arith),
        drop-cons ws t (omega arith),
        round-standard (get_or ks t 0) (get_or ws t 0) v,
      )
      (rounds-standard ks n (suc t) ws _ (omega arith) f)

next_word-append :
    (ws zs : List ℕ) → 16 ≤ length ws → next_word (ws ++ zs) (length ws) ≡ standard_word ws
unfolding next_word
next_word-append ws zs h =
    let t = length ws in
    let at = λ (i : ℕ) (near : t - i < t). get_or-append ws zs (t - i) near in
    rw (at 16 (omega arith), at 15 (omega arith), at 7 (omega arith), at 2 (omega arith))
      (sum_of_four _ _ _ _)

pub extend-grow :
    (n : ℕ) (ws : List ℕ) (t : ℕ)
    → length ws ≡ t
    → 16 ≤ t
    → extend n t (ws ++ replicate n 0) ≡ grow n ws
unfolding extend grow
extend-grow zero ws t e h = append-nil ws
extend-grow (suc n) ws t e h =
    let w = standard_word ws in
    let longer : length (ws ++ w ∷ []) ≡ suc t = omega (arith, length-append ws (w ∷ [])) in
    rw
      (
        ← e,
        next_word-append ws (0 ∷ replicate n 0) (omega arith),
        set-length ws (replicate n 0) 0 w,
        snoc ws (replicate n 0) w,
      )
      (extend-grow n (ws ++ w ∷ []) (suc (length ws)) (omega arith) (omega arith))

drop-nil : (n : ℕ) → drop {A = ℕ} n [] ≡ []
drop-nil zero = refl
drop-nil (suc n) = refl

pub drop-drop : (xs : Bytes) (p n : ℕ) → drop n (drop p xs) ≡ drop (p + n) xs
drop-drop xs zero n = let e : 0 + n ≡ n = omega arith in rw e refl
drop-drop [] (suc p) n = let e : suc p + n ≡ suc (p + n) = omega arith in rw e (drop-nil n)
drop-drop (x ∷ xs) (suc p) n =
    let e : suc p + n ≡ suc (p + n) = omega arith in rw e (drop-drop xs p n)

word_at-drop :
    (buf : Bytes) (p : ℕ)
    → word_at buf p
      ≡ get_or (drop p buf) 0 0 * 2 ^ 24
        + get_or (drop p buf) 1 0 * 2 ^ 16
        + get_or (drop p buf) 2 0 * 2 ^ 8
        + get_or (drop p buf) 3 0
word_at-drop buf p =
    let first : get_or (drop p buf) 0 0 ≡ get_or buf p 0 = grind (arith, get_or-drop buf p 0) in
    rw (first, get_or-drop buf p 1, get_or-drop buf p 2, get_or-drop buf p 3) refl

pub load-words :
    (n t block : ℕ) (buf : Bytes) (ws zs : List ℕ)
    → length ws ≡ t
    → load n t block buf (ws ++ (replicate n 0 ++ zs))
      ≡ ws ++ (words n (drop (block + t * 4) buf) ++ zs)
unfolding load words
load-words zero t block buf ws zs e = refl
load-words (suc n) t block buf ws zs e =
    let p = block + length ws * 4 in
    let w = word_at buf p in
    let longer : length (ws ++ w ∷ []) ≡ suc (length ws) =
      omega (arith, length-append ws (w ∷ [])) in
    let ahead : p + 4 ≡ block + suc (length ws) * 4 = omega arith in
    rw
      (
        ← e,
        set-length ws (replicate n 0 ++ zs) 0 w,
        snoc ws (replicate n 0 ++ zs) w,
        load-words n (suc (length ws)) block buf (ws ++ w ∷ []) zs longer,
        ← word_at-drop buf p,
        drop-drop buf p 4,
        ahead,
        snoc ws (words n (drop (block + suc (length ws) * 4) buf) ++ zs) w,
      )
      refl

length-words : (n : ℕ) (m : Bytes) → length (words n m) ≡ n
unfolding words
length-words zero m = refl
length-words (suc n) m = omega (arith, length-words n (drop 4 m))

length-grow : (n : ℕ) (ws : List ℕ) → length (grow n ws) ≡ n + length ws
unfolding grow
length-grow zero ws = omega arith
length-grow (suc n) ws =
    let w = standard_word ws in
    omega (arith, length-grow n (ws ++ w ∷ []), length-append ws (w ∷ []))

pub drop-append : (xs ys : Bytes) (n : ℕ) → n ≤ length xs → drop n (xs ++ ys) ≡ drop n xs ++ ys
drop-append xs ys zero h = refl
drop-append [] ys (suc n) h = absurd (omega arith)
drop-append (x ∷ xs) ys (suc n) h = drop-append xs ys n (omega arith)

length-drop : (xs : Bytes) (n : ℕ) → n ≤ length xs → length (drop n xs) + n ≡ length xs
length-drop xs zero h = omega arith
length-drop [] (suc n) h = absurd (omega arith)
length-drop (x ∷ xs) (suc n) h = omega (arith, length-drop xs n (omega arith))

-- The words of a block are read from its own bytes.
words-append : (n : ℕ) (m rest : Bytes) → n * 4 ≤ length m → words n (m ++ rest) ≡ words n m
unfolding words
words-append zero m rest h = refl
words-append (suc n) m rest h =
    rw
      (
        get_or-append m rest 0 (omega arith),
        get_or-append m rest 1 (omega arith),
        get_or-append m rest 2 (omega arith),
        get_or-append m rest 3 (omega arith),
        drop-append m rest 4 (omega arith),
        words-append n (drop 4 m) rest (omega (arith, length-drop m 4 (omega arith))),
      )
      refl

k_table-round_constants : k_table ≡ round_constants
unfolding round_constants root_fraction root_from
k_table-round_constants = refl

-- One block in the buffer, whatever stands before and behind it.
pub compress-standard :
    (block : ℕ) (buf m rest : Bytes) (h : List ℕ)
    → drop block buf ≡ m ++ rest
    → length m ≡ 64
    → compress block buf h ≡ standard_block m h
unfolding compress standard_block
compress-standard block buf m rest h split size =
    let ws = words 16 m in
    let at : block + 0 * 4 ≡ block = omega arith in
    let loaded : load 16 0 block buf (replicate 64 0) ≡ ws ++ replicate 48 0 =
      load-words 16 0 block buf [] (replicate 48 0) refl
      ∙ rw (at, split, words-append 16 m rest (omega arith)) refl in
    let grown = extend-grow 48 ws 16 (length-words 16 m) (omega arith) in
    let long : length (grow 48 ws) ≡ 64 = omega (arith, length-grow 48 ws, length-words 16 m) in
    rw (loaded, grown, ← k_table-round_constants)
      (ap (add_to h) (rounds-standard k_table 64 0 (grow 48 ws) (start h) refl long))
