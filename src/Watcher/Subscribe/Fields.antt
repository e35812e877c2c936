-- ===== src/Watcher/Subscribe/Fields.antt =====
-- What the decoder's reads accept (watcher/src/subscribe.rs).
use proof_of_thought.Prelude.{
  ℕ, zero, suc, ◌+◌, ◌*◌, ◌/◌, ◌%◌, ◌^◌, ◌≤◌, ◌<◌, ◌≡◌, refl, [], ◌∷◌, ◌++◌, length, take, drop,
  length-append, arith,
}
use mathlib.Core.Path.{subst}
use proof_of_thought.Watcher.Types.{Bytes, le_bytes, from_le}
use proof_of_thought.Watcher.Subscribe.{Cursor, Parsed, parsed, bad, ◌>>=◌, take_bytes, read_number}
use proof_of_thought.Watcher.Subscribe.RoundTrip.{++-assoc, drop-++, Before}

pub >>=-eq-parsed {ℓ₁ ℓ₂} :
    {T : Type ℓ₁} {U : Type ℓ₂} {u : U} (first : Parsed T) (rest : T → Parsed U)
    → (first >>= rest) ≡ parsed u
    → (value : T) × (first ≡ parsed value) × (rest value ≡ parsed u)
>>=-eq-parsed (bad reason) rest passed = cc
>>=-eq-parsed (parsed value) rest passed = (value, refl, passed)

pub parsed-injective {ℓ} : {T : Type ℓ} {a b : T} → parsed a ≡ parsed b → a ≡ b
parsed-injective h = cc

-- One field of the Borsh form, and the rest of it.
pub field :
    (n : ℕ) {x y : ℕ} {whole post tail : Bytes}
    → whole ≡ le_bytes n x ++ post
    → x ≡ y
    → post ≡ tail
    → whole ≡ le_bytes n y ++ tail
field n split same follows = cc

pub text_field :
    {whole s t : Bytes} (post : Bytes)
    → whole ≡ le_bytes 4 (length s) ++ (s ++ post)
    → s ≡ t
    → whole ≡ le_bytes 4 (length t) ++ (t ++ post)
text_field post split same = cc

-- Numbers that are bytes.
abbrev pub AreBytes : Bytes → Type 0
AreBytes [] = Unit {0}
AreBytes (b ∷ bs) = (b < 256) × AreBytes bs

pub AreBytes-++ : (xs ys : Bytes) → AreBytes (xs ++ ys) → AreBytes xs × AreBytes ys
AreBytes-++ [] ys h = (tt, h)
AreBytes-++ (x ∷ xs) ys (small, h) =
    let (left, right) = AreBytes-++ xs ys h in ((small, left), right)

le_bytes-from_le :
    (s : Bytes) → AreBytes s → (le_bytes (length s) (from_le s) ≡ s) × (from_le s < 256 ^ length s)
unfolding le_bytes from_le
le_bytes-from_le [] h = (refl, omega arith)
le_bytes-from_le (b ∷ bs) (small, h) =
    let (back, bound) = le_bytes-from_le bs h in
    let low : (b + 256 * from_le bs) % 256 ≡ b = omega arith in
    let high : (b + 256 * from_le bs) / 256 ≡ from_le bs = omega arith in
    let wide : b + 256 * from_le bs < 256 ^ suc (length bs) = omega arith in (grind arith, wide)

pub take-drop : (n : ℕ) (xs : Bytes) → take n xs ++ drop n xs ≡ xs
take-drop zero xs = refl
take-drop (suc n) [] = refl
take-drop (suc n) (x ∷ xs) = cc (take-drop n xs)

length-take : (n : ℕ) (xs : Bytes) → n ≤ length xs → length (take n xs) ≡ n
length-take zero xs h = refl
length-take (suc n) [] h = absurd (omega arith)
length-take (suc n) (x ∷ xs) h = omega (arith, length-take n xs)

pub take_bytes-parsed :
    (c c' : Cursor) (n : ℕ) (rest s : Bytes)
    → Before c rest
    → take_bytes n c ≡ parsed (s, c')
    → (post : Bytes) × (rest ≡ s ++ post) × (length s ≡ n) × Before c' post
unfolding take_bytes
take_bytes-parsed c c' n rest s (done, at, pos) h =
    let here : drop c.pos c.buf ≡ rest = grind (arith, drop-++ done rest) in
    let sized : length c.buf ≡ length done + length rest = grind (arith, length-append done rest) in
    let enough : n ≤ length rest = ground arith in
    let cut : s ≡ take n rest = ground arith in
    let size : length s ≡ n = grind (arith, length-take n rest) in
    let buf : c'.buf ≡ c.buf = ground arith in
    let moved : c'.pos ≡ c.pos + n = ground arith in
    (
      drop n rest,
      cc (take-drop n rest),
      size,
      (
        done ++ s,
        cc (++-assoc done s (drop n rest), take-drop n rest),
        omega (arith, length-append done s),
      ),
    )

pub read_number-parsed :
    (c c' : Cursor) (n x : ℕ) (rest : Bytes)
    → Before c rest
    → AreBytes rest
    → read_number n c ≡ parsed (x, c')
    → (post : Bytes) × (rest ≡ le_bytes n x ++ post)
      × (x < 256 ^ n)
      × AreBytes post
      × Before c' post
unfolding read_number
read_number-parsed c c' n x rest before small h =
    let ((s, c₁), taken, back) = >>=-eq-parsed (take_bytes n c) _ h in
    let (post, split, size, after) = take_bytes-parsed c c₁ n rest s before taken in
    let value : from_le s ≡ x = cc in
    let same : c₁ ≡ c' = cc in
    let (bytes, others) = AreBytes-++ s post (subst AreBytes split small) in
    let (round, bound) = le_bytes-from_le s bytes in
    (post, cc, grind arith, others, subst (λ k. Before k post) same after)

-- What a read that succeeds tells the reads after it.
pub read_number-then {ℓ κ} :
    {U : Type ℓ} {P : Type κ} {u : U} (n : ℕ) (c : Cursor) (k : ℕ × Cursor → Parsed U)
    (rest : Bytes)
    → Before c rest
    → AreBytes rest
    → (read_number n c >>= k) ≡ parsed u
    → ((x : ℕ) (c' : Cursor) (post : Bytes)
        → rest ≡ le_bytes n x ++ post
        → x < 256 ^ n
        → AreBytes post
        → Before c' post
        → k (x, c') ≡ parsed u
        → P)
    → P
read_number-then n c k rest before small h next =
    let ((x, c'), read, h') = >>=-eq-parsed (read_number n c) k h in
    let (post, split, fits, others, after) = read_number-parsed c c' n x rest before small read in
    next x c' post split fits others after h'
