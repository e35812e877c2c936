-- ===== src/Watcher/Soft/Trees.antt =====
-- Binary trees of 32-byte hashes, and the strings that a pair of them makes, for the membership test of
-- watcher/src/verify/soft.rs.
use proof_of_thought.Prelude.{
  ℕ, zero, suc, ◌^◌, ◌<◌, ◌≡◌, ◌⊎◌, inl, inr, refl, List, [], ◌∷◌, ◌++◌, Bool, true, false, length,
  take, drop, arith, ap, ◌∙◌, sym,
}
use proof_of_thought.Watcher.Types.{Bytes, le_bytes, from_le, same_bytes, same_bytes_refl}
use proof_of_thought.Watcher.Subscribe.RoundTrip.{
  length-le_bytes, from_le-le_bytes, take-++, drop-++,
}

pub data Tree : Type 0 where
  leaf : ℕ → Tree
  node : Tree → Tree → Tree

-- Every leaf stands at depth `n`.
abbrev pub IsPerfect : ℕ → Tree → Type 0
IsPerfect zero (leaf x) = Unit
IsPerfect zero (node l r) = ⊥
IsPerfect (suc n) (leaf x) = ⊥
IsPerfect (suc n) (node l r) = IsPerfect n l × IsPerfect n r

-- Every leaf is a 32-byte hash.
abbrev pub HasHashes : Tree → Type 0
HasHashes (leaf x) = x < 2 ^ 256
HasHashes (node l r) = HasHashes l × HasHashes r

abbrev pub IsLeafOf : ℕ → Tree → Type 0
IsLeafOf x (leaf y) = x ≡ y
IsLeafOf x (node l r) = IsLeafOf x l ⊎ IsLeafOf x r

abbrev pub IsAmong : Bytes → List Bytes → Type 0
IsAmong s [] = ⊥
IsAmong s (t ∷ strings) = (s ≡ t) ⊎ IsAmong s strings

pub IsAmong-left : (s : Bytes) (xs ys : List Bytes) → IsAmong s xs → IsAmong s (xs ++ ys)
IsAmong-left s [] ys h = elim h [ ]
IsAmong-left s (x ∷ xs) ys (inl e) = inl e
IsAmong-left s (x ∷ xs) ys (inr h) = inr (IsAmong-left s xs ys h)

pub IsAmong-right : (s : Bytes) (xs ys : List Bytes) → IsAmong s ys → IsAmong s (xs ++ ys)
IsAmong-right s [] ys h = h
IsAmong-right s (x ∷ xs) ys h = inr (IsAmong-right s xs ys h)

-- The siblings of a proof are 32-byte hashes.
abbrev pub AreHashes : List (Bool × ℕ) → Type 0
AreHashes [] = Unit
AreHashes ((b, s) ∷ proof) = (s < 2 ^ 256) × AreHashes proof

-- The leaf that the turns lead to from the root, to the left where they have run out.
abbrev pub leaf_at : Tree → List Bool → ℕ
leaf_at (leaf x) turns = x
leaf_at (node l r) [] = leaf_at l []
leaf_at (node l r) (true ∷ turns) = leaf_at r turns
leaf_at (node l r) (false ∷ turns) = leaf_at l turns

pub last_of {ℓ} :
    {A : Type ℓ} (p : List A) (n : ℕ)
    → length p ≡ suc n
    → (q : List A) × (a : A) × (p ≡ q ++ a ∷ []) × (length q ≡ n)
last_of [] n h = absurd (omega arith)
last_of (a ∷ []) n h = ([], a, refl, omega arith)
last_of (a ∷ b ∷ p) zero h = absurd (omega arith)
last_of (a ∷ b ∷ p) (suc n) h =
    let (q, z, e, l) = last_of (b ∷ p) n (omega arith) in (a ∷ q, z, ap (λ t. a ∷ t) e, omega arith)

pub AreHashes-append :
    (q : List (Bool × ℕ)) (b : Bool) (s : ℕ)
    → AreHashes (q ++ (b, s) ∷ [])
    → AreHashes q × (s < 2 ^ 256)
AreHashes-append [] b s (small, h) = (tt, small)
AreHashes-append ((c, t) ∷ q) b s (small, h) =
    let (rest, last) = AreHashes-append q b s h in ((small, rest), last)

le_bytes_injective : (x y : ℕ) → x < 2 ^ 256 → y < 2 ^ 256 → le_bytes 32 x ≡ le_bytes 32 y → x ≡ y
le_bytes_injective x y hx hy e =
    sym (from_le-le_bytes 32 x hx) ∙ ap from_le e ∙ from_le-le_bytes 32 y hy

take_first : (x : ℕ) (ys : Bytes) → take 32 (le_bytes 32 x ++ ys) ≡ le_bytes 32 x
take_first x ys =
    ap (λ n. take n (le_bytes 32 x ++ ys)) (sym (length-le_bytes 32 x)) ∙ take-++ (le_bytes 32 x) ys

drop_first : (x : ℕ) (ys : Bytes) → drop 32 (le_bytes 32 x ++ ys) ≡ ys
drop_first x ys =
    ap (λ n. drop n (le_bytes 32 x ++ ys)) (sym (length-le_bytes 32 x)) ∙ drop-++ (le_bytes 32 x) ys

pub pairs_injective :
    (a b c d : ℕ)
    → a < 2 ^ 256
    → b < 2 ^ 256
    → c < 2 ^ 256
    → d < 2 ^ 256
    → le_bytes 32 a ++ le_bytes 32 b ≡ le_bytes 32 c ++ le_bytes 32 d
    → (a ≡ c) × (b ≡ d)
pairs_injective a b c d ha hb hc hd e = (
  le_bytes_injective a c ha hc
      (sym (take_first a (le_bytes 32 b)) ∙ ap (take 32) e ∙ take_first c (le_bytes 32 d)),
  le_bytes_injective b d hb hd
      (sym (drop_first a (le_bytes 32 b)) ∙ ap (drop 32) e ∙ drop_first c (le_bytes 32 d)),
)

pub equal_bytes : (s t : Bytes) → s ≡ t → same_bytes s t ≡ true
equal_bytes s t e = rw e (same_bytes_refl t)

pub true_not_false : (b : Bool) → b ≡ true → b ≡ false → ⊥
true_not_false b h k = absurd (cc)
