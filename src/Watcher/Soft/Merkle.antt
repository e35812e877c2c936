-- ===== src/Watcher/Soft/Merkle.antt =====
-- The membership test (`merkle_member` of watcher/src/verify/soft.rs) against a binary tree of hashes.
use proof_of_thought.Prelude.{
  ℕ, zero, suc, ◌^◌, ◌<◌, ◌≡◌, ◌≢◌, ◌⊎◌, inl, inr, refl, List, [], ◌∷◌, ◌++◌, Bool, true, false,
  if◌then◌else◌, length, Bool-cases, arith, ap, ◌∙◌, sym,
}
use proof_of_thought.Watcher.Types.{Bytes, le_bytes, same_bytes, same_bytes_sound}
use proof_of_thought.Watcher.Soft.{climb, merkle_member}
use proof_of_thought.Watcher.Soft.Trees.{
  Tree, leaf, node, IsPerfect, HasHashes, IsLeafOf, IsAmong, AreHashes, leaf_at, IsAmong-left,
  IsAmong-right, last_of, AreHashes-append, pairs_injective, equal_bytes, true_not_false,
}

module _ (blake3 : Bytes → ℕ) where
  abbrev pub root : Tree → ℕ
  root (leaf x) = x
  root (node l r) = blake3 (le_bytes 32 (root l) ++ le_bytes 32 (root r))

  -- The siblings on the way, from the leaf up.
  abbrev pub proof_at : Tree → List Bool → List (Bool × ℕ)
  proof_at (leaf x) turns = []
  proof_at (node l r) [] = proof_at l [] ++ (true, root r) ∷ []
  proof_at (node l r) (true ∷ turns) = proof_at r turns ++ (false, root l) ∷ []
  proof_at (node l r) (false ∷ turns) = proof_at l turns ++ (true, root r) ∷ []

  -- Of two lists of strings, one string of each: the two differ and have one hash.
  abbrev pub Collide : List Bytes → List Bytes → Type 0
  Collide xs ys =
      (s : Bytes) × (t : Bytes) × IsAmong s xs × IsAmong t ys × (s ≢ t) × (blake3 s ≡ blake3 t)

  -- The strings that the nodes of a tree are the hashes of.
  abbrev pub pairs_of : Tree → List Bytes
  pairs_of (leaf x) = []
  pairs_of (node l r) = (le_bytes 32 (root l) ++ le_bytes 32 (root r)) ∷ (pairs_of l ++ pairs_of r)

  abbrev pub up : ℕ → Bool → ℕ → Bytes
  up acc is_right sibling =
      if is_right
      then le_bytes 32 acc ++ le_bytes 32 sibling
      else le_bytes 32 sibling ++ le_bytes 32 acc

  climb-append :
      (q : List (Bool × ℕ)) (acc : ℕ) (b : Bool) (s : ℕ)
      → climb blake3 acc (q ++ (b, s) ∷ []) ≡ blake3 (up (climb blake3 acc q) b s)
  unfolding climb
  climb-append [] acc b s = refl
  climb-append ((c, t) ∷ q) acc b s = climb-append q _ b s

  -- The strings hashed on the way up a proof, one for each sibling.
  abbrev pub hashed_by : ℕ → List (Bool × ℕ) → List Bytes
  hashed_by acc [] = []
  hashed_by acc ((b, s) ∷ proof) = up acc b s ∷ hashed_by (blake3 (up acc b s)) proof

  hashed_by-append :
      (q : List (Bool × ℕ)) (acc : ℕ) (b : Bool) (s : ℕ)
      → hashed_by acc (q ++ (b, s) ∷ []) ≡ hashed_by acc q ++ up (climb blake3 acc q) b s ∷ []
  unfolding climb
  hashed_by-append [] acc b s = refl
  hashed_by-append ((c, t) ∷ q) acc b s =
      ap (λ strings. up acc c t ∷ strings) (hashed_by-append q _ b s)

  Collide-longer :
      (xs xs' ys ys' : List Bytes)
      → ((s : Bytes) → IsAmong s xs → IsAmong s xs')
      → ((s : Bytes) → IsAmong s ys → IsAmong s ys')
      → Collide xs ys
      → Collide xs' ys'
  Collide-longer xs xs' ys ys' f g (s, t, here, there, differ, same) =
      (s, t, f s here, g t there, differ, same)

  climb-proof_at :
      (t : Tree) (turns : List Bool) → climb blake3 (leaf_at t turns) (proof_at t turns) ≡ root t
  unfolding climb
  climb-proof_at (leaf x) turns = refl
  climb-proof_at (node l r) [] =
      rw (climb-append (proof_at l []) (leaf_at l []) true (root r), climb-proof_at l []) refl
  climb-proof_at (node l r) (true ∷ turns) =
      rw (climb-append (proof_at r turns) (leaf_at r turns) false (root l), climb-proof_at r turns)
        refl
  climb-proof_at (node l r) (false ∷ turns) =
      rw (climb-append (proof_at l turns) (leaf_at l turns) true (root r), climb-proof_at l turns)
        refl

  -- Every leaf of every tree is a member under the tree's root, with the siblings on its way.
  pub merkle_member_complete :
      (t : Tree) (turns : List Bool)
      → merkle_member blake3 (leaf_at t turns) (proof_at t turns) (root t) ≡ true
  unfolding merkle_member
  merkle_member_complete t turns = ground (arith, climb-proof_at t turns)

  module _ (hashed : (s : Bytes) → blake3 s < 2 ^ 256) where
    root_fits : (t : Tree) → HasHashes t → root t < 2 ^ 256
    root_fits (leaf x) h = h
    root_fits (node l r) h = hashed _

    climb_fits : (q : List (Bool × ℕ)) (acc : ℕ) → acc < 2 ^ 256 → climb blake3 acc q < 2 ^ 256
    unfolding climb
    climb_fits [] acc h = h
    climb_fits ((c, t) ∷ q) acc h = climb_fits q _ (hashed _)

    same_pair :
        (l r : Tree) (acc : ℕ) (b : Bool) (s : ℕ)
        → HasHashes l × HasHashes r
        → acc < 2 ^ 256
        → s < 2 ^ 256
        → up acc b s ≡ le_bytes 32 (root l) ++ le_bytes 32 (root r)
        → (acc ≡ root l) ⊎ (acc ≡ root r)
    same_pair l r acc true s (hl, hr) ha hs e =
        inl (pairs_injective acc s (root l) (root r) ha hs (root_fits l hl) (root_fits r hr) e).0
    same_pair l r acc false s (hl, hr) ha hs e =
        inr (pairs_injective s acc (root l) (root r) hs ha (root_fits l hl) (root_fits r hr) e).1

    -- A step that reaches the hash of a pair comes from the pair, or differs from it.
    step_up :
        (pair : Bytes) (acc : ℕ) (b : Bool) (s : ℕ) → (up acc b s ≡ pair) ⊎ (up acc b s ≢ pair)
    step_up pair acc b s = elim (Bool-cases (same_bytes (up acc b s) pair)) [
      | inl same ↦ inl (same_bytes_sound (up acc b s) pair same)
      | inr differs ↦ inr λ equal. true_not_false _ (equal_bytes (up acc b s) pair equal) differs
    ]

    climb-root :
        (n : ℕ) (t : Tree) (acc : ℕ) (proof : List (Bool × ℕ))
        → IsPerfect n t
        → HasHashes t
        → AreHashes proof
        → acc < 2 ^ 256
        → length proof ≡ n
        → climb blake3 acc proof ≡ root t
        → IsLeafOf acc t ⊎ Collide (hashed_by acc proof) (pairs_of t)
    unfolding climb
    climb-root zero (leaf x) acc [] p h s ha l e = inl e
    climb-root zero (leaf x) acc (a ∷ proof) p h s ha l e = absurd (omega arith)
    climb-root zero (node l r) acc proof p h s ha l' e = elim p [ ]
    climb-root (suc n) (leaf x) acc proof p h s ha l e = elim p [ ]
    climb-root (suc n) (node l r) acc proof (pl, pr) (hl, hr) s ha long e =
        let (q, (b, sib), split, len) = last_of proof n long in
        let (qs, hs) = AreHashes-append q b sib (rw split at s) in
        let below = climb blake3 acc q in
        let pair : Bytes = le_bytes 32 (root l) ++ le_bytes 32 (root r) in
        let stepped : blake3 (up below b sib) ≡ blake3 pair =
          sym (climb-append q acc b sib) ∙ ap (climb blake3 acc) (sym split) ∙ e in
        let way : hashed_by acc q ++ up below b sib ∷ [] ≡ hashed_by acc proof =
          sym (hashed_by-append q acc b sib) ∙ ap (hashed_by acc) (sym split) in
        let on_way : (x : Bytes) → IsAmong x (hashed_by acc q) → IsAmong x (hashed_by acc proof) =
          λ x i. rw way at (IsAmong-left x (hashed_by acc q) (up below b sib ∷ []) i) in
        elim (step_up pair below b sib) [
          | inr differ ↦
              let last : IsAmong (up below b sib) (hashed_by acc proof) = rw way at (
                IsAmong-right (up below b sib) (hashed_by acc q) (up below b sib ∷ [])
                  (inl refl)) in
              inr (up below b sib, pair, last, inl refl, differ, stepped)
          | inl same ↦ elim (same_pair l r below b sib (hl, hr) (climb_fits q acc ha) hs same) [
            | inl left ↦ elim (climb-root n l acc q pl hl qs ha len left) [
              | inl found ↦ inl (inl found)
              | inr c ↦ inr (
                  Collide-longer _ _ _ (pairs_of (node l r)) on_way
                    (λ x i. inr (IsAmong-left x (pairs_of l) (pairs_of r) i)) c)
            ]
            | inr right ↦ elim (climb-root n r acc q pr hr qs ha len right) [
              | inl found ↦ inl (inr found)
              | inr c ↦ inr (
                  Collide-longer _ _ _ (pairs_of (node l r)) on_way
                    (λ x i. inr (IsAmong-right x (pairs_of l) (pairs_of r) i)) c)
            ]
          ]
        ]

    -- With 32-byte hashes: if a value passes the membership test under the root of a tree, all of
    -- whose leaves stand at one depth, with as many siblings as that depth, then it is a leaf of the
    -- tree, or one of the strings that the test hashes (one for each sibling) differs from one of the
    -- pairs that the tree's nodes hash and has the same hash.
    pub merkle_member_sound :
        (n : ℕ) (t : Tree) (revealed : ℕ) (proof : List (Bool × ℕ))
        → IsPerfect n t
        → HasHashes t
        → AreHashes proof
        → revealed < 2 ^ 256
        → length proof ≡ n
        → merkle_member blake3 revealed proof (root t) ≡ true
        → IsLeafOf revealed t ⊎ Collide (hashed_by revealed proof) (pairs_of t)
    unfolding merkle_member
    merkle_member_sound n t revealed proof p h s small long passed =
        climb-root n t revealed proof p h s small long (ground arith)
