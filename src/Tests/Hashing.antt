-- ===== src/Tests/Hashing.antt =====
-- Runs of the compile-time hash on the vectors of the source's own tests, and on its two prefixes.
use proof_of_thought.Prelude.{[], ◌∷◌, some, ◌≡◌, refl, arith}
use proof_of_thought.Watcher.Sha256.{
  const_sha256, pad, copy, put_length, blocks, compress, rounds, round, extend, next_word, load,
  write_out, compute_anchor_discriminator, thought_submitted_discriminator,
  challenge_ix_discriminator,
}
use proof_of_thought.Watcher.Sha256.Standard.{sha256}
use proof_of_thought.Watcher.Sha256.Equivalence.{const_sha256-sha256}

of_abc :
    const_sha256 (97 ∷ 98 ∷ 99 ∷ [])
    ≡ some (
        186 ∷ 120 ∷ 22 ∷ 191 ∷ 143 ∷ 1 ∷ 207 ∷ 234 ∷ 65 ∷ 65 ∷ 64 ∷ 222 ∷ 93 ∷ 174 ∷ 34 ∷ 35 ∷ 176
        ∷ 3 ∷ 97 ∷ 163 ∷ 150 ∷ 23 ∷ 122 ∷ 156 ∷ 180 ∷ 16 ∷ 255 ∷ 97 ∷ 242 ∷ 0 ∷ 21 ∷ 173 ∷ [])
unfolding const_sha256 pad copy put_length blocks compress rounds round extend next_word load
    write_out
of_abc = refl

event_tag : thought_submitted_discriminator ≡ some (189 ∷ 124 ∷ 75 ∷ 165 ∷ 58 ∷ 86 ∷ 46 ∷ 26 ∷ [])
unfolding compute_anchor_discriminator const_sha256 pad copy put_length blocks compress rounds round
    extend next_word load write_out
event_tag = refl

instruction_tag : challenge_ix_discriminator ≡ some (16 ∷ 107 ∷ 14 ∷ 39 ∷ 244 ∷ 150 ∷ 81 ∷ 187 ∷ [])
unfolding compute_anchor_discriminator const_sha256 pad copy put_length blocks compress rounds round
    extend next_word load write_out
instruction_tag = refl

const_sha256-sha256_example : const_sha256 (97 ∷ 98 ∷ 99 ∷ []) ≡ some (sha256 (97 ∷ 98 ∷ 99 ∷ []))
const_sha256-sha256_example = const_sha256-sha256 (97 ∷ 98 ∷ 99 ∷ []) (omega arith)
