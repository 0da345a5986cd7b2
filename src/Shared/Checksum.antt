-- ===== src/Shared/Checksum.antt =====
-- shared/checksum.py: the 16-bit Internet checksum. `bytes` is a list of numbers below 256.
pub mod Norm
pub mod Detect
use mathlib.Core.Logic.{dite}
use mathlib.Core.WellFounded.{Acc}
use native.Mathlib.Decide.{dec_lt}
use computer_network_socket.Base.{
  ℕ, ◌+◌, ◌-◌, ◌*◌, ◌/◌, ◌%◌, ◌<◌, Bool, List, [], ◌∷◌, ◌++◌, arith, length, ◌==◌, if◌then◌else◌,
}
use computer_network_socket.Base.Order.{lt_wf}

-- A zero byte is appended to data of odd length.
unfoldable pub pad_even : List ℕ → List ℕ
pad_even data_bytes = if length data_bytes % 2 == 1 then data_bytes ++ (0 ∷ []) else data_bytes

pub carry_shrinks : (t : ℕ) → 0 < t / 65536 → t % 65536 + t / 65536 < t
carry_shrinks t h = omega arith

-- `while (t >> 16) > 0: t = (t & 0xFFFF) + (t >> 16)`
fold_carry_acc : (t : ℕ) → Acc ◌<◌ t → ℕ
fold_carry_acc t (Acc.intro _ smaller) =
    dite (dec_lt 0 (t / 65536))
      (λ more. fold_carry_acc (t % 65536 + t / 65536) (smaller _ (carry_shrinks t more))) (λ _. t)

unfoldable pub fold_carry : ℕ → ℕ
unfolding fold_carry_acc lt_wf dec_lt
fold_carry t = fold_carry_acc t (lt_wf.apply t)

-- The loop over the words. After padding the length is even, so one byte alone does not occur.
unfoldable pub sum_words : ℕ → List ℕ → ℕ
unfolding fold_carry
sum_words total [] = total
sum_words total (b ∷ []) = total
sum_words total (hi ∷ lo ∷ rest) = sum_words (fold_carry (total + (hi * 256 + lo))) rest

-- `(~total) & 0xFFFF`
unfoldable pub compute_checksum : List ℕ → ℕ
unfolding pad_even sum_words
compute_checksum data_bytes = 65535 - sum_words 0 (pad_even data_bytes) % 65536

unfoldable pub verify_checksum : List ℕ → Bool
unfolding compute_checksum
verify_checksum packet_bytes = compute_checksum packet_bytes == 0
