-- ===== src/Shared/Checksum/Detect.antt =====
-- Which corruptions the checksum detects.
use computer_network_socket.Base.{
  ℕ, ◌+◌, ◌*◌, ◌≡◌, ◌≢◌, ◌⊎◌, inl, inr, true, false, List, [], ◌∷◌, ◌++◌, arith, Bool-cases,
}
use computer_network_socket.Shared.Constants.{IsByte}
use computer_network_socket.Shared.Checksum.{verify_checksum}
use computer_network_socket.Shared.Checksum.Norm.{word_sum, verify_checksum_iff}

-- Replacing one byte changes the sum by the difference of the bytes, or by 256 times it.
word_sum_replace :
    (xs ys : List ℕ) (b c : ℕ)
    → (word_sum (xs ++ (b ∷ ys)) + c ≡ word_sum (xs ++ (c ∷ ys)) + b)
      ⊎ (word_sum (xs ++ (b ∷ ys)) + c * 256 ≡ word_sum (xs ++ (c ∷ ys)) + b * 256)
word_sum_replace [] [] b c = inr (omega arith)
word_sum_replace [] (y ∷ ys) b c = inr (omega arith)
word_sum_replace (x ∷ []) ys b c = inl (omega arith)
word_sum_replace (x ∷ y ∷ xs) ys b c = elim (word_sum_replace xs ys b c) [
  | inl e ↦ inl (omega arith)
  | inr e ↦ inr (omega arith)
]

-- Changing any one byte, to another byte, of a packet that verifies gives a packet that does not verify.
pub verify_checksum-replace :
    (xs ys : List ℕ) (b c : ℕ)
    → IsByte b
    → IsByte c
    → b ≢ c
    → verify_checksum (xs ++ (b ∷ ys)) ≡ true
    → verify_checksum (xs ++ (c ∷ ys)) ≡ false
verify_checksum-replace xs ys b c hb hc ne ok =
    elim (Bool-cases (verify_checksum (xs ++ (c ∷ ys)))) [
      | inl other ↦ absurd (
          ground (
            arith,
            word_sum_replace xs ys b c,
            (verify_checksum_iff (xs ++ (b ∷ ys))).0 ok,
            (verify_checksum_iff (xs ++ (c ∷ ys))).0 other,
          ))
      | inr refused ↦ refused
    ]
