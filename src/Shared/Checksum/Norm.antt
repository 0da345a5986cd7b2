-- ===== src/Shared/Checksum/Norm.antt =====
-- The checksum in closed form: the words are added modulo 65535, with 65535 for a sum that is a
-- positive multiple of it.
use mathlib.Core.WellFounded.{Acc}
use computer_network_socket.Base.{
  ℕ, zero, suc, ◌+◌, ◌-◌, ◌*◌, ◌/◌, ◌%◌, ◌≤◌, ◌<◌, ◌≡◌, refl, ◌∙◌, ap, true, List, [], ◌∷◌, ◌++◌,
  arith, length, length-append, ◌==◌, ◌↔◌, inl, inr, Bool-cases, ==→eq,
}
use computer_network_socket.Base.Order.{lt_wf}
use computer_network_socket.Shared.Checksum.{
  pad_even, fold_carry_acc, fold_carry, sum_words, compute_checksum, verify_checksum,
}

-- The residue of a sum in 1 … 65535, or 0 for the sum 0.
abbrev pub norm : ℕ → ℕ
norm zero = 0
norm (suc n) = n % 65535 + 1

-- The words added up as whole numbers; a last byte alone is the high half of a word.
abbrev pub word_sum : List ℕ → ℕ
word_sum [] = 0
word_sum (b ∷ []) = b * 256
word_sum (hi ∷ lo ∷ rest) = hi * 256 + lo + word_sum rest

norm_carry : (t : ℕ) → norm (t % 65536 + t / 65536) ≡ norm t
norm_carry zero = refl
norm_carry (suc n) = ground arith

norm_idem : (a : ℕ) → norm (norm a) ≡ norm a
norm_idem zero = refl
norm_idem (suc n) = ground arith

norm-add : (a b : ℕ) → norm (norm a + b) ≡ norm (a + b)
norm-add a b = ground arith

pub norm-le : (t : ℕ) → norm t ≤ 65535
norm-le zero = omega arith
norm-le (suc n) = omega arith

norm_small : (t : ℕ) → t / 65536 ≡ 0 → norm t ≡ t
norm_small zero h = refl
norm_small (suc n) h = omega arith

fold_carry_acc_lem : (t : ℕ) (w : Acc ◌<◌ t) → fold_carry_acc t w ≡ norm t
unfolding fold_carry_acc
fold_carry_acc_lem t (Acc.intro _ smaller) = grind (
  arith,
  norm_carry t,
  norm_small t,
  λ (p : t % 65536 + t / 65536 < t). fold_carry_acc_lem (t % 65536 + t / 65536) (smaller _ p),
)

-- Folding the carries computes the residue.
pub fold_carry_lem : (t : ℕ) → fold_carry t ≡ norm t
unfolding fold_carry
fold_carry_lem t = fold_carry_acc_lem t (lt_wf.apply t)

sum_words_even :
    (k total : ℕ) (bs : List ℕ)
    → length bs ≡ k + k
    → norm total ≡ total
    → sum_words total bs ≡ norm (total + word_sum bs)
unfolding sum_words
sum_words_even k total [] e h = ground arith
sum_words_even k total (b ∷ []) e h = absurd (omega arith)
sum_words_even zero total (hi ∷ lo ∷ bs) e h = absurd (omega arith)
sum_words_even (suc k) total (hi ∷ lo ∷ bs) e h =
    let word = hi * 256 + lo in
    rw (fold_carry_lem (total + word)) (
      sum_words_even k (norm (total + word)) bs (omega arith) (norm_idem (total + word))
      ∙ norm-add (total + word) (word_sum bs)
      ∙ ap norm (omega arith))

word_sum-pad : (bs : List ℕ) → word_sum (bs ++ (0 ∷ [])) ≡ word_sum bs
word_sum-pad [] = refl
word_sum-pad (b ∷ []) = omega arith
word_sum-pad (hi ∷ lo ∷ bs) = omega (arith, word_sum-pad bs)

sum_words_zero : (k : ℕ) (bs : List ℕ) → length bs ≡ k + k → sum_words 0 bs ≡ norm (word_sum bs)
sum_words_zero k bs e = sum_words_even k 0 bs e refl ∙ ap norm (omega arith)

sum_words_padded : (bs : List ℕ) → sum_words 0 (pad_even bs) ≡ norm (word_sum bs)
unfolding pad_even
sum_words_padded bs = elim (Bool-cases (length bs % 2 == 1)) [
  | inl odd ↦ rw odd (
      sum_words_zero (length bs / 2 + 1) (bs ++ (0 ∷ []))
        (omega (arith, length-append bs (0 ∷ []), ==→eq (length bs % 2) 1 odd))
      ∙ ap norm (word_sum-pad bs))
  | inr even ↦ rw even (sum_words_zero (length bs / 2) bs (ground arith))
]

-- The checksum of any bytes is the complement of the residue of their words' plain sum.
pub compute_checksum-norm : (bs : List ℕ) → compute_checksum bs ≡ 65535 - norm (word_sum bs)
unfolding compute_checksum
compute_checksum-norm bs = rw sum_words_padded (omega (arith, norm-le (word_sum bs)))

-- verify_checksum accepts bytes exactly where the plain sum of their 16-bit words, a last odd byte padded with a zero,
-- is a positive multiple of 65535.
pub verify_checksum_iff :
    (bs : List ℕ) → (verify_checksum bs ≡ true) ↔ ((0 < word_sum bs) × (word_sum bs % 65535 ≡ 0))
unfolding verify_checksum
verify_checksum_iff bs = rw compute_checksum-norm (ground arith)
