-- ===== src/Control/Lines.antt =====
-- Lines that end in CRLF, as `bytes.partition` finds them, and the UTF-8 codec that both sides use.
use computer_network_socket.Base.{
  ℕ, ◌≡◌, refl, Bool, ◌&&◌, ◌||◌, Option, none, some, List, [], ◌∷◌, ◌++◌, ◌==◌, inl, inr,
  Option-cases, if◌then◌else◌, arith,
}
use computer_network_socket.Base.Text.{Text}

abbrev pub crlf : List ℕ
crlf = 13 ∷ 10 ∷ []

abbrev pub before : ℕ → Option (List ℕ × List ℕ) → Option (List ℕ × List ℕ)
before x none = none
before x (some (l, r)) = some (x ∷ l, r)

-- `buffer.partition(b"\r\n")`: what stands before and after the first CRLF, if there is one.
unfoldable pub partition_crlf : List ℕ → Option (List ℕ × List ℕ)
partition_crlf [] = none
partition_crlf (x ∷ []) = none
partition_crlf (x ∷ y ∷ rest) =
    let more = partition_crlf (y ∷ rest) in
    if x == 13 && y == 10 then some ([], rest) else before x more

-- `rstrip("\r\n")`
abbrev is_line_end : ℕ → Bool
is_line_end c = c == 13 || c == 10

abbrev cons_line : ℕ → Text → Text
cons_line c [] = if is_line_end c then [] else c ∷ []
cons_line c (d ∷ ds) = c ∷ d ∷ ds

unfoldable pub strip_line_end : Text → Text
strip_line_end [] = []
strip_line_end (c ∷ cs) = cons_line c (strip_line_end cs)

-- `strip("\r\n")`
unfoldable pub skip_line_end : Text → Text
skip_line_end [] = []
skip_line_end (c ∷ cs) = let rest = skip_line_end cs in if is_line_end c then rest else c ∷ cs

unfoldable pub strip_line_ends : Text → Text
unfolding skip_line_end strip_line_end
strip_line_ends t = strip_line_end (skip_line_end t)

-- `split(" ", 1)`: what stands before the first space, and what stands behind it, if there is one.
unfoldable pub split_space : Text → Text × Option Text
split_space [] = ([], none)
split_space (c ∷ cs) =
    let (head, tail) = split_space cs in if c == 32 then ([], some cs) else (c ∷ head, tail)

-- More bytes behind do not change the first line.
pub partition_crlf-append :
    (bs cs l r : List ℕ)
    → partition_crlf bs ≡ some (l, r)
    → partition_crlf (bs ++ cs) ≡ some (l, r ++ cs)
unfolding partition_crlf
partition_crlf-append [] cs l r h = absurd (ground arith)
partition_crlf-append (x ∷ []) cs l r h = absurd (ground arith)
partition_crlf-append (x ∷ y ∷ rest) cs l r h = elim (Option-cases (partition_crlf (y ∷ rest))) [
  | inl no_line ↦ ground arith
  | inr ((l', r'), found) ↦ ground (arith, partition_crlf-append (y ∷ rest) cs l' r' found)
]

-- The line and the rest are what the bytes consist of.
pub partition_crlf-eq : (bs l r : List ℕ) → partition_crlf bs ≡ some (l, r) → bs ≡ l ++ 13 ∷ 10 ∷ r
unfolding partition_crlf
partition_crlf-eq [] l r h = absurd (ground arith)
partition_crlf-eq (x ∷ []) l r h = absurd (ground arith)
partition_crlf-eq (x ∷ y ∷ rest) l r h = elim (Option-cases (partition_crlf (y ∷ rest))) [
  | inl no_line ↦ ground arith
  | inr ((l', r'), found) ↦ ground (arith, partition_crlf-eq (y ∷ rest) l' r' found)
]

-- A line with no CRLF in it is found whole.
pub partition_crlf-line :
    (l r : List ℕ) → partition_crlf l ≡ none → partition_crlf (l ++ 13 ∷ 10 ∷ r) ≡ some (l, r)
unfolding partition_crlf
partition_crlf-line [] r h = refl
partition_crlf-line (x ∷ []) r h = ground arith
partition_crlf-line (x ∷ y ∷ rest) r h = ground (arith, partition_crlf-line (y ∷ rest) r)

-- What follows the codec of `encode("utf-8")` and of `decode` with `errors="replace"` or `"ignore"`.
pub record Utf8 : Type 0 where
  pub encode : Text → List ℕ
  pub decode_replace : List ℕ → Text
  pub decode_ignore : List ℕ → Text
