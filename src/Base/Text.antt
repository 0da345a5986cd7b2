-- ===== src/Base/Text.antt =====
-- Text as the list of its code points, with the string methods that the program uses.
use Prim.Native.Char.{code}
use Prim.Native.String.{String}
use computer_network_socket.Base.{
  ℕ, ◌-◌, ◌≡◌, refl, Bool, true, false, ◌&&◌, ◌||◌, List, [], ◌∷◌, leb, ◌==◌, if◌then◌else◌, arith,
}

abbrev pub Text : Type 0
Text = List ℕ

-- A literal. It stays shut in proofs: messages are only passed on.
unfoldable pub text : String → Text
text String.[] = []
text (String.◌∷◌ c s) = code c ∷ text s

unfoldable pub text_eq : Text → Text → Bool
text_eq [] [] = true
text_eq [] (b ∷ bs) = false
text_eq (a ∷ as') [] = false
text_eq (a ∷ as') (b ∷ bs) = a == b && text_eq as' bs

pub text_eq→eq : (a b : Text) → text_eq a b ≡ true → a ≡ b
unfolding text_eq
text_eq→eq [] [] h = refl
text_eq→eq [] (b ∷ bs) h = absurd (ground arith)
text_eq→eq (a ∷ as') [] h = absurd (ground arith)
text_eq→eq (a ∷ as') (b ∷ bs) h = ground (arith, text_eq→eq as' bs)

pub text_eq_refl : (a : Text) → text_eq a a ≡ true
unfolding text_eq
text_eq_refl [] = refl
text_eq_refl (a ∷ as') = ground (arith, text_eq_refl as')

-- The code points that `str.strip()` removes.
unfoldable pub is_space : ℕ → Bool
is_space c =
    leb 9 c && leb c 13
    || leb 28 c && leb c 32
    || (c == 133 || c == 160 || c == 5760 || leb 8192 c && leb c 8202)
    || (c == 8232 || c == 8233 || c == 8239 || c == 8287 || c == 12288)

unfoldable pub strip_left : Text → Text
unfolding is_space
strip_left [] = []
strip_left (c ∷ cs) = let rest = strip_left cs in if is_space c then rest else c ∷ cs

-- A character in front of text that ends in no space.
unfoldable pub cons_stripped : ℕ → Text → Text
unfolding is_space
cons_stripped c [] = if is_space c then [] else c ∷ []
cons_stripped c (d ∷ ds) = c ∷ d ∷ ds

-- The text without the spaces at its end.
unfoldable pub strip_right : Text → Text
unfolding cons_stripped
strip_right [] = []
strip_right (c ∷ cs) = cons_stripped c (strip_right cs)

unfoldable pub strip : Text → Text
unfolding strip_left strip_right
strip s = strip_right (strip_left s)

-- `str.upper()` on ASCII letters; other characters stay as they are.
unfoldable pub upper : Text → Text
upper [] = []
upper (c ∷ cs) = (if leb b'a' c && leb c b'z' then c - 32 else c) ∷ upper cs

abbrev pub is_empty : Text → Bool
is_empty [] = true
is_empty (c ∷ cs) = false
