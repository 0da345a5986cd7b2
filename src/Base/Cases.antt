-- ===== src/Base/Cases.antt =====
-- What holds in every case of a conditional or a split holds of it: rules that leave the terms whole.
use mathlib.Core.Path.{◌≡◌, refl}
use mathlib.Core.Bool.{Bool, true, false}
use mathlib.Core.Option.{Option, none, some}
use mathlib.Core.List.{List, [], ◌∷◌}
use computer_network_socket.Base.Tests.{if◌then◌else◌}

pub if-lem : {A : Type 0} (P : A → Type 0) (b : Bool) {x y : A} → P x → P y → P (if b then x else y)
if-lem P true hx hy = hx
if-lem P false hx hy = hy

-- The same, with the condition at hand in each branch.
pub if-split :
    {A : Type 0} (P : A → Type 0) (b : Bool) {x y : A}
    → ((b ≡ true) → P x)
    → ((b ≡ false) → P y)
    → P (if b then x else y)
if-split P true hx hy = hx refl
if-split P false hx hy = hy refl

pub option-lem :
    {A B : Type 0} (P : B → Type 0) (o : Option A) {x : B} {f : A → B}
    → P x
    → ((a : A) → P (f a))
    → P (elim o [ none ↦ x | some a ↦ f a ])
option-lem P none hx hf = hx
option-lem P (some a) hx hf = hf a

pub option-split :
    {A B : Type 0} (P : B → Type 0) (o : Option A) {x : B} {f : A → B}
    → ((o ≡ none) → P x)
    → ((a : A) → o ≡ some a → P (f a))
    → P (elim o [ none ↦ x | some a ↦ f a ])
option-split P none hx hf = hx refl
option-split P (some a) hx hf = hf a refl

pub list-lem :
    {A B : Type 0} (P : B → Type 0) (xs : List A) {x : B} {f : A → List A → B}
    → P x
    → ((a : A) (rest : List A) → P (f a rest))
    → P (elim xs [ [] ↦ x | a ∷ rest ↦ f a rest ])
list-lem P [] hx hf = hx
list-lem P (a ∷ rest) hx hf = hf a rest
