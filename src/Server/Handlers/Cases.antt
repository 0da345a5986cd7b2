-- ===== src/Server/Handlers/Cases.antt =====
-- What holds of every case of the handlers' splits holds of the split.
use computer_network_socket.Base.{ℕ, List, Option, none, some}
use computer_network_socket.Base.Cases.{if-lem}
use computer_network_socket.Base.Text.{Text, is_empty}
use computer_network_socket.Server.System.{
  Integer, nonneg, negative, Attempt, done, fails, MkdirAttempt, made, exists_already, mkdir_fails,
  RmdirAttempt, removed, not_found, not_empty, access_denied, os_error, other_error, BindAttempt,
  no_socket, bind_fails, bound,
}
use computer_network_socket.Server.Outcome.{Outcome}
use computer_network_socket.Server.Handlers.File.{with_argument}
use computer_network_socket.Server.Handlers.Listing.{Listing, missing, neither, os_failed, lines}

pub listing-lem :
    {B : Type 0} (P : B → Type 0) (l : Listing) {x y z : B} {f : List Text → B}
    → P x
    → P y
    → P z
    → ((ls : List Text) → P (f ls))
    → P (elim l [ missing ↦ x | neither ↦ y | os_failed ↦ z | lines ls ↦ f ls ])
listing-lem P missing hx hy hz hf = hx
listing-lem P neither hx hy hz hf = hy
listing-lem P os_failed hx hy hz hf = hz
listing-lem P (lines ls) hx hy hz hf = hf ls

pub with_argument-lem :
    (P : Outcome → Type 0) (args : Option Text) {x : Outcome} {f : Text → Outcome}
    → P x
    → ((a : Text) → P (f a))
    → P (with_argument x args f)
with_argument-lem P none hx hf = hx
with_argument-lem P (some a) hx hf = if-lem P (is_empty a) hx (hf a)

pub attempt-lem :
    {B : Type 0} (P : B → Type 0) (a : Attempt) {x : B} {f : Text → B}
    → P x
    → ((e : Text) → P (f e))
    → P (elim a [ done ↦ x | fails e ↦ f e ])
attempt-lem P done hx hf = hx
attempt-lem P (fails e) hx hf = hf e

pub mkdir-lem :
    {B : Type 0} (P : B → Type 0) (a : MkdirAttempt) {x y z : B}
    → P x
    → P y
    → P z
    → P (elim a [ made ↦ x | exists_already ↦ y | mkdir_fails ↦ z ])
mkdir-lem P made hx hy hz = hx
mkdir-lem P exists_already hx hy hz = hy
mkdir-lem P mkdir_fails hx hy hz = hz

pub integer-lem :
    {B : Type 0} (P : B → Type 0) (i : Integer) {f g : ℕ → B}
    → ((n : ℕ) → P (f n))
    → ((n : ℕ) → P (g n))
    → P (elim i [ nonneg n ↦ f n | negative n ↦ g n ])
integer-lem P (nonneg n) hf hg = hf n
integer-lem P (negative n) hf hg = hg n

pub bind-lem :
    {B : Type 0} (P : B → Type 0) (b : BindAttempt) {x : B} {f : ℕ → B} {g : ℕ → ℕ → B}
    → P x
    → ((k : ℕ) → P (f k))
    → ((k port : ℕ) → P (g k port))
    → P (elim b [ no_socket ↦ x | bind_fails k ↦ f k | bound k port ↦ g k port ])
bind-lem P no_socket hx hf hg = hx
bind-lem P (bind_fails k) hx hf hg = hf k
bind-lem P (bound k port) hx hf hg = hg k port

pub rmdir-lem :
    {B : Type 0} (P : B → Type 0) (a : RmdirAttempt) {t u v x y z : B}
    → P t
    → P u
    → P v
    → P x
    → P y
    → P z
    → P (elim a [
      | removed ↦ t
      | not_found ↦ u
      | not_empty ↦ v
      | access_denied ↦ x
      | os_error ↦ y
      | other_error ↦ z
    ])
rmdir-lem P removed ht hu hv hx hy hz = ht
rmdir-lem P not_found ht hu hv hx hy hz = hu
rmdir-lem P not_empty ht hu hv hx hy hz = hv
rmdir-lem P access_denied ht hu hv hx hy hz = hx
rmdir-lem P os_error ht hu hv hx hy hz = hy
rmdir-lem P other_error ht hu hv hx hy hz = hz
