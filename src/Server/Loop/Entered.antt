-- ===== src/Server/Loop/Entered.antt =====
-- The directories that a session of a connection may be in, and what its effects are with respect to them.
use computer_network_socket.Base.{ℕ, ◌≡◌, ◌⊎◌, inl, inr, List, [], ◌∷◌, All}
use computer_network_socket.Server.Session.{FilePath}
use computer_network_socket.Server.Files.{below}
use computer_network_socket.Server.Outcome.{
  ServerEffect, closes, opens_socket, unlinks, renames, makes_directory, removes_directory,
  changes_mode, starts, crashes, sends_listing, sends_file, receives_file,
}
use computer_network_socket.Server.Dispatch.Confined.{IsDirectory, EffectUnder}
use computer_network_socket.Server.Loop.{Surroundings}

-- A directory that a session may be in: the root, or the names behind the root in a path that the system has
-- resolved at one of the commands.
abbrev pub Entered : Surroundings → FilePath → FilePath → Type 0
Entered w root directory = (directory ≡ []) ⊎ ((n : ℕ) × IsDirectory (w.system n) root directory)

-- Such a directory, resolved anew at one of the commands.
abbrev pub IsEntered : Surroundings → FilePath → FilePath → Type 0
IsEntered w root path =
    (n : ℕ) × (directory : FilePath) × Entered w root directory
    × (path ≡ (w.system n).resolve (below root directory))

-- An effect that lists a directory of one kind lists one of a wider kind.
pub map-Under :
    (root : FilePath) (C D : FilePath → Type 0)
    → ((path : FilePath) → C path → D path)
    → (e : ServerEffect) → EffectUnder root C e
    → EffectUnder root D e
map-Under root C D f (closes k) h = h
map-Under root C D f (opens_socket k) h = h
map-Under root C D f (unlinks path) h = h
map-Under root C D f (renames source target) h = h
map-Under root C D f (makes_directory path) h = h
map-Under root C D f (removes_directory path) h = h
map-Under root C D f (changes_mode path) h = h
map-Under root C D f (starts (sends_listing path content)) (inl h) = inl h
map-Under root C D f (starts (sends_listing path content)) (inr h) = inr (f path h)
map-Under root C D f (starts (sends_file path content)) h = h
map-Under root C D f (starts (receives_file path appends)) h = h
map-Under root C D f crashes h = h

pub map-All :
    (P Q : ServerEffect → Type 0)
    → ((e : ServerEffect) → P e → Q e)
    → (es : List ServerEffect) → All P es
    → All Q es
map-All P Q f [] h = tt
map-All P Q f (e ∷ es) (h, hs) = (f e h, map-All P Q f es hs)
