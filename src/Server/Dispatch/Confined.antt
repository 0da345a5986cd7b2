-- ===== src/Server/Dispatch/Confined.antt =====
-- Paths below the server's root, and outcomes that touch no others.
use computer_network_socket.Base.{
  ◌≡◌, ◌⊎◌, inl, inr, refl, not, ◌||◌, Option, none, some, List, [], ◌∷◌, All, ℕ, if◌then◌else◌,
}
use computer_network_socket.Base.Cases.{if-lem, option-split}
use computer_network_socket.Base.Text.{Text, text, is_empty}
use computer_network_socket.Server.Session.{FilePath, ClientSession}
use computer_network_socket.Server.System.{System}
use computer_network_socket.Server.Files.{
  relative_to, Found, found, denied, get_absolute_current_directory, resolve_session_path,
  require_file, require_directory,
}
use computer_network_socket.Server.Handlers.Listing.{target_or_current}
use computer_network_socket.Server.Outcome.{
  Outcome, ServerEffect, closes, opens_socket, unlinks, renames, makes_directory, removes_directory,
  changes_mode, starts, crashes, Job, sends_listing, sends_file, receives_file, closings,
}

-- The path is the root followed by more names.
abbrev pub Under : FilePath → FilePath → Type 0
Under root path = (rest : FilePath) × (relative_to path root ≡ some rest)

-- The session's current directory, as it is resolved while a command runs.
abbrev pub IsCurrent : System → ClientSession → FilePath → Type 0
IsCurrent sys s path = path ≡ get_absolute_current_directory sys s

-- Behind the root comes this directory in a path that `resolve` has given.
abbrev pub IsDirectory : System → FilePath → FilePath → Type 0
IsDirectory sys root directory =
    (path : FilePath) × (relative_to (sys.resolve path) root ≡ some directory)

-- The session stays in its directory, or goes to another below its root.
abbrev pub Enters : System → ClientSession → FilePath → Type 0
Enters sys s directory =
    (directory ≡ s.current_directory) ⊎ IsDirectory sys (sys.resolve s.server_root) directory

-- The effect reads no file for a transfer and changes nothing outside the root. A listing may also be one of the
-- current directory.
module _ (root : FilePath) (Current : FilePath → Type 0) where
  abbrev pub JobUnder : Job → Type 0
  JobUnder (sends_listing path content) = Under root path ⊎ Current path
  JobUnder (sends_file path content) = Under root path
  JobUnder (receives_file path appends) = Under root path

  abbrev pub EffectUnder : ServerEffect → Type 0
  EffectUnder (closes k) = Unit {0}
  EffectUnder (opens_socket k) = Unit {0}
  EffectUnder (unlinks path) = Under root path
  EffectUnder (renames source target) = Under root source × Under root target
  EffectUnder (makes_directory path) = Under root path
  EffectUnder (removes_directory path) = Under root path
  EffectUnder (changes_mode path) = Under root path
  EffectUnder (starts job) = JobUnder job
  EffectUnder crashes = Unit {0}

  pub closings-Under : (ks : List ℕ) → All EffectUnder (closings ks)
  closings-Under [] = tt
  closings-Under (k ∷ ks) = (tt, closings-Under ks)

abbrev pub PathUnder : FilePath → Option FilePath → Type 0
PathUnder root none = Unit {0}
PathUnder root (some path) = Under root path

abbrev pub FoundUnder : FilePath → Found → Type 0
FoundUnder root (denied m) = Unit {0}
FoundUnder root (found path) = Under root path

-- What LIST lists: a path below the root, or the current directory.
abbrev pub Listed : System → ClientSession → Found → Type 0
Listed sys s (denied m) = Unit {0}
Listed sys s (found path) = Under (sys.resolve s.server_root) path ⊎ IsCurrent sys s path

-- Every effect is under the root, so is the source that RNFR has left, and the session keeps its root and stays or
-- enters a directory as it may.
pub record Confined (root server_root : FilePath) (Current Entered : FilePath → Type 0)
    (o : Outcome) : Type 0 where
  pub effects : All (EffectUnder root Current) o.effects
  pub pending : PathUnder root o.session.pending_rename_path
  pub root_kept : o.session.server_root ≡ server_root
  pub directory : Entered o.session.current_directory

module _ (sys : System) (s : ClientSession) where
  pub resolve_session_path-Under :
      (t : Text) → FoundUnder (sys.resolve s.server_root) (resolve_session_path sys s t)
  unfolding resolve_session_path
  resolve_session_path-Under t =
      let root = sys.resolve s.server_root in
      option-split (FoundUnder root)
        (relative_to (sys.resolve (sys.join (get_absolute_current_directory sys s) t)) root)
        (λ e. tt) (λ rest e. (rest, e))

  -- The path found is one that `resolve` has given.
  abbrev pub Resolved : Found → Type 0
  Resolved (denied m) = Unit {0}
  Resolved (found path) = (given : FilePath) × (path ≡ sys.resolve given)

  resolve_session_path-Resolved : (t : Text) → Resolved (resolve_session_path sys s t)
  unfolding resolve_session_path
  resolve_session_path-Resolved t =
      option-split Resolved
        (relative_to (sys.resolve (sys.join (get_absolute_current_directory sys s) t))
          (sys.resolve s.server_root))
        (λ e. tt) (λ rest e. (sys.join (get_absolute_current_directory sys s) t, refl))

  -- What holds of the path found, and of a refusal, still holds once the path is checked.
  require_file-keeps :
      (P : Found → Type 0) (t : Text)
      → ((m : Text) → P (denied m))
      → P (resolve_session_path sys s t)
      → P (require_file sys s t)
  unfolding require_file
  require_file-keeps P t refuses = checked (resolve_session_path sys s t)
    where
      checked :
          (f : Found)
          → P f
          → P (elim f [
            | denied m ↦ denied m
            | found path ↦
                if not (sys.exists path) || not (sys.is_file path)
                then denied (text "File does not exist or access denied.")
                else found path
          ])
      checked (denied m) h = h
      checked (found path) h =
          if-lem P (not (sys.exists path) || not (sys.is_file path)) (refuses _) h

  require_directory-keeps :
      (P : Found → Type 0) (t : Text)
      → ((m : Text) → P (denied m))
      → P (resolve_session_path sys s t)
      → P (require_directory sys s t)
  unfolding require_directory
  require_directory-keeps P t refuses = checked (resolve_session_path sys s t)
    where
      checked :
          (f : Found)
          → P f
          → P (elim f [
            | denied m ↦ denied m
            | found path ↦
                if not (sys.exists path) || not (sys.is_dir path)
                then denied (text "Directory does not exist or access denied.")
                else found path
          ])
      checked (denied m) h = h
      checked (found path) h =
          if-lem P (not (sys.exists path) || not (sys.is_dir path)) (refuses _) h

  pub require_file-Under :
      (t : Text) → FoundUnder (sys.resolve s.server_root) (require_file sys s t)
  require_file-Under t =
      require_file-keeps (FoundUnder (sys.resolve s.server_root)) t (λ m. tt)
        (resolve_session_path-Under t)

  pub require_directory-Under :
      (t : Text) → FoundUnder (sys.resolve s.server_root) (require_directory sys s t)
  require_directory-Under t =
      require_directory-keeps (FoundUnder (sys.resolve s.server_root)) t (λ m. tt)
        (resolve_session_path-Under t)

  pub require_directory-Resolved : (t : Text) → Resolved (require_directory sys s t)
  require_directory-Resolved t =
      require_directory-keeps Resolved t (λ m. tt) (resolve_session_path-Resolved t)

  -- A path of LIST's argument, or none.
  pub list_target-Listed :
      (args : Option Text)
      → Listed sys s (target_or_current sys s args (λ a. resolve_session_path sys s a))
  list_target-Listed none = inr refl
  list_target-Listed (some a) =
      if-lem (Listed sys s) (is_empty a) (inr refl)
        (below_root (resolve_session_path sys s a) (resolve_session_path-Under a))
    where
      below_root : (f : Found) → FoundUnder (sys.resolve s.server_root) f → Listed sys s f
      below_root (denied m) h = tt
      below_root (found path) h = inl h
