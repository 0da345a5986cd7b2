-- ===== src/Server/Dispatch/Root/Directories.antt =====
-- CDUP, CWD, MKD and RMD stay below the root.
use computer_network_socket.Base.{
  inl, inr, refl, sym, ap, ◌∙◌, if◌then◌else◌, not, ◌||◌, List, [], ◌∷◌, All,
}
use computer_network_socket.Base.Cases.{if-lem, option-split}
use computer_network_socket.Server.Session.{FilePath, ClientSession}
use computer_network_socket.Server.System.{System, RmdirAttempt}
use computer_network_socket.Server.Files.{
  relative_to, parent, Found, found, denied, get_absolute_current_directory,
}
use computer_network_socket.Server.Reply.{CommandReply}
use computer_network_socket.Server.Outcome.{
  Outcome, ServerEffect, changes_mode, answer, answer_doing,
}
use computer_network_socket.Server.Handlers.Cases.{mkdir-lem, rmdir-lem}
use computer_network_socket.Server.Handlers.Navigation.{
  handle_cdup, enter_directory, make_directory, remove_writable, remove_empty_directory,
  remove_directory, change_to,
}
use computer_network_socket.Server.Dispatch.Confined.{
  IsCurrent, Enters, IsDirectory, Resolved, Under, EffectUnder, PathUnder, FoundUnder, Confined,
}

module _ (sys : System) (s : ClientSession)
    (h : PathUnder (sys.resolve s.server_root) s.pending_rename_path) where
  abbrev Safe : Outcome → Type 0
  Safe o = Confined (sys.resolve s.server_root) s.server_root (IsCurrent sys s) (Enters sys s) o

  abbrev Fine : Found → Type 0
  Fine f = FoundUnder (sys.resolve s.server_root) f

  kept : (r : CommandReply) → Safe (answer s r)
  kept r = record { effects = tt; pending = h; root_kept = refl; directory = inl refl }

  doing :
      (e : ServerEffect) (r : CommandReply)
      → EffectUnder (sys.resolve s.server_root) (IsCurrent sys s) e
      → Safe (answer_doing s e r)
  doing e r under = record {
    effects = (under, tt);
    pending = h;
    root_kept = refl;
    directory = inl refl;
  }

  pub make_directory-Confined : (f : Found) → Fine f → Safe (make_directory sys s f)
  unfolding make_directory
  make_directory-Confined (denied m) u = kept _
  make_directory-Confined (found path) u =
      mkdir-lem Safe (sys.mkdir path) (doing _ _ u) (kept _) (kept _)

  abbrev Removes : List ServerEffect × RmdirAttempt → Type 0
  Removes r = All (EffectUnder (sys.resolve s.server_root) (IsCurrent sys s)) r.0

  pub remove_writable-Under :
      (path : FilePath)
      → Under (sys.resolve s.server_root) path
      → Removes (remove_writable sys path)
  unfolding remove_writable
  remove_writable-Under path u =
      rmdir-lem Removes (sys.rmdir_writable path) (u, (u, tt)) (u, restored) (u, restored)
        (u, restored) (u, restored) (u, restored)
    where
      restored :
          All
            (EffectUnder (sys.resolve s.server_root) (IsCurrent sys s))
            (if sys.exists path then changes_mode path ∷ [] else [])
      restored =
          if-lem (All (EffectUnder (sys.resolve s.server_root) (IsCurrent sys s))) (sys.exists path)
            {x = changes_mode path ∷ []} {y = []} (u, tt) tt

  pub remove_empty_directory-Under :
      (path : FilePath)
      → Under (sys.resolve s.server_root) path
      → Removes (remove_empty_directory sys path)
  unfolding remove_empty_directory
  remove_empty_directory-Under path u =
      rmdir-lem Removes (sys.rmdir path) (u, tt) tt tt
        (if-lem Removes sys.on_windows (remove_writable-Under path u) tt) tt tt

  pub remove_directory-Confined : (f : Found) → Fine f → Safe (remove_directory sys s f)
  unfolding remove_directory
  remove_directory-Confined (denied m) u = kept _
  remove_directory-Confined (found path) u = record {
    effects = remove_empty_directory-Under path u;
    pending = h;
    root_kept = refl;
    directory = inl refl;
  }

  pub moved :
      (directory : FilePath)
      → IsDirectory sys (sys.resolve s.server_root) directory
      → Safe (change_to s directory)
  moved directory u = record { effects = tt; pending = h; root_kept = refl; directory = inr u }

  pub enter_directory-Confined : (f : Found) → Resolved sys s f → Safe (enter_directory sys s f)
  unfolding enter_directory
  enter_directory-Confined (denied m) r = kept _
  enter_directory-Confined (found path) (given, same) =
      option-split Safe (relative_to path (sys.resolve s.server_root))
        (λ outside. record {
          effects = (tt, tt);
          pending = h;
          root_kept = refl;
          directory = inl refl;
        })
        (λ directory e.
          moved directory
            (given, sym (ap (λ p. relative_to p (sys.resolve s.server_root)) same) ∙ e))

  pub handle_cdup-Confined : Safe (handle_cdup sys s)
  unfolding handle_cdup
  handle_cdup-Confined =
      let above = sys.resolve (parent (get_absolute_current_directory sys s)) in
      option-split Safe (relative_to above (sys.resolve s.server_root)) (λ outside. kept _)
        (λ directory e.
          if-lem Safe (not (sys.exists above) || not (sys.is_dir above)) (kept _)
            (moved directory (parent (get_absolute_current_directory sys s), e)))
