-- ===== src/Server/Dispatch/Root/FileHandlers.antt =====
-- DELE, RNFR, RNTO and HASH stay below the root.
use computer_network_socket.Base.{inl, refl, Option, some}
use mathlib.Core.Path.{subst}
use computer_network_socket.Base.Cases.{option-lem, option-split}
use computer_network_socket.Base.Text.{Text}
use computer_network_socket.Server.Session.{FilePath, ClientSession, reset_rename_state}
use computer_network_socket.Server.System.{System}
use computer_network_socket.Server.Files.{Found, found, denied, resolve_session_path}
use computer_network_socket.Server.Reply.{CommandReply}
use computer_network_socket.Server.Outcome.{Outcome, ServerEffect, answer, answer_doing}
use computer_network_socket.Server.Handlers.Cases.{with_argument-lem, attempt-lem}
use computer_network_socket.Server.Handlers.File.{
  delete_file, remember_source, rename_source, hash_file, handle_rnto,
}
use computer_network_socket.Server.Dispatch.Confined.{
  IsCurrent, Enters, EffectUnder, PathUnder, FoundUnder, Confined, resolve_session_path-Under,
}

module _ (sys : System) (s : ClientSession)
    (h : PathUnder (sys.resolve s.server_root) s.pending_rename_path) where
  abbrev Safe : Outcome → Type 0
  Safe o = Confined (sys.resolve s.server_root) s.server_root (IsCurrent sys s) (Enters sys s) o

  abbrev Fine : Found → Type 0
  Fine f = FoundUnder (sys.resolve s.server_root) f

  kept : (r : CommandReply) → Safe (answer s r)
  kept r = record { effects = tt; pending = h; root_kept = refl; directory = inl refl }

  doing :
      (e : ServerEffect) (r : CommandReply)
      → EffectUnder (sys.resolve s.server_root) (IsCurrent sys s) e
      → Safe (answer_doing s e r)
  doing e r under = record {
    effects = (under, tt);
    pending = h;
    root_kept = refl;
    directory = inl refl;
  }

  pub delete_file-Confined : (f : Found) → Fine f → Safe (delete_file sys s f)
  unfolding delete_file
  delete_file-Confined (denied m) u = kept _
  delete_file-Confined (found path) u =
      attempt-lem Safe (sys.unlink path) (doing _ _ u) (λ e. kept _)

  pub remember_source-Confined : (f : Found) → Fine f → Safe (remember_source s f)
  unfolding remember_source
  remember_source-Confined (denied m) u = kept _
  remember_source-Confined (found path) u = record {
    effects = tt;
    pending = u;
    root_kept = refl;
    directory = inl refl;
  }

  pub rename_source-Confined :
      (source : FilePath) (f : Found)
      → PathUnder (sys.resolve s.server_root) (some source)
      → Fine f
      → Safe (rename_source sys s source f)
  unfolding rename_source reset_rename_state
  rename_source-Confined source (denied m) us u = kept _
  rename_source-Confined source (found path) us u =
      attempt-lem Safe (sys.rename source path)
        (record { effects = ((us, u), tt); pending = tt; root_kept = refl; directory = inl refl })
        (λ e. record { effects = tt; pending = tt; root_kept = refl; directory = inl refl })

  pub hash_file-Confined : (f : Found) → Safe (hash_file sys s f)
  unfolding hash_file
  hash_file-Confined (denied m) = kept _
  hash_file-Confined (found path) = option-lem Safe (sys.sha256 path) (kept _) (λ digest. kept _)

  pub handle_rnto-Confined : (args : Option Text) → Safe (handle_rnto sys s args)
  unfolding handle_rnto
  handle_rnto-Confined args = with_argument-lem Safe args (kept _) (λ a.
      option-split Safe s.pending_rename_path (λ e. kept _)
        (λ source e.
          rename_source-Confined source (resolve_session_path sys s a)
            (subst (PathUnder (sys.resolve s.server_root)) e h)
            (resolve_session_path-Under sys s a)))
