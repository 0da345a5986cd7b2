-- ===== src/Server/Dispatch/Root/Transfers.antt =====
-- Transfers and listings stay below the root.
use computer_network_socket.Base.{
  inl, ◌≡◌, refl, Bool, Option, none, some, List, [], ◌∷◌, ℕ, length,
}
use computer_network_socket.Base.Cases.{if-lem, option-lem}
use computer_network_socket.Base.Text.{Text, text}
use computer_network_socket.Codec.{
  Converted, bytes, not_utf8, bad_blocks, bad_compression, encode_for_transfer,
}
use computer_network_socket.Server.Session.{FilePath, ClientSession, runs_on, start_transfer}
use computer_network_socket.Server.System.{System}
use computer_network_socket.Server.Files.{Found, found, denied}
use computer_network_socket.Server.Reply.{CommandReply, FtpReplyCode}
use computer_network_socket.Server.Outcome.{
  Outcome, ServerEffect, Job, sends_file, receives_file, sends_listing, answer, answer_doing,
}
use computer_network_socket.Server.Handlers.Cases.{listing-lem}
use computer_network_socket.Server.Handlers.Listing.{
  list_path, join_texts, send_listing, list_target, list_names, show_status, show_size,
  show_modified, tell,
}
use computer_network_socket.Server.Handlers.Transfer.{
  validate_data_connection, run_transfer, start_receive_transfer, send_converted, retrieve,
  receive_at,
}
use computer_network_socket.Server.Dispatch.Confined.{
  IsCurrent, Enters, Listed, Under, JobUnder, EffectUnder, PathUnder, FoundUnder, Confined,
}

module _ (sys : System) (s : ClientSession)
    (h : PathUnder (sys.resolve s.server_root) s.pending_rename_path) where
  abbrev Safe : Outcome → Type 0
  Safe o = Confined (sys.resolve s.server_root) s.server_root (IsCurrent sys s) (Enters sys s) o

  abbrev Fine : Found → Type 0
  Fine f = FoundUnder (sys.resolve s.server_root) f

  kept : (r : CommandReply) → Safe (answer s r)
  kept r = record { effects = tt; pending = h; root_kept = refl; directory = inl refl }

  doing :
      (e : ServerEffect) (r : CommandReply)
      → EffectUnder (sys.resolve s.server_root) (IsCurrent sys s) e
      → Safe (answer_doing s e r)
  doing e r under = record {
    effects = (under, tt);
    pending = h;
    root_kept = refl;
    directory = inl refl;
  }

  pub run_transfer-Confined :
      (s' : ClientSession) (job : Job) (r : CommandReply)
      → PathUnder (sys.resolve s.server_root) s'.pending_rename_path
      → s'.server_root ≡ s.server_root
      → s'.current_directory ≡ s.current_directory
      → JobUnder (sys.resolve s.server_root) (IsCurrent sys s) job
      → Safe (run_transfer sys s' job r)
  unfolding run_transfer
  run_transfer-Confined s' job r pending same stays under =
      if-lem Safe (runs_on s'.transfer_thread sys.thread_alive)
        (record { effects = (tt, tt); pending = pending; root_kept = same; directory = inl stays })
        (record {
          effects = (under, tt);
          pending = pending;
          root_kept = same;
          directory = inl stays;
        })

  pub start_receive_transfer-Confined :
      (command : Text) (path : FilePath) (appends : Bool) (m : Text)
      → Under (sys.resolve s.server_root) path
      → Safe (start_receive_transfer sys s command path appends m)
  unfolding start_receive_transfer start_transfer
  start_receive_transfer-Confined command path appends m u =
      option-lem Safe (validate_data_connection s)
        (run_transfer-Confined (start_transfer command path (text "UPLOAD") 0 s)
          (receives_file path appends) _ h refl refl u)
        (λ refused. kept _)

  pub receive_at-Confined :
      (command : Text) (appends : Bool) (message : FilePath → Text) (f : Found)
      → Fine f
      → Safe (receive_at sys s command appends message f)
  receive_at-Confined command appends message (denied m) u = kept _
  receive_at-Confined command appends message (found path) u =
      start_receive_transfer-Confined command path appends (message path) u

  pub send_converted-Confined :
      (path : FilePath) (c : Converted)
      → Under (sys.resolve s.server_root) path
      → Safe (send_converted sys s path c)
  unfolding start_transfer
  send_converted-Confined path (bytes content) u =
      run_transfer-Confined _ (sends_file path content) _ h refl refl u
  send_converted-Confined path not_utf8 u = kept _
  send_converted-Confined path bad_blocks u = kept _
  send_converted-Confined path bad_compression u = kept _

  pub retrieve-Confined : (f : Found) → Fine f → Safe (retrieve sys s f)
  unfolding retrieve
  retrieve-Confined (denied m) u = kept _
  retrieve-Confined (found path) u =
      option-lem Safe (validate_data_connection s)
        (option-lem Safe (sys.read_bytes path) (kept _) (λ content.
          send_converted-Confined path
            (encode_for_transfer sys.platform s.transfer_type s.transfer_mode content) u))
        (λ refused. kept _)

  pub send_listing-Confined :
      (path : FilePath) (content : List ℕ)
      → Listed sys s (found path)
      → Safe (send_listing sys s path content)
  unfolding send_listing start_transfer
  send_listing-Confined path content u =
      option-lem Safe (validate_data_connection s)
        (run_transfer-Confined (start_transfer (text "LIST") path (text "SEND") (length content) s)
          (sends_listing path content) _ h refl refl u)
        (λ refused. kept _)

  pub list_target-Confined : (f : Found) → Listed sys s f → Safe (list_target sys s f)
  unfolding list_target
  list_target-Confined (denied m) u = kept _
  list_target-Confined (found path) u =
      listing-lem Safe (list_path sys path) (kept _) (kept _) (kept _) (λ entries.
        send_listing-Confined path (sys.utf8_encode (join_texts (13 ∷ 10 ∷ []) entries)) u)

  pub list_names-Confined : (f : Found) → Safe (list_names sys s f)
  unfolding list_names
  list_names-Confined (denied m) = kept _
  list_names-Confined (found path) = option-lem Safe (sys.iterdir path) (kept _) (λ names. kept _)

  pub show_status-Confined : (f : Found) → Safe (show_status sys s f)
  unfolding show_status
  show_status-Confined (denied m) = kept _
  show_status-Confined (found path) =
      listing-lem Safe (list_path sys path) (kept _) (kept _) (kept _) (λ entries. kept _)

  pub tell-Confined : (c : FtpReplyCode) (m : Text) (t : Option Text) → Safe (tell s c m t)
  tell-Confined c m none = kept _
  tell-Confined c m (some t) = kept _

  pub show_size-Confined : (f : Found) → Safe (show_size sys s f)
  unfolding show_size
  show_size-Confined (denied m) = kept _
  show_size-Confined (found path) = tell-Confined _ _ (sys.size_text path)

  pub show_modified-Confined : (f : Found) → Safe (show_modified sys s f)
  unfolding show_modified
  show_modified-Confined (denied m) = kept _
  show_modified-Confined (found path) = tell-Confined _ _ (sys.modified_text path)
