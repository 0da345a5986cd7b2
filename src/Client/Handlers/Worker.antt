-- ===== src/Client/Handlers/Worker.antt =====
-- The workers of client/control/handlers/transfer_handler.py and of `handle_list`, from the end of the data
-- transfer on, inside `_run` of client/control/context.py.
use computer_network_socket.Base.{
  ℕ, Bool, true, false, not, ◌&&◌, ◌||◌, Option, none, some, List, [], ◌∷◌, ◌++◌, if◌then◌else◌,
  leb, ◌+◌,
}
use computer_network_socket.Base.Text.{Text, text}
use computer_network_socket.Codec.{process_download_data}
use computer_network_socket.Server.Session.{TransferType, ascii, image}
use computer_network_socket.Client.Connection.{parse_reply, starts_with}
use computer_network_socket.Client.Context.{mark_transfer_finalizing, finish_transfer}
use computer_network_socket.Client.Control.{
  Client, Result, returned, raised, ◌>>=◌, client_of, send_command, read_reply_line, LocalPath,
  downloads, Verification, not_verified, hashes, Task, lists, retrieves, uploads,
}
use computer_network_socket.Client.Handlers.Simple.{is_code}
use computer_network_socket.Client.Handlers.Transfer.{Host, converted_bytes}

-- How the data transfer of a worker ends: cancelled, with no channel, with a timeout of the data, with an exception
-- that only `_run` catches, with data received, or with all sent, its end acknowledged or not.
pub data TransferEnd : Type 0 where
  cancelled no_channel data_timeout breaks : TransferEnd
  received_data : List ℕ → TransferEnd
  sent_all : Bool → TransferEnd

unfoldable pub lower : Text → Text
lower [] = []
lower (c ∷ cs) = (if leb b'A' c && leb c b'Z' then c + 32 else c) ∷ lower cs

-- `part in t`
unfoldable pub contains : Text → Text → Bool
unfolding starts_with
contains part [] = starts_with [] part
contains part (c ∷ cs) = starts_with (c ∷ cs) part || contains part cs

-- ABORT_SUCCESS_MESSAGE
unfoldable pub abort_success_message : Text
unfolding text
abort_success_message = text "Abort command successful."

unfoldable pub confirms_abort : Text → Bool
unfolding lower contains abort_success_message
confirms_abort message = contains (lower abort_success_message) (lower message)

-- `_read_final_transfer_reply`: the code, and whether the server confirms the abort. A confirmation is the only
-- reply to come; after another reply, that of the late ABOR is read too.
unfoldable pub read_final_transfer_reply : Client → Result (Option ℕ × Bool)
unfolding mark_transfer_finalizing read_reply_line parse_reply confirms_abort
read_final_transfer_reply c =
    let (context', abort_requested) = mark_transfer_finalizing c.context in
    read_reply_line (record c { context = context' }) >>= λ response c₁.
    let (code, message) = parse_reply response in
    let confirmed = confirms_abort message in
    if abort_requested && not confirmed
    then (read_reply_line c₁ >>= λ late c₂. returned (code, confirmed) c₂)
    else returned (code, confirmed) c₁

unfoldable pub only_final_reply : Client → Result (Unit {0})
unfolding read_final_transfer_reply
only_final_reply c = read_final_transfer_reply c >>= λ verdict c'. returned tt c'

-- A final read whose ConnectionError or OSError is caught and shown.
unfoldable pub caught_final_reply : Client → Result (Unit {0})
unfolding only_final_reply
caught_final_reply c = elim (only_final_reply c) [
  | returned u c' ↦ returned tt c'
  | raised c' ↦ returned tt c'
]

abbrev pub is_ascii : TransferType → Bool
is_ascii ascii = true
is_ascii image = false

module _ (host : Host) where
  -- HASH for a file, against its local copy; the comparison is only shown.
  unfoldable pub verify_file : LocalPath → Text → Client → Result (Unit {0})
  unfolding send_command read_reply_line text
  verify_file path filename c =
      if is_ascii c.context.transfer_type then returned tt c else elim (host.file_hash path) [
        | none ↦ returned tt c
        | some local_hash ↦ send_command host.send_works (text "HASH " ++ filename) c >>= λ u c₁.
            read_reply_line c₁ >>= λ reply c₂. returned tt c₂
      ]

  abbrev pub completed : Option ℕ × Bool → Bool
  completed (code, aborted) = not aborted && is_code 226 code

  -- The file is written before the final reply is read.
  unfoldable pub save_download : Text → Option (List ℕ) → Client → Result (Unit {0})
  unfolding only_final_reply read_final_transfer_reply verify_file
  save_download filename none c = only_final_reply c
  save_download filename (some content) c =
      if host.can_write (downloads filename)
      then (read_final_transfer_reply
            (record c { written = c.written ++ ((downloads filename, content) ∷ []) })
          >>= λ verdict c'.
              if completed verdict
              then verify_file (downloads filename) filename c'
              else returned tt c')
      else only_final_reply c

  unfoldable pub verify_upload : Verification → Client → Result (Unit {0})
  unfolding verify_file
  verify_upload not_verified c = returned tt c
  verify_upload (hashes path filename) c = verify_file path filename c

  -- The worker of `handle_list`.
  unfoldable pub end_list : TransferEnd → Client → Result (Unit {0})
  unfolding only_final_reply caught_final_reply
  end_list cancelled c = only_final_reply c
  end_list no_channel c = only_final_reply c
  end_list data_timeout c = caught_final_reply c
  end_list breaks c = raised c
  end_list (received_data bs) c = only_final_reply c
  end_list (sent_all acknowledged) c = raised c

  -- The worker of `handle_retr`.
  unfoldable pub end_download : Text → TransferEnd → Client → Result (Unit {0})
  unfolding only_final_reply caught_final_reply save_download process_download_data
  end_download filename cancelled c = only_final_reply c
  end_download filename no_channel c = only_final_reply c
  end_download filename data_timeout c = caught_final_reply c
  end_download filename breaks c = raised c
  end_download filename (received_data bs) c =
      save_download filename
        (converted_bytes host
          (process_download_data host.platform c.context.transfer_type c.context.transfer_mode bs))
        c
  end_download filename (sent_all acknowledged) c = raised c

  -- The worker of an upload, with `_send_upload_and_wait_for_completion`.
  unfoldable pub end_upload : Verification → TransferEnd → Client → Result (Unit {0})
  unfolding only_final_reply caught_final_reply read_final_transfer_reply verify_upload
  end_upload verification cancelled c = only_final_reply c
  end_upload verification no_channel c = caught_final_reply c
  end_upload verification data_timeout c = only_final_reply c
  end_upload verification breaks c = raised c
  end_upload verification (received_data bs) c = raised c
  end_upload verification (sent_all acknowledged) c = read_final_transfer_reply c >>= λ verdict c'.
      if completed verdict then verify_upload verification c' else returned tt c'

  unfoldable pub end_task : Task → TransferEnd → Client → Result (Unit {0})
  unfolding end_list end_download end_upload
  end_task (lists socket peer) outcome c = end_list outcome c
  end_task (retrieves filename socket peer) outcome c = end_download filename outcome c
  end_task (uploads content verification socket peer) outcome c = end_upload verification outcome c

  -- `_run`: the worker, and then the end of the transfer, whatever the worker raised.
  unfoldable pub run_worker : TransferEnd → Client → Client
  unfolding end_task finish_transfer
  run_worker outcome c = elim c.worker [
    | none ↦ c
    | some task ↦
        let c' = client_of (end_task task outcome c) in
        let (context', closed') = finish_transfer c'.context in
        record c' { context = context'; closed = c'.closed ++ closed'; worker = none }
  ]
