-- ===== src/Server/Job.antt =====
-- The worker of an upload: `receive_file` of server/control/data_transfer_service.py from the received bytes on, the
-- worker of `_start_receive_transfer` in server/control/handlers/transfer_handler.py, and the replies of `_run` in
-- `run_transfer` of server/control/session.py.
use computer_network_socket.Base.{
  ℕ, Bool, Option, none, some, List, [], ◌++◌, length, take, if◌then◌else◌,
}
use computer_network_socket.Base.Text.{Text, text}
use computer_network_socket.Codec.{
  Platform, Converted, bytes, not_utf8, bad_blocks, bad_compression, decode_from_transfer,
}
use computer_network_socket.Server.Session.{ClientSession}
use computer_network_socket.Server.Reply.{CommandReply, says, transfer_complete, transfer_aborted}

-- What `reliable_recv` does for the worker: it returns bytes, raises InterruptedError, or another exception.
pub data WireEnd : Type 0 where
  arrived : List ℕ → WireEnd
  was_interrupted breaks : WireEnd

-- What the file system does for it: `parent.mkdir`, `open` and `write` succeed, or one of them raises an OSError;
-- after that of `write`, this many bytes have reached the file.
pub data SaveAttempt : Type 0 where
  saves mkdir_fails open_fails : SaveAttempt
  write_fails : ℕ → SaveAttempt

-- How a worker ends: done, with the number of bytes received, with InterruptedError, or with another exception.
pub data JobEnd : Type 0 where
  stored : ℕ → JobEnd
  aborted failed : JobEnd

-- The session, the file, if there is one, and how the worker ends.
pub record Received : Type 0 where
  pub session : ClientSession
  pub file : Option (List ℕ)
  pub end : JobEnd

abbrev pub content_of : Option (List ℕ) → List ℕ
content_of none = []
content_of (some content) = content

-- What `open` leaves of the file: all of it in mode "ab", nothing in mode "wb".
unfoldable pub opened : Bool → Option (List ℕ) → List ℕ
opened appends present = if appends then content_of present else []

unfoldable pub save : SaveAttempt → ClientSession → Bool → Option (List ℕ) → List ℕ → Received
unfolding opened
save saves s appends present data' = record {
  session = record s { transferred_bytes = length data' };
  file = some (opened appends present ++ data');
  end = stored (length data');
}
save mkdir_fails s appends present data' = record { session = s; file = present; end = failed }
save open_fails s appends present data' = record { session = s; file = present; end = failed }
save (write_fails n) s appends present data' = record {
  session = s;
  file = some (opened appends present ++ take n data');
  end = failed;
}

-- The file is written only once all has arrived and is decoded; `present` is what it is before.
unfoldable pub store : SaveAttempt → ClientSession → Bool → Option (List ℕ) → Converted → Received
unfolding save
store attempt s appends present (bytes data') = save attempt s appends present data'
store attempt s appends present not_utf8 = record { session = s; file = present; end = failed }
store attempt s appends present bad_blocks = record { session = s; file = present; end = failed }
store attempt s appends present bad_compression = record {
  session = s;
  file = present;
  end = failed;
}

unfoldable pub receive_file :
    Platform → SaveAttempt → ClientSession → Bool → Option (List ℕ) → WireEnd → Received
unfolding store decode_from_transfer
receive_file pf attempt s appends present (arrived wire_data) =
    store attempt s appends present
      (decode_from_transfer pf s.transfer_type s.transfer_mode wire_data)
receive_file pf attempt s appends present was_interrupted = record {
  session = s;
  file = present;
  end = aborted;
}
receive_file pf attempt s appends present breaks = record {
  session = s;
  file = present;
  end = failed;
}

-- The final reply; `reason` is the text of the exception.
unfoldable pub final_reply : (ℕ → Text) → Text → JobEnd → CommandReply
unfolding text
final_reply completion_message reason (stored received_size) =
    says transfer_complete (completion_message received_size)
final_reply completion_message reason aborted = says transfer_aborted (text "Transfer aborted.")
final_reply completion_message reason failed =
    says transfer_aborted (text "Transfer failed: " ++ reason)
