-- ===== src/Tests/Delivery.antt =====
-- The transfer of Tests.Transfer as an upload and as a download.
use computer_network_socket.Base.{◌≡◌, refl, true, false, none, some, [], ◌∷◌, take}
use computer_network_socket.Base.Text.{text}
use computer_network_socket.Codec.{prepare_upload_data, encode_for_transfer, decode_from_transfer}
use computer_network_socket.Server.Session.{new_session}
use computer_network_socket.Server.Job.{
  saves, open_fails, write_fails, receive_file, arrived, store, save, opened, final_reply,
}
use computer_network_socket.Server.Reply.{says, transfer_aborted}
use computer_network_socket.Client.Control.{client_of, downloads}
use computer_network_socket.Client.Handlers.Worker.{end_download, received_data}
use computer_network_socket.Protocol.Delivery.{
  Arrives, holding, receive_file-prepare_upload_data, end_download-encode_for_transfer,
}
use computer_network_socket.Tests.Transfer.{hi, scfg, rcfg, w₇, reach₇, w₇_receiver}
use computer_network_socket.Tests.Transfer
use computer_network_socket.Tests.Commands.{unix, guest}
use computer_network_socket.Tests.Sides.{desk, downloading}

hi-Arrives : Arrives hi hi
hi-Arrives = record {
  scfg = scfg;
  rcfg = rcfg;
  sender_addr = Transfer.client;
  old_to_receiver = [];
  old_to_sender = [];
  world = w₇;
  peer = refl;
  genuine = tt;
  honest = tt;
  reached = reach₇;
  sends = refl;
  returns = w₇_receiver;
}

-- APPE to a file that holds one byte.
receive_file-prepare_upload_data_example :
    receive_file unix saves guest true (some (7 ∷ [])) (arrived hi)
    ≡ holding guest true (some (7 ∷ [])) hi
unfolding new_session prepare_upload_data
receive_file-prepare_upload_data_example =
    receive_file-prepare_upload_data unix unix saves guest true (some (7 ∷ [])) hi hi hi (λ b. refl)
      (λ b. refl) refl refl hi-Arrives refl

-- A disk that fills up after the first byte of STOR, and a name that is a directory.
disk_full :
    (receive_file unix (write_fails 1) guest false (some (7 ∷ [])) (arrived hi)).file
    ≡ some (take 1 hi)
unfolding receive_file store save opened decode_from_transfer new_session
disk_full = refl

names_directory :
    final_reply
      (λ n. text "Done.")
      (text "Is a directory")
      (receive_file unix open_fails guest false none (arrived hi)).end
    ≡ says transfer_aborted (text "Transfer failed: Is a directory")
unfolding receive_file store save decode_from_transfer new_session final_reply text
names_directory = refl

end_download-encode_for_transfer_example :
    (client_of (end_download desk (text "a.txt") (received_data hi) downloading)).written
    ≡ (downloads (text "a.txt"), hi) ∷ []
unfolding encode_for_transfer
end_download-encode_for_transfer_example =
    end_download-encode_for_transfer unix desk (text "a.txt") downloading hi hi hi (λ b. refl)
      (λ b. refl) refl refl refl hi-Arrives
