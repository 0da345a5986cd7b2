-- ===== src/Protocol/Delivery.antt =====
-- A file's way from one side's disk to the other's: conversion, reliable transfer, conversion and write.
use computer_network_socket.Base.{
  ℕ, ◌≡◌, refl, sym, ap, ◌∙◌, Bool, true, false, not, ◌&&◌, arith, Option, some, List, [], ◌∷◌,
  ◌++◌, length, All, if◌then◌else◌,
}
use computer_network_socket.Base.Text.{Text}
use computer_network_socket.Shared.Address.{Address}
use computer_network_socket.Shared.Rdt.Sender.{SendConfig}
use computer_network_socket.Shared.Rdt.Receiver
use computer_network_socket.Shared.Rdt.Receiver.{RecvConfig}
use computer_network_socket.Shared.Rdt.Network.{World, start_world, Reach}
use computer_network_socket.Shared.Rdt.Network.Honest.{IsGenuine, IsHonest}
use computer_network_socket.Shared.Rdt.Network.Safety.{receiver_returns_sent}
use computer_network_socket.Codec.{
  Platform, bytes, prepare_upload_data, encode_for_transfer, decode_from_transfer,
  process_download_data,
}
use computer_network_socket.Codec.RoundTrip.{
  Decompresses, upload, download, on_bytes, image_round_trip,
}
use computer_network_socket.Server.Session.{ClientSession, image}
use computer_network_socket.Server.Job.{
  SaveAttempt, saves, Received, receive_file, arrived, stored, store, save, opened, content_of,
}
use computer_network_socket.Base.Cases.{if-lem, if-split, option-lem, list-lem}
use computer_network_socket.Base.Text.{text}
use computer_network_socket.Client.Connection.{parse_reply}
use computer_network_socket.Client.Context.{mark_transfer_finalizing}
use computer_network_socket.Client.Control.{
  Client, Result, returned, raised, ◌>>=◌, client_of, LocalPath, downloads, send_command,
  read_reply_line,
}
use computer_network_socket.Client.Handlers.Transfer.{Host, converted_bytes}
use computer_network_socket.Client.Handlers.Worker.{
  end_download, received_data, save_download, read_final_transfer_reply, verify_file,
  confirms_abort, is_ascii, completed,
}

-- A transfer that has begun with old datagrams of the handshake alone, has come to `w`, and has returned `out`.
pub record Arrives (raw out : List ℕ) : Type 0 where
  pub scfg : SendConfig
  pub rcfg : RecvConfig
  pub sender_addr : Address
  pub old_to_receiver : List (List ℕ)
  pub old_to_sender : List (List ℕ)
  pub world : World
  pub peer : rcfg.expected_peer ≡ some sender_addr
  pub genuine : All (IsGenuine scfg.raw_data 0) old_to_receiver
  pub honest : All (IsHonest 0 false) old_to_sender
  pub reached : Reach scfg rcfg sender_addr (start_world old_to_receiver old_to_sender) world
  pub sends : scfg.raw_data ≡ raw
  pub returns : world.receiver ≡ Receiver.returned out

Arrives-eq : (raw out : List ℕ) → Arrives raw out → out ≡ raw
Arrives-eq raw out t =
    receiver_returns_sent t.scfg t.rcfg t.sender_addr t.old_to_receiver t.old_to_sender t.world
      t.peer t.genuine t.honest t.reached out t.returns
    ∙ t.sends

-- The file holds this content, behind what was there if it is appended, and the session knows how many bytes came.
abbrev pub holding : ClientSession → Bool → Option (List ℕ) → List ℕ → Received
holding s appends present content = record {
  session = record s { transferred_bytes = length content };
  file = some (if appends then content_of present ++ content else content);
  end = stored (length content);
}

save-holding :
    (s : ClientSession) (appends : Bool) (present : Option (List ℕ)) (content : List ℕ)
    → save saves s appends present content ≡ holding s appends present content
unfolding save opened
save-holding s true present content = refl
save-holding s false present content = refl

-- The session stores what the upload's conversion gives.
stored_upload :
    (client server : Platform) (s : ClientSession) (appends : Bool) (present : Option (List ℕ))
    (content raw : List ℕ)
    → s.transfer_type ≡ image
    → prepare_upload_data client image s.transfer_mode content ≡ bytes raw
    → upload client server image s.transfer_mode content ≡ bytes content
    → receive_file server saves s appends present (arrived raw) ≡ holding s appends present content
unfolding receive_file store upload on_bytes
stored_upload client server s appends present content raw t sent round =
    let mode = s.transfer_mode in
    let decoded : decode_from_transfer server image mode raw ≡ bytes content =
      sym (ap (λ c. on_bytes c (decode_from_transfer server image mode)) sent) ∙ round in
    ap (λ ty. store saves s appends present (decode_from_transfer server ty mode raw)) t
    ∙ ap (store saves s appends present) decoded
    ∙ save-holding s appends present content

-- In TYPE I and any MODE that both sides are set to, with a zlib that undoes itself, where the receiver expects the
-- sender's address and at most old handshake datagrams are under way at the start, and where the server's `mkdir`,
-- `open` and `write` succeed: when its call returns after a transfer of what the client has prepared from a file, over
-- any network as in Shared.Rdt.Network, STOR and STOU leave exactly the client's file, and APPE what was there and the
-- client's file behind it, and the worker ends with the number of bytes of the client's file.
pub receive_file-prepare_upload_data :
    (client server : Platform) (attempt : SaveAttempt) (s : ClientSession) (appends : Bool)
    (present : Option (List ℕ)) (content raw out : List ℕ)
    → Decompresses client server
    → Decompresses server client
    → s.transfer_type ≡ image
    → prepare_upload_data client image s.transfer_mode content ≡ bytes raw
    → Arrives raw out
    → attempt ≡ saves
    → receive_file server attempt s appends present (arrived out)
      ≡ holding s appends present content
receive_file-prepare_upload_data client server attempt s appends present content raw out up down t
      sent a works =
    ap (λ w. receive_file server w s appends present (arrived out)) works
    ∙ ap (λ o. receive_file server saves s appends present (arrived o)) (Arrives-eq raw out a)
    ∙ stored_upload client server s appends present content raw t sent
        (image_round_trip client server s.transfer_mode content up down).0

-- What the client has written, and nothing after it, whether or not something is raised.
module _ (files : List (LocalPath × List ℕ)) where
  abbrev Wrote : {A : Type 0} → Result A → Type 0
  Wrote r = (client_of r).written ≡ files

  bind-Wrote :
      {A B : Type 0} (r : Result A) (f : A → Client → Result B)
      → Wrote r
      → ((a : A) (c : Client) → c.written ≡ files → Wrote (f a c))
      → Wrote (r >>= f)
  bind-Wrote (returned a c) f h k = k a c h
  bind-Wrote (raised c) f h k = h

  read_reply_line-Wrote : (c : Client) → c.written ≡ files → Wrote (read_reply_line c)
  unfolding read_reply_line
  read_reply_line-Wrote c h =
      list-lem {B = Result Text} (λ r. Wrote r) c.replies h (λ reply later. h)

  send_command-Wrote :
      (works : ℕ → Bool) (t : Text) (c : Client)
      → c.written ≡ files
      → Wrote (send_command works t c)
  unfolding send_command
  send_command-Wrote works t c h =
      if-lem {A = Result (Unit {0})} (λ r. Wrote r) (works (length c.sent)) h h

  read_final-Wrote : (c : Client) → c.written ≡ files → Wrote (read_final_transfer_reply c)
  unfolding read_final_transfer_reply mark_transfer_finalizing
  read_final-Wrote c h =
      bind-Wrote (read_reply_line (record c { context = (mark_transfer_finalizing c.context).0 })) _
        (read_reply_line-Wrote (record c { context = (mark_transfer_finalizing c.context).0 }) h)
        (λ response c₁ h₁.
          if-lem {A = Result (Option ℕ × Bool)} (λ r. Wrote r)
            (c.context.abort_requested && not (confirms_abort (parse_reply response).1))
            (bind-Wrote (read_reply_line c₁) _ (read_reply_line-Wrote c₁ h₁) (λ late c₂ h₂. h₂)) h₁)

  verify_file-Wrote :
      (host : Host) (path : LocalPath) (filename : Text) (c : Client)
      → c.written ≡ files
      → Wrote (verify_file host path filename c)
  unfolding verify_file
  verify_file-Wrote host path filename c h =
      if-lem {A = Result (Unit {0})} (λ r. Wrote r) (is_ascii c.context.transfer_type) h
        (option-lem {B = Result (Unit {0})} (λ r. Wrote r) (host.file_hash path) h
          (λ local_hash.
            bind-Wrote (send_command host.send_works (text "HASH " ++ filename) c) _
              (send_command-Wrote host.send_works (text "HASH " ++ filename) c h)
              (λ u c₁ h₁.
                bind-Wrote (read_reply_line c₁) _ (read_reply_line-Wrote c₁ h₁)
                  (λ reply c₂ h₂. h₂))))

save_download-Wrote :
    (host : Host) (filename : Text) (content : List ℕ) (c : Client)
    → host.can_write (downloads filename) ≡ true
    → (client_of (save_download host filename (some content) c)).written
      ≡ c.written ++ ((downloads filename, content) ∷ [])
unfolding save_download
save_download-Wrote host filename content c can =
    let files = c.written ++ ((downloads filename, content) ∷ []) in
    let saved : Client = record c { written = files } in
    if-split {A = Result (Unit {0})} (λ r. Wrote files r) (host.can_write (downloads filename))
      (λ writes.
        bind-Wrote files (read_final_transfer_reply saved) _ (read_final-Wrote files saved refl)
          (λ verdict c' h'.
            if-lem {A = Result (Unit {0})} (λ r. Wrote files r) (completed host verdict)
              (verify_file-Wrote files host (downloads filename) filename c' h') h'))
      (λ cannot. absurd (ground arith))

saved_download :
    (server : Platform) (host : Host) (filename : Text) (c : Client) (content raw : List ℕ)
    → c.context.transfer_type ≡ image
    → encode_for_transfer server image c.context.transfer_mode content ≡ bytes raw
    → download host.platform server image c.context.transfer_mode content ≡ bytes content
    → end_download host filename (received_data raw) c
      ≡ save_download host filename (some content) c
unfolding end_download download on_bytes
saved_download server host filename c content raw t sent round =
    let mode = c.context.transfer_mode in
    let decoded : process_download_data host.platform image mode raw ≡ bytes content =
      sym (ap (λ d. on_bytes d (process_download_data host.platform image mode)) sent) ∙ round in
    ap
      (λ ty.
        save_download host filename
          (converted_bytes host (process_download_data host.platform ty mode raw)) c)
      t
    ∙ ap (λ d. save_download host filename (converted_bytes host d) c) decoded

-- In TYPE I and any MODE that both sides are set to, with a zlib that undoes itself, where the receiver expects the
-- sender's address and at most old handshake datagrams are under way at the start: when the client's call returns after
-- a transfer of what the server has prepared from a file, RETR writes exactly the server's file under its name in the
-- downloads, where that can be written.
pub end_download-encode_for_transfer :
    (server : Platform) (host : Host) (filename : Text) (c : Client) (content raw out : List ℕ)
    → Decompresses host.platform server
    → Decompresses server host.platform
    → c.context.transfer_type ≡ image
    → encode_for_transfer server image c.context.transfer_mode content ≡ bytes raw
    → host.can_write (downloads filename) ≡ true
    → Arrives raw out
    → (client_of (end_download host filename (received_data out) c)).written
      ≡ c.written ++ ((downloads filename, content) ∷ [])
end_download-encode_for_transfer server host filename c content raw out up down t sent can a =
    ap (λ o. (client_of (end_download host filename (received_data o) c)).written)
      (Arrives-eq raw out a)
    ∙ (ap (λ r. (client_of r).written)
          (saved_download server host filename c content raw t sent
            (image_round_trip host.platform server c.context.transfer_mode content up down).1)
        ∙ save_download-Wrote host filename content c can)
