-- ===== src/Server/Outcome.antt =====
-- What handling one command leads to: the new session, the effects on the system, and the replies.
use computer_network_socket.Base.{ℕ, Bool, List, [], ◌∷◌}
use computer_network_socket.Server.Session.{FilePath, ClientSession, Closing}
use computer_network_socket.Server.Reply.{CommandReply, Reply, line}

-- The work of a transfer's thread: data to send, of the path it was read from, or a file to receive, at its end or
-- from its start.
pub data Job : Type 0 where
  sends_listing sends_file : FilePath → List ℕ → Job
  receives_file : FilePath → Bool → Job

-- What a handler does to the system. `opens_socket` is a `socket()` that gave a UDP socket, `changes_mode` a `chmod`,
-- `crashes` an exception that it does not catch.
pub data ServerEffect : Type 0 where
  closes opens_socket : ℕ → ServerEffect
  unlinks : FilePath → ServerEffect
  renames : FilePath → FilePath → ServerEffect
  makes_directory : FilePath → ServerEffect
  removes_directory : FilePath → ServerEffect
  changes_mode : FilePath → ServerEffect
  starts : Job → ServerEffect
  crashes : ServerEffect

pub record Outcome : Type 0 where
  pub session : ClientSession
  pub effects : List ServerEffect
  pub replies : List Reply

abbrev pub closings : List ℕ → List ServerEffect
closings [] = []
closings (socket ∷ rest) = closes socket ∷ closings rest

-- One reply with nothing else done.
abbrev pub answer : ClientSession → CommandReply → Outcome
answer s r = record { session = s; effects = []; replies = line r ∷ [] }

-- One reply after an operation that closes sockets.
abbrev pub answer_closing : Closing → CommandReply → Outcome
answer_closing (s, closed) r = record {
  session = s;
  effects = closings closed;
  replies = line r ∷ [];
}

-- One reply after one effect.
abbrev pub answer_doing : ClientSession → ServerEffect → CommandReply → Outcome
answer_doing s e r = record { session = s; effects = e ∷ []; replies = line r ∷ [] }
