-- ===== src/Server/System.antt =====
-- What the handlers use of the system: the file system and its paths as they are while one command runs,
-- the users of user.json, sockets, and Python's `int`. Every operation is a parameter.
use computer_network_socket.Base.{ℕ, Bool, Option, List}
use computer_network_socket.Base.Text.{Text}
use computer_network_socket.Server.Session.{FilePath}
use computer_network_socket.Codec.{Platform}

-- The result of `int(…)` where it is a number.
pub data Integer : Type 0 where
  nonneg : ℕ → Integer
  negative : ℕ → Integer

-- A change of the file system: done, or the exception's text.
pub data Attempt : Type 0 where
  done : Attempt
  fails : Text → Attempt

pub data MkdirAttempt : Type 0 where
  made exists_already mkdir_fails : MkdirAttempt

pub data RmdirAttempt : Type 0 where
  removed not_found not_empty access_denied os_error other_error : RmdirAttempt

-- `socket()` and `bind(('', 0))`: the socket and its port, or where it failed.
pub data BindAttempt : Type 0 where
  no_socket : BindAttempt
  bind_fails : ℕ → BindAttempt
  bound : ℕ → ℕ → BindAttempt

pub record System : Type 0 where
  pub join : FilePath → Text → FilePath
  pub resolve : FilePath → FilePath
  pub exists : FilePath → Bool
  pub is_file : FilePath → Bool
  pub is_dir : FilePath → Bool
  pub unlink : FilePath → Attempt
  pub rename : FilePath → FilePath → Attempt
  pub mkdir : FilePath → MkdirAttempt
  pub rmdir : FilePath → RmdirAttempt
  pub rmdir_writable : FilePath → RmdirAttempt
  pub on_windows : Bool
  pub read_bytes : FilePath → Option (List ℕ)
  pub iterdir : FilePath → Option (List Text)
  pub sorted_iterdir : FilePath → Option (List Text)
  pub format_list_entry : FilePath → Option Text
  pub size_text : FilePath → Option Text
  pub modified_text : FilePath → Option Text
  pub sha256 : FilePath → Option Text
  pub unique_filename : Text
  pub utf8_encode : Text → List ℕ
  pub decimal : ℕ → Text
  pub int : Text → Option Integer
  pub open_udp : BindAttempt
  pub new_thread : ℕ
  pub thread_alive : Bool
  pub platform : Platform
  pub now : ℕ
  pub users : List (Text × Option Text)
