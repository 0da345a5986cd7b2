-- ===== src/Server/Dispatch/Gate.antt =====
-- What a client can do before it has logged in, and while a transfer runs.
use computer_network_socket.Base.{◌≡◌, ◌⊎◌, Bool, ◌||◌, Option, none, some, List, All, ℕ}
use computer_network_socket.Base.Text.{Text}
use computer_network_socket.Server.Session.{ClientSession}
use computer_network_socket.Server.System.{System}
use computer_network_socket.Server.Outcome.{Outcome, ServerEffect, closes}
use computer_network_socket.Server.Dispatch.{Command, allowed_before_login, allowed_during_transfer}

-- The effect closes the data socket or the passive socket that the session has, and does nothing else to the system.
abbrev pub IsClosing : Option ℕ → Option ℕ → ServerEffect → Type 0
IsClosing current passive (closes k) = (current ≡ some k) ⊎ (passive ≡ some k)
IsClosing current passive e = ⊥

abbrev pub Closing : ClientSession → Outcome → Type 0
Closing s o = All (IsClosing s.current_data_socket s.passive_udp_socket) o.effects

-- Nothing is set that was not set before.
abbrev pub Dropped : {A : Type 0} → Option A → Option A → Type 0
Dropped before after = (after ≡ before) ⊎ (after ≡ none)

-- The session keeps its TYPE, its MODE and its directory, and keeps or drops the data connection of PORT or PASV and
-- the path of RNFR.
abbrev pub Keeps : ClientSession → ClientSession → Type 0
Keeps s t =
    (t.transfer_type ≡ s.transfer_type)
    × (t.transfer_mode ≡ s.transfer_mode)
    × (t.current_directory ≡ s.current_directory)
    × Dropped s.data_connection_mode t.data_connection_mode
    × Dropped s.active_udp_address t.active_udp_address
    × Dropped s.passive_udp_socket t.passive_udp_socket
    × Dropped s.pending_rename_path t.pending_rename_path

abbrev pub Quiet : ClientSession → Outcome → Type 0
Quiet s o = Closing s o × Keeps s o.session

-- The sockets are the session's.
abbrev Own : ClientSession → List ℕ → Type 0
Own s ks = All (λ k. (s.current_data_socket ≡ some k) ⊎ (s.passive_udp_socket ≡ some k)) ks

-- The commands of both lists: those before login, and those during a transfer.
abbrev pub is_quiet : Command → Bool
is_quiet c = allowed_before_login c || allowed_during_transfer (some c)
