-- ===== src/Client/Dispatch/InStep/Ending.antt =====
-- A worker that ends leaves the client in step, unless the connection has closed.
use computer_network_socket.Base.{ℕ, suc, ◌+◌, ◌≡◌, Bool, [], length, ◌⊎◌, if◌then◌else◌}
use computer_network_socket.Base.Text.{Text}
use computer_network_socket.Client.Control.{Client, Result, returned, raised}

-- What holds of the client when a value is returned, and what when an exception is raised.
abbrev pub Ends : {A : Type 0} → (Client → Type 0) → (Client → Type 0) → Result A → Type 0
Ends P Q (returned a c) = P c
Ends P Q (raised c) = Q c

module _ (finals : ℕ) where
  -- But for `owed` replies, one was read for each command, and one for each transfer that ended with a final reply,
  -- the last one included or not.
  abbrev pub Settled : ℕ → Client → Type 0
  Settled owed c =
      (length c.sent + finals ≡ c.reads + owed) ⊎ (length c.sent + suc finals ≡ c.reads + owed)

  -- At most one reply is left unread.
  abbrev pub Behind : Client → Type 0
  Behind c = Settled 0 c ⊎ Settled 1 c

  -- The connection has closed, with at most one reply left unread.
  abbrev Closed : Client → Type 0
  Closed c = (c.replies ≡ []) × Behind c

  -- No reply is left unread, unless the connection has closed: then at most one is.
  abbrev pub InOrder : Client → Type 0
  InOrder c = Settled 0 c ⊎ ((c.replies ≡ []) × Settled 1 c)

  -- Once the final reply is read, that of the ABOR is owed, if one was sent and this was not its reply.
  abbrev Owes : Bool → Client → Type 0
  Owes aborting c = suc (length c.sent + finals) ≡ c.reads + (if aborting then 1 else 0)
