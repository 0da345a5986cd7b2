-- ===== src/Client/Dispatch/InStep.antt =====
-- The client reads one reply for each command that it sends, so that it never takes a reply for another command's.
pub mod Single
pub mod Transfers
pub mod Command
pub mod Ending
use computer_network_socket.Base.{
  ℕ, suc, ◌+◌, ◌≡◌, refl, sym, ap, ◌∙◌, Bool, true, false, not, ◌||◌, Option, none, some, List, [],
  ◌∷◌, ◌++◌, length, take, leb, ◌&&◌, ◌⊎◌, inl, inr, Bool-cases, Option-cases, if◌then◌else◌, arith,
  length-append,
}
use computer_network_socket.Base.Text.{Text, text, is_empty, upper}
use computer_network_socket.Base.Cases.{if-lem, if-split, option-lem, list-lem}
use computer_network_socket.Shared.Address.{Address}
use computer_network_socket.Server.Session.{DataMode, active, passive}
use computer_network_socket.Server.System.{BindAttempt, no_socket, bind_fails, bound}
use computer_network_socket.Server.Dispatch.{parse_command}
use computer_network_socket.Client.Connection.{parse_reply, opens_block}
use computer_network_socket.Client.Context.{
  ClientContext, TransferPhase, data_phase, ensure_data_socket, reset_data_connection,
  start_transfer, request_transfer_abort, transfer_in_progress,
}
use computer_network_socket.Client.Control.{
  Client, Result, returned, raised, ◌>>=◌, send_command, read_reply_line, read_block,
  send_and_print, with_context, drop_data_connection, open_data_socket, Task, after_block,
}
use computer_network_socket.Client.Handlers.Simple
use computer_network_socket.Client.Handlers.Patterns.{search_udp_port}
use computer_network_socket.Client.Handlers.Setup
use computer_network_socket.Client.Handlers.Transfer
use computer_network_socket.Client.Handlers.Transfer.{Host}
use computer_network_socket.Client.Dispatch.{
  route, handle_idle, handle_command, before_login, is_abor,
}

-- What holds of the client if nothing is raised.
abbrev pub After : {A : Type 0} → (Client → Type 0) → Result A → Type 0
After P (returned a c) = P c
After P (raised c) = Unit {0}

pub bind-After :
    {A B : Type 0} (P Q : Client → Type 0) (r : Result A) (f : A → Client → Result B)
    → After P r
    → ((a : A) (c : Client) → P c → After Q (f a c))
    → After Q (r >>= f)
bind-After P Q (returned a c) f h k = k a c h
bind-After P Q (raised c) f h k = tt

module _ (finals : ℕ) where
  -- No transfer runs, and `owed` replies are still to be read: each command has one, and each worker has read one
  -- more where it ended with a final reply.
  pub record Idle (owed reads sent : ℕ) (phase : Option TransferPhase) (worker : Option Task)
      : Type 0 where
    pub balance : sent + finals ≡ reads + owed
    pub no_phase : phase ≡ none
    pub no_worker : worker ≡ none

  -- A transfer runs, and the reply of its ABOR, if there was one, is still to be read.
  pub record Busy (reads sent : ℕ) (aborting : Bool) (phase : Option TransferPhase) : Type 0 where
    pub balance : sent + finals ≡ reads + (if aborting then 1 else 0)
    pub in_phase : phase ≡ some data_phase

  abbrev pub IdleClient : ℕ → Client → Type 0
  IdleClient owed c = Idle owed c.reads (length c.sent) c.context.transfer_phase c.worker

  abbrev pub BusyClient : Client → Type 0
  BusyClient c = Busy c.reads (length c.sent) c.context.abort_requested c.context.transfer_phase

  abbrev pub InStep : Client → Type 0
  InStep c = IdleClient 0 c ⊎ BusyClient c

  pub send_command-Idle :
      (works : ℕ → Bool) (t : Text) (c : Client)
      → IdleClient 0 c
      → After (IdleClient 1) (send_command works t c)
  unfolding send_command
  send_command-Idle works t c h =
      if-lem (After (IdleClient 1)) (works (length c.sent))
        (record {
          balance = omega (arith, length-append c.sent (t ∷ []), h.balance);
          no_phase = h.no_phase;
          no_worker = h.no_worker;
        })
        tt

  pub read_reply_line-Idle :
      (c : Client) → IdleClient 1 c → After (IdleClient 0) (read_reply_line c)
  unfolding read_reply_line
  read_reply_line-Idle c h = list-lem (After (IdleClient 0)) c.replies tt (λ reply later. record {
    balance = omega (arith, h.balance);
    no_phase = h.no_phase;
    no_worker = h.no_worker;
  })

  pub send_and_print-Idle :
      (works : ℕ → Bool) (t : Text) (c : Client)
      → IdleClient 0 c
      → After (IdleClient 0) (send_and_print works t c)
  unfolding send_and_print
  send_and_print-Idle works t c h =
      bind-After (IdleClient 1) (IdleClient 0) (send_command works t c) _
        (send_command-Idle works t c h)
        (λ u c₁ h₁.
          bind-After (IdleClient 0) (IdleClient 0) (read_reply_line c₁) _
            (read_reply_line-Idle c₁ h₁) (λ response c₂ h₂. h₂))

  pub drop_data_connection-Idle :
      (c : Client) → IdleClient 0 c → IdleClient 0 (drop_data_connection c)
  unfolding drop_data_connection reset_data_connection
  drop_data_connection-Idle c h = h

  pub open_data_socket-Idle :
      (a : BindAttempt) (c : Client) → IdleClient 0 c → IdleClient 0 (open_data_socket a c).1
  unfolding open_data_socket ensure_data_socket
  open_data_socket-Idle a c h =
      option-lem {B = Option (ℕ × ℕ) × ClientContext × List ℕ}
        (λ r. Idle 0 c.reads (length c.sent) r.1.transfer_phase c.worker) c.context.data_socket
        (attempted a) (λ known. h)
    where
      attempted :
          (b : BindAttempt)
          → Idle 0 c.reads
              (length c.sent)
              (elim b as (λ b'. Option (ℕ × ℕ) × ClientContext × List ℕ) [
                | no_socket ↦ (none, c.context, [])
                | bind_fails socket ↦ (none, c.context, socket ∷ [])
                | bound socket port ↦ (
                  some (socket, port),
                  record c.context { data_socket = some (socket, port) },
                  [],
                )
              ]).1.transfer_phase
              c.worker
      attempted no_socket = h
      attempted (bind_fails socket) = h
      attempted (bound socket port) = h

  pub idle : (r : Result Bool) → After (IdleClient 0) r → After InStep r
  idle (returned goes_on c) h = inl h
  idle (raised c) h = tt
