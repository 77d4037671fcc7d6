-- ===== src/Projet01/Client.antt =====
-- provided/grading/projet01/client.c.
use distributed_hash_table.Base.{ℕ, Bool, List, Option, none, some, Memory, Run, ok, ◌>>=◌}
use distributed_hash_table.Error.{ErrorCode, err_network}
use distributed_hash_table.CString.{Bytes}
use distributed_hash_table.System.{Platform, SocketAddress, get_socket}
use distributed_hash_table.Projet01.NodeList.{FileLine, get_nodes}

-- `client_t`.
pub record Client : Type 0 where
  pub name : Bytes
  pub nodes : List SocketAddress
  pub socket : ℕ

-- How `client_init` ends.
pub data Started : Type 0 where
  refused : ErrorCode → Started
  started : Client → Started

module _ (platform : Platform) where
  -- `client_init`: what the call of `socket` gives, and whether `setsockopt` fails.
  unfoldable pub client_init :
      Option (List FileLine) → Option ℕ → Bool → Bytes → Memory → Run (Started × Memory)
  client_init file socket refusal name m = get_nodes platform file m >>= λ (list, m'). elim list [
    | none ↦ ok (refused err_network, m')
    | some nodes ↦ elim (get_socket socket 1 refusal) [
      | none ↦ ok (refused err_network, m')
      | some fd ↦ ok (started (record { name = name; nodes = nodes; socket = fd }), m')
    ]
  ]
