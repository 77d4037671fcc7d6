-- ===== src/Projet02/Client.antt =====
-- provided/grading/projet02/client.c. `file` is what `get_nodes` finds, `socket` what the call of
-- `socket` gives, and `refused` whether `setsockopt` fails.
pub mod Admits
use distributed_hash_table.Base.{
  ℕ, Bool, List, Option, none, some, length, ltb, if◌then◌else◌, Memory, Run, ok, ◌>>=◌,
}
use Prim.Native.Nat.{min}
use distributed_hash_table.Error.{ErrorCode, err_bad_parameter, err_network}
use distributed_hash_table.CString.{Bytes, argv_size}
use distributed_hash_table.Args.{Args}
use distributed_hash_table.System.{Platform, SocketAddress, get_socket}
use distributed_hash_table.Startup.{wrong_count, too_few}
use distributed_hash_table.Projet02.Args.{parse_opt_args}
use distributed_hash_table.Projet02.NodeList.{ServerLine, get_nodes}

-- `client_t`.
pub record Client : Type 0 where
  pub name : Bytes
  pub nodes : List SocketAddress
  pub args : Args
  pub socket : ℕ

-- How `client_init` ends: the code of a failure, or the client and the arguments left.
pub data Started : Type 0 where
  refused : ErrorCode → Started
  started : Client → List Bytes → Started

-- The three assignments with `min`.
unfoldable pub clamped : Args → ℕ → Args
clamped a size = let n = min a.n size in record { n = n; r = min a.r n; w = min a.w n }

module _ (platform : Platform) where
  -- From the call of `get_nodes` on.
  unfoldable pub client_nodes :
      Bytes
      → Option (List ServerLine)
      → Option ℕ
      → Bool
      → Args
      → List Bytes
      → Memory
      → Started × Memory
  client_nodes name file socket refusal a rest m =
      let (list, m') = get_nodes platform file m in
      elim list [
        | none ↦ (refused err_network, m')
        | some nodes ↦ elim (get_socket socket 1 refusal) [
          | none ↦ (refused err_network, m')
          | some fd ↦ (
            started
                (record {
                  name = name;
                  nodes = nodes;
                  args = clamped a (length nodes);
                  socket = fd;
                })
                rest,
            m',
          )
        ]
      ]

  -- `client_init`: `args_req` and `args_kind` of its argument, with `argc - 1` the length of `argv`.
  unfoldable pub client_init :
      Option (List ServerLine)
      → Option ℕ
      → Bool
      → ℕ
      → ℕ
      → Bytes
      → List Bytes
      → Memory
      → Run (Started × Memory)
  client_init file socket refusal args_req args_kind name argv m =
      let go = parse_opt_args args_kind argv m >>= λ (parsed, m'). elim parsed [
        | none ↦ ok (refused err_bad_parameter, m')
        | some (a, rest) ↦
            if wrong_count args_req (argv_size rest)
            then ok (refused err_bad_parameter, m')
            else ok (client_nodes name file socket refusal a rest m')
      ] in
      if too_few args_req (length argv) then ok (refused err_bad_parameter, m) else go
