-- ===== src/DumpNode/Main.antt =====
-- `main` of done/pps-dump-node.c around its loop, for a program that is given its two arguments. Given are
-- what `socket` gives, whether `setsockopt` fails, and whether `sendto` gives -1.
use distributed_hash_table.Base.{
  ℕ, ◌-◌, ◌%◌, ◌^◌, Bool, List, Option, none, some, Run, Memory, ok, ◌>>=◌, if◌then◌else◌, wild,
}
use distributed_hash_table.Error.{err_none}
use distributed_hash_table.CString.{Bytes}
use distributed_hash_table.Scan.{pos, negsuc, scan_int}
use distributed_hash_table.System.{Platform, get_socket}
use distributed_hash_table.Node.{Node, node_init, node_end}
use distributed_hash_table.DumpNode.{Ending, printed, failed, read_dump}

-- `sscanf` with "%hu", of 16 bits.
unfoldable pub scan_port : Bytes → Option ℕ
scan_port arg = elim (scan_int arg) [
  | some (pos k) ↦ some (k % 2 ^ 16)
  | some (negsuc k) ↦ some (2 ^ 16 - 1 - k % 2 ^ 16)
  | none ↦ none
]

-- How `main` ends: without a socket, with FAIL before anything is sent, or after the one byte NUL was sent
-- to a node.
pub data Exit : Type 0 where
  no_socket no_node : Exit
  asked : Node → Ending → Exit

-- The end of a run that prints the pairs: the node is ended.
unfoldable pub finish : Node → Ending → Run Exit
finish node (printed pairs) = node_end node >>= λ _. ok (asked node (printed pairs))
finish node failed = node_end node >>= λ _. ok (asked node failed)
finish node ending = ok (asked node ending)

module _ (platform : Platform) where
  -- From the initialised node on.
  unfoldable pub ask_node : Node → Bool → ℕ → List (Option Bytes) → Memory → Run (Exit × Memory)
  ask_node node unsent cleared replies m =
      let go = read_dump cleared replies m >>= λ (ending, m').
      finish node ending >>= λ exit. ok (exit, m') in
      if unsent then ok (no_node, m) else go

  unfoldable pub dump_node :
      Option ℕ
      → Bool
      → Bytes
      → Bytes
      → Bool
      → ℕ
      → List (Option Bytes)
      → Memory
      → Run (Exit × Memory)
  dump_node socket refusal ip port unsent cleared replies m = elim (get_socket socket 1 refusal) [
    | none ↦ ok (no_socket, m)
    | some fd ↦ elim (scan_port port) [
      | none ↦ ok (no_node, m)
      | some number ↦
          node_init platform (record { address = wild; sha = wild }) ip number 0 m
          >>= λ (node, e, m'). elim e [
            | err_none ↦ ask_node node unsent cleared replies m'
            | _ ↦ ok (no_node, m')
          ]
    ]
  ]
