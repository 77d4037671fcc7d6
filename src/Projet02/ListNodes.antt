-- ===== src/Projet02/ListNodes.antt =====
-- provided/grading/projet02/pps-list-nodes.c: each server is asked in turn, and any datagram that comes is
-- taken for its answer. `lines` is what `fgets` reads of the file of servers, each line with its
-- newline; `answers` says of each call of `recv` whether it gives 0.
use distributed_hash_table.Base.{
  ℕ, Bool, false, List, [], ◌∷◌, Option, none, some, Memory, Run, ok, fault, null_pointer,
  out_of_bounds, ltb, ◌==◌, if◌then◌else◌, length, ◌>>=◌,
}
use distributed_hash_table.CString.{Bytes}
use distributed_hash_table.System.{Platform, SocketAddress}
use distributed_hash_table.Projet02.NodeList.{ServerLine}
use distributed_hash_table.Projet02.Client.{refused, started, client_init}

-- `line[strcspn(line, "\n")] = '\0'`: the line up to its newline.
unfoldable pub chomp : Bytes → Bytes
chomp [] = []
chomp (c ∷ s) = let rest = c ∷ chomp s in if c == 10 then [] else rest

-- One line of the output: the line of the file, the node asked, and whether it is OK.
pub record Report : Type 0 where
  pub line : Bytes
  pub node : SocketAddress
  pub answered : Bool

-- The result of the next `recv`; past the end it fails.
abbrev pub next_answer : List Bool → Bool × List Bool
next_answer [] = (false, [])
next_answer (b ∷ answers) = (b, answers)

-- The `while` loop over the lines; a line of one character ends it.
unfoldable pub list_loop : List Bytes → List SocketAddress → List Bool → Run (List Report)
list_loop [] nodes answers = ok []
list_loop (line ∷ lines) nodes answers =
    let asked : Run (List Report) = elim nodes [
      | [] ↦ fault out_of_bounds
      | node ∷ nodes' ↦
          let (answered, answers') = next_answer answers in
          list_loop lines nodes' answers' >>= λ rest.
          ok (record { line = chomp line; node = node; answered = answered } ∷ rest)
    ] in
    if ltb 1 (length line) then asked else ok []

module _ (platform : Platform) where
  -- `main`: `none` where it returns 1. Without the file, `fclose` is given NULL.
  unfoldable pub list_nodes :
      Option (List ServerLine)
      → Option ℕ
      → Bool
      → Bytes
      → List Bytes
      → Option (List Bytes)
      → List Bool
      → Memory
      → Run (Option (List Report) × Memory)
  list_nodes file socket refusal name argv lines answers m =
      client_init platform file socket refusal 0 0 name argv m >>= λ (client, m'). elim client [
        | refused code ↦ ok (none, m')
        | started c _ ↦ elim lines [
          | none ↦ fault null_pointer
          | some ls ↦ list_loop ls c.nodes answers >>= λ reports. ok (some reports, m')
        ]
      ]
