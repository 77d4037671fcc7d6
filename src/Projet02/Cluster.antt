-- ===== src/Projet02/Cluster.antt =====
-- The client and the servers of week 10 together: provided/grading/projet02/network.c and
-- pps-launch-server.c. A `Way` says what becomes of a message and of its answer.
pub mod Put
pub mod Get
pub mod Fresh
use distributed_hash_table.Base.{
  Bool, List, [], ◌∷◌, Option, none, some, length, if◌then◌else◌, Run, ok, ◌>>=◌,
}
use distributed_hash_table.CString.{Bytes}
use distributed_hash_table.Hashtable.{Htable}
use distributed_hash_table.System.{SocketAddress}
use distributed_hash_table.Projet02.Network.{Exchange}
use distributed_hash_table.Projet02.Server.{server_step}

pub record Way : Type 0 where
  pub reached : Bool
  pub returned : Bool

-- The datagram that comes back.
unfoldable pub returning : SocketAddress → Way → List Bytes → Option (Bytes × SocketAddress)
returning node way [] = none
returning node way (answer ∷ sent) = if way.returned then some (answer, node) else none

-- A message for the server at a node, with enough memory there: its table, and the exchange as the client
-- sees it.
unfoldable pub deliver : Htable → SocketAddress → Bytes → Way → Run (Htable × Exchange)
deliver t node msg way =
    let heard = server_step t (some msg) [] >>= λ (t', sent, m).
    ok (t', record { sent = some (length msg); received = returning node way sent }) in
    if way.reached then heard else ok (t, record { sent = some (length msg); received = none })

-- The message for each server, in order.
unfoldable pub deliver_all :
    List Htable → List SocketAddress → List Way → Bytes → Run (List Htable × List Exchange)
deliver_all (t ∷ ts) (node ∷ nodes) (way ∷ ways) msg = deliver t node msg way >>= λ (t', e).
    deliver_all ts nodes ways msg >>= λ (ts', es). ok (t' ∷ ts', e ∷ es)
deliver_all _ _ _ msg = ok ([], [])
