-- ===== src/Lib.antt =====
-- A model of the distributed hash table: servers that store pairs of strings and answer over UDP,
-- and a client that reads and writes each key at several servers chosen on a ring.
--
-- The program's parts and their files:
-- - Error: done/error.h and done/error.c.
-- - CString: the string functions of the C library, and done/util.c (`strdup`, `argv_size`).
-- - Scan, Args: `parse_opt_args` of done/args.c. Args/Bounds is about what it gives.
-- - Hashtable: done/hashtable.c, in which `hash_function`, `add_Htable_value`, `get_Htable_value`,
--   `construct_Htable` and `get_Htable_content` have their names in lower case. Hashtable/Chain and
--   Hashtable/Table are about adding and looking up, Hashtable/Construct about a new table,
--   Hashtable/Update has what clients use of them, and Hashtable/Content is about the list of
--   pairs.
-- - Heap: malloc, realloc and free on blocks, and `strdup` and `free_const_ptr` of done/util.c and
--   done/util.h with them.
-- - Hashtable/Blocks, Hashtable/Blocks/Content: done/hashtable.c once more, with the blocks that its
--   functions allocate and free, `kv_pair_free`, `free_bucket`, `delete_Htable_and_content` and
--   `kv_list_free` included. Hashtable/Blocks/Owned says which blocks a table owns and forgets the
--   addresses; Store, Add and Write beside it are about adding, Read about looking up and a new
--   table, Free about the deletion, PairLists, Appended and Listed about the list of pairs.
-- - System, Node, NodeList: done/system.c, done/node.c and done/node_list.c. NodeList/Nodes is
--   about the nodes of the file of servers.
-- - Ring: done/ring.c. Ring/Servers describes a ring by the servers' addresses and digests,
--   Ring/Index is about the first node of a key, Ring/Walk, Ring/Count and Ring/Select about a lap
--   around the ring, and Ring/Endless about a ring that is too small.
-- - Network: `increment_and_get`, `network_get` and `network_put` of done/network.c. Network/Quorum
--   and Network/Winner count the replies, Network/Get and Network/Put are about the two operations,
--   and Network/Overflow about the counter.
-- - Server: the loop of done/pps-launch-server.c, and Server/Main the rest of its `main`.
--   Server/Protocol is about the form of the messages and Server/Trace about sequences of requests;
--   Server/Answers is about arbitrary datagrams and Server/DumpOverflow about a pair too large for
--   a dump. Server/Blocks is the loop with the blocks that each round allocates and frees;
--   Server/Blocks/Dumped and Server/Blocks/Handled are about one round, and Server/Blocks/Served
--   about the loop from the table that `main` constructs on; it has no exit, so that the
--   `delete_Htable_and_content` behind it is never reached.
-- - DumpNode: how done/pps-dump-node.c reads the answer to a dump. DumpNode/Items, DumpNode/Sends
--   and DumpNode/Reads are about the bytes of one datagram, DumpNode/Later and DumpNode/Datagrams
--   about all of them, and DumpNode/RoundTrip about server and client together. DumpNode/Main is
--   `main`.
-- - Cluster: clients and the servers of a key together; Cluster/Deliver is about one message that
--   several servers hear, Cluster/PutGet about a put and a get; Cluster/Lossy, Cluster/Overlap and
--   Cluster/Fresh are about a network that loses and reorders messages.
-- - Startup: `client_init` of done/client.c, and Startup/Admits what a client that starts has.
-- - Programs: done/pps-client-get.c, pps-client-put.c, pps-client-cat.c, pps-client-find.c and
--   pps-client-substr.c behind `client_init`, with Programs/Cat, Programs/Find and Programs/Substr
--   about the last three. Programs/Main is `main` of each, from the command line, and
--   Programs/PutGet is about a run of pps-client-put and then of pps-client-get.
-- - TestServers: done/test-servers.c; TestServers/Runs is about its puts, TestServers/Stops about
--   when it ends, and TestServers/Durations about the times that it prints.
-- - ListNodes: done/pps-list-nodes.c; ListNodes/Answering says which servers it lists as answering.
-- - Projet02: the version of week 10, in provided/grading/projet02, which has no ring.
--   Projet02/Args, Projet02/NodeList and Projet02/Client are its args.c, node.c and node_list.c,
--   and client.c (Projet02/Client/Admits is about what a client has), Projet02/Network is its
--   network.c, Projet02/Server, Projet02/DumpNode and Projet02/ListNodes its pps-launch-server.c,
--   pps-dump-node.c and pps-list-nodes.c. Projet02/Network/Senders is about whose answers count,
--   Projet02/Network/Quorum, Projet02/Network/Get and Projet02/Network/Put about the two
--   operations; Projet02/Network/Compare and Projet02/Server/Same compare with done/;
--   Projet02/DumpNode/Count and Projet02/DumpNode/RoundTrip are about a dump. Projet02/Cluster has
--   client and servers together; Projet02/Cluster/Put and Projet02/Cluster/Get are about one
--   message to all servers, Projet02/Cluster/Fresh about a put and a later get. Projet02/Hashtable
--   is `get_Htable_content` of its hashtable.c with its blocks; Projet02/Hashtable/Twice and
--   Projet02/Hashtable/DoubleFree compare it with done/ and with Projet02/Server.
-- - Projet01: the version of week 7, in provided/grading/projet01. Projet01/NodeList is its
--   custom_util.c and `get_nodes` of its node_list.c (Projet01/NodeList/Reads is about a file that
--   is read, Projet01/NodeList/BadPort about a port out of range), Projet01/Client, Projet01/Network and Projet01/Server are its client.c, network.c
--   and pps-launch-server.c, and Projet01/Programs its pps-client-get.c and pps-client-put.c.
--   Projet01/Network/First is about a get, and Projet01/Server/Same about sequences of requests.
--   Projet01/Hashtable is the get and the deletion of its hashtable.c, with their blocks.
-- - Base has the shared types and lemmas, Tests the examples.
--
-- How the model stands to the code. A function that may run into undefined behaviour answers in
-- `Run`, with the fault as a value. Each allocation takes the next element of a `Memory`, a list
-- of Booleans: false is a failure, and behind the end of the list every allocation succeeds. A
-- pointer to an object that the code frees is a `Pointer`, which tells a NULL, a wild and a freed
-- pointer from a live one. Hashtable leaves out the calls of `free`; in Hashtable/Blocks and
-- Server/Blocks a `Heap` lists the blocks that are allocated, each with an address that is given
-- out once, a `free` of any other block is a fault, and each structure holds the addresses that
-- it owns. The two models are tied by forgetting the addresses. Sizes are natural numbers; the
-- arithmetic of `hash_function` is modulo 2 ^ 64, and the counter of `increment_and_get` is a
-- signed `char`. What comes from the network is given as a list of the results of `recv`, and
-- what is sent is a part of the result.
--
-- Bounds and fuel. The loop of `ring_get_nodes_for_key` runs on fuel, since it need not end; as
-- many passes as the ring has nodes are enough when the ring has enough distinct addresses. The
-- loop that reads a datagram of a dump runs on one more than the bytes of its buffer, and each pass
-- takes at least two.
--
-- Not modelled: debugging output, the system calls themselves (`inet_pton`, `inet_ntop`, `SHA1` and
-- `qsort` are parameters, the results of the socket calls are given), the unit tests,
-- done/test-parser.c, which computes in floating point, done/log-packets.c, and the other copies
-- under provided/.
mod Base
pub mod Error
pub mod CString
pub mod Scan
pub mod Args
pub mod Heap
pub mod Hashtable
pub mod System
pub mod Node
pub mod NodeList
pub mod Network
pub mod Server
pub mod DumpNode
pub mod ListNodes
pub mod Cluster
pub mod Projet02
pub mod Projet01
pub mod Startup
pub mod Programs
pub mod TestServers
mod Tests
pub mod Ring
