-- ===== src/Projet02.antt =====
-- The version of the program that was graded after week 10, in provided/grading/projet02: there is no
-- ring, a node is an address, and every key is stored at the first N servers of the file. Its
-- hashtable.c, system.c and util.c do what those of done/ do, up to what the files below say, and the
-- models of those are used.
pub mod Args
pub mod NodeList
pub mod Client
pub mod Hashtable
pub mod Network
pub mod Server
pub mod DumpNode
pub mod ListNodes
pub mod Cluster
