-- ===== src/Projet01.antt =====
-- The version of the program that was graded after week 7, in provided/grading/projet01: a client asks
-- every server of the file, a get takes the first value that comes, and a put wants every answer.
pub mod NodeList
pub mod Hashtable
pub mod Client
pub mod Network
pub mod Server
pub mod Programs
