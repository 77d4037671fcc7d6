-- ===== src/Projet01/Programs.antt =====
-- provided/grading/projet01/pps-client-get.c and pps-client-put.c: the loops over what is typed. What
-- `scanf` reads is given with what the network does during the operation, up to the round in
-- which the input ends.
use distributed_hash_table.Base.{
  List, [], ◌∷◌, none, some, length, ltb, if◌then◌else◌, Memory, Run, ok, fault, out_of_bounds,
  ◌>>=◌,
}
use distributed_hash_table.Error.{ErrorCode, err_none}
use distributed_hash_table.CString.{Bytes, CharPointer}
use distributed_hash_table.System.{Platform}
use distributed_hash_table.Network.{max_msg_size}
use distributed_hash_table.Projet01.Client.{Client}
use distributed_hash_table.Projet01.Network.{Exchange, starts_with_nul, network_get, network_put}

-- A line of the output: "OK", with the value of a get, or "FAIL".
pub data Line : Type 0 where
  ok_line : Bytes → Line
  fail_line : Line

-- What is printed after a get.
unfoldable pub get_line : ErrorCode → CharPointer → Line
get_line err_none (some v) = if starts_with_nul v then fail_line else ok_line v
get_line code value = fail_line

-- The loop of pps-client-get; a word and its NUL must fit the array `key`.
unfoldable pub client_get :
    Client → List (Bytes × List Exchange) → Memory → Run (List Line × Memory)
client_get client [] m = ok ([], m)
client_get client ((key, exchanges) ∷ later) m =
    let go = network_get client (some key) none exchanges m >>= λ (code, value, sent, m').
    client_get client later m' >>= λ (lines, m''). ok (get_line code value ∷ lines, m'') in
    if ltb max_msg_size (length key) then fault out_of_bounds else go

-- What is printed after a put.
unfoldable pub put_line : ErrorCode → Line
put_line err_none = ok_line []
put_line code = fail_line

-- The loop of pps-client-put.
unfoldable pub client_put :
    Platform → Client → List (Bytes × Bytes × List Exchange) → Memory → Run (List Line × Memory)
client_put platform client [] m = ok ([], m)
client_put platform client ((key, value, exchanges) ∷ later) m =
    let go = network_put platform client (some key) (some value) exchanges m >>= λ (code, sent, m').
    client_put platform client later m' >>= λ (lines, m''). ok (put_line code ∷ lines, m'') in
    if ltb max_msg_size (length key)
    then fault out_of_bounds
    else if ltb max_msg_size (length value)
    then fault out_of_bounds
    else go
