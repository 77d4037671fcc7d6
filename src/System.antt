-- ===== src/System.antt =====
-- done/system.c, and what the program takes from outside its source: `inet_pton` of the C library and
-- `SHA1` of OpenSSL, as functions that the model is given, and the sockets' own calls, as their
-- results.
use distributed_hash_table.Base.{ℕ, ◌/◌, ◌%◌, Bool, [], ◌∷◌, Option, none, some, ltb, if◌then◌else◌}
use distributed_hash_table.Error.{ErrorCode, err_none, err_bad_parameter, err_network}
use distributed_hash_table.CString.{Bytes, CharPointer}

-- The functions from outside.
pub record Platform : Type 0 where
  pub sha1 : Bytes → Bytes
  pub inet_pton : Bytes → Option Bytes

-- `struct sockaddr_in`: the bytes of the address and of the port, in network order.
pub record SocketAddress : Type 0 where
  pub sin_addr : Bytes
  pub sin_port : Bytes

-- `htons` of a `uint16_t`, as bytes.
abbrev pub htons : ℕ → Bytes
htons port = (port / 256 % 256) ∷ (port % 256) ∷ []

-- `get_socket`: `none` stands for -1. Given are the result of `socket`, the timeout, and whether
-- `setsockopt` fails.
unfoldable pub get_socket : Option ℕ → ℕ → Bool → Option ℕ
get_socket none timeout refused = none
get_socket (some fd) timeout refused =
    if ltb 0 timeout then (if refused then none else some fd) else some fd

module _ (platform : Platform) where
  -- `get_server_addr` with a place for the address; the address is written only with ERR_NONE.
  unfoldable pub get_server_addr : CharPointer → ℕ → Option SocketAddress × ErrorCode
  get_server_addr none port = (none, err_bad_parameter)
  get_server_addr (some ip) port = elim (platform.inet_pton ip) [
    | some a ↦ (some (record { sin_addr = a; sin_port = htons port }), err_none)
    | none ↦ (none, err_network)
  ]

  -- `bind_server`, given whether `bind` fails at an address.
  unfoldable pub bind_server : (SocketAddress → Bool) → CharPointer → ℕ → ErrorCode
  bind_server refused ip port =
      let (place, e) = get_server_addr ip port in
      elim place [ some a ↦ if refused a then err_network else err_none | none ↦ e ]
