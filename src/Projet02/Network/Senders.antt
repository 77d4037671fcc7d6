-- ===== src/Projet02/Network/Senders.antt =====
-- Whom `same_sockaddr` of provided/grading/projet02/network.c takes for the server that was asked.
use distributed_hash_table.Base.{
  ℕ, zero, suc, ◌≡◌, refl, ◌↔◌, true, [], ◌∷◌, arith, Bool-cases, inl, inr,
}
use distributed_hash_table.CString.{Bytes, strncmp, is_eq, str_eq}
use distributed_hash_table.CString.Laws.{str_eq_iff}
use distributed_hash_table.System.{SocketAddress}
use distributed_hash_table.Projet02.Network.{sockaddr_size, same_sockaddr}

strncmp_refl : (n : ℕ) (s : Bytes) → is_eq (strncmp n s s) ≡ true
unfolding strncmp
strncmp_refl zero s = refl
strncmp_refl (suc n) [] = refl
strncmp_refl (suc n) (c ∷ s) = ground (arith, strncmp_refl n s)

module _ (inet_ntop : Bytes → Bytes) where
  same_sockaddr_port :
      (a b : SocketAddress) → same_sockaddr inet_ntop a b ≡ str_eq a.sin_port b.sin_port
  unfolding same_sockaddr
  same_sockaddr_port a b = elim (Bool-cases (str_eq a.sin_port b.sin_port)) [
    | inl same ↦
        let port = (str_eq_iff a.sin_port b.sin_port).0 same in
        rw (same, port) (strncmp_refl sockaddr_size (inet_ntop (2 ∷ 0 ∷ b.sin_port)))
    | inr differ ↦ rw differ refl
  ]

  -- `same_sockaddr` answers 1 exactly if the ports are the same, whatever the IP addresses are.
  pub same_sockaddr-sin_port :
      (a b : SocketAddress) → (same_sockaddr inet_ntop a b ≡ true) ↔ (a.sin_port ≡ b.sin_port)
  same_sockaddr-sin_port a b = rw (same_sockaddr_port a b) (str_eq_iff a.sin_port b.sin_port)
