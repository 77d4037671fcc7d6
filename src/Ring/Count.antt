-- ===== src/Ring/Count.antt =====
-- The number of distinct servers does not depend on where a lap begins.
use distributed_hash_table.Base.{
  ℕ, ◌+◌, ◌≤◌, ◌≡◌, refl, true, false, List, [], ◌∷◌, ◌++◌, length, if◌then◌else◌, arith, take,
  drop, take-append-drop,
}
use distributed_hash_table.Ring.Servers.{Server, same_server, same_server_iff, member}
use distributed_hash_table.Ring.Walk.{
  lap, distinct, keep_new, all_distinct, member-snoc, keep_new-all_distinct,
}

member-append :
    (xs ys : List Server) (s : Server)
    → member (xs ++ ys) s ≡ (if member xs s then true else member ys s)
unfolding member
member-append [] ys s = refl
member-append (x ∷ xs) ys s = ground (arith, member-append xs ys s)

-- Membership looks at the address only.
pub member_congr :
    (l : List Server) (s t : Server) → same_server s t ≡ true → member l s ≡ member l t
unfolding member
member_congr [] s t h = refl
member_congr (x ∷ l) s t h =
    ground
      (arith, member_congr l s t, same_server_iff s t, same_server_iff x s, same_server_iff x t)

member-keep_new :
    (ss acc : List Server) (s : Server)
    → member (keep_new acc ss) s ≡ (if member acc s then true else member ss s)
unfolding keep_new member
member-keep_new [] acc s = ground arith
member-keep_new (t ∷ rest) acc s = ground (
  arith,
  member-keep_new rest (if member acc t then acc else acc ++ t ∷ []) s,
  member-snoc acc t s,
  member_congr acc t s,
)

pub member-distinct : (ss : List Server) (s : Server) → member (distinct ss) s ≡ member ss s
unfolding distinct member
member-distinct ss s = member-keep_new ss [] s

pub member-lap : (i : ℕ) (ss : List Server) (s : Server) → member (lap i ss) s ≡ member ss s
member-lap i ss s =
    let whole = take-append-drop i ss in
    ground (
      arith,
      whole,
      member-append (take i ss) (drop i ss) s,
      member-append (drop i ss) (take i ss) s,
    )

-- The list without the first server that has the address.
erase : Server → List Server → List Server
erase x [] = []
erase x (y ∷ ys) = if same_server y x then ys else y ∷ erase x ys

length-erase :
    (x : Server) (ys : List Server) → member ys x ≡ true → length (erase x ys) + 1 ≡ length ys
unfolding erase member
length-erase x [] h = cc
length-erase x (y ∷ ys) h = ground (arith, length-erase x ys)

member-erase :
    (x s : Server) (ys : List Server)
    → same_server x s ≡ false
    → member (erase x ys) s ≡ member ys s
unfolding erase member
member-erase x s [] h = refl
member-erase x s (y ∷ ys) h =
    ground
      (arith, member-erase x s ys, same_server_iff y x, same_server_iff y s, same_server_iff x s)

-- Distinct servers that all stand in a list are at most as many as its elements.
pub length-le_of_members :
    (xs ys : List Server)
    → all_distinct xs ≡ true
    → ((s : Server) → member xs s ≡ true → member ys s ≡ true)
    → length xs ≤ length ys
unfolding all_distinct member
length-le_of_members [] ys d h = omega arith
length-le_of_members (x ∷ xs) ys d h =
    let there : member ys x ≡ true = ground (arith, h x, same_server_iff x x) in
    let fewer =
      length-le_of_members xs (erase x ys) (ground arith)
        (λ s m. ground (arith, h s, member-erase x s ys, member_congr xs x s)) in
    omega (arith, length-erase x ys there)

-- Every lap meets as many distinct servers as stand on the ring.
pub length-distinct-lap :
    (i : ℕ) (ss : List Server) → length (distinct ss) ≤ length (distinct (lap i ss))
unfolding distinct all_distinct
length-distinct-lap i ss =
    length-le_of_members (distinct ss) (distinct (lap i ss)) (keep_new-all_distinct ss [] refl)
      (λ s m. ground (arith, member-distinct ss s, member-distinct (lap i ss) s, member-lap i ss s))
