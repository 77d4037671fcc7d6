-- ===== src/Ring/Select.antt =====
-- The `while` loop of `ring_get_nodes_for_key` ends within one lap if the ring has enough distinct
-- servers, and collects the first of them.
use distributed_hash_table.Base.{
  ℕ, zero, suc, ◌+◌, ◌%◌, ◌≤◌, ◌<◌, ◌≡◌, refl, true, List, [], ◌∷◌, ◌++◌, some, ok, length, ltb,
  if◌then◌else◌, arith, take, get_elem?, Bool-cases, inl, inr, map, length-map, length-take,
  get_elem?-map, le→ltb, ltb→lt,
}
use distributed_hash_table.CString.{Bytes}
use distributed_hash_table.System.{Platform}
use distributed_hash_table.NodeList.{default_ip, max_nodes, node_list_new}
use distributed_hash_table.Ring.{node_at, remainder, select_step, select, ring_get_nodes_for_key}
use distributed_hash_table.Ring.Servers.{
  Server, node_of, member, already_present-member, node_list_add-append,
}
use distributed_hash_table.Ring.Walk.{
  lap, distinct, all_distinct, collect, take-distinct, Along, Along-lap, collect-distinct,
  length-lap,
}
use distributed_hash_table.Ring.Count.{length-distinct-lap}
use distributed_hash_table.Ring.Index.{First, here, past_end, index_of_first_node-First}

node_at_lem :
    (ss : List Server) (i : ℕ) (s : Server)
    → get_elem? ss i ≡ some s
    → node_at (map node_of ss) i ≡ ok (node_of s)
unfolding node_at
node_at_lem ss i s at = rw (node_at, get_elem?-map node_of ss i at)

remainder_lem : (n d : ℕ) → 0 < d → remainder n d ≡ ok (n % d)
unfolding remainder
remainder_lem n zero h = elim h [ ]
remainder_lem n (suc d) h = refl

pos_of_at : (ss : List Server) (i : ℕ) (s : Server) → get_elem? ss i ≡ some s → 0 < length ss
pos_of_at [] i s h = cc
pos_of_at (x ∷ ss) i s h = omega arith

lt_of_at : (ss : List Server) (i : ℕ) (s : Server) → get_elem? ss i ≡ some s → i < length ss
lt_of_at [] i s h = cc
lt_of_at (x ∷ ss) zero s h = omega arith
lt_of_at (x ∷ ss) (suc i) s h = omega (arith, lt_of_at ss i s h)

module _ (platform : Platform) (home : Bytes) (known : platform.inet_pton default_ip ≡ some home)
    (ss : List Server) (wanted : ℕ) (room : wanted ≤ max_nodes) where
  -- One pass appends a copy of the node unless its server is there, and steps the index.
  pub select_step_lem :
      (acc : List Server) (i : ℕ) (s : Server)
      → get_elem? ss i ≡ some s
      → length acc < max_nodes
      → select_step platform (map node_of ss) (map node_of acc) i []
        ≡ ok (map node_of (if member acc s then acc else acc ++ s ∷ []), (i + 1) % length ss, [])
  unfolding select_step
  select_step_lem acc i s at space = elim (Bool-cases (member acc s)) [
    | inl old ↦
        rw (node_at_lem ss i s at, already_present-member acc s, old, length-map node_of ss, step)
    | inr new ↦ rw (
      node_at_lem ss i s at,
      already_present-member acc s,
      new,
      node_list_add-append platform home acc s known space,
      length-map node_of ss,
      step,
    )
  ]
    where
      step : remainder (i + 1) (length ss) ≡ ok ((i + 1) % length ss)
      step = remainder_lem (i + 1) (length ss) (pos_of_at ss i s at)

  select_lem :
      (walk acc : List Server) (i fuel : ℕ)
      → length walk ≤ fuel
      → Along ss i walk
      → wanted ≤ length (collect wanted acc walk)
      → select platform fuel (map node_of ss) wanted (map node_of acc) i []
        ≡ ok (map node_of (collect wanted acc walk), [])
  unfolding select collect
  select_lem [] acc i zero f along enough = rw (length-map, le→ltb (length acc) wanted enough)
  select_lem [] acc i (suc fuel) f along enough = rw (length-map, le→ltb (length acc) wanted enough)
  select_lem (s ∷ walk) acc i zero f along enough = elim f [ ]
  select_lem (s ∷ walk) acc i (suc fuel) f along enough =
      elim (Bool-cases (ltb (length acc) wanted)) [
        | inl more ↦
            let lt = ltb→lt (length acc) wanted more in
            let next = if member acc s then acc else acc ++ s ∷ [] in
            rw (length-map, more, select_step_lem acc i s along.0 (omega arith))
              (select_lem walk next ((i + 1) % length ss) fuel (omega arith) along.1
                (rw more at enough))
        | inr full ↦ rw (length-map, full)
      ]

-- What the query of a ring answers: the first `wanted` servers with distinct addresses on the lap that
-- begins at the first node not before the key.
pub record Answers (ss : List Server) (wanted : ℕ) (sha : Bytes) (found : List Server)
    : Type 0 where
  pub index : ℕ
  pub first : First sha ss index
  pub walked : found ≡ take wanted (distinct (lap index ss))
  pub count : length found ≡ wanted
  pub apart : all_distinct found ≡ true

pub First-lt :
    (sha : Bytes) (ss : List Server) (i : ℕ) → 0 < length ss → First sha ss i → i < length ss
First-lt sha ss i pos (here s at stop below) = lt_of_at ss i s at
First-lt sha ss i pos (past_end e all) = rw e pos

-- On a ring with at least `wanted` distinct server addresses, and at least one node,
-- `ring_get_nodes_for_key` ends within one lap, with enough memory and a default address that `inet_pton`
-- reads, and answers `wanted` nodes with pairwise distinct addresses: the first
-- distinct ones met from the first node whose digest is not before the key's.
pub ring_get_nodes_for_key-Answers :
    (platform : Platform) (home : Bytes) (ss : List Server) (wanted : ℕ) (key : Bytes) (fuel : ℕ)
    → platform.inet_pton default_ip ≡ some home
    → wanted ≤ max_nodes
    → 0 < length ss
    → wanted ≤ length (distinct ss)
    → length ss ≤ fuel
    → (found : List Server) × (ring_get_nodes_for_key platform fuel (map node_of ss) wanted key []
        ≡ ok (some (map node_of found), []))
      × Answers ss wanted (platform.sha1 key) found
unfolding ring_get_nodes_for_key node_list_new
ring_get_nodes_for_key-Answers platform home ss wanted key fuel known room pos enough f =
    let (i, run, first) = index_of_first_node-First (platform.sha1 key) ss in
    let lt = First-lt (platform.sha1 key) ss i pos first in
    let collected : collect wanted [] (lap i ss) ≡ take wanted (distinct (lap i ss)) =
      collect-distinct wanted (lap i ss) in
    let counted : length (take wanted (distinct (lap i ss))) ≡ wanted =
      length-take wanted (distinct (lap i ss)) (omega (arith, length-distinct-lap i ss)) in
    (
      take wanted (distinct (lap i ss)),
      rw (
        run,
        select_lem platform home known ss wanted room (lap i ss) [] i fuel
            (omega (arith, length-lap i ss)) (Along-lap ss i lt)
            (rw (collected, counted) (omega arith)),
        collected,
      ),
      record {
        index = i;
        first = first;
        walked = refl;
        count = counted;
        apart = take-distinct wanted (lap i ss);
      },
    )
