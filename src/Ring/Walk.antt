-- ===== src/Ring/Walk.antt =====
-- One lap round a ring, and the first servers with distinct addresses met on it.
use distributed_hash_table.Base.{
  ℕ, zero, suc, ◌+◌, ◌-◌, ◌%◌, ◌≤◌, ◌<◌, ◌≡◌, refl, sym, ap, ◌∙◌, Bool, true, false, List, [], ◌∷◌,
  ◌++◌, some, length, ltb, if◌then◌else◌, arith, take, drop, get_elem?, length-append, get_elem?-lt,
  drop-get_elem?, drop_all, take-append-drop, Bool-cases, inl, inr, take_all, ltb→lt,
}
use mathlib.Core.Path.{subst}
use native.Mathlib.Nat.{mod-eq_of_lt, mod_self}
use mathlib.Core.List.{append_assoc, append-nil}
use distributed_hash_table.Ring.Servers.{Server, same_server, member, same_server_iff}

-- The servers met from an index on, once round.
abbrev pub lap : ℕ → List Server → List Server
lap i ss = drop i ss ++ take i ss

-- A server is kept if no server with its address was met before it.
unfoldable pub keep_new : List Server → List Server → List Server
keep_new met [] = met
keep_new met (s ∷ rest) = keep_new (if member met s then met else met ++ s ∷ []) rest

unfoldable pub distinct : List Server → List Server
unfolding keep_new
distinct ss = keep_new [] ss

-- No address stands twice.
unfoldable pub all_distinct : List Server → Bool
all_distinct [] = true
all_distinct (s ∷ rest) = if member rest s then false else all_distinct rest

-- What the loop collects on a walk.
unfoldable pub collect : ℕ → List Server → List Server → List Server
collect wanted acc [] = acc
collect wanted acc (s ∷ rest) =
    if ltb (length acc) wanted
    then collect wanted (if member acc s then acc else acc ++ s ∷ []) rest
    else acc

keep_new-extends : (ss acc : List Server) → (more : List Server) × (keep_new acc ss ≡ acc ++ more)
unfolding keep_new
keep_new-extends [] acc = ([], sym (append-nil acc))
keep_new-extends (s ∷ rest) acc = elim (Bool-cases (member acc s)) [
  | inl old ↦ let (more, e) = keep_new-extends rest acc in (more, rw old e)
  | inr new ↦
      let (more, e) = keep_new-extends rest (acc ++ s ∷ []) in
      (s ∷ more, rw new (e ∙ append_assoc acc (s ∷ []) more))
]

take-append_exact : (xs ys : List Server) → take (length xs) (xs ++ ys) ≡ xs
take-append_exact [] ys = refl
take-append_exact (x ∷ xs) ys = ap (λ l. x ∷ l) (take-append_exact xs ys)

pub length-keep :
    (acc : List Server) (s : Server)
    → length (if member acc s then acc else acc ++ s ∷ []) ≤ length acc + 1
length-keep acc s = ground (arith, length-append acc (s ∷ []))

-- The loop collects the first `wanted` of the distinct servers.
pub collect-take :
    (wanted : ℕ) (ss acc : List Server)
    → length acc ≤ wanted
    → collect wanted acc ss ≡ take wanted (keep_new acc ss)
unfolding collect keep_new
collect-take wanted [] acc h = sym (take_all wanted acc h)
collect-take wanted (s ∷ rest) acc h = elim (Bool-cases (ltb (length acc) wanted)) [
  | inl more ↦ rw more (
      collect-take wanted rest (if member acc s then acc else acc ++ s ∷ [])
        (omega (arith, length-keep acc s, ltb→lt (length acc) wanted more)))
  | inr full ↦
      let (later, e) = keep_new-extends (s ∷ rest) acc in
      let exact : wanted ≡ length acc = ground arith in
      rw full (sym (rw (e, exact) (take-append_exact acc later)))
]

same_server_symm : (s t : Server) → same_server s t ≡ same_server t s
same_server_symm s t = ground (arith, same_server_iff s t, same_server_iff t s)

pub member-snoc :
    (l : List Server) (s x : Server)
    → member (l ++ s ∷ []) x ≡ (if member l x then true else same_server s x)
unfolding member
member-snoc [] s x = ground arith
member-snoc (y ∷ l) s x = ground (arith, member-snoc l s x)

pub all_distinct-snoc :
    (l : List Server) (s : Server)
    → all_distinct l ≡ true
    → member l s ≡ false
    → all_distinct (l ++ s ∷ []) ≡ true
unfolding all_distinct member
all_distinct-snoc [] s d new = refl
all_distinct-snoc (y ∷ l) s d new =
    ground (arith, member-snoc l s y, same_server_symm s y, all_distinct-snoc l s)

pub keep_new-all_distinct :
    (ss acc : List Server) → all_distinct acc ≡ true → all_distinct (keep_new acc ss) ≡ true
unfolding keep_new
keep_new-all_distinct [] acc d = d
keep_new-all_distinct (s ∷ rest) acc d =
    keep_new-all_distinct rest (if member acc s then acc else acc ++ s ∷ [])
      (ground (arith, all_distinct-snoc acc s))

member-take :
    (n : ℕ) (l : List Server) (s : Server) → member l s ≡ false → member (take n l) s ≡ false
unfolding member
member-take zero l s h = refl
member-take (suc n) [] s h = refl
member-take (suc n) (x ∷ l) s h = ground (arith, member-take n l s)

all_distinct-take :
    (n : ℕ) (l : List Server) → all_distinct l ≡ true → all_distinct (take n l) ≡ true
unfolding all_distinct
all_distinct-take zero l h = refl
all_distinct-take (suc n) [] h = refl
all_distinct-take (suc n) (x ∷ l) h = ground (arith, member-take n l x, all_distinct-take n l)

-- The first servers kept have pairwise distinct addresses.
pub take-distinct : (n : ℕ) (ss : List Server) → all_distinct (take n (distinct ss)) ≡ true
unfolding distinct all_distinct
take-distinct n ss = all_distinct-take n (distinct ss) (keep_new-all_distinct ss [] refl)

-- The servers met from index i on, with the index taken modulo the size after each.
abbrev pub Along : List Server → ℕ → List Server → Type 0
Along ss i [] = Unit
Along ss i (s ∷ rest) = (get_elem? ss i ≡ some s) × Along ss ((i + 1) % length ss) rest

next_index : (i n : ℕ) → i + 1 < n → (i + 1) % n ≡ suc i
next_index i n h = mod-eq_of_lt h ∙ omega arith

wrap_index : (i n : ℕ) → i + 1 ≡ n → (i + 1) % n ≡ 0
wrap_index i n h = rw h (mod_self n)

Along-take :
    (ss : List Server) (k i : ℕ)
    → i + k ≤ length ss
    → i < length ss
    → Along ss i (take k (drop i ss))
Along-take ss zero i h lt = tt
Along-take ss (suc zero) i h lt =
    let (s, at) = get_elem?-lt ss i lt in rw (drop-get_elem? ss i at) (at, tt)
Along-take ss (suc (suc k)) i h lt =
    let (s, at) = get_elem?-lt ss i lt in
    let later = Along-take ss (suc k) (suc i) (omega arith) (omega arith) in
    rw (drop-get_elem? ss i at) (
      at,
      subst (λ j. Along ss j (take (suc k) (drop (suc i) ss)))
          (sym (next_index i (length ss) (omega arith))) later,
    )

Along-drop :
    (ss : List Server) (n i : ℕ) (rest : List Server)
    → i + suc n ≡ length ss
    → Along ss 0 rest
    → Along ss i (drop i ss ++ rest)
Along-drop ss zero i rest e h =
    let (s, at) = get_elem?-lt ss i (omega arith) in
    rw (drop-get_elem? ss i at, drop_all (suc i) ss (omega arith))
      (at, subst (λ j. Along ss j rest) (sym (wrap_index i (length ss) (omega arith))) h)
Along-drop ss (suc n) i rest e h =
    let (s, at) = get_elem?-lt ss i (omega arith) in
    let later = Along-drop ss n (suc i) rest (omega arith) h in
    rw (drop-get_elem? ss i at) (
      at,
      subst (λ j. Along ss j (drop (suc i) ss ++ rest))
          (sym (next_index i (length ss) (omega arith))) later,
    )

-- A lap is such a walk.
pub Along-lap : (ss : List Server) (i : ℕ) → i < length ss → Along ss i (lap i ss)
Along-lap ss i lt =
    Along-drop ss (length ss - i - 1) i (take i ss) (omega arith)
      (Along-take ss i 0 (omega arith) (omega arith))

pub length-lap : (i : ℕ) (ss : List Server) → length (lap i ss) ≡ length ss
length-lap i ss = omega (
  arith,
  ap (λ l. length l) (take-append-drop i ss),
  length-append (take i ss) (drop i ss),
  length-append (drop i ss) (take i ss),
)

pub collect-distinct :
    (wanted : ℕ) (ss : List Server) → collect wanted [] ss ≡ take wanted (distinct ss)
unfolding distinct
collect-distinct wanted ss = collect-take wanted ss [] (omega arith)
