-- ===== src/Projet01/NodeList/BadPort.antt =====
-- What a port out of range does to a client of provided/grading/projet01.
use distributed_hash_table.Base.{
  ℕ, zero, suc, ◌+◌, ◌^◌, ◌≤◌, ◌<◌, ◌≡◌, refl, ◌⊎◌, true, List, [], ◌∷◌, ◌++◌, some, ok,
  null_pointer, bad_pointer, Fault, Pointer, live, length, lt→ltb, le→ltb, arith,
}
use distributed_hash_table.CString.{Bytes}
use distributed_hash_table.Projet01.NodeList.{
  FileLine, int16, legal_port, Ips, Ports, elements, grow, parse_lines,
}

-- A line that is read: a short address, a port that an int16_t holds, and a newline.
pub record IsGood (line : FileLine) : Type 0 where
  pub short : length line.ip < 15
  pub positive : 0 < line.port
  pub below : line.port < 2 ^ 15
  pub ended : line.ended ≡ true

-- The port is 0, or an int16_t takes it for a negative number.
abbrev pub IsBad : FileLine → Type 0
IsBad line = (length line.ip < 15) × ((line.port ≡ 0) ⊎ (2 ^ 15 ≤ line.port))

pub legal_port-int16 : (n : ℕ) → 0 < n → n < 2 ^ 15 → legal_port (int16 n) ≡ some n
unfolding int16 legal_port
legal_port-int16 zero pos below = absurd (omega (arith, pos))
legal_port-int16 (suc n) pos below =
    rw (int16, lt→ltb (suc n) (2 ^ 15) below)
      (rw (legal_port, le→ltb 65535 (suc n) (omega (arith, below))) refl)

-- A good line is added to the arrays.
pub parse_lines-good :
    (line : FileLine) (lines : List FileLine) (n : ℕ) (ips : Ips) (ports : Ports)
    (strings : List (Pointer Bytes)) (numbers : List ℕ)
    → elements ips ≡ ok strings
    → elements ports ≡ ok numbers
    → IsGood line
    → parse_lines (line ∷ lines) n ips ports []
      ≡ parse_lines lines
          (n + 1)
          (live (strings ++ live line.ip ∷ []))
          (live (numbers ++ line.port ∷ []))
          []
unfolding parse_lines grow
parse_lines-good line lines n ips ports strings numbers e f good =
    rw
      (
        parse_lines,
        lt→ltb (length line.ip) 15 good.short,
        legal_port-int16 line.port good.positive good.below,
        grow,
        e,
        f,
        good.ended,
      )
      refl

-- What follows on the bad port.
unfoldable pub crash : List FileLine → Fault
crash [] = null_pointer
crash (line ∷ lines) = bad_pointer
