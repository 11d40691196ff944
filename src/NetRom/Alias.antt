-- ===== src/NetRom/Alias.antt =====
-- netrom/callsign.ts: the six-character node alias, blank-padded on the wire.
use ax25_ts.Base.{
  All, Bool, List, [], ap, arith, drop, if◌then◌else◌, is_empty, leb, length, ltb, refl, suc, take,
  true, zero, ℕ, ◌&&◌, ◌+◌, ◌==◌, ◌∷◌, ◌≡◌, ◌≤◌,
}

abbrev pub netrom_alias_length : ℕ
netrom_alias_length = 6

unfoldable pub is_printable : ℕ → Bool
is_printable code = leb 0x20 code && leb code 0x7e

unfoldable pub printable : List ℕ → List ℕ
printable [] = []
printable (c ∷ cs) = let rest = printable cs in if is_printable c then c ∷ rest else rest

-- `replace(/\s+$/, "")`. The blank is the one printable white space.
unfoldable pub trim_end : List ℕ → List ℕ
trim_end [] = []
trim_end (c ∷ cs) = let rest = trim_end cs in if c == 0x20 && is_empty rest then [] else c ∷ rest

unfoldable pub read_alias : List ℕ → ℕ → List ℕ
read_alias source offset =
    if ltb (length source) (offset + netrom_alias_length)
    then []
    else trim_end (printable (take netrom_alias_length (drop offset source)))

-- The first `n` characters of the alias, with blanks for what is missing or cannot be printed.
unfoldable pub alias_octets : ℕ → List ℕ → List ℕ
alias_octets zero cs = []
alias_octets (suc n) [] = 0x20 ∷ alias_octets n []
alias_octets (suc n) (c ∷ cs) = (if is_printable c then c else 0x20) ∷ alias_octets n cs

abbrev pub write_alias : List ℕ → List ℕ
write_alias = alias_octets netrom_alias_length

-- What an alias of the table looks like: printable characters, the last of them not a blank.
abbrev pub IsTrimmed : List ℕ → Type 0
IsTrimmed cs = (All (λ c. is_printable c ≡ true) cs) × (trim_end cs ≡ cs)

pub length-alias_octets : (n : ℕ) (cs : List ℕ) → length (alias_octets n cs) ≡ n
unfolding alias_octets
length-alias_octets zero cs = refl
length-alias_octets (suc n) [] = ap suc (length-alias_octets n [])
length-alias_octets (suc n) (c ∷ cs) = ap suc (length-alias_octets n cs)

printable-blanks : (n : ℕ) → trim_end (printable (alias_octets n [])) ≡ []
unfolding alias_octets printable is_printable trim_end
printable-blanks zero = refl
printable-blanks (suc n) = rw (printable-blanks n)

pub trim-alias_octets :
    (n : ℕ) (cs : List ℕ)
    → All (λ c. is_printable c ≡ true) cs
    → length cs ≤ n
    → trim_end (printable (alias_octets n cs)) ≡ trim_end cs
unfolding alias_octets printable trim_end
trim-alias_octets n [] a h = printable-blanks n
trim-alias_octets zero (c ∷ cs) a h = absurd (omega arith)
trim-alias_octets (suc n) (c ∷ cs) a h =
    rw (a.0) (rw (a.0, trim-alias_octets n cs a.1 (omega arith)))
