-- ===== src/Util.antt =====
-- src/util.cpp: literals of FIRRTL, hexadecimal text and powers of two. A text is the list of its
-- character codes; reading a std::string at its length gives the null character.
pub mod Hex
pub mod Mask
pub mod Names
pub mod Power
use gsim.Prelude.{
  ℕ, zero, suc, ◌+◌, ◌-◌, ◌/◌, ◌%◌, ◌^◌, Bool, ◌||◌, not, List, [], ◌∷◌, ◌++◌, length, get_or, ltb,
  leb, ◌==◌, if◌then◌else◌,
}

abbrev pub drop {ℓ} : {A : Type ℓ} → ℕ → List A → List A
drop zero xs = xs
drop (suc n) [] = []
drop (suc n) (x ∷ xs) = drop n xs

-- The base that a prefix letter stands for.
abbrev pub prefix_base : ℕ → ℕ
prefix_base c = if c == b'b' then 2 else if c == b'o' then 8 else if c == b'h' then 16 else 10

abbrev pub is_prefix : ℕ → Bool
is_prefix c = c == b'b' || c == b'o' || c == b'd' || c == b'h'

-- The base of a literal, and its digits behind an optional minus.
unfoldable pub fir_str_base : List ℕ → ℕ × List ℕ
fir_str_base s =
    if leb (length s) 1
    then (10, s)
    else let minus = get_or s 0 0 == b'-' in
      let ret : List ℕ = if minus then b'-' ∷ [] else [] in
      let idx : ℕ = if minus then 1 else 0 in
      if not (get_or s idx 0 == b'0')
      then (10, s)
      else if not (is_prefix (get_or s (idx + 1) 0))
      then (10, ret ++ drop idx s)
      else (prefix_base (get_or s (idx + 1) 0), ret ++ drop (idx + 2) s)

abbrev pub hex_digit : ℕ → ℕ
hex_digit rem = if ltb rem 10 then rem + b'0' else rem - 10 + b'a'

-- The loop of to_hex_string: one digit a round, in front of the text. A 128-bit number has 32.
unfoldable pub hex_loop : ℕ → ℕ → List ℕ → List ℕ
hex_loop zero x ret = ret
hex_loop (suc fuel) x ret =
    let rest = hex_loop fuel (x / 16) (hex_digit (x % 16) ∷ ret) in if x == 0 then ret else rest

unfoldable pub to_hex_string : ℕ → List ℕ
unfolding hex_loop
to_hex_string x = if x == 0 then b'0' ∷ [] else hex_loop 32 x []

-- 32 - __builtin_clz(x): the number of binary digits of x, at most 32.
unfoldable pub bit_length : ℕ → ℕ → ℕ
bit_length zero x = 0
bit_length (suc n) x = let rest = bit_length n (x / 2) in if x == 0 then 0 else suc rest

unfoldable pub upper_power2 : ℕ → ℕ
unfolding bit_length
upper_power2 x = if leb x 1 then x else 2 ^ bit_length 32 (x - 1)

unfoldable pub upper_log2 : ℕ → ℕ
unfolding bit_length
upper_log2 x = if leb x 1 then x else bit_length 32 (x - 1)
