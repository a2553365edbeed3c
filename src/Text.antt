-- ===== src/Text.antt =====
-- Go strings and the functions of the package strings that the client calls. A string is the list
-- of its code points; its bytes are the UTF-8 encoding.
use Prim.Native.Char.{code}
use Prim.Native.String.{String}
use mathlib.Core.List.{reverse}
use client_sdk_go.Base.{
  ℕ, ◌+◌, ◌/◌, ◌%◌, Bool, true, false, ◌&&◌, ◌||◌, List, [], ◌∷◌, ◌++◌, ltb, leb, ◌==◌,
  if◌then◌else◌,
}

abbrev pub GoString : Type 0
GoString = List ℕ

abbrev pub Bytes : Type 0
Bytes = List ℕ

-- A literal.
abbrev pub codes : String → GoString
codes String.[] = []
codes (String.◌∷◌ c s) = code c ∷ codes s

-- unicode.IsSpace.
unfoldable pub is_space : ℕ → Bool
is_space c =
    (leb 0x09 c && leb c 0x0d)
    || (c == 0x20)
    || (c == 0x85)
    || (c == 0xa0)
    || (c == 0x1680)
    || (leb 0x2000 c && leb c 0x200a)
    || (c == 0x2028)
    || (c == 0x2029)
    || (c == 0x202f)
    || (c == 0x205f)
    || (c == 0x3000)

unfoldable pub trim_left : GoString → GoString
unfolding is_space
trim_left [] = []
trim_left (c ∷ s) = if is_space c then trim_left s else c ∷ s

-- strings.TrimSpace.
unfoldable pub trim_space : GoString → GoString
unfolding trim_left
trim_space s = reverse (trim_left (reverse (trim_left s)))

-- []byte(s).
unfoldable pub encode_rune : ℕ → Bytes
encode_rune c =
    if ltb c 0x80
    then c ∷ []
    else if ltb c 0x800
    then (0xc0 + c / 64) ∷ (0x80 + c % 64) ∷ []
    else if ltb c 0x10000
    then (0xe0 + c / 4096) ∷ (0x80 + (c / 64) % 64) ∷ (0x80 + c % 64) ∷ []
    else (0xf0 + c / 262144)
      ∷ (0x80 + (c / 4096) % 64)
      ∷ (0x80 + (c / 64) % 64)
      ∷ (0x80 + c % 64)
      ∷ []

unfoldable pub to_bytes : GoString → Bytes
unfolding encode_rune
to_bytes [] = []
to_bytes (c ∷ s) = encode_rune c ++ to_bytes s

-- strings.ToLower, as far as a search for ASCII text can tell: the code points whose lower case is
-- an ASCII letter are mapped. These are A to Z, U+0130 and U+212A.
unfoldable pub lower_rune : ℕ → ℕ
lower_rune c =
    if leb b'A' c && leb c b'Z'
    then c + 32
    else if c == 0x130
    then b'i'
    else if c == 0x212a
    then b'k'
    else c

unfoldable pub to_lower : GoString → GoString
unfolding lower_rune
to_lower [] = []
to_lower (c ∷ s) = lower_rune c ∷ to_lower s

unfoldable pub has_prefix : GoString → GoString → Bool
has_prefix s [] = true
has_prefix [] (p ∷ ps) = false
has_prefix (c ∷ s) (p ∷ ps) = (c == p) && has_prefix s ps

-- strings.Contains.
unfoldable pub contains : GoString → GoString → Bool
unfolding has_prefix
contains [] sub = has_prefix [] sub
contains (c ∷ s) sub = has_prefix (c ∷ s) sub || contains s sub
