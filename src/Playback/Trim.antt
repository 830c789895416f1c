-- ===== src/Playback/Trim.antt =====
-- Rust's `str::trim`, which src/playback_supervisor.rs uses: a text without its leading and trailing
-- characters of the Unicode property White_Space.
use Prim.Native.Char.{Char, code}
use Prim.Native.String.{String}
use clankvox.Base.{Bool, true, false, ◌&&◌, ◌||◌, ◌==◌, ◌≡◌, leb, if◌then◌else◌}

unfoldable pub is_whitespace : Char → Bool
is_whitespace c =
    (leb 9 (code c) && leb (code c) 13)
    || (code c == 32)
    || (code c == 0x85)
    || (code c == 0xA0)
    || (code c == 0x1680)
    || (leb 0x2000 (code c) && leb (code c) 0x200A)
    || (code c == 0x2028)
    || (code c == 0x2029)
    || (code c == 0x202F)
    || (code c == 0x205F)
    || (code c == 0x3000)

abbrev pub is_empty_text : String → Bool
is_empty_text String.[] = true
is_empty_text (String.◌∷◌ c s) = false

unfoldable pub trim_start : String → String
trim_start String.[] = String.[]
trim_start (String.◌∷◌ c s) =
    let rest = trim_start s in if is_whitespace c then rest else String.◌∷◌ c s

unfoldable pub trim_end : String → String
trim_end String.[] = String.[]
trim_end (String.◌∷◌ c s) =
    let rest = trim_end s in
    if is_whitespace c && is_empty_text rest then String.[] else String.◌∷◌ c rest

unfoldable pub trim : String → String
unfolding trim_end trim_start is_whitespace
trim s = trim_end (trim_start s)

-- Every character is white space.
abbrev pub IsBlank : String → Type 0
IsBlank String.[] = Unit
IsBlank (String.◌∷◌ c s) = (is_whitespace c ≡ true) × IsBlank s
