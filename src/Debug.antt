-- ===== src/Debug.antt =====
-- crates/porkg-private/src/debug.rs: byte buffers as text for the log.
pub mod Text
mod Tests
use porkg.Base.{
  ℕ, ◌+◌, ◌/◌, ◌%◌, Bool, ◌&&◌, List, [], ◌∷◌, ◌++◌, ◌==◌, leb, ltb, if◌then◌else◌, Bytes, codes,
}

-- The digits of `{:x}`.
abbrev pub hex_digit : ℕ → ℕ
hex_digit n = if ltb n 10 then 48 + n else 87 + n

-- `\x{:0>2x}` of a byte.
abbrev pub hex_escape : ℕ → Bytes
hex_escape b = b'\\' ∷ b'x' ∷ hex_digit (b / 16) ∷ hex_digit (b % 16) ∷ []

-- The last two arms of the `match`.
abbrev pub plain_or_hex : ℕ → Bytes
plain_or_hex b = if leb 0x20 b && leb b 0x7E then b ∷ [] else hex_escape b

-- One byte under `Display` of `PrintableBuffer`, up to the arm of the backslash, then `other`.
abbrev pub display_or : ℕ → Bytes → Bytes
display_or b other =
    if b == 0
    then codes "\\0"
    else if b == 13
    then codes "\\r"
    else if b == 10
    then codes "\\n"
    else if b == 9
    then codes "\\t"
    else if b == 92
    then codes "\\"
    else other

abbrev pub display_byte : ℕ → Bytes
display_byte b = display_or b (plain_or_hex b)

abbrev pub debug_byte : ℕ → Bytes
debug_byte b = display_or b (if b == 34 then codes "\\\"" else plain_or_hex b)

unfoldable pub each : (ℕ → Bytes) → Bytes → Bytes
each f [] = []
each f (b ∷ s) = f b ++ each f s

abbrev pub quoted : Bytes → Bytes
quoted s = codes "b\"" ++ (s ++ codes "\"")

-- `Display` of `PrintableBuffer`.
unfoldable pub printable_display : Bytes → Bytes
unfolding each
printable_display s = each display_byte s

-- `Debug` of `PrintableBuffer`.
unfoldable pub printable_debug : Bytes → Bytes
unfolding each
printable_debug s = quoted (each debug_byte s)

-- `Debug` of `EscapedBuffer`.
unfoldable pub escaped_debug : Bytes → Bytes
unfolding each
escaped_debug s = quoted (each hex_escape s)
