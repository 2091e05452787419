-- ===== src/Debug/Text.antt =====
-- What a printed buffer looks like.
use porkg.Base.{ℕ, ◌≡◌, ◌≤◌, ◌<◌, ◌/◌, ◌%◌, refl, [], ◌∷◌, ◌++◌, Bytes, All, All-append, arith}
use porkg.Debug.{
  display_byte, debug_byte, hex_escape, hex_digit, each, quoted, printable_display, printable_debug,
  escaped_debug,
}

abbrev pub IsVisible : ℕ → Type 0
IsVisible c = (0x20 ≤ c) × (c ≤ 0x7E)

abbrev pub IsByte : ℕ → Type 0
IsByte b = b < 256

hex_escape-IsVisible : (b : ℕ) → IsByte b → All IsVisible (hex_escape b)
hex_escape-IsVisible b h = ground arith

display_byte-IsVisible : (b : ℕ) → IsByte b → All IsVisible (display_byte b)
display_byte-IsVisible b h = ground arith

debug_byte-IsVisible : (b : ℕ) → IsByte b → All IsVisible (debug_byte b)
debug_byte-IsVisible b h = ground arith

each-IsVisible :
    (f : ℕ → Bytes)
    → ((b : ℕ) → IsByte b → All IsVisible (f b))
    → (s : Bytes) → All IsByte s
    → All IsVisible (each f s)
unfolding each
each-IsVisible f visible [] h = tt
each-IsVisible f visible (b ∷ s) (here, h) =
    All-append IsVisible (f b) (each f s) (visible b here) (each-IsVisible f visible s h)

quoted-IsVisible : (s : Bytes) → All IsVisible s → All IsVisible (quoted s)
quoted-IsVisible s h =
    (omega arith, (omega arith, All-append IsVisible s (34 ∷ []) h (omega arith, tt)))

-- Whatever the bytes are, the text that is printed for a buffer holds only visible ASCII
-- characters and spaces, in all three forms.
printed-IsVisible :
    (s : Bytes)
    → All IsByte s
    → All IsVisible (printable_display s)
      × All IsVisible (printable_debug s)
      × All IsVisible (escaped_debug s)
unfolding printable_display printable_debug escaped_debug
printed-IsVisible s h = (
  each-IsVisible display_byte display_byte-IsVisible s h,
  quoted-IsVisible _ (each-IsVisible debug_byte debug_byte-IsVisible s h),
  quoted-IsVisible _ (each-IsVisible hex_escape hex_escape-IsVisible s h),
)

hex_digit-injective : (a b : ℕ) → a < 16 → b < 16 → hex_digit a ≡ hex_digit b → a ≡ b
hex_digit-injective a b ha hb h = ground arith

escaped-injective :
    (s t : Bytes)
    → All IsByte s
    → All IsByte t
    → each hex_escape s ++ 34 ∷ [] ≡ each hex_escape t ++ 34 ∷ []
    → s ≡ t
unfolding each
escaped-injective [] [] hs ht h = refl
escaped-injective [] (b ∷ t) hs ht h = absurd (let clash : ◌≡◌ {A = ℕ} 34 92 = cc in omega arith)
escaped-injective (a ∷ s) [] hs ht h = absurd (let clash : ◌≡◌ {A = ℕ} 92 34 = cc in omega arith)
escaped-injective (a ∷ s) (b ∷ t) (ha, hs) (hb, ht) h =
    let high = hex_digit-injective (a / 16) (b / 16) (omega arith) (omega arith) cc in
    let low = hex_digit-injective (a % 16) (b % 16) (omega arith) (omega arith) cc in
    let same : a ≡ b = omega arith in let rest = escaped-injective s t hs ht cc in cc

-- Two buffers of bytes with the same escaped form are the same buffer.
escaped_debug-injective :
    (s t : Bytes) → All IsByte s → All IsByte t → escaped_debug s ≡ escaped_debug t → s ≡ t
unfolding escaped_debug
escaped_debug-injective s t hs ht h = escaped-injective s t hs ht cc
