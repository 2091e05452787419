-- ===== src/Linux/Mappings/Text.antt =====
-- The text of a mapping file.
use native.Mathlib.Nat.{pow-suc}
use porkg.Base.{
  ℕ, zero, suc, ◌+◌, ◌*◌, ◌/◌, ◌%◌, ◌-◌, ◌^◌, ◌<◌, ◌≡◌, ◌≢◌, refl, ap, ◌∙◌, List, [], ◌∷◌, ◌++◌,
  append_assoc, Bytes, ltb, arith, inl, inr, Bool-cases,
}
use porkg.Linux.Mappings.{IdMapping, decimal, to_string, mapping_line, map_text, separate}

-- One line for each mapping, with a line feed between two.
unfoldable pub map_lines : List IdMapping → Bytes
map_lines [] = []
map_lines (m ∷ []) = mapping_line m
map_lines (m ∷ n ∷ ms) = mapping_line m ++ (10 ∷ map_lines (n ∷ ms))

-- The value of decimal digits behind a number.
abbrev pub read_decimal : ℕ → Bytes → ℕ
read_decimal acc [] = acc
read_decimal acc (c ∷ s) = read_decimal (acc * 10 + (c - 48)) s

read_decimal-append :
    (acc : ℕ) (s t : Bytes) → read_decimal acc (s ++ t) ≡ read_decimal (read_decimal acc s) t
read_decimal-append acc [] t = refl
read_decimal-append acc (c ∷ s) t = read_decimal-append (acc * 10 + (c - 48)) s t

read_decimal-decimal : (fuel n : ℕ) → n < 10 ^ suc fuel → read_decimal 0 (decimal (suc fuel) n) ≡ n
unfolding decimal
read_decimal-decimal zero n h = ground arith
read_decimal-decimal (suc fuel) n h = elim (Bool-cases (ltb n 10)) [
  | inl small ↦ rw small (omega arith)
  | inr large ↦
      let grow : 10 ^ suc (suc fuel) ≡ 10 ^ suc fuel * 10 = pow-suc 10 (suc fuel) in
      let rest : read_decimal 0 (decimal (suc fuel) (n / 10)) ≡ n / 10 =
        read_decimal-decimal fuel (n / 10) (omega arith) in
      rw large
        (read_decimal-append 0 (decimal (suc fuel) (n / 10)) ((48 + n % 10) ∷ []) ∙ omega arith)
]

-- A number of at most ten digits, such as any `u32`, is read back from its decimal text.
pub read_decimal-to_string : (n : ℕ) → n < 10 ^ 10 → read_decimal 0 (to_string n) ≡ n
unfolding to_string
read_decimal-to_string n h = read_decimal-decimal 9 n h

append-ne-nil : (s : Bytes) (c : ℕ) (t : Bytes) → s ++ c ∷ t ≢ []
append-ne-nil [] c t h = cc
append-ne-nil (b ∷ s) c t h = cc

mapping_line-ne-nil : (m : IdMapping) → mapping_line m ≢ []
unfolding mapping_line
mapping_line-ne-nil m = append-ne-nil (to_string m.child_start) 32 _

separated-text : (val : Bytes) → val ≢ [] → separate val ≡ val ++ 10 ∷ []
separated-text [] h = absurd (h refl)
separated-text (c ∷ val) h = refl

map_text_behind :
    (val : Bytes) (m : IdMapping) (ms : List IdMapping)
    → map_text (val ++ mapping_line m) ms ≡ val ++ map_lines (m ∷ ms)
unfolding map_text map_lines
map_text_behind val m [] = refl
map_text_behind val m (n ∷ ms) =
    let full : val ++ mapping_line m ≢ [] = λ h. mapping_line-ne-nil m (suffix_nil val _ h) in
    ap (λ s. map_text (s ++ mapping_line n) ms) (separated-text (val ++ mapping_line m) full)
    ∙ map_text_behind ((val ++ mapping_line m) ++ 10 ∷ []) n ms
    ∙ append_assoc (val ++ mapping_line m) (10 ∷ []) _
    ∙ append_assoc val (mapping_line m) _
  where
    suffix_nil : (s t : Bytes) → s ++ t ≡ [] → t ≡ []
    suffix_nil [] t h = h
    suffix_nil (c ∷ s) t h = cc

-- The text that `map_direct` writes is one line for each mapping, in order, with a line feed between
-- two and none at either end.
map_text-map_lines : (ms : List IdMapping) → map_text [] ms ≡ map_lines ms
unfolding map_text map_lines
map_text-map_lines [] = refl
map_text-map_lines (m ∷ ms) = map_text_behind [] m ms
