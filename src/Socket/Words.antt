-- ===== src/Socket/Words.antt =====
-- The header of a message: a number written as bytes in the machine's order is read back.
use native.Mathlib.Nat.{pow-suc}
use porkg.Base.{
  ℕ, zero, suc, ◌+◌, ◌*◌, ◌/◌, ◌^◌, ◌<◌, ◌≡◌, refl, ap, ◌∙◌, Bool, true, false, [], ◌∷◌, ◌++◌,
  append-nil, Bytes, length, arith,
}
use porkg.Socket.{header_size, to_le_bytes, from_le_bytes, reversed, to_ne_bytes, from_ne_bytes}

from_le_bytes-to_le_bytes : (w v : ℕ) → v < 256 ^ w → from_le_bytes (to_le_bytes w v) ≡ v
unfolding from_le_bytes to_le_bytes
from_le_bytes-to_le_bytes zero v h = omega arith
from_le_bytes-to_le_bytes (suc w) v h =
    let grow : 256 ^ suc w ≡ 256 ^ w * 256 = pow-suc 256 w in
    rw (from_le_bytes-to_le_bytes w (v / 256) (omega arith)) (omega arith)

length-to_le_bytes : (w v : ℕ) → length (to_le_bytes w v) ≡ w
unfolding to_le_bytes
length-to_le_bytes zero v = refl
length-to_le_bytes (suc w) v = omega (arith, length-to_le_bytes w (v / 256))

reversed-reversed : (s a t : Bytes) → reversed (reversed s a) t ≡ reversed a (s ++ t)
reversed-reversed [] a t = refl
reversed-reversed (b ∷ s) a t = reversed-reversed s (b ∷ a) t

length-reversed : (s a : Bytes) → length (reversed s a) ≡ length s + length a
length-reversed [] a = omega arith
length-reversed (b ∷ s) a = omega (arith, length-reversed s (b ∷ a))

pub from_ne_bytes-to_ne_bytes :
    (little : Bool) (v : ℕ) → v < 2 ^ 64 → from_ne_bytes little (to_ne_bytes little v) ≡ v
unfolding from_ne_bytes to_ne_bytes
from_ne_bytes-to_ne_bytes true v h = from_le_bytes-to_le_bytes header_size v h
from_ne_bytes-to_ne_bytes false v h =
    ap from_le_bytes
      (reversed-reversed (to_le_bytes header_size v) [] [] ∙ append-nil (to_le_bytes header_size v))
    ∙ from_le_bytes-to_le_bytes header_size v h

pub length-to_ne_bytes : (little : Bool) (v : ℕ) → length (to_ne_bytes little v) ≡ header_size
unfolding to_ne_bytes
length-to_ne_bytes true v = length-to_le_bytes header_size v
length-to_ne_bytes false v =
    omega (arith, length-reversed (to_le_bytes header_size v) [], length-to_le_bytes header_size v)
