-- ===== src/Base32.antt =====
-- crates/porkg-model/src/base32.rs over the crate `data_encoding`, whose `Encoding` is a parameter.
-- The calls of `log_err` and `tracing::debug!` are left out: they only write to the log.
pub mod Laws
pub mod Sample
mod Tests
use porkg.Base.{ℕ, ◌≡◌, Bool, Bytes, List, length, Result, ok, err, ◌==◌, if◌then◌else◌, All, ◌<◌}

-- `data_encoding::DecodeKind`.
pub data DecodeKind : Type 0 where
  length_kind symbol_kind trailing_kind padding_kind : DecodeKind

-- The methods of `BASE32` that the code calls. `decode_mut` gives the bytes that it leaves in its
-- output buffer, which `decode_len` measures.
pub record Encoding : Type 0 where
  pub encode : Bytes → Bytes
  pub decode_len : ℕ → Result ℕ DecodeKind
  pub decode_mut : Bytes → Result Bytes DecodeKind

-- The tuple struct `InvalidBase32(SIZE)`.
pub data InvalidBase32 : Type 0 where
  invalid_base32 : ℕ → InvalidBase32

-- What the crate documents: `decode_mut` inverts `encode` on bytes, and fills the buffer.
pub record IsLawful (e : Encoding) : Type 0 where
  pub decode-encode : (b : Bytes) → All (λ c. c < 256) b → e.decode_mut (e.encode b) ≡ ok b
  pub decode_len-encode : (b : Bytes) → e.decode_len (length (e.encode b)) ≡ ok (length b)
  pub length-decode :
      (s b : Bytes) → e.decode_mut s ≡ ok b → e.decode_len (length s) ≡ ok (length b)

module _ (e : Encoding) where
  -- `Display` and `Debug` of `Base32<SIZE>`.
  unfoldable pub display : Bytes → Bytes
  display h = e.encode h

  -- The second `match` of `from_str`: the length is right.
  decode_checked : ℕ → Bytes → Result Bytes InvalidBase32
  decode_checked size s = elim (e.decode_mut s) [ ok b ↦ ok b | err k ↦ err (invalid_base32 size) ]

  -- `FromStr` of `Base32<SIZE>`.
  unfoldable pub from_str : ℕ → Bytes → Result Bytes InvalidBase32
  unfolding decode_checked
  from_str size s = elim (e.decode_len (length s)) [
    | ok out ↦ if out == size then decode_checked size s else err (invalid_base32 size)
    | err k ↦ err (invalid_base32 size)
  ]
