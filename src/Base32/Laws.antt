-- ===== src/Base32/Laws.antt =====
-- What `Base32::from_str` accepts.
use porkg.Base.{ℕ, ◌≡◌, ◌<◌, ◌⊎◌, ◌↔◌, inl, inr, refl, Bytes, length, Result, ok, err, All, arith}
use porkg.Base32.{Encoding, IsLawful, InvalidBase32, invalid_base32, display, from_str}

module _ (e : Encoding) where
  -- A parse that succeeds gives exactly `size` bytes, the ones that the decoder wrote.
  pub from_str_sound :
      IsLawful e
      → (size : ℕ) (s b : Bytes) → from_str e size s ≡ ok b
      → (length b ≡ size) × (e.decode_mut s ≡ ok b)
  unfolding from_str
  from_str_sound l size s b h = ground (arith, l.length-decode s b)

  -- What is printed is read back.
  pub from_str-display :
      IsLawful e → (b : Bytes) → All (λ c. c < 256) b → from_str e (length b) (display e b) ≡ ok b
  unfolding from_str display
  from_str-display l b bytes = ground (arith, l.decode-encode b bytes, l.decode_len-encode b)

  -- A text parses exactly when the decoder accepts it and gives `size` bytes, which are the
  -- result, if the encoding keeps the crate's laws.
  pub from_str_iff :
      IsLawful e
      → (size : ℕ) (s b : Bytes)
      → (from_str e size s ≡ ok b) ↔ ((length b ≡ size) × (e.decode_mut s ≡ ok b))
  unfolding from_str
  from_str_iff l size s b =
      (from_str_sound l size s b, λ (n, read). ground (arith, l.length-decode s b read))

  -- The only failure is the error that carries the expected size.
  pub from_str_cases :
      (size : ℕ) (s : Bytes)
      → ((b : Bytes) × (from_str e size s ≡ ok b)) ⊎ (from_str e size s ≡ err (invalid_base32 size))
  unfolding from_str
  from_str_cases size s = go (from_str e size s) refl
    where
      go :
          (r : Result Bytes InvalidBase32)
          → from_str e size s ≡ r
          → ((b : Bytes) × (from_str e size s ≡ ok b))
            ⊎ (from_str e size s ≡ err (invalid_base32 size))
      go (ok b) h = inl (b, h)
      go (err x) h = inr (ground arith)
