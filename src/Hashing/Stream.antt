-- ===== src/Hashing/Stream.antt =====
-- The byte stream that each `StableHash` implementation stands for, described without a hasher,
-- and the proof that the implementations feed exactly that stream.
use porkg.Base.{
  ℕ, ◌+◌, ◌%◌, ◌≡◌, refl, ap, List, [], ◌∷◌, ◌++◌, append_assoc, append-nil, Option, none, some,
  Bytes, length,
}
use porkg.Hashing.{
  StableHasher, to_be_bytes, u64_mod, update_u8, update_items, update_slice, update_string,
  update_option, update_pair, update_map,
}

module _ {A : Type 0} (enc : A → Bytes) where
  unfoldable pub stream_items : ℕ → List A → Bytes
  stream_items i [] = []
  stream_items i (v ∷ vs) = to_be_bytes 8 (i % u64_mod) ++ (enc v ++ stream_items (i + 1) vs)

  -- The count, then each element behind its index.
  unfoldable pub stream_list : List A → Bytes
  stream_list vs = to_be_bytes 8 (length vs % u64_mod) ++ stream_items 0 vs

  unfoldable pub stream_option : Option A → Bytes
  stream_option none = 0 ∷ []
  stream_option (some v) = 0xFF ∷ enc v

unfoldable pub stream_u8 : ℕ → Bytes
stream_u8 v = v ∷ []

unfoldable pub stream_pair : {A B : Type 0} → (A → Bytes) → (B → Bytes) → A × B → Bytes
stream_pair first second (a, b) = first a ++ second b

unfoldable pub stream_string : Bytes → Bytes
stream_string s = stream_list stream_u8 s

unfoldable pub stream_map : {K V : Type 0} → (K → Bytes) → (V → Bytes) → List (K × V) → Bytes
stream_map key value m = stream_list (stream_pair key value) m

-- A hasher that reads a stream: feeding two pieces is feeding their concatenation.
abbrev pub IsStreaming : {H R : Type 0} → StableHasher H R → Type 0
IsStreaming {H} hasher =
    (h : H) (s t : Bytes) → hasher.update (hasher.update h s) t ≡ hasher.update h (s ++ t)

-- `update` feeds the stream that `enc` describes.
abbrev pub Feeds : {H R A : Type 0} → StableHasher H R → (A → H → H) → (A → Bytes) → Type 0
Feeds {H} {R} {A} hasher update enc = (v : A) (h : H) → update v h ≡ hasher.update h (enc v)

module _ {H R : Type 0} (hasher : StableHasher H R) (streams : IsStreaming hasher) where
  pub update_u8-Feeds : Feeds hasher (update_u8 hasher) stream_u8
  unfolding update_u8 stream_u8
  update_u8-Feeds v h = refl

  update_items-Feeds :
      {A : Type 0} (update : A → H → H) (enc : A → Bytes)
      → Feeds hasher update enc
      → (i : ℕ) (vs : List A) (h : H) (s : Bytes)
      → update_items hasher update i vs (hasher.update h s)
        ≡ hasher.update h (s ++ stream_items enc i vs)
  unfolding update_items stream_items
  update_items-Feeds update enc feeds i [] h s = rw append-nil
  update_items-Feeds update enc feeds i (v ∷ vs) h s =
      rw
        (
          streams h s _,
          feeds v _,
          streams h _ (enc v),
          update_items-Feeds update enc feeds (i + 1) vs h _,
        )
        (ap (hasher.update h) (simp append_assoc))

  -- To a hasher that reads a stream, a list feeds its count, then each element behind its index,
  -- if each element feeds its encoding.
  pub update_slice-Feeds :
      {A : Type 0} (update : A → H → H) (enc : A → Bytes)
      → Feeds hasher update enc
      → Feeds hasher (update_slice hasher update) (stream_list enc)
  unfolding update_slice stream_list
  update_slice-Feeds update enc feeds vs h = update_items-Feeds update enc feeds 0 vs h _

  pub update_string-Feeds : Feeds hasher (update_string hasher) stream_string
  unfolding update_string stream_string
  update_string-Feeds = update_slice-Feeds (update_u8 hasher) stream_u8 update_u8-Feeds

  pub update_pair-Feeds :
      {A B : Type 0} (first : A → H → H) (second : B → H → H) (enc1 : A → Bytes) (enc2 : B → Bytes)
      → Feeds hasher first enc1
      → Feeds hasher second enc2
      → Feeds hasher (update_pair hasher first second) (stream_pair enc1 enc2)
  unfolding update_pair stream_pair
  update_pair-Feeds first second enc1 enc2 f g (a, b) h = rw (f a h, g b _) (streams h _ _)

  pub update_option-Feeds :
      {A : Type 0} (update : A → H → H) (enc : A → Bytes)
      → Feeds hasher update enc
      → Feeds hasher (update_option hasher update) (stream_option enc)
  unfolding update_option stream_option
  update_option-Feeds update enc feeds none h = refl
  update_option-Feeds update enc feeds (some v) h = rw (feeds v _) (streams h _ _)

  pub update_map-Feeds :
      {K V : Type 0} (key : K → H → H) (value : V → H → H) (enc1 : K → Bytes) (enc2 : V → Bytes)
      → Feeds hasher key enc1
      → Feeds hasher value enc2
      → Feeds hasher (update_map hasher key value) (stream_map enc1 enc2)
  unfolding update_map update_slice stream_map
  update_map-Feeds key value enc1 enc2 f g =
      update_slice-Feeds (update_pair hasher key value) (stream_pair enc1 enc2)
        (update_pair-Feeds key value enc1 enc2 f g)
