-- ===== src/Protocol/Wire.antt =====
-- Numbers as bytes in memory. `reinterpret_cast<u8*>(&x)` and `memcpy(&x, ...)` go through the
-- host's byte order, which is a parameter of everything above this module.
pub mod Laws
use p2p_watcher.Base.{ℕ, zero, suc, ◌+◌, ◌*◌, ◌/◌, ◌%◌, ◌^◌, ◌<◌, List, [], ◌∷◌, reverse, All}

pub data Endian : Type 0 where
  little big : Endian

abbrev pub u8 : ℕ → ℕ
u8 n = n % 2 ^ 8

abbrev pub u16 : ℕ → ℕ
u16 n = n % 2 ^ 16

abbrev pub u32 : ℕ → ℕ
u32 n = n % 2 ^ 32

-- The lowest `w` bytes, the lowest first.
unfoldable pub le_bytes : ℕ → ℕ → List ℕ
le_bytes zero n = []
le_bytes (suc w) n = (n % 256) ∷ le_bytes w (n / 256)

unfoldable pub le_value : List ℕ → ℕ
le_value [] = 0
le_value (b ∷ bs) = b + 256 * le_value bs

-- The `w` bytes of an object that holds `n`.
unfoldable pub bytes_of : Endian → ℕ → ℕ → List ℕ
unfolding le_bytes
bytes_of little w n = le_bytes w n
bytes_of big w n = reverse (le_bytes w n)

-- The object that has these bytes.
unfoldable pub value_of : Endian → List ℕ → ℕ
unfolding le_value
value_of little bs = le_value bs
value_of big bs = le_value (reverse bs)

-- The platform's htonl and ntohl: the bytes of `htonl x` in memory are those of `x` in network order.
unfoldable pub htonl : Endian → ℕ → ℕ
unfolding bytes_of value_of
htonl e x = value_of e (bytes_of big 4 x)

unfoldable pub ntohl : Endian → ℕ → ℕ
unfolding bytes_of value_of
ntohl e x = value_of big (bytes_of e 4 x)

abbrev pub IsBytes : List ℕ → Type 0
IsBytes = All (λ b. b < 256)
