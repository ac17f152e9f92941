-- ===== src/Protocol/Reader.antt =====
-- The reading idiom of every decoder here: `memcpy(&x, buf + offset, n); offset += n;`.
-- The buffer is the allocation from the pointer on, and a read beyond its end is a fault. The
-- offset is an unsigned number below `limit`: 2 ^ 32 for a u32, 2 ^ 64 for a size_t.
pub mod Laws
use p2p_watcher.Base.{
  ℕ, zero, suc, ◌+◌, ◌%◌, List, [], ◌∷◌, length, take, drop, leb, if◌then◌else◌, Outcome, done,
  fault, throws,
}
use p2p_watcher.Base.{◌>>=◌ as bind_outcome}
use p2p_watcher.Protocol.Wire.{Endian, value_of, ntohl}

abbrev pub Reader : Type 0 → Type 0
Reader A = List ℕ → ℕ → Outcome (A × ℕ)

abbrev pub pure : {A : Type 0} → A → Reader A
pure a buf offset = done (a, offset)

infixl 5 ◌>>=◌
abbrev pub ◌>>=◌ : {A B : Type 0} → Reader A → (A → Reader B) → Reader B
◌>>=◌ m f buf offset = elim (m buf offset) [
  | done (a, offset') ↦ f a buf offset'
  | throws ↦ throws
  | fault ↦ fault
]

-- A decoder that starts at the front of its buffer.
abbrev pub run : {A : Type 0} → Reader A → List ℕ → Outcome A
run m buf = bind_outcome (m buf 0) (λ r. done r.0)

-- The bytes from the offset on, `assign(buf.begin() + offset, buf.end())`.
unfoldable pub remaining : Reader (List ℕ)
remaining buf offset = if leb offset (length buf) then done (drop offset buf, offset) else fault

module _ (limit : ℕ) where
  unfoldable pub next : ℕ → Reader (List ℕ)
  next n buf offset =
      if leb (offset + n) (length buf)
      then done (take n (drop offset buf), (offset + n) % limit)
      else fault

  module _ (host : Endian) where
    -- A number of `n` bytes, as it lies in memory.
    unfoldable pub next_number : ℕ → Reader ℕ
    unfolding next
    next_number n = do bytes ← next n; pure (value_of host bytes)

    -- A number of four bytes that went through htonl.
    unfoldable pub next_net : Reader ℕ
    unfolding next
    next_net = do bytes ← next 4; pure (ntohl host (value_of host bytes))

    -- `for (i = 0; i < count; ++i) { memcpy(&d[i], ...); d[i] = ntohl(d[i]); offset += 4; }`
    unfoldable pub next_nets : ℕ → Reader (List ℕ)
    unfolding next_net
    next_nets zero = pure []
    next_nets (suc count) = do x ← next_net; xs ← next_nets count; pure (x ∷ xs)
