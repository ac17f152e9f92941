-- ===== src/Protocol/Receiving.antt =====
-- A program that takes images from its UDP socket: what AsioUdpManager::listen with processPacket
-- and BoostUdpConnection::listen with prcsPacket have in common.
pub mod Whole
pub mod Overruns
use p2p_watcher.Base.{
  ℕ, ◌≡◌, List, [], ◌∷◌, refl, length, map, Option, none, some, Outcome, done, fault, ◌>>=◌,
}
use p2p_watcher.Network.{Asio}
use p2p_watcher.Protocol.Wire.{Endian}
use p2p_watcher.Protocol.Packet.{Packet, serialize}
use p2p_watcher.Protocol.Sender.Chunks.{IsOwn}
use p2p_watcher.Protocol.Assembly.{Assembly, idle, assemble}
use p2p_watcher.Protocol.Assembly.Truncation.{seen_payload}

-- A sequence of datagrams, each received in its turn.
abbrev pub receive_each : {S : Type 0} → (List ℕ → S → Outcome S) → List (List ℕ) → S → Outcome S
receive_each receive [] m = done m
receive_each receive (d ∷ ds) m = receive d m >>= receive_each receive ds

-- The state, its receive buffer and its assembly buffer, and the handler of a datagram. `after`
-- sets both buffers and listens again, and `finish` does what the program does with a whole image,
-- if there is one. The law says what the handler does at a packet of an image.
pub record Receiver (net : Asio) (host : Endian) : Type 1 where
  pub State : Type 0
  pub buffer : State → List ℕ
  pub assembly : State → Assembly
  pub receive : List ℕ → State → Outcome State
  pub after : List ℕ → Assembly → State → State
  pub finish : Option (List ℕ) → State → Outcome State
  pub buffer-after : (b : List ℕ) (s : Assembly) (m : State) → buffer (after b s m) ≡ b
  pub assembly-after : (b : List ℕ) (s : Assembly) (m : State) → assembly (after b s m) ≡ s
  pub after-after :
      (b b' : List ℕ) (s s' : Assembly) (m : State) → after b' s' (after b s m) ≡ after b' s' m
  pub finish-none :
      (b : List ℕ) (s : Assembly) (m : State) → finish none (after b s m) ≡ done (after b s m)
  pub receive_lem :
      (p : Packet) (m : State)
      → IsOwn 1 p
      → length (buffer m) ≡ 1472
      → receive (serialize host p) m ≡ (
          assemble (record p { buffer = seen_payload p (buffer m) }) (assembly m) >>= λ (s, image).
          finish image (after (net.receive (serialize host p) (buffer m)) s m))

module _ (net : Asio) (host : Endian) (r : Receiver net host) where
  open r use {State, receive, after, finish}

  -- The datagrams of these packets bring `image`: the last completes it, and those before change
  -- nothing but the two buffers.
  abbrev pub Brings : List ℕ → List Packet → State → Type 0
  Brings image [] m = ⊥
  Brings image (p ∷ []) m =
      (b : List ℕ) × (length b ≡ 1472)
      × (receive (serialize host p) m ≡ finish (some image) (after b idle m))
  Brings image (p ∷ q ∷ ps) m =
      (b : List ℕ) × (s : Assembly) × (receive (serialize host p) m ≡ done (after b s m))
      × Brings image (q ∷ ps) (after b s m)

  -- The last of these packets makes the handler write outside the assembly buffer, and those before
  -- change nothing but the two buffers.
  abbrev pub Breaks : List Packet → State → Type 0
  Breaks [] m = ⊥
  Breaks (p ∷ []) m = receive (serialize host p) m ≡ fault
  Breaks (p ∷ q ∷ ps) m =
      (b : List ℕ) × (s : Assembly) × (receive (serialize host p) m ≡ done (after b s m))
      × Breaks (q ∷ ps) (after b s m)

  pub receive_each-Breaks :
      (ps : List Packet) (m : State)
      → Breaks ps m
      → receive_each receive (map (serialize host) ps) m ≡ fault
  receive_each-Breaks [] m h = absurd h
  receive_each-Breaks (p ∷ []) m e = rw e refl
  receive_each-Breaks (p ∷ q ∷ ps) m (b, s, e, later) =
      rw e (receive_each-Breaks (q ∷ ps) (after b s m) later)
