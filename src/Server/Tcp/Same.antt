-- ===== src/Server/Tcp/Same.antt =====
-- What the server does with a packet of a client leaves its tables as they are.
use p2p_watcher.Base.{
  ℕ, ◌≡◌, refl, ◌∙◌, List, [], Option, none, some, ◌∷◌, done, ◌==◌, ◌||◌, not, All, Ensures,
  Ensures-bind, Ensures-after, Ensures-if, Ensures-done, Ensures-weaken,
}
use p2p_watcher.Network.{Asio}
use p2p_watcher.Protocol.Wire.{Endian}
use p2p_watcher.Protocol.Packet.{Packet, parse, server_hash_value}
use p2p_watcher.Protocol.GroupData.{deserialize_struct}
use p2p_watcher.Server.Logger.{error}
use p2p_watcher.Console.{literal}
use p2p_watcher.Server.Session.{on_written, Signal, deleting, process, says}
use p2p_watcher.Server.Tcp.{
  TcpManager, writes, print_struct, handle_tcp, process_tcp, on_signal, on_signals,
  on_frame_written,
}

-- The same clients in the same states, the same next id, UDP socket and receive buffer.
pub record Same {net : Asio} (m m' : TcpManager net) : Type 0 where
  pub tcp : m'.cl ≡ m.cl
  pub udp : m'.udp.cl ≡ m.udp.cl
  pub counter : m'.next_id ≡ m.next_id
  pub buffer : m'.udp.buffer ≡ m.udp.buffer
  pub socket : m'.udp.socket ≡ m.udp.socket

pub Same-refl : {net : Asio} (m : TcpManager net) → Same m m
Same-refl m = record { tcp = refl; udp = refl; counter = refl; buffer = refl; socket = refl }

pub Same-trans : {net : Asio} {m m' m'' : TcpManager net} → Same m m' → Same m' m'' → Same m m''
Same-trans h k = record {
  tcp = k.tcp ∙ h.tcp;
  udp = k.udp ∙ h.udp;
  counter = k.counter ∙ h.counter;
  buffer = k.buffer ∙ h.buffer;
  socket = k.socket ∙ h.socket;
}

module _ (net : Asio) (host : Endian) where
  same : (m m' : TcpManager net) → Same m m' → Ensures (Same m) (done m')
  same m m' h = Ensures-done (Same m) h

  print_struct-Same :
      (buf : List ℕ) (m : TcpManager net) → Ensures (Same m) (print_struct net host buf m)
  unfolding print_struct
  print_struct-Same buf m = Ensures-after (Same m) (deserialize_struct host buf) _ (λ a.
      Ensures-done (Same m)
        (record { tcp = refl; udp = refl; counter = refl; buffer = refl; socket = refl }))

  handle_tcp-Same :
      (pkt : Packet) (m : TcpManager net) → Ensures (Same m) (handle_tcp net host pkt m)
  unfolding handle_tcp
  handle_tcp-Same pkt m =
      Ensures-if (Same m) (not (pkt.header.server_hash == server_hash_value)) _ _
        (Ensures-done (Same m) {a = writes net error (literal "!=SERVER_HASH") m}
          (record { tcp = refl; udp = refl; counter = refl; buffer = refl; socket = refl }))
        (Ensures-if (Same m) (not (pkt.header.is_first == 1) || not (pkt.header.is_last == 1)) _ _
          (Ensures-done (Same m) {a = writes net error (literal "!flags") m}
            (record { tcp = refl; udp = refl; counter = refl; buffer = refl; socket = refl }))
          (Ensures-if (Same m) (pkt.d_type == 0) _ _ (print_struct-Same pkt.buffer m)
            (Ensures-done (Same m) (Same-refl m))))

  pub process_tcp-Same :
      (buf : List ℕ) (m : TcpManager net) → Ensures (Same m) (process_tcp net host buf m)
  unfolding process_tcp
  process_tcp-Same buf m =
      Ensures-after (Same m) (parse host buf) (λ pkt. handle_tcp net host pkt m)
        (λ pkt. handle_tcp-Same pkt m)

  -- A signal that removes no client.
  abbrev pub IsQuiet : Signal → Type 0
  IsQuiet (deleting id) = ⊥
  IsQuiet (process buf) = Unit
  IsQuiet (says mode text) = Unit

  pub on_signals-Same :
      (signals : List Signal) (m : TcpManager net)
      → All IsQuiet signals
      → Ensures (Same m) (on_signals net host signals m)
  unfolding on_signals on_signal
  on_signals-Same [] m quiet = Ensures-done (Same m) (Same-refl m)
  on_signals-Same (deleting id ∷ signals) m (q, quiet) = absurd q
  on_signals-Same (process buf ∷ signals) m (q, quiet) =
      Ensures-bind (Same m) (Same m) (process_tcp net host buf m) _ (process_tcp-Same buf m) λ m' h.
        Ensures-weaken (Same m') (Same m) (on_signals net host signals m') (λ m'' k. Same-trans h k)
          (on_signals-Same signals m' quiet)
  on_signals-Same (says mode text ∷ signals) m (q, quiet) =
      Ensures-weaken (Same (writes net mode text m)) (Same m)
        (on_signals net host signals (writes net mode text m))
        (λ m'' k.
          Same-trans
            (record { tcp = refl; udp = refl; counter = refl; buffer = refl; socket = refl }) k)
        (on_signals-Same signals (writes net mode text m) quiet)

  pub on_frame_written-Same :
      (ec : Option ℕ) (n : ℕ) (m : TcpManager net)
      → Ensures (Same m) (on_frame_written net host ec n m)
  unfolding on_frame_written on_written
  on_frame_written-Same none n m = on_signals-Same _ m (tt, tt)
  on_frame_written-Same (some ec) n m = on_signals-Same _ m (tt, tt)
