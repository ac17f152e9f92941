-- ===== src/Server/Tcp/Remaining.antt =====
-- A client whose connection ends within a frame remains in the tables.
use p2p_watcher.Base.{
  ℕ, zero, suc, ◌+◌, ◌*◌, ◌^◌, ◌<◌, ◌≡◌, refl, ◌∙◌, List, [], ◌∷◌, ◌++◌, length, All, some, done,
  arith, append_assoc, lt→leb,
}
use p2p_watcher.Base.Maps.{find, assign, find-assign}
use p2p_watcher.Network.{Asio}
use p2p_watcher.Console.{end_of_file}
use p2p_watcher.Protocol.Wire.{Endian, bytes_of, u32}
use p2p_watcher.Server.Logger.{error}
use p2p_watcher.Server.Session.{
  Session, reading_size, reading_body, stopped, on_body, resize, overlay, frame,
}
use p2p_watcher.Server.Session.Framing.{frames}
use p2p_watcher.Server.Tcp.{TcpManager, writes, on_signal, on_signals, run_session, on_body_read}
use p2p_watcher.Server.Tcp.Clients.{has, has-assign}
use p2p_watcher.Server.Tcp.Visit.{
  read_client, complete_read, deliver, Waits, deliver_size, deliver_packet, IsProcessable,
}

module _ (net : Asio) (host : Endian) where
  -- Both tables have the clients that they had, and the session of `id` reads no more.
  pub record Remains (id : ℕ) (m m' : TcpManager net) : Type 0 where
    pub session : Session net
    pub known : find id m'.cl ≡ some session
    pub ended : session.phase ≡ stopped
    pub tcp : (k : ℕ) → has k m'.cl ≡ has k m.cl
    pub udp : m'.udp.cl ≡ m.udp.cl

  -- No read of a session that has stopped completes.
  deliver_stopped :
      (n id : ℕ) (stream : List ℕ) (s : Session net) (m : TcpManager net)
      → find id m.cl ≡ some s
      → s.phase ≡ stopped
      → deliver net host n id stream m ≡ done m
  unfolding deliver read_client complete_read
  deliver_stopped zero id stream s m known ended = refl
  deliver_stopped (suc n) id stream s m known ended =
      rw (known, ended) (deliver_stopped n id stream s m known ended)

  -- The read of a body that the end of the stream cuts off.
  deliver_cut :
      (n id : ℕ) (part : List ℕ) (s : Session net) (m : TcpManager net)
      → find id m.cl ≡ some s
      → s.phase ≡ reading_body
      → length part < s.size
      → deliver net host (suc n) id part m
        ≡ deliver net host n id [] (
            writes net error (end_of_file "") (record m {
              cl = assign id (record s { buffer = overlay part s.buffer; phase = stopped }) m.cl;
            }))
  unfolding deliver read_client complete_read on_body_read run_session on_body on_signals on_signal
  deliver_cut n id part s m known reading cut =
      rw (known, reading, run_session, known, lt→leb s.size (length part) cut) refl

  -- The client stops within a frame of `n` bytes, of which `part` has come, and `more` reads follow.
  Remains-cut :
      (more id n : ℕ) (part : List ℕ) (s : Session net) (m : TcpManager net)
      → Waits net host id s m
      → length part < n
      → n < 2 ^ 32
      → (m' : TcpManager net) × (deliver net host
            (suc (suc more))
            id
            (bytes_of host 4 (u32 n) ++ part)
            m
          ≡ done m')
        × Remains id m m'
  Remains-cut more id n part s m w cut fits =
      let s1 : Session net = record s {
        size = n;
        buffer = resize n s.buffer;
        phase = reading_body;
      } in
      let m1 : TcpManager net = record m { cl = assign id s1 m.cl } in
      let s2 : Session net = record s1 { buffer = overlay part s1.buffer; phase = stopped } in
      let m2 : TcpManager net =
        writes net error (end_of_file "") (record m1 { cl = assign id s2 m1.cl }) in
      let reading : find id m1.cl ≡ some s1 = ground (arith, find-assign id id s1 m.cl) in
      let there : find id m2.cl ≡ some s2 = ground (arith, find-assign id id s2 m1.cl) in
      (
        m2,
        deliver_size net host (suc more) id n part s m w fits
            ∙ (deliver_cut more id part s1 m1 reading refl cut
                ∙ deliver_stopped more id [] s2 m2 there refl),
        record { session = s2; known = there; ended = refl; tcp = λ k. kept k s1 s2; udp = refl },
      )
    where
      kept : (k : ℕ) (s1 s2 : Session net) → has k (assign id s2 (assign id s1 m.cl)) ≡ has k m.cl
      kept k s1 s2 =
          ground (arith, w.known, has-assign id k s2 (assign id s1 m.cl), has-assign id k s1 m.cl)

  Remains-frames :
      (packets : List (List ℕ)) (more id n : ℕ) (part : List ℕ) (s : Session net)
      (m : TcpManager net)
      → Waits net host id s m
      → All (λ packet. length packet < 2 ^ 32) packets
      → All (IsProcessable net host) packets
      → length part < n
      → n < 2 ^ 32
      → (m' : TcpManager net) × (deliver net host
            (2 * length packets + 2 + more)
            id
            (frames net host packets ++ (bytes_of host 4 (u32 n) ++ part))
            m
          ≡ done m')
        × Remains id m m'
  Remains-frames [] more id n part s m w small processable cut fits =
      let rounds : 2 * length {A = List ℕ} [] + 2 + more ≡ suc (suc more) = omega arith in
      rw rounds (Remains-cut more id n part s m w cut fits)
  Remains-frames (packet ∷ packets) more id n part s m w (short, small) (can, processable) cut
        fits =
      let rest : List ℕ = bytes_of host 4 (u32 n) ++ part in
      let (m1, first, goes_on) =
        deliver_packet net host (2 * length packets + 2 + more) id packet
          (frames net host packets ++ rest) s m w short can in
      let (m', others, stays) =
        Remains-frames packets more id n part goes_on.session m1 goes_on.waits small processable cut
          fits in
      let rounds : 2 * length (packet ∷ packets) + 2 + more
          ≡ suc (suc (2 * length packets + 2 + more)) =
        omega arith in
      (
        m',
        rw (rounds, append_assoc (frame net host packet) (frames net host packets) rest)
            (first ∙ others),
        record {
          session = stays.session;
          known = stays.known;
          ended = stays.ended;
          tcp = λ k. stays.tcp k ∙ goes_on.tcp k;
          udp = stays.udp ∙ goes_on.udp;
        },
      )

  -- A client whose session waits for a frame sends whole packets, each of which the server can
  -- process, then the size of one more packet and fewer bytes of it than that size says, and closes
  -- its connection. After two reads for each packet and two more, and however many are asked for
  -- then, both tables have the clients that they had, that client among them, and its session has
  -- stopped. The session has the id that it stands under, and the sizes are below 2 ^ 32.
  pub visit_stays :
      (packets : List (List ℕ)) (more id n : ℕ) (part : List ℕ) (s : Session net)
      (m : TcpManager net)
      → find id m.cl ≡ some s
      → s.cur_client_id ≡ id
      → s.phase ≡ reading_size
      → All (λ packet. length packet < 2 ^ 32) packets
      → All (IsProcessable net host) packets
      → length part < n
      → n < 2 ^ 32
      → (m' : TcpManager net) × (deliver net host
            (2 * length packets + 2 + more)
            id
            (frames net host packets ++ (bytes_of host 4 (u32 n) ++ part))
            m
          ≡ done m')
        × Remains id m m'
  visit_stays packets more id n part s m known own waiting =
      Remains-frames packets more id n part s m
        (record { known = known; own = own; waiting = waiting })
