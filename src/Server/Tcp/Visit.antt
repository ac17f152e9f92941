-- ===== src/Server/Tcp/Visit.antt =====
-- A visit of a client: the bytes of its connection, through the framing, to the tables.
use p2p_watcher.Base.{
  ℕ, zero, suc, ◌+◌, ◌*◌, ◌^◌, ◌<◌, ◌≡◌, ◌==◌, refl, ap, ◌∙◌, sym, false, List, [], ◌∷◌, ◌++◌,
  length, All, Option, none, some, Outcome, done, ◌>>=◌, if◌then◌else◌, arith, append_assoc, lt→leb,
}
use p2p_watcher.Base.Maps.{find, assign, find-assign}
use p2p_watcher.Network.{Asio}
use p2p_watcher.Protocol.Wire.{Endian, bytes_of, u32}
use p2p_watcher.Protocol.Wire.Laws.{length-bytes_of}
use p2p_watcher.Server.Session.{
  Session, Phase, reading_size, reading_body, stopped, on_size, on_body, frame, resize,
}
use p2p_watcher.Server.Session.Framing.{async_read, async_read-append, value_of-overlay, frames}
use p2p_watcher.Server.Tcp.{
  TcpManager, process_tcp, on_signal, on_signals, run_session, on_size_read, on_body_read,
}
use p2p_watcher.Server.Tcp.Same.{Same, process_tcp-Same}
use p2p_watcher.Server.Tcp.Clients.{has, has-assign}
use p2p_watcher.Server.Tcp.Events.{step, end_of_stream-removes}

module _ (net : Asio) (host : Endian) where
  -- The read that is pending in a phase completes, and its handler runs.
  unfoldable pub complete_read :
      ℕ → ℕ → Phase → List ℕ → TcpManager net → Outcome (TcpManager net × List ℕ)
  complete_read id size reading_size stream m =
      let (c, rest) = async_read 4 stream in on_size_read net host id c m >>= λ m'. done (m', rest)
  complete_read id size reading_body stream m =
      let (c, rest) = async_read size stream in
      on_body_read net host id c m >>= λ m'. done (m', rest)
  complete_read id size stopped stream m = done (m, stream)

  unfoldable pub read_client :
      ℕ → Option (Session net) → List ℕ → TcpManager net → Outcome (TcpManager net × List ℕ)
  read_client id none stream m = done (m, stream)
  read_client id (some s) stream m = complete_read id s.size s.phase stream m

  -- The first `n` reads of the client `id`, whose connection holds `stream` and is closed then.
  unfoldable pub deliver : ℕ → ℕ → List ℕ → TcpManager net → Outcome (TcpManager net)
  deliver zero id stream m = done m
  deliver (suc n) id stream m = read_client id (find id m.cl) stream m >>= λ r. deliver n id r.1 r.0

  -- The server that knows the session `s` under `id`, which waits for a frame.
  pub record Waits (id : ℕ) (s : Session net) (m : TcpManager net) : Type 0 where
    pub known : find id m.cl ≡ some s
    pub own : s.cur_client_id ≡ id
    pub waiting : s.phase ≡ reading_size

  pub deliver_size :
      (n id k : ℕ) (rest : List ℕ) (s : Session net) (m : TcpManager net)
      → Waits id s m
      → k < 2 ^ 32
      → deliver (suc n) id (bytes_of host 4 (u32 k) ++ rest) m
        ≡ deliver n id rest (record m {
          cl =
              assign id
                (record s { size = k; buffer = resize k s.buffer; phase = reading_body })
                m.cl;
        })
  unfolding deliver read_client complete_read on_size_read run_session on_size on_signals
  deliver_size n id k rest s m w small =
      rw
        (
          w.known,
          w.waiting,
          run_session,
          w.known,
          async_read-append 4 (bytes_of host 4 (u32 k)) rest (length-bytes_of host 4 (u32 k)),
          value_of-overlay host k s.size small,
        )
        refl

  deliver_body :
      (n id : ℕ) (packet rest : List ℕ) (s : Session net) (m m' : TcpManager net)
      → find id m.cl ≡ some s
      → s.phase ≡ reading_body
      → s.size ≡ length packet
      → process_tcp net host packet
          (record m { cl = assign id (record s { buffer = packet; phase = reading_size }) m.cl })
        ≡ done m'
      → deliver (suc n) id (packet ++ rest) m ≡ deliver n id rest m'
  unfolding deliver read_client complete_read on_body_read run_session on_body on_signals on_signal
  deliver_body n id packet rest s m m' known reading whole processed =
      rw
        (
          known,
          reading,
          run_session,
          known,
          async_read-append s.size packet rest (sym whole),
          processed,
        )
        refl

  -- A packet that the server can process in every state.
  abbrev pub IsProcessable : List ℕ → Type 0
  IsProcessable packet =
      (m : TcpManager net) → (m' : TcpManager net) × (process_tcp net host packet m ≡ done m')

  -- The same clients after a packet, and the session waits again.
  pub record GoesOn (id : ℕ) (m m' : TcpManager net) : Type 0 where
    pub session : Session net
    pub waits : Waits id session m'
    pub tcp : (k : ℕ) → has k m'.cl ≡ has k m.cl
    pub udp : m'.udp.cl ≡ m.udp.cl

  pub deliver_packet :
      (n id : ℕ) (packet rest : List ℕ) (s : Session net) (m : TcpManager net)
      → Waits id s m
      → length packet < 2 ^ 32
      → IsProcessable packet
      → (m' : TcpManager net) × (deliver (suc (suc n)) id (frame net host packet ++ rest) m
          ≡ deliver n id rest m')
        × GoesOn id m m'
  unfolding frame
  deliver_packet n id packet rest s m w small processable =
      let size : ℕ = length packet in
      let s1 : Session net = record s {
        size = size;
        buffer = resize size s.buffer;
        phase = reading_body;
      } in
      let m1 : TcpManager net = record m { cl = assign id s1 m.cl } in
      let s2 : Session net = record s1 { buffer = packet; phase = reading_size } in
      let m2 : TcpManager net = record m1 { cl = assign id s2 m1.cl } in
      let (m', processed) = processable m2 in
      let same : Same m2 m' = (process_tcp-Same net host packet m2).result m' processed in
      let there : find id m1.cl ≡ some s1 = ground (arith, find-assign id id s1 m.cl) in
      (
        m',
        ap (λ bytes. deliver (suc (suc n)) id bytes m)
              (append_assoc (bytes_of host 4 (u32 size)) packet rest)
            ∙ (deliver_size (suc n) id size (packet ++ rest) s m w small
                ∙ deliver_body n id packet rest s1 m1 m' there refl refl processed),
        record {
          session = s2;
          waits = record {
            known = ap (find id) same.tcp ∙ ground (arith, find-assign id id s2 m1.cl);
            own = w.own;
            waiting = refl;
          };
          tcp = λ k. ap (has k) same.tcp ∙ kept k s1 s2;
          udp = same.udp;
        },
      )
    where
      kept : (k : ℕ) (s1 s2 : Session net) → has k (assign id s2 (assign id s1 m.cl)) ≡ has k m.cl
      kept k s1 s2 =
          ground (arith, w.known, has-assign id k s2 (assign id s1 m.cl), has-assign id k s1 m.cl)

  -- The client `id` is gone from both tables, and all others are where they were.
  abbrev pub Leaves : ℕ → TcpManager net → TcpManager net → Type 0
  Leaves id m m' =
      ((k : ℕ) → has k m'.cl ≡ (if id == k then false else has k m.cl))
      × ((k : ℕ) → has k m'.udp.cl ≡ (if id == k then false else has k m.udp.cl))

  deliver_end :
      (id : ℕ) (rest : List ℕ) (s : Session net) (m : TcpManager net)
      → Waits id s m
      → length rest < 4
      → (m' : TcpManager net) × (deliver 1 id rest m ≡ done m') × Leaves id m m'
  unfolding deliver read_client complete_read step
  deliver_end id rest s m w short =
      let (m', ran, tcp, udp) = end_of_stream-removes net host id s rest m w.known w.own in
      (m', rw (w.known, w.waiting, lt→leb 4 (length rest) short, ran) refl, (tcp, udp))

  deliver-frames :
      (packets : List (List ℕ)) (rest : List ℕ) (id : ℕ) (s : Session net) (m : TcpManager net)
      → Waits id s m
      → All (λ packet. length packet < 2 ^ 32) packets
      → All IsProcessable packets
      → length rest < 4
      → (m' : TcpManager net) × (deliver
            (2 * length packets + 1)
            id
            (frames net host packets ++ rest)
            m
          ≡ done m')
        × Leaves id m m'
  deliver-frames [] rest id s m w small processable short = deliver_end id rest s m w short
  deliver-frames (packet ∷ packets) rest id s m w (fits, small) (can, processable) short =
      let (m1, first, goes_on) =
        deliver_packet (2 * length packets + 1) id packet (frames net host packets ++ rest) s m w
          fits can in
      let (m', others, left) =
        deliver-frames packets rest id goes_on.session m1 goes_on.waits small processable short in
      let rounds : 2 * length (packet ∷ packets) + 1 ≡ suc (suc (2 * length packets + 1)) =
        omega arith in
      (
        m',
        rw (rounds, append_assoc (frame net host packet) (frames net host packets) rest)
            (first ∙ others),
        (
          λ k. left.0 k ∙ ap (λ b. if id == k then false else b) (goes_on.tcp k),
          λ k. left.1 k ∙ ap (λ cl. if id == k then false else has k cl) goes_on.udp,
        ),
      )

  -- A client whose session waits for a frame, and that sends whole packets, each of which the
  -- server can process, and then closes its connection with fewer than four bytes behind the last
  -- one, is gone from both tables after two reads for each packet and one more, and every other
  -- client is where it was. The session has the id that it stands under, and a packet is shorter
  -- than 2 ^ 32 bytes.
  pub visit_ends :
      (packets : List (List ℕ)) (rest : List ℕ) (id : ℕ) (s : Session net) (m : TcpManager net)
      → find id m.cl ≡ some s
      → s.cur_client_id ≡ id
      → s.phase ≡ reading_size
      → All (λ packet. length packet < 2 ^ 32) packets
      → All IsProcessable packets
      → length rest < 4
      → (m' : TcpManager net) × (deliver
            (2 * length packets + 1)
            id
            (frames net host packets ++ rest)
            m
          ≡ done m')
        × Leaves id m m'
  visit_ends packets rest id s m known own waiting =
      deliver-frames packets rest id s m (record { known = known; own = own; waiting = waiting })
