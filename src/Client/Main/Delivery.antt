-- ===== src/Client/Main/Delivery.antt =====
-- What the datagrams of a click on `send` make a server do that receives them.
use p2p_watcher.Base.{
  ℕ, ◌*◌, ◌-◌, ◌%◌, ◌≤◌, ◌≡◌, refl, ap, ap₂, subst, sym, ◌∙◌, true, List, [], ◌∷◌, ◌++◌, length,
  map, done, ◌>>=◌, arith,
}
use p2p_watcher.Console.{with_number, with_bytes}
use p2p_watcher.Network.{Asio, IsAsio}
use p2p_watcher.Network.Receiving.{length-receive}
use p2p_watcher.Protocol.Wire.{Endian}
use p2p_watcher.Protocol.Packet.{Packet, serialize}
use p2p_watcher.Protocol.Sender.{packets_of}
use p2p_watcher.Protocol.Assembly.{idle}
use p2p_watcher.Protocol.Assembly.Cutting.{cut_from}
use p2p_watcher.Protocol.Assembly.Order.{done-injective}
use p2p_watcher.Server.Logger.{info, log}
use p2p_watcher.Server.Udp.{UdpManager, say}
use p2p_watcher.Server.Udp.Relay.{Addressed, all_datagrams}
use p2p_watcher.Server.Udp.Images as ServerImages
use p2p_watcher.Server.Udp.Images.{image_relayed}
use p2p_watcher.Server.Udp.Messages.{receive_datagram-message}
use p2p_watcher.Client.Headers.{serialize_message}
use p2p_watcher.Client.Main.{sent_message}

module _ (net : Asio) (host : Endian) where
  -- A server that received the datagrams of `ps` has logged the text of the message and the size of
  -- the image, has sent the packets `rs` to each client in turn, and waits for the next image.
  abbrev pub Forwards : List Packet → List Packet → ℕ → List ℕ → UdpManager net → Type 0
  Forwards ps rs size addresses m =
      (m' : UdpManager net) × (ServerImages.receive_all net host (map (serialize host) ps) m
        ≡ done m')
      × (m'.sent ≡ m.sent ++ all_datagrams net host rs m.cl addresses)
      × (m'.console
          ≡ log (with_number "size=" size) info
              (log (with_bytes "message=" sent_message.message) info m.console))
      × (m'.assembly ≡ idle)
      × (m'.receiving ≡ true)

module _ (net : Asio) (assumed : IsAsio net) (host : Endian) where
  module _ (img : List ℕ) (small : length img ≤ 65535 * 1472)
      (long : 1454 ≤ (length img - 1) % 1472) where
    -- The message and the image, one after the other.
    pub delivered :
        (ps qs rs : List Packet) (addresses : List ℕ) (m : UdpManager net)
        → length m.buffer ≡ 1472
        → packets_of 0 (serialize_message host sent_message) ≡ done ps
        → packets_of 1 img ≡ done qs
        → packets_of 1 (cut_from 0 img) ≡ done rs
        → net.is_open m.socket ≡ true
        → Addressed net host m.cl addresses
        → Forwards net host (ps ++ qs) rs (length img) addresses m
    unfolding serialize_message
    delivered ps qs rs addresses m size sent sent' resent opened known =
        let (p, one, logged) =
          receive_datagram-message net host assumed sent_message m size (omega arith) in
        let m' : UdpManager net = say net (with_bytes "message=" sent_message.message) (record m {
          receiving = net.is_open m.socket;
          buffer = net.receive (serialize host p) m.buffer;
        }) in
        let (found, sent'', b, ran) =
          image_relayed net host assumed img small long rs addresses m'
            (length-receive net assumed (serialize host p) m.buffer ∙ size) resent opened known in
        subst (λ xs. Forwards net host xs rs (length img) addresses m)
          (ap₂ ◌++◌ (done-injective (p ∷ []) ps (sym one ∙ sent))
            (done-injective found qs (sym sent'' ∙ sent')))
          (
            record (say net (with_number "size=" (length img)) m') {
              receiving = net.is_open m.socket;
              buffer = b;
              assembly = idle;
              sent = m.sent ++ all_datagrams net host rs m.cl addresses;
            },
            ap (λ x. x >>= ServerImages.receive_all net host (map (serialize host) found)) logged
                ∙ ran,
            refl,
            refl,
            refl,
            opened,
          )
