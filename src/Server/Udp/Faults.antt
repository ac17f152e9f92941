-- ===== src/Server/Udp/Faults.antt =====
-- What the receive buffer does to an image of one packet that the server takes from its socket.
use p2p_watcher.Base.{
  ℕ, ◌+◌, ◌≤◌, ◌<◌, ◌≡◌, refl, ap, subst, sym, bind-done, map, drop_all, ◌∙◌, List, [], ◌∷◌, length,
  done, fault, false, length-replicate, length-take, ◌++◌, ◌-◌, some, take, length-append,
  append-nil, arith, if◌then◌else◌, ◌>>=◌,
}
use p2p_watcher.Network.{Asio, IsAsio}
use p2p_watcher.Protocol.Wire.{Endian}
use p2p_watcher.Protocol.Packet.{Packet, serialize}
use p2p_watcher.Protocol.Sender.{packets_of}
use p2p_watcher.Protocol.Sender.Single.{one_packet}
use p2p_watcher.Protocol.Sender.Chunks.{expected_packet, expected_packet-IsOwn}
use p2p_watcher.Protocol.Assembly.{Assembly, begin_image, chunk_offset, end_image, idle, assemble}
use p2p_watcher.Protocol.Assembly.Images.{zeros, copy_into-zeros}
use p2p_watcher.Console.{with_number}
use p2p_watcher.Protocol.Assembly.Truncation.{seen_payload}
use p2p_watcher.Protocol.Assembly.Order.{done-injective}
use p2p_watcher.Server.Udp.Images.{receive_all, arrived, receive_datagram-seen}
use p2p_watcher.Server.Udp.Overruns.{receive_all-short_end}
use p2p_watcher.Server.Udp.Relay.{handle_packet-image, image_packet-last}
use p2p_watcher.Server.Udp.{UdpManager, say, broadcast_udp, listen_udp, receive_datagram}

abbrev cut_image : List ℕ → List ℕ
cut_image image = take 1455 image ++ zeros (length image - 1455)

assemble-cut :
    (image : List ℕ) (s : Assembly)
    → 1455 ≤ length image
    → assemble (record (expected_packet 1 (length image) 1 0 image) { buffer = take 1455 image }) s
      ≡ done (idle, some (cut_image image))
unfolding assemble begin_image chunk_offset end_image
assemble-cut image s long =
    let whole : length (take 1455 image) ≡ 1455 = omega (arith, length-take 1455 image) in
    rw (copy_into-zeros [] (take 1455 image) (length image) (omega (arith, whole)), whole) refl

module _ (net : Asio) (assumed : IsAsio net) (host : Endian) where
  -- An image of 1 to 1454 bytes is sent as one packet, and the handler that receives this packet
  -- in its buffer of 1472 bytes writes outside the assembly buffer, in every state.
  pub receive_datagram-small_image :
      (image : List ℕ) (m : UdpManager net)
      → 0 < length image
      → length image < 1455
      → length m.buffer ≡ 1472
      → (p : Packet) × (packets_of 1 image ≡ done (p ∷ []))
        × (receive_datagram net host (serialize host p) m ≡ fault)
  receive_datagram-small_image image m some_left small h =
      let p : Packet = expected_packet 1 (length image) 1 0 image in
      let only = one_packet 1 image some_left (omega arith) in
      let (ps, sent, ran) =
        receive_all-short_end net assumed host image m some_left (omega arith) (omega arith) h in
      let same : ps ≡ p ∷ [] = done-injective ps (p ∷ []) (sym sent ∙ only) in
      (
        p,
        only,
        sym (bind-done (receive_datagram net host (serialize host p) m))
            ∙ subst (λ qs. receive_all net host (map (serialize host) qs) m ≡ fault) same ran,
      )

  -- An image of 1455 to 1472 bytes is sent as one packet, and the handler that receives this
  -- packet in its buffer of 1472 bytes broadcasts the image's first 1455 bytes with zeros in place
  -- of the others, then listens again if the socket is open.
  pub receive_datagram-cut_image :
      (image : List ℕ) (m : UdpManager net)
      → 1455 ≤ length image
      → length image ≤ 1472
      → length m.buffer ≡ 1472
      → (p : Packet) × (packets_of 1 image ≡ done (p ∷ []))
        × (receive_datagram net host (serialize host p) m ≡ (
            broadcast_udp net host 1 (take 1455 image ++ zeros (length image - 1455)) (
              say net (with_number "size=" (length image)) (record m {
                receiving = false;
                buffer = net.receive (serialize host p) m.buffer;
                assembly = idle;
              }))
            >>= λ m'. done (if net.is_open m'.socket then listen_udp net m' else m')))
  receive_datagram-cut_image image m long short h =
      let p : Packet = expected_packet 1 (length image) 1 0 image in
      let own = expected_packet-IsOwn 1 (length image) 1 0 image (omega arith) short in
      let payload : seen_payload p m.buffer ≡ take 1455 image =
        ap (◌++◌ (take 1455 image)) (drop_all (17 + length image) m.buffer (omega (arith, h)))
        ∙ append-nil (take 1455 image) in
      let size : length (cut_image image) ≡ length image = omega (
        arith,
        length-append (take 1455 image) (zeros (length image - 1455)),
        length-take 1455 image,
        length-replicate {A = ℕ} (length image - 1455) 0,
      ) in
      let cut : Packet = record p { buffer = take 1455 image } in
      (
        p,
        one_packet 1 image (omega arith) short,
        rw
            (
              receive_datagram-seen net host assumed p m own.fits h,
              payload,
              handle_packet-image net host cut (arrived net host p m) refl refl,
              image_packet-last net host cut (arrived net host p m) (cut_image image)
                  (assemble-cut image m.assembly long),
              size,
            )
            refl,
      )
