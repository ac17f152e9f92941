-- ===== src/Server/Udp/Messages.antt =====
-- The server takes a text message from its UDP socket.
use p2p_watcher.Base.{
  ℕ, ◌+◌, ◌/◌, ◌^◌, ◌<◌, ◌≤◌, ◌≡◌, refl, ap, ◌∙◌, List, [], ◌∷◌, ◌++◌, length, take, drop, done,
  fault, ◌>>=◌, take_all, drop_all, take-append, append-nil, length-append, length-take, arith,
}
use p2p_watcher.Console.{with_bytes}
use p2p_watcher.Network.{Asio, IsAsio}
use p2p_watcher.Protocol.Wire.{Endian, u32, htonl}
use p2p_watcher.Protocol.Wire.Laws.{length-bytes_of}
use p2p_watcher.Protocol.Packet.{Packet, serialize}
use p2p_watcher.Protocol.GroupData.{
  TestMessage, serialize_message, deserialize_message, net as net_bytes,
}
use p2p_watcher.Protocol.GroupData.RoundTrip.{
  length-serialize_message, deserialize_message-serialize, deserialize_message_overrun,
}
use p2p_watcher.Protocol.Sender.{packets_of}
use p2p_watcher.Protocol.Sender.Single.{first_packet, one_packet}
use p2p_watcher.Protocol.Sender.Chunks.{IsOwn, expected_packet, expected_packet-IsOwn}
use p2p_watcher.Protocol.Assembly.Truncation.{seen_payload}
use p2p_watcher.Server.Udp.Images.{arrived, again, again-idle, receive_datagram-seen}
use p2p_watcher.Server.Udp.{UdpManager, say, handle_packet, message_packet, receive_datagram}

-- What comes in of the first packet of a long message.
long_start :
    (front text buffer : List ℕ)
    → length front ≡ 4
    → 1451 < length text
    → length buffer ≡ 1472
    → take 1455 (take 1472 (front ++ text)) ++ drop (17 + length (take 1472 (front ++ text))) buffer
      ≡ front ++ take 1451 (take 1468 text)
long_start front text buffer four long size =
    let whole : ◌≡◌ {A = ℕ} 1472 (length front + 1468) = omega (arith, four) in
    let seen : ◌≡◌ {A = ℕ} 1455 (length front + 1451) = omega (arith, four) in
    let filled : length buffer ≤ 17 + length (take 1472 (front ++ text)) =
      omega (arith, size, length-take 1472 (front ++ text), length-append front text, four) in
    rw (drop_all _ buffer filled, append-nil (take 1455 (take 1472 (front ++ text))))
      (ap (λ n. take 1455 (take n (front ++ text))) whole
        ∙ (ap (take 1455) (take-append front text 1468)
            ∙ (ap (λ n. take n (front ++ take 1468 text)) seen
                ∙ take-append front (take 1468 text) 1451)))

module _ (net : Asio) (host : Endian) where
  handle_packet-message :
      (p : Packet) (m : UdpManager net)
      → p.header.server_hash ≡ 1337
      → p.d_type ≡ 0
      → handle_packet net host p m ≡ message_packet net host p m
  unfolding handle_packet
  handle_packet-message p m hash kind = rw (hash, kind) refl

  -- What the handler makes of the first packet of a message.
  module _ (assumed : IsAsio net) (p : Packet) (m : UdpManager net) (own : IsOwn 0 p)
      (size : length m.buffer ≡ 1472) where
    message_seen : receive_datagram net host (serialize host p) m ≡ (
        (deserialize_message host (seen_payload p m.buffer) >>= λ s.
        done (say net (with_bytes "message=" s.message) (arrived net host p m)))
        >>= again net host)
    unfolding message_packet
    message_seen =
        let seen : Packet = record p { buffer = seen_payload p m.buffer } in
        receive_datagram-seen net host assumed p m own.fits size
        ∙ ap (λ x. x >>= again net host)
            (handle_packet-message seen (arrived net host p m) own.hash own.kind)

  module _ (assumed : IsAsio net) (text : TestMessage) (m : UdpManager net)
      (size : length m.buffer ≡ 1472) where
    -- A message of at most 1451 bytes is sent as one datagram. The server that receives it in its
    -- buffer of 1472 bytes, on a host of the same byte order, logs the text and changes nothing else
    -- but what is in that buffer; it listens again if the socket is open.
    pub receive_datagram-message :
        length text.message ≤ 1451
        → (p : Packet) × (packets_of 0 (serialize_message host text) ≡ done (p ∷ []))
          × (receive_datagram net host (serialize host p) m
              ≡ done (
                  say net (with_bytes "message=" text.message) (record m {
                    receiving = net.is_open m.socket;
                    buffer = net.receive (serialize host p) m.buffer;
                  })))
    receive_datagram-message short =
        let bytes : List ℕ = serialize_message host text in
        let whole = length-serialize_message host host text in
        let p : Packet = expected_packet 0 (length bytes) 1 0 bytes in
        let read =
          deserialize_message-serialize host host text (drop (17 + length bytes) m.buffer)
            (omega arith) in
        let own = expected_packet-IsOwn 0 (length bytes) 1 0 bytes (omega arith) (omega arith) in
        (
          p,
          one_packet 0 bytes (omega arith) (omega arith),
          rw (message_seen assumed p m own size, take_all 1455 bytes (omega arith), read)
              (again-idle net host
                (say net (with_bytes "message=" text.message) (arrived net host p m))),
        )

    -- A message of more than 1451 bytes is sent as one or more datagrams. The server that receives
    -- the first of them in its buffer of 1472 bytes, on a host of the same byte order, reads outside
    -- the payload that is left of it. The message is shorter than 2 ^ 31 - 4 bytes.
    pub receive_datagram-long_message :
        1451 < length text.message
        → 4 + length text.message < 2 ^ 31
        → (p : Packet) × (ps : List Packet) × (packets_of 0 (serialize_message host text)
            ≡ done (p ∷ ps))
          × (receive_datagram net host (serialize host p) m ≡ fault)
    unfolding serialize_message
    receive_datagram-long_message long small =
        let front : List ℕ = net_bytes host (u32 (length text.message)) in
        let promised : u32 (length text.message) ≡ length text.message = omega arith in
        let bytes : List ℕ = serialize_message host text in
        let whole = length-serialize_message host host text in
        let piece : List ℕ = take 1472 bytes in
        let p : Packet = expected_packet 0 (length bytes) ((length bytes + 1471) / 1472) 0 piece in
        let (ps, sent, _) = first_packet 0 bytes (omega arith) (omega arith) in
        let own =
          expected_packet-IsOwn 0 (length bytes) _ 0 piece (omega arith)
            (omega (arith, length-take 1472 bytes)) in
        (
          p,
          ps,
          sent,
          rw
              (
                message_seen assumed p m own size,
                long_start front text.message m.buffer
                    (length-bytes_of host 4 (htonl host (u32 (length text.message)))) long size,
                promised,
                deserialize_message_overrun host host (length text.message)
                    (take 1451 (take 1468 text.message)) (omega arith)
                    (omega (arith, length-take 1451 (take 1468 text.message))),
              )
              refl,
        )
