-- ===== src/Protocol/Sender/Single.antt =====
-- A payload of one packet, and the first packet of a longer one.
use p2p_watcher.Base.{
  ℕ, ◌+◌, ◌/◌, ◌^◌, ◌<◌, ◌≤◌, ◌≡◌, refl, ap, ◌∙◌, List, [], ◌∷◌, length, take, drop, take_all,
  drop_all, done, arith,
}
use p2p_watcher.Protocol.Packet.{Packet}
use p2p_watcher.Protocol.Sender.{packets_of}
use p2p_watcher.Protocol.Sender.Chunks.{Carries, expected_packet, packets_of-Carries}

-- The empty rest is carried by no packet.
Carries-nil :
    (data_type total cnt idx : ℕ) (ps : List Packet)
    → Carries data_type total cnt idx [] ps
    → ps ≡ []
Carries-nil data_type total cnt idx [] c = refl
Carries-nil data_type total cnt idx (p ∷ ps) c = absurd (omega (arith, c.0))

module _ (data_type : ℕ) (buf : List ℕ) (some_left : 0 < length buf) where
  -- The first packet of a payload.
  pub first_packet :
      length buf < 2 ^ 31
      → (ps : List Packet) × (packets_of data_type buf
          ≡ done (
              expected_packet data_type (length buf) ((length buf + 1471) / 1472) 0 (take 1472 buf)
              ∷ ps))
        × Carries data_type (length buf) ((length buf + 1471) / 1472) 1 (drop 1472 buf) ps
  first_packet small =
      let (ps, sent, carried) = packets_of-Carries data_type buf small in first ps sent carried
    where
      first :
          (ps : List Packet)
          → packets_of data_type buf ≡ done ps
          → Carries data_type (length buf) ((length buf + 1471) / 1472) 0 buf ps
          → (qs : List Packet) × (packets_of data_type buf
              ≡ done (
                  expected_packet data_type
                    (length buf)
                    ((length buf + 1471) / 1472)
                    0
                    (take 1472 buf)
                  ∷ qs))
            × Carries data_type (length buf) ((length buf + 1471) / 1472) 1 (drop 1472 buf) qs
      first [] sent c = absurd (omega (arith, ap length c.0))
      first (p ∷ qs) sent (_, e, c) = (qs, sent ∙ ap (λ q. done (q ∷ qs)) e, c)

  -- A payload that fits one packet is sent as that packet.
  pub one_packet :
      length buf ≤ 1472
      → packets_of data_type buf ≡ done (expected_packet data_type (length buf) 1 0 buf ∷ [])
  one_packet short =
      let (ps, sent, carried) = first_packet (omega arith) in
      let one : (length buf + 1471) / 1472 ≡ 1 = omega arith in
      let only : ps ≡ [] =
        Carries-nil data_type (length buf) ((length buf + 1471) / 1472) 1 ps
          (rw (drop_all 1472 buf short) at carried) in
      rw (one, take_all 1472 buf short, only) at sent
