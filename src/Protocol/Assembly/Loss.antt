-- ===== src/Protocol/Assembly/Loss.antt =====
-- Packets that do not arrive, and two images whose packets arrive in turns: the assembly buffer is
-- one for all senders, and nothing counts the packets.
use p2p_watcher.Base.{
  ℕ, suc, zero, ◌+◌, ◌-◌, ◌*◌, ◌/◌, ◌^◌, ◌<◌, ◌≤◌, ◌≡◌, refl, ap, subst, ◌∙◌, sym, List, [], ◌∷◌,
  ◌++◌, length, take, drop, length-append, length-take, length-drop, length-replicate, take_all,
  drop-drop, append_assoc, append-nil, some, done, fault, bind-eq-done, arith, lt→leb,
}
use p2p_watcher.Protocol.Packet.{Packet}
use p2p_watcher.Protocol.Sender.{packets_of}
use p2p_watcher.Protocol.Sender.Chunks.{Carries, packets_of-Carries}
use p2p_watcher.Protocol.Assembly.{
  Assembly, idle, copy_into, begin_image, chunk_offset, assemble, assemble_all,
}
use p2p_watcher.Protocol.Assembly.Images.{
  zeros, filled, Carries-le, assemble_next, end_last, begin_more,
}
use p2p_watcher.Protocol.Assembly.Swap.{assemble_all-middle}
use p2p_watcher.Protocol.Assembly.Order.{
  numbered, first_then, done-injective, in_order, two_or_more,
}

assemble_all-append :
    (ps qs : List Packet) (s s' : Assembly) (images : List (List ℕ))
    → assemble_all ps s ≡ done (s', images)
    → assemble_all qs s' ≡ fault
    → assemble_all (ps ++ qs) s ≡ fault
unfolding assemble_all
assemble_all-append [] qs s s' images e f = let same : s ≡ s' = cc e in rw same f
assemble_all-append (p ∷ ps) qs s s' images e f =
    let (r, now, e') = bind-eq-done (assemble p s) _ e in
    let (r', later, e'') = bind-eq-done (assemble_all ps r.0) _ e' in
    let same : r'.0 ≡ s' = cc e'' in
    rw (now, assemble_all-append ps qs r.0 r'.0 r'.1 later (rw same f)) refl

-- A packet that is not the first of its image, where no image has begun.
assemble-idle : (p : Packet) → p.header.is_first ≡ 0 → 0 < length p.buffer → assemble p idle ≡ fault
unfolding assemble begin_image copy_into
assemble-idle p late some_left =
    rw (late, lt→leb (chunk_offset p.header.cur_packet_number + length p.buffer) 0 (omega arith))
      refl

-- When all packets of one image arrive between the first packet of another and the next one of
-- it, the receiver writes outside its buffer, in any earlier state. Both images have at most
-- 65535 * 1472 bytes, and neither is empty.
pub assemble_all-interleaved :
    (data_type : ℕ) (image other : List ℕ) (s : Assembly) (p r : Packet) (ps qs : List Packet)
    → length image ≤ 65535 * 1472
    → packets_of data_type image ≡ done (p ∷ r ∷ ps)
    → 0 < length other
    → length other ≤ 65535 * 1472
    → packets_of data_type other ≡ done qs
    → assemble_all (p ∷ (qs ++ r ∷ [])) s ≡ fault
assemble_all-interleaved data_type image other s p r ps qs small cut some_left small' cut' =
    let (found, sent, carried) = packets_of-Carries data_type image (omega arith) in
    let known : found ≡ p ∷ r ∷ ps = done-injective found (p ∷ r ∷ ps) (sym sent ∙ cut) in
    let carries =
      subst (Carries data_type (length image) ((length image + 1471) / 1472) 0 image) known
        carried in
    let few : (length image + 1471) / 1472 < 2 ^ 16 = omega (arith, small) in
    let more : 1 < (length image + 1471) / 1472 =
      omega (arith, Carries-le data_type (length image) _ (0 + 1 + 1) _ ps carries.2.2) in
    let (s', began, size, _) = first_then data_type image few p s more carries.1 in
    let late : r.header.is_first ≡ 0 = ap (λ (p : Packet). p.header.is_first) carries.2.1 in
    let not_empty : 0 < length r.buffer = omega (
      arith,
      ap (λ (p : Packet). length p.buffer) carries.2.1,
      length-take 1472 (drop 1472 image),
      carries.2.0,
    ) in
    assemble_all-middle p (qs ++ r ∷ []) s s' began
    ∙ assemble_all-append qs (r ∷ []) s' idle (other ∷ [])
        (in_order data_type other s' qs some_left small' cut')
        (unfold assemble_all in rw (assemble-idle r late not_empty) refl)

zeros-add : (m n : ℕ) → zeros (m + n) ≡ zeros m ++ zeros n
zeros-add zero n = let e : 0 + n ≡ n = omega arith in rw e refl
zeros-add (suc m) n =
    let e : suc m + n ≡ suc (m + n) = omega arith in rw e (ap (◌∷◌ 0) (zeros-add m n))

-- The last of the packets from number `idx` on.
last_numbered :
    (data_type : ℕ) (image : List ℕ) (few : (length image + 1471) / 1472 < 2 ^ 16) (idx : ℕ)
    (ps : List Packet) (q : Packet)
    → Carries data_type
        (length image)
        ((length image + 1471) / 1472)
        idx
        (drop (1472 * idx) image)
        (ps ++ q ∷ [])
    → (k : ℕ) × (k ≡ idx + length ps)
      × (k + 1 ≡ (length image + 1471) / 1472)
      × (q ≡ numbered data_type image few k)
      × (0 < length (drop (1472 * k) image))
last_numbered data_type image few idx [] q (some_left, e, c) = (idx, omega arith, c.1, e, some_left)
last_numbered data_type image few idx (p ∷ ps) q (_, e, c) =
    let later : drop 1472 (drop (1472 * idx) image) ≡ drop (1472 * (idx + 1)) image =
      drop-drop 1472 (1472 * idx) image ∙ ap (λ n. drop n image) (omega arith) in
    let (k, at_k, is_last, known, some_left) =
      last_numbered data_type image few (idx + 1) ps q (rw later at c) in
    (k, omega (arith, at_k), is_last, known, some_left)

-- The receiver does not count packets: where all between the first and the last of an image are
-- lost it still gives an image of the full size, once, with zeros in place of what they carried.
-- The image has at most 65535 * 1472 bytes and takes two packets or more.
pub assemble_all-ends_only :
    (data_type : ℕ) (image : List ℕ) (s : Assembly) (p q : Packet) (ps : List Packet)
    → length image ≤ 65535 * 1472
    → packets_of data_type image ≡ done (p ∷ (ps ++ q ∷ []))
    → assemble_all (p ∷ q ∷ []) s
      ≡ done (
        idle,
        ((take 1472 image ++ zeros (1472 * length ps)) ++ drop (1472 * (length ps + 1)) image) ∷ [],
      )
unfolding assemble_all
assemble_all-ends_only data_type image s p q ps small cut =
    let (found, sent, carried) = packets_of-Carries data_type image (omega arith) in
    let known : found ≡ p ∷ (ps ++ q ∷ []) =
      done-injective found (p ∷ (ps ++ q ∷ [])) (sym sent ∙ cut) in
    let carries =
      subst (Carries data_type (length image) ((length image + 1471) / 1472) 0 image) known
        carried in
    let few : (length image + 1471) / 1472 < 2 ^ 16 = omega (arith, small) in
    let more = two_or_more data_type (length image) _ image p q ps carries in
    let (s', began, size, begun) = first_then data_type image few p s more carries.1 in
    let (k, at_k, is_last, known_q, some_left) =
      last_numbered data_type image few 1 ps q carries.2 in
    let start = take 1472 image ++ zeros (1472 * length ps) in
    let piece = take 1472 (drop (1472 * k) image) in
    let missing = length (drop (1472 * k) image) in
    let at : 1472 * k ≡ 1472 * (length ps + 1) = omega (arith, at_k) in
    let whole : piece ≡ drop (1472 * k) image =
      take_all 1472 (drop (1472 * k) image)
        (omega (arith, length-drop (1472 * k) image, is_last)) in
    let length_start : length start ≡ 1472 * k = omega (
      arith,
      at_k,
      length-append (take 1472 image) (zeros (1472 * length ps)),
      length-take 1472 image,
      length-replicate {A = ℕ} (1472 * length ps) 0,
      more,
    ) in
    let left : length image - length (take 1472 image) ≡ 1472 * length ps + missing =
      omega (arith, at_k, length-take 1472 image, length-drop (1472 * k) image, more, some_left) in
    let same : s' ≡ filled (length image) start missing =
      begun
      ∙ ap (λ b. record { assembly_buffer = b; assembly_total_size = length image })
          ((rw (left, zeros-add (1472 * length ps) missing)
            (sym (append_assoc (take 1472 image) (zeros (1472 * length ps)) (zeros missing))))) in
    let none_left : missing - length piece ≡ 0 = omega (arith, ap length whole) in
    let assembled : assemble q s'
        ≡ done (idle, some (start ++ drop (1472 * (length ps + 1)) image)) =
      ap (λ q. assemble q s') known_q
      ∙ (assemble_next data_type (length image) _ few k missing s' start piece
            (omega (arith, is_last)) length_start (omega (arith, ap length whole))
            (begin_more data_type (length image) _ few k s' piece (omega (arith, at_k)) ∙ same)
          ∙ (ap done (
                end_last data_type (length image) _ few k
                  (filled (length image) (start ++ piece) (missing - length piece)) piece is_last)
              ∙ ap (λ b. done (idle, some b))
                  ((rw (none_left, append-nil (start ++ piece), whole, at) refl)))) in
    rw (began, assembled) refl
