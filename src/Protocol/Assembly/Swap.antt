-- ===== src/Protocol/Assembly/Swap.antt =====
-- Two packets that copy to different places can change places.
use p2p_watcher.Base.{
  ℕ, ◌+◌, ◌≤◌, ◌≡◌, refl, ◌∙◌, sym, List, ◌∷◌, length, none, done, ◌>>=◌, bind-done, arith, ◌⊎◌,
}
use p2p_watcher.Protocol.Packet.{Packet}
use p2p_watcher.Protocol.Assembly.{
  Assembly, copy_into, begin_image, chunk_offset, end_image, assemble, assemble_all,
}
use p2p_watcher.Protocol.Assembly.Copies.{copies_commute, length-copy_into}

-- A packet of an image of `total` bytes that is neither its first nor its last, and copies inside it.
pub record IsMiddle (total : ℕ) (p : Packet) : Type 0 where
  pub not_first : p.header.is_first ≡ 0
  pub not_last : p.header.is_last ≡ 0
  pub inside : chunk_offset p.header.cur_packet_number + length p.buffer ≤ total

abbrev pub place : Packet → ℕ
place p = chunk_offset p.header.cur_packet_number

pub assemble-middle :
    (p : Packet) (s : Assembly) (buffer : List ℕ) {total : ℕ}
    → IsMiddle total p
    → copy_into s.assembly_buffer (place p) p.buffer ≡ done buffer
    → assemble p s ≡ done (record s { assembly_buffer = buffer }, none)
unfolding assemble begin_image end_image
assemble-middle p s buffer m e = rw (m.not_first, m.not_last, e) refl

pub assemble_all-middle :
    (p : Packet) (ps : List Packet) (s s' : Assembly)
    → assemble p s ≡ done (s', none)
    → assemble_all (p ∷ ps) s ≡ assemble_all ps s'
unfolding assemble_all
assemble_all-middle p ps s s' e = rw e (bind-done (assemble_all ps s'))

-- Two packets for different places can change places.
pub assemble_all-swap :
    (p q : Packet) (ps : List Packet) (s : Assembly) {total : ℕ}
    → length s.assembly_buffer ≡ total
    → IsMiddle total p
    → IsMiddle total q
    → (place p + length p.buffer ≤ place q) ⊎ (place q + length q.buffer ≤ place p)
    → assemble_all (p ∷ q ∷ ps) s ≡ assemble_all (q ∷ p ∷ ps) s
assemble_all-swap p q ps s size mp mq apart =
    let buf = s.assembly_buffer in
    let inside_p : place p + length p.buffer ≤ length buf = omega (arith, size, mp.inside) in
    let inside_q : place q + length q.buffer ≤ length buf = omega (arith, size, mq.inside) in
    let (b, wrote, kept) = length-copy_into buf p.buffer (place p) inside_p in
    let (c, wrote', kept') = length-copy_into buf q.buffer (place q) inside_q in
    let (both, wrote_both, _) =
      length-copy_into b q.buffer (place q) (omega (arith, inside_q, kept)) in
    let commuted : copy_into c (place p) p.buffer ≡ done both =
      sym (
        rw (wrote, wrote', ◌>>=◌) at
          (copies_commute buf p.buffer q.buffer (place p) (place q) inside_p inside_q apart))
      ∙ wrote_both in
    let s' : Assembly = record s { assembly_buffer = b } in
    let s'' : Assembly = record s { assembly_buffer = c } in
    let end : Assembly = record s { assembly_buffer = both } in
    assemble_all-middle p (q ∷ ps) s s' (assemble-middle p s b mp wrote)
    ∙ (assemble_all-middle q ps s' end (assemble-middle q s' both mq wrote_both)
        ∙ sym (
            assemble_all-middle q (p ∷ ps) s s'' (assemble-middle q s c mq wrote')
            ∙ assemble_all-middle p ps s'' end (assemble-middle p s'' both mp commuted)))
