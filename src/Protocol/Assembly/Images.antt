-- ===== src/Protocol/Assembly/Images.antt =====
-- The packets of an image, received whole and in order, give the image back.
use p2p_watcher.Base.{
  ℕ, suc, zero, ◌+◌, ◌-◌, ◌*◌, ◌/◌, ◌^◌, ◌<◌, ◌≤◌, ◌≡◌, refl, ap, subst, ◌∙◌, List, [], ◌∷◌, ◌++◌,
  length, take, drop, replicate, length-append, length-replicate, length-take, length-drop,
  take-length-append, drop-append, take-append-drop, append_assoc, le→leb, none, some, done, arith,
}
use p2p_watcher.Protocol.Wire.{u16}
use p2p_watcher.Protocol.Packet.{Packet}
use p2p_watcher.Protocol.Sender.{packets_of}
use p2p_watcher.Protocol.Sender.Chunks.{Carries, expected_packet, packets_of-Carries}
use p2p_watcher.Protocol.Assembly.{
  Assembly, idle, copy_into, begin_image, chunk_offset, end_image, assemble, assemble_all,
}

abbrev pub zeros : ℕ → List ℕ
zeros n = replicate n 0

drop-zeros : (n k : ℕ) → drop n (zeros k) ≡ zeros (k - n)
drop-zeros zero k = let e : k - 0 ≡ k = omega arith in rw e refl
drop-zeros (suc n) zero = let e : 0 - suc n ≡ 0 = omega arith in rw e refl
drop-zeros (suc n) (suc k) = let e : suc k - suc n ≡ k - n = omega arith in rw e (drop-zeros n k)

-- A copy behind what is filled in extends it.
pub copy_into-zeros :
    (pre xs : List ℕ) (k : ℕ)
    → length xs ≤ k
    → copy_into (pre ++ zeros k) (length pre) xs ≡ done ((pre ++ xs) ++ zeros (k - length xs))
unfolding copy_into
copy_into-zeros pre xs k h =
    let fits : length pre + length xs ≤ length (pre ++ zeros k) =
      omega (arith, length-append pre (zeros k), length-replicate {A = ℕ} k 0) in
    rw
      (
        le→leb _ _ fits,
        take-length-append pre (zeros k),
        drop-append pre (zeros k) (length xs),
        drop-zeros (length xs) k,
        append_assoc pre xs (zeros (k - length xs)),
      )
      refl

pub chunk_offset_lem : (idx : ℕ) → idx + 1 < 2 ^ 16 → chunk_offset (u16 (idx + 1)) ≡ 1472 * idx
unfolding chunk_offset
chunk_offset_lem idx h = omega arith

pub Carries-le :
    (data_type total cnt idx : ℕ) (rest : List ℕ) (ps : List Packet)
    → Carries data_type total cnt idx rest ps
    → idx ≤ cnt
Carries-le data_type total cnt idx rest [] c = omega arith
Carries-le data_type total cnt idx rest (p ∷ ps) c =
    omega (arith, Carries-le data_type total cnt (idx + 1) (drop 1472 rest) ps c.2)

-- The packets `ps` complete `image`, with the last of them, and nothing before it.
abbrev pub Completes : List ℕ → List Packet → Assembly → Type 0
Completes image [] s = ⊥
Completes image (p ∷ []) s = assemble p s ≡ done (idle, some image)
Completes image (p ∷ q ∷ ps) s =
    (s' : Assembly) × (assemble p s ≡ done (s', none)) × Completes image (q ∷ ps) s'

assemble_all-Completes :
    (image : List ℕ) (ps : List Packet) (s : Assembly)
    → Completes image ps s
    → assemble_all ps s ≡ done (idle, image ∷ [])
unfolding assemble_all
assemble_all-Completes image [] s c = absurd c
assemble_all-Completes image (p ∷ []) s c = rw c refl
assemble_all-Completes image (p ∷ q ∷ ps) s (s', e, c) =
    next s' e (assemble_all-Completes image (q ∷ ps) s' c)
  where
    next :
        (s' : Assembly)
        → assemble p s ≡ done (s', none)
        → assemble_all (q ∷ ps) s' ≡ done (idle, image ∷ [])
        → assemble_all (p ∷ q ∷ ps) s ≡ done (idle, image ∷ [])
    next s' e f = rw e (rw f refl)

-- The buffer while an image of `total` bytes comes in, of which `pre` is there.
abbrev pub filled : ℕ → List ℕ → ℕ → Assembly
filled total pre missing = record {
  assembly_buffer = pre ++ zeros missing;
  assembly_total_size = total;
}

module _ (data_type total cnt : ℕ) (few : cnt < 2 ^ 16) where
  pub assemble_next :
      (idx missing : ℕ) (s : Assembly) (pre piece : List ℕ)
      → idx < cnt
      → length pre ≡ 1472 * idx
      → length piece ≤ missing
      → begin_image (expected_packet data_type total cnt idx piece) s ≡ filled total pre missing
      → assemble (expected_packet data_type total cnt idx piece) s
        ≡ done (
            end_image
              (expected_packet data_type total cnt idx piece)
              (filled total (pre ++ piece) (missing - length piece)))
  unfolding assemble
  assemble_next idx missing s pre piece left at_idx fits begun =
      rw
        (
          begun,
          chunk_offset_lem idx (omega arith),
          ← at_idx,
          copy_into-zeros pre piece missing fits,
        )
        refl

  pub end_last :
      (idx : ℕ) (s : Assembly) (piece : List ℕ)
      → idx + 1 ≡ cnt
      → end_image (expected_packet data_type total cnt idx piece) s ≡ (idle, some s.assembly_buffer)
  unfolding end_image
  end_last idx s piece h = ground arith

  pub end_more :
      (idx : ℕ) (s : Assembly) (piece : List ℕ)
      → idx + 1 < cnt
      → end_image (expected_packet data_type total cnt idx piece) s ≡ (s, none)
  unfolding end_image
  end_more idx s piece h = ground arith

  pub begin_more :
      (idx : ℕ) (s : Assembly) (piece : List ℕ)
      → 0 < idx
      → begin_image (expected_packet data_type total cnt idx piece) s ≡ s
  unfolding begin_image
  begin_more idx s piece h = ground arith

  pub begin_first :
      (s : Assembly) (piece : List ℕ)
      → begin_image (expected_packet data_type total cnt 0 piece) s ≡ filled total [] total
  unfolding begin_image
  begin_first s piece = refl

  join_pieces : (pre rest : List ℕ) → (pre ++ take 1472 rest) ++ drop 1472 rest ≡ pre ++ rest
  join_pieces pre rest =
      append_assoc pre (take 1472 rest) (drop 1472 rest)
      ∙ ap (◌++◌ pre) (take-append-drop 1472 rest)

  -- The packets from number `idx` on, once the one of that number finds the buffer as it should.
  assemble_rest :
      (ps : List Packet) (idx : ℕ) (s : Assembly) (pre rest : List ℕ)
      → Carries data_type total cnt idx rest ps
      → 0 < length rest
      → length pre ≡ 1472 * idx
      → begin_image (expected_packet data_type total cnt idx (take 1472 rest)) s
        ≡ filled total pre (length rest)
      → Completes (pre ++ rest) ps s
  assemble_rest [] idx s pre rest c some_left at_idx begun =
      absurd (omega (arith, ap length c.0, some_left))
  assemble_rest (p ∷ []) idx s pre rest (_, e, (rest_nil, last)) some_left at_idx begun =
      let piece : List ℕ = take 1472 rest in
      let fits : length piece ≤ length rest = omega (arith, length-take 1472 rest) in
      let none_left : length rest - length piece ≡ 0 =
        omega (arith, length-take 1472 rest, length-drop 1472 rest, ap length rest_nil) in
      rw (e, ← join_pieces pre rest, rest_nil)
        (assemble_next idx (length rest) s pre piece (omega arith) at_idx fits begun
          ∙ (ap done (end_last idx _ piece last)
              ∙ ap (λ n. done (idle, some ((pre ++ piece) ++ zeros n))) none_left))
  assemble_rest (p ∷ q ∷ ps) idx s pre rest (_, e, c) some_left at_idx begun =
      let piece : List ℕ = take 1472 rest in
      let further =
        Carries-le data_type total cnt (idx + 1 + 1) (drop 1472 (drop 1472 rest)) ps c.2 in
      let fits : length piece ≤ length rest = omega (arith, length-take 1472 rest) in
      let remain : length rest - length piece ≡ length (drop 1472 rest) =
        omega (arith, length-take 1472 rest, length-drop 1472 rest) in
      let s' : Assembly = filled total (pre ++ piece) (length (drop 1472 rest)) in
      let at_next : length (pre ++ piece) ≡ 1472 * (idx + 1) =
        omega (arith, length-append pre piece, length-take 1472 rest, length-drop 1472 rest, c.0) in
      rw e (
        s',
        assemble_next idx (length rest) s pre piece (omega arith) at_idx fits begun
            ∙ (ap done (end_more idx _ piece (omega (arith, further)))
                ∙ ap (λ n. done (filled total (pre ++ piece) n, none)) remain),
        subst (λ image. Completes image (q ∷ ps) s') (join_pieces pre rest)
            (assemble_rest (q ∷ ps) (idx + 1) s' (pre ++ piece) (drop 1472 rest) c c.0 at_next
              (begin_more (idx + 1) s' (take 1472 (drop 1472 rest)) (omega arith))),
      )

-- As `Carries` describes them, the packets of a whole image complete it.
pub Completes-Carries :
    (data_type : ℕ) (image : List ℕ) (s : Assembly) (ps : List Packet)
    → 0 < length image
    → length image ≤ 65535 * 1472
    → Carries data_type (length image) ((length image + 1471) / 1472) 0 image ps
    → Completes image ps s
Completes-Carries data_type image s ps some_left small carried =
    let cnt : ℕ = (length image + 1471) / 1472 in
    let few : cnt < 2 ^ 16 = omega arith in
    assemble_rest data_type (length image) cnt few ps 0 s [] image carried some_left refl
      (begin_first data_type (length image) cnt few s (take 1472 image))

-- The packets of an image of 1 to 65535 * 1472 bytes, taken in order by a receiver in any state,
-- give exactly that image, once, and leave the receiver idle.
pub assemble_all-packets_of :
    (data_type : ℕ) (image : List ℕ) (s : Assembly)
    → 0 < length image
    → length image ≤ 65535 * 1472
    → (ps : List Packet) × (packets_of data_type image ≡ done ps)
      × (assemble_all ps s ≡ done (idle, image ∷ []))
assemble_all-packets_of data_type image s some_left small =
    let (ps, sent, carried) = packets_of-Carries data_type image (omega arith) in
    (
      ps,
      sent,
      assemble_all-Completes image ps s
          (Completes-Carries data_type image s ps some_left small carried),
    )
