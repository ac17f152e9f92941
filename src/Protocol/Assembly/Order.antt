-- ===== src/Protocol/Assembly/Order.antt =====
-- The order in which the packets of an image arrive.
use mathlib.Core.List.{Perm, Permᴰ}
use mathlib.Core.Logic.{∥∥₁_elim}
use p2p_watcher.Base.{
  ℕ, ◌+◌, ◌-◌, ◌*◌, ◌/◌, ◌^◌, ◌<◌, ◌≤◌, ◌≡◌, refl, ap, subst, ◌∙◌, sym, List, [], ◌∷◌, ◌++◌, length,
  take, drop, length-append, length-take, length-replicate, none, Outcome, done, arith, ◌⊎◌, inl,
  inr, All,
}
use p2p_watcher.Protocol.Packet.{Packet}
use p2p_watcher.Protocol.Sender.{packets_of}
use p2p_watcher.Protocol.Sender.Chunks.{Carries, expected_packet, packets_of-Carries}
use p2p_watcher.Protocol.Assembly.{Assembly, idle, assemble, assemble_all}
use p2p_watcher.Protocol.Assembly.Images.{
  zeros, filled, Carries-le, assemble_next, end_more, begin_first, chunk_offset_lem,
  assemble_all-packets_of,
}
use p2p_watcher.Protocol.Assembly.Copies.{length-copy_into}
use p2p_watcher.Protocol.Assembly.Swap.{
  IsMiddle, place, assemble-middle, assemble_all-middle, assemble_all-swap,
}
use p2p_watcher.Base.{drop-drop}

module _ (data_type : ℕ) (image : List ℕ) (few : (length image + 1471) / 1472 < 2 ^ 16) where
  -- The packet of number `idx`, counted from 0.
  abbrev pub numbered : ℕ → Packet
  numbered idx =
      expected_packet data_type (length image) ((length image + 1471) / 1472) idx
        (take 1472 (drop (1472 * idx) image))

  -- One of the packets between the first and the last.
  record IsBetween (p : Packet) : Type 0 where
    idx : ℕ
    after_first : 0 < idx
    before_last : idx + 1 < (length image + 1471) / 1472
    known : p ≡ numbered idx

  numbered-place : (idx : ℕ) → idx + 1 < 2 ^ 16 → place (numbered idx) ≡ 1472 * idx
  numbered-place idx h = chunk_offset_lem idx h

  IsBetween-IsMiddle : (p : Packet) → IsBetween p → IsMiddle (length image) p
  IsBetween-IsMiddle p b = rw b.known (record {
    not_first = ground (arith, b.after_first);
    not_last = ground (arith, b.before_last);
    inside = omega (
      arith,
      few,
      b.before_last,
      numbered-place b.idx (omega (arith, few, b.before_last)),
      length-take 1472 (drop (1472 * b.idx) image),
    );
  })

  order_cases : (m n : ℕ) → (m ≡ n) ⊎ ((m < n) ⊎ (n < m))
  order_cases m n = ground arith

  assemble_all-exchange :
      (p q : Packet) (ps : List Packet) (s : Assembly)
      → length s.assembly_buffer ≡ length image
      → IsBetween p
      → IsBetween q
      → assemble_all (p ∷ q ∷ ps) s ≡ assemble_all (q ∷ p ∷ ps) s
  assemble_all-exchange p q ps s size bp bq =
      let mp = IsBetween-IsMiddle p bp in
      let mq = IsBetween-IsMiddle q bq in
      let at_p : place p ≡ 1472 * bp.idx =
        ap place bp.known ∙ numbered-place bp.idx (omega (arith, few, bp.before_last)) in
      let at_q : place q ≡ 1472 * bq.idx =
        ap place bq.known ∙ numbered-place bq.idx (omega (arith, few, bq.before_last)) in
      let size_p : length p.buffer ≤ 1472 = omega (
        arith,
        length-take 1472 (drop (1472 * bp.idx) image),
        ap (λ (r : Packet). length r.buffer) bp.known,
      ) in
      let size_q : length q.buffer ≤ 1472 = omega (
        arith,
        length-take 1472 (drop (1472 * bq.idx) image),
        ap (λ (r : Packet). length r.buffer) bq.known,
      ) in
      elim (order_cases bp.idx bq.idx) [
        | inl e ↦ let same : p ≡ q = bp.known ∙ (ap numbered e ∙ sym bq.known) in rw same refl
        | inr (inl h) ↦
            assemble_all-swap p q ps s size mp mq (inl (omega (arith, at_p, at_q, size_p, h)))
        | inr (inr h) ↦
            assemble_all-swap p q ps s size mp mq (inr (omega (arith, at_p, at_q, size_q, h)))
      ]

  All-perm : {ps qs : List Packet} → Permᴰ ps qs → All IsBetween ps → All IsBetween qs
  All-perm Permᴰ.nil h = h
  All-perm (Permᴰ.cons e d) (b, h) = (subst IsBetween e b, All-perm d h)
  All-perm (Permᴰ.swap e e') (b, (b', h)) = (subst IsBetween e' b', (subst IsBetween e b, h))
  All-perm (Permᴰ.trans d d') h = All-perm d' (All-perm d h)

  assemble_all-perm :
      {ps qs : List Packet} (rest : List Packet) (s : Assembly)
      → Permᴰ ps qs
      → length s.assembly_buffer ≡ length image
      → All IsBetween ps
      → assemble_all (ps ++ rest) s ≡ assemble_all (qs ++ rest) s
  assemble_all-perm rest s Permᴰ.nil size h = refl
  assemble_all-perm rest s (Permᴰ.cons {a} {b} {l₁} {l₂} e d) size (bp, h) =
      let mp = IsBetween-IsMiddle a bp in
      let (buffer, wrote, kept) =
        length-copy_into s.assembly_buffer a.buffer (place a) (omega (arith, size, mp.inside)) in
      let s' : Assembly = record s { assembly_buffer = buffer } in
      assemble_all-middle a (l₁ ++ rest) s s' (assemble-middle a s buffer mp wrote)
      ∙ (assemble_all-perm rest s' d (kept ∙ size) h
          ∙ (sym (assemble_all-middle a (l₂ ++ rest) s s' (assemble-middle a s buffer mp wrote))
              ∙ ap (λ p. assemble_all (p ∷ l₂ ++ rest) s) e))
  assemble_all-perm rest s (Permᴰ.swap {a} {b} {a'} {b'} {l} e e') size (bp, (bq, h)) =
      assemble_all-exchange a b (l ++ rest) s size bp bq
      ∙ (ap (λ p. assemble_all (p ∷ a ∷ l ++ rest) s) e'
          ∙ ap (λ p. assemble_all (a' ∷ p ∷ l ++ rest) s) e)
  assemble_all-perm rest s (Permᴰ.trans d d') size h =
      assemble_all-perm rest s d size h ∙ assemble_all-perm rest s d' size (All-perm d h)

  -- The packets before the last of a run lie between the first and the last.
  Carries-IsBetween :
      (idx : ℕ) (ps : List Packet) (q : Packet)
      → 0 < idx
      → Carries data_type
          (length image)
          ((length image + 1471) / 1472)
          idx
          (drop (1472 * idx) image)
          (ps ++ q ∷ [])
      → All IsBetween ps
  Carries-IsBetween idx [] q h c = tt
  Carries-IsBetween idx (p ∷ []) q h (_, e, c) = (
    record {
      idx = idx;
      after_first = h;
      before_last =
          omega (arith, c.0, Carries-le data_type (length image) _ (idx + 1 + 1) _ [] c.2);
      known = e;
    },
    tt,
  )
  Carries-IsBetween idx (p ∷ r ∷ ps) q h (_, e, c) =
      let later : drop 1472 (drop (1472 * idx) image) ≡ drop (1472 * (idx + 1)) image =
        drop-drop 1472 (1472 * idx) image ∙ ap (λ n. drop n image) (omega arith) in
      (
        record {
          idx = idx;
          after_first = h;
          before_last =
              omega
                (arith, Carries-le data_type (length image) _ (idx + 1 + 1) _ (ps ++ q ∷ []) c.2);
          known = e;
        },
        Carries-IsBetween (idx + 1) (r ∷ ps) q (omega arith) (rw later at c),
      )

  pub first_then :
      (p : Packet) (s : Assembly)
      → 1 < (length image + 1471) / 1472
      → p ≡ numbered 0
      → (s' : Assembly) × (assemble p s ≡ done (s', none))
        × (length s'.assembly_buffer ≡ length image)
        × (s' ≡ filled (length image) (take 1472 image) (length image - length (take 1472 image)))
  first_then p s more e =
      let cnt : ℕ = (length image + 1471) / 1472 in
      let piece : List ℕ = take 1472 image in
      let fits : length piece ≤ length image = omega (arith, length-take 1472 image) in
      let s' : Assembly = filled (length image) ([] ++ piece) (length image - length piece) in
      (
        s',
        ap (λ r. assemble r s) e
            ∙ (assemble_next data_type (length image) cnt few 0 (length image) s [] piece
                  (omega arith) refl fits (begin_first data_type (length image) cnt few s piece)
                ∙ ap done (end_more data_type (length image) cnt few 0 s' piece (omega arith))),
        omega (
          arith,
          length-append piece (zeros (length image - length piece)),
          length-replicate {A = ℕ} (length image - length piece) 0,
        ),
        refl,
      )

  reordered :
      (p q : Packet) (ps qs : List Packet) (s : Assembly)
      → Carries data_type (length image) ((length image + 1471) / 1472) 0 image (p ∷ (ps ++ q ∷ []))
      → 1 < (length image + 1471) / 1472
      → Permᴰ ps qs
      → assemble_all (p ∷ (ps ++ q ∷ [])) s ≡ assemble_all (p ∷ (qs ++ q ∷ [])) s
  reordered p q ps qs s (_, e, c) more d =
      let (s', began, size, _) = first_then p s more e in
      let between = Carries-IsBetween 1 ps q (omega arith) c in
      assemble_all-middle p (ps ++ q ∷ []) s s' began
      ∙ (assemble_all-perm (q ∷ []) s' d size between
          ∙ sym (assemble_all-middle p (qs ++ q ∷ []) s s' began))

pub done-injective :
    (ps qs : List Packet) → ◌≡◌ {A = Outcome (List Packet)} (done ps) (done qs) → ps ≡ qs
done-injective ps qs e = cc

pub in_order :
    (data_type : ℕ) (image : List ℕ) (s : Assembly) (ps : List Packet)
    → 0 < length image
    → length image ≤ 65535 * 1472
    → packets_of data_type image ≡ done ps
    → assemble_all ps s ≡ done (idle, image ∷ [])
in_order data_type image s ps some_left small cut =
    let (found, sent, assembled) = assemble_all-packets_of data_type image s some_left small in
    ap (λ ps. assemble_all ps s) (done-injective ps found (sym cut ∙ sent)) ∙ assembled

pub two_or_more :
    (data_type total cnt : ℕ) (rest : List ℕ) (p q : Packet) (ps : List Packet)
    → Carries data_type total cnt 0 rest (p ∷ (ps ++ q ∷ []))
    → 1 < cnt
two_or_more data_type total cnt rest p q [] c =
    omega (arith, Carries-le data_type total cnt (0 + 1 + 1) _ [] c.2.2)
two_or_more data_type total cnt rest p q (r ∷ ps) c =
    omega (arith, Carries-le data_type total cnt (0 + 1 + 1) _ (ps ++ q ∷ []) c.2.2)

-- However the packets of an image between its first and its last are reordered on the way, the
-- receiver assembles the same image, once, in any earlier state. The image has at most
-- 65535 * 1472 bytes and takes two packets or more.
pub assemble_all-reordered :
    (data_type : ℕ) (image : List ℕ) (s : Assembly) (p q : Packet) (ps qs : List Packet)
    → length image ≤ 65535 * 1472
    → packets_of data_type image ≡ done (p ∷ (ps ++ q ∷ []))
    → Perm ps qs
    → assemble_all (p ∷ (qs ++ q ∷ [])) s ≡ done (idle, image ∷ [])
assemble_all-reordered data_type image s p q ps qs small cut shuffled =
    let (found, sent, carried) = packets_of-Carries data_type image (omega arith) in
    let known : found ≡ p ∷ (ps ++ q ∷ []) =
      done-injective found (p ∷ (ps ++ q ∷ [])) (sym sent ∙ cut) in
    let carries =
      subst (Carries data_type (length image) ((length image + 1471) / 1472) 0 image) known
        carried in
    let more : 1 < (length image + 1471) / 1472 =
      two_or_more data_type (length image) _ image p q ps carries in
    let whole : assemble_all (p ∷ (ps ++ q ∷ [])) s ≡ done (idle, image ∷ []) =
      in_order data_type image s _ (omega (arith, more)) small cut in
    ∥∥₁_elim shuffled (hlevel) (λ d.
      sym (reordered data_type image (omega (arith, small)) p q ps qs s carries more d) ∙ whole)
