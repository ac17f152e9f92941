-- ===== src/Protocol/Assembly/Cutting.antt =====
-- What the receive buffers leave of an image: of every 1472 bytes the first 1455.
use p2p_watcher.Base.{
  ℕ, suc, zero, ◌+◌, ◌-◌, ◌*◌, ◌/◌, ◌%◌, ◌^◌, ◌<◌, ◌≤◌, ◌≡◌, refl, ap, ap₂, subst, sym, ◌∙◌, List,
  [], ◌∷◌, ◌++◌, length, take, drop, map, length-append, length-take, length-drop, ltb, lt→ltb,
  le→ltb, append_assoc, none, some, done, arith, if◌then◌else◌,
}
use p2p_watcher.Protocol.Packet.{Packet}
use p2p_watcher.Protocol.Sender.Chunks.{Carries, expected_packet}
use p2p_watcher.Protocol.Assembly.{Assembly, idle, begin_image, end_image, assemble}
use p2p_watcher.Protocol.Assembly.Images.{
  zeros, filled, Completes, Carries-le, assemble_next, end_last, end_more, begin_more, begin_first,
}

-- The bytes from number `at` on, where a byte is lost if it is one of the last 17 of a piece.
unfoldable pub cut_from : ℕ → List ℕ → List ℕ
cut_from at [] = []
cut_from at (x ∷ xs) = (if ltb (at % 1472) 1455 then x else 0) ∷ cut_from (suc at) xs

pub length-cut_from : (at : ℕ) (xs : List ℕ) → length (cut_from at xs) ≡ length xs
unfolding cut_from
length-cut_from at [] = refl
length-cut_from at (x ∷ xs) = ap suc (length-cut_from (suc at) xs)

-- What is cut once is not changed by the next receiver.
pub cut_from-cut_from : (at : ℕ) (xs : List ℕ) → cut_from at (cut_from at xs) ≡ cut_from at xs
unfolding cut_from
cut_from-cut_from at [] = refl
cut_from-cut_from at (x ∷ xs) = ap₂ ◌∷◌ (ground arith) (cut_from-cut_from (suc at) xs)

cut_from-take-drop :
    (n at : ℕ) (xs : List ℕ)
    → cut_from at (take n xs) ++ cut_from (at + n) (drop n xs) ≡ cut_from at xs
unfolding cut_from
cut_from-take-drop zero at xs = let e : at + 0 ≡ at = omega arith in rw e refl
cut_from-take-drop (suc n) at [] = refl
cut_from-take-drop (suc n) at (x ∷ xs) =
    let e : at + suc n ≡ suc at + n = omega arith in
    rw e (ap (◌∷◌ (if ltb (at % 1472) 1455 then x else 0)) (cut_from-take-drop n (suc at) xs))

cut_from-kept :
    (idx at : ℕ) (xs : List ℕ) → at + length xs ≤ 1455 → cut_from (1472 * idx + at) xs ≡ xs
unfolding cut_from
cut_from-kept idx at [] h = refl
cut_from-kept idx at (x ∷ xs) h =
    let e : suc (1472 * idx + at) ≡ 1472 * idx + suc at = omega arith in
    let inside : (1472 * idx + at) % 1472 < 1455 = omega arith in
    rw (lt→ltb _ _ inside, e) (ap (◌∷◌ x) (cut_from-kept idx (suc at) xs (omega arith)))

cut_from-lost :
    (idx at : ℕ) (xs : List ℕ)
    → 1455 ≤ at
    → at + length xs ≤ 1472
    → cut_from (1472 * idx + at) xs ≡ zeros (length xs)
unfolding cut_from
cut_from-lost idx at [] late h = refl
cut_from-lost idx at (x ∷ xs) late h =
    let e : suc (1472 * idx + at) ≡ 1472 * idx + suc at = omega arith in
    let outside : 1455 ≤ (1472 * idx + at) % 1472 = omega arith in
    rw (le→ltb _ _ outside, e)
      (ap (◌∷◌ 0) (cut_from-lost idx (suc at) xs (omega arith) (omega arith)))

-- One piece.
cut_from-piece :
    (idx : ℕ) (piece : List ℕ)
    → length piece ≤ 1472
    → cut_from (1472 * idx) piece ≡ take 1455 piece ++ zeros (length piece - 1455)
cut_from-piece idx piece h =
    let at : 1472 * idx ≡ 1472 * idx + 0 = omega arith in
    sym (cut_from-take-drop 1455 (1472 * idx) piece)
    ∙ ap₂ ◌++◌
        (ap (λ n. cut_from n (take 1455 piece)) at
          ∙ cut_from-kept idx 0 (take 1455 piece) (omega (arith, length-take 1455 piece)))
        (cut_from-lost idx 1455 (drop 1455 piece) (omega arith)
            (omega (arith, length-drop 1455 piece))
          ∙ ap zeros (length-drop 1455 piece))

-- A packet as a receiver decodes it, if it carries 1455 bytes or more.
abbrev pub cut_packet : Packet → Packet
cut_packet p = record p { buffer = take 1455 p.buffer }

zeros-append : (m n : ℕ) → zeros m ++ zeros n ≡ zeros (m + n)
zeros-append zero n = let e : 0 + n ≡ n = omega arith in rw e refl
zeros-append (suc m) n =
    let e : suc m + n ≡ suc (m + n) = omega arith in rw e (ap (◌∷◌ 0) (zeros-append m n))

-- The bytes that a piece loses are the zeros that were there.
filled-cut :
    (total idx missing : ℕ) (pre piece : List ℕ)
    → 1455 ≤ length piece
    → length piece ≤ 1472
    → length piece ≤ missing
    → filled total (pre ++ take 1455 piece) (missing - length (take 1455 piece))
      ≡ filled total (pre ++ cut_from (1472 * idx) piece) (missing - length piece)
filled-cut total idx missing pre piece long short fits =
    let lost : ℕ = length piece - 1455 in
    let all : missing - length (take 1455 piece) ≡ lost + (missing - length piece) =
      omega (arith, length-take 1455 piece) in
    let joined : (pre ++ take 1455 piece) ++ zeros (missing - length (take 1455 piece))
        ≡ (pre ++ cut_from (1472 * idx) piece) ++ zeros (missing - length piece) =
      rw
        (
          all,
          ← zeros-append lost (missing - length piece),
          cut_from-piece idx piece short,
          ← append_assoc (pre ++ take 1455 piece) (zeros lost) (zeros (missing - length piece)),
          append_assoc pre (take 1455 piece) (zeros lost),
        )
        refl in
    ap (λ b. record { assembly_buffer = b; assembly_total_size = total }) joined

module _ (data_type total cnt : ℕ) (few : cnt < 2 ^ 16) where
  assemble_cut :
      (idx missing : ℕ) (s : Assembly) (pre piece : List ℕ)
      → idx < cnt
      → length pre ≡ 1472 * idx
      → 1455 ≤ length piece
      → length piece ≤ 1472
      → length piece ≤ missing
      → begin_image (expected_packet data_type total cnt idx piece) s ≡ filled total pre missing
      → assemble (cut_packet (expected_packet data_type total cnt idx piece)) s
        ≡ done (
            end_image
              (expected_packet data_type total cnt idx piece)
              (filled total (pre ++ cut_from (1472 * idx) piece) (missing - length piece)))
  unfolding assemble begin_image end_image
  assemble_cut idx missing s pre piece left at_idx long short fits begun =
      assemble_next data_type total cnt few idx missing s pre (take 1455 piece) left at_idx
        (omega (arith, length-take 1455 piece)) begun
      ∙ ap (λ t. done (end_image (expected_packet data_type total cnt idx piece) t))
          (filled-cut total idx missing pre piece long short fits)

  cut_join :
      (idx : ℕ) (pre rest : List ℕ)
      → (pre ++ cut_from (1472 * idx) (take 1472 rest))
          ++ cut_from (1472 * (idx + 1)) (drop 1472 rest)
        ≡ pre ++ cut_from (1472 * idx) rest
  cut_join idx pre rest =
      let at : 1472 * (idx + 1) ≡ 1472 * idx + 1472 = omega arith in
      append_assoc pre _ _
      ∙ ap (◌++◌ pre) (
          ap (λ n. cut_from (1472 * idx) (take 1472 rest) ++ cut_from n (drop 1472 rest)) at
          ∙ cut_from-take-drop 1472 (1472 * idx) rest)

  -- The packets from number `idx` on, once the one of that number finds the buffer as it should.
  assemble_rest_cut :
      (ps : List Packet) (idx : ℕ) (s : Assembly) (pre rest : List ℕ)
      → Carries data_type total cnt idx rest ps
      → 0 < length rest
      → 1454 ≤ (length rest - 1) % 1472
      → length pre ≡ 1472 * idx
      → begin_image (expected_packet data_type total cnt idx (take 1472 rest)) s
        ≡ filled total pre (length rest)
      → Completes (pre ++ cut_from (1472 * idx) rest) (map cut_packet ps) s
  unfolding cut_from
  assemble_rest_cut [] idx s pre rest c some_left long at_idx begun =
      absurd (omega (arith, ap length c.0, some_left))
  assemble_rest_cut (p ∷ []) idx s pre rest (_, e, (rest_nil, last)) some_left long at_idx begun =
      let piece : List ℕ = take 1472 rest in
      let size = length-take 1472 rest in
      let none_left : length rest - length piece ≡ 0 =
        omega (arith, size, length-drop 1472 rest, ap length rest_nil) in
      rw (e, ← cut_join idx pre rest, rest_nil)
        (assemble_cut idx (length rest) s pre piece (omega arith) at_idx
            (omega (arith, size, none_left)) (omega (arith, size)) (omega (arith, size)) begun
          ∙ (ap done (end_last data_type total cnt few idx _ piece last)
              ∙ ap (λ n. done (idle, some ((pre ++ cut_from (1472 * idx) piece) ++ zeros n)))
                  none_left))
  assemble_rest_cut (p ∷ q ∷ ps) idx s pre rest (_, e, c) some_left long at_idx begun =
      let piece : List ℕ = take 1472 rest in
      let further =
        Carries-le data_type total cnt (idx + 1 + 1) (drop 1472 (drop 1472 rest)) ps c.2 in
      let size = length-take 1472 rest in
      let rest_size = length-drop 1472 rest in
      let remain : length rest - length piece ≡ length (drop 1472 rest) =
        omega (arith, size, rest_size) in
      let pre' : List ℕ = pre ++ cut_from (1472 * idx) piece in
      let s' : Assembly = filled total pre' (length (drop 1472 rest)) in
      let at_next : length pre' ≡ 1472 * (idx + 1) = omega (
        arith,
        length-append pre (cut_from (1472 * idx) piece),
        length-cut_from (1472 * idx) piece,
        size,
        rest_size,
        c.0,
      ) in
      rw e (
        s',
        assemble_cut idx (length rest) s pre piece (omega arith) at_idx
              (omega (arith, size, rest_size, c.0)) (omega (arith, size)) (omega (arith, size))
              begun
            ∙ (ap done (end_more data_type total cnt few idx _ piece (omega (arith, further)))
                ∙ ap (λ n. done (filled total pre' n, none)) remain),
        subst (λ image. Completes image (map cut_packet (q ∷ ps)) s') (cut_join idx pre rest)
            (assemble_rest_cut (q ∷ ps) (idx + 1) s' pre' (drop 1472 rest) c c.0
              (omega (arith, rest_size, c.0)) at_next
              (begin_more data_type total cnt few (idx + 1) s' (take 1472 (drop 1472 rest))
                (omega arith))),
      )

-- The packets of an image, the last of which carries 1455 bytes or more, as receivers decode them:
-- they complete the image in which the last 17 bytes of every piece are zeros.
pub Completes-cut :
    (data_type : ℕ) (image : List ℕ) (s : Assembly) (ps : List Packet)
    → length image ≤ 65535 * 1472
    → 1454 ≤ (length image - 1) % 1472
    → Carries data_type (length image) ((length image + 1471) / 1472) 0 image ps
    → Completes (cut_from 0 image) (map cut_packet ps) s
Completes-cut data_type image s ps small long carried =
    let cnt : ℕ = (length image + 1471) / 1472 in
    let few : cnt < 2 ^ 16 = omega arith in
    assemble_rest_cut data_type (length image) cnt few ps 0 s [] image carried (omega arith) long
      refl (begin_first data_type (length image) cnt few s (take 1472 image))
