-- ===== src/Server/Session/Framing.antt =====
-- A session takes the packets off a stream of frames, one by one and in order.
use native.Mathlib.Nat.{mod-eq_of_lt}
use p2p_watcher.Base.{
  ℕ, zero, suc, ◌*◌, ◌^◌, ◌<◌, ◌≤◌, ◌≡◌, drop_all, refl, ap, ◌∙◌, sym, List, [], ◌∷◌, ◌++◌, length,
  take, drop, map, All, leb, if◌then◌else◌, arith, length-append, take-length-append,
  drop-length-append, append-nil, append_assoc, le→leb,
}
use p2p_watcher.Network.{Asio}
use p2p_watcher.Protocol.Wire.{Endian, bytes_of, value_of, u32}
use p2p_watcher.Protocol.Wire.Laws.{length-bytes_of, value_of-bytes_of}
use p2p_watcher.Server.Session.{
  Session, Signal, process, Completion, filled, end_of_stream, Phase, reading_size, reading_body,
  stopped, on_size, on_body, frame, resize, overlay,
}

-- What an `async_read` of `n` bytes does on a stream that ends without an error: it takes the bytes
-- if they are there, and all that is left otherwise.
abbrev pub async_read : ℕ → List ℕ → Completion × List ℕ
async_read n stream =
    if leb n (length stream)
    then (filled (take n stream), drop n stream)
    else (end_of_stream stream, [])

pub async_read-append :
    (n : ℕ) (xs ys : List ℕ) → length xs ≡ n → async_read n (xs ++ ys) ≡ (filled xs, ys)
async_read-append n xs ys e =
    let fits : length xs ≤ length (xs ++ ys) = omega (arith, length-append xs ys) in
    rw (← e, le→leb _ _ fits, take-length-append xs ys, drop-length-append xs ys) refl

-- A number that is read over the bytes of another is the number that was written.
pub value_of-overlay :
    (host : Endian) (x : ℕ) (old : ℕ)
    → x < 2 ^ 32
    → value_of host (overlay (bytes_of host 4 (u32 x)) (bytes_of host 4 old)) ≡ x
value_of-overlay host x old h =
    let none_left =
      drop_all (length (bytes_of host 4 (u32 x))) (bytes_of host 4 old)
        (omega (arith, length-bytes_of host 4 (u32 x), length-bytes_of host 4 old)) in
    rw (none_left, append-nil)
      (value_of-bytes_of host 4 (u32 x)
        ∙ (rw (mod-eq_of_lt {n = x} {m = 2 ^ 32} h) (mod-eq_of_lt h)))

module _ (net : Asio) (host : Endian) where
  abbrev pub Served : Type 0
  Served = Session net × List Signal × List ℕ

  -- The handler of the pending read runs when the read is complete.
  unfoldable pub serve_one : Session net → List ℕ → Phase → Served
  serve_one s stream reading_size =
      let (c, rest) = async_read 4 stream in
      let (s', signals) = on_size net host c s in (s', signals, rest)
  serve_one s stream reading_body =
      let (c, rest) = async_read s.size stream in
      let (s', signals) = on_body net host c s in (s', signals, rest)
  serve_one s stream stopped = (s, [], stream)

  -- The first `n` reads of a session.
  unfoldable pub serve : ℕ → Session net → List ℕ → Served
  serve zero s stream = (s, [], stream)
  serve (suc n) s stream =
      let (s', signals, rest) = serve_one s stream s.phase in
      let (s'', more, left) = serve n s' rest in (s'', signals ++ more, left)

  abbrev pub frames : List (List ℕ) → List ℕ
  frames [] = []
  frames (packet ∷ packets) = frame net host packet ++ frames packets

  -- The session after one more packet.
  abbrev pub after_packet : List ℕ → Session net → Session net
  after_packet packet s = record s { size = length packet; buffer = packet; phase = reading_size }

  pub serve_head :
      (n : ℕ) (rest : List ℕ) (s : Session net)
      → n < 2 ^ 32
      → serve_one s (bytes_of host 4 (u32 n) ++ rest) reading_size
        ≡ (record s { size = n; buffer = resize n s.buffer; phase = reading_body }, [], rest)
  unfolding serve_one on_size
  serve_head n rest s short =
      rw
        (
          async_read-append 4 (bytes_of host 4 (u32 n)) rest (length-bytes_of host 4 (u32 n)),
          value_of-overlay host n s.size short,
        )
        refl

  serve_size :
      (packet rest : List ℕ) (s : Session net)
      → length packet < 2 ^ 32
      → serve_one s (frame net host packet ++ rest) reading_size ≡ (
        record s {
          size = length packet;
          buffer = resize (length packet) s.buffer;
          phase = reading_body;
        },
        [],
        packet ++ rest,
      )
  unfolding frame
  serve_size packet rest s short =
      rw (append_assoc (bytes_of host 4 (u32 (length packet))) packet rest)
        (serve_head (length packet) (packet ++ rest) s short)

  serve_body :
      (packet rest : List ℕ) (s : Session net)
      → s.size ≡ length packet
      → serve_one s (packet ++ rest) reading_body
        ≡ (record s { buffer = packet; phase = reading_size }, process packet ∷ [], rest)
  unfolding serve_one on_body
  serve_body packet rest s e = rw (async_read-append s.size packet rest (sym e)) refl

  pub serve-suc :
      (n : ℕ) (s : Session net) (stream : List ℕ) {s' : Session net} {signals : List Signal}
      {rest : List ℕ}
      → serve_one s stream s.phase ≡ (s', signals, rest)
      → serve (suc n) s stream
        ≡ (let (s'', more, left) = serve n s' rest in (s'', signals ++ more, left))
  unfolding serve
  serve-suc n s stream e =
      ap
        (λ (r : Served).
          let (s', signals, rest) = r in
          let (s'', more, left) = serve n s' rest in
          let served : Served = (s'', signals ++ more, left) in served)
        e

  serve_packet :
      (n : ℕ) (packet rest : List ℕ) (s : Session net)
      → s.phase ≡ reading_size
      → length packet < 2 ^ 32
      → serve (suc (suc n)) s (frame net host packet ++ rest) ≡ (
          let (s', more, left) = serve n (after_packet packet s) rest in
          (s', process packet ∷ more, left))
  serve_packet n packet rest s waiting short =
      let s' : Session net = record s {
        size = length packet;
        buffer = resize (length packet) s.buffer;
        phase = reading_body;
      } in
      serve-suc (suc n) s (frame net host packet ++ rest)
        (ap (serve_one s (frame net host packet ++ rest)) waiting ∙ serve_size packet rest s short)
      ∙ serve-suc n s' (packet ++ rest) (serve_body packet rest s' refl)

  -- The session after `packets`, if it was about to read the size of a frame.
  abbrev pub after : List (List ℕ) → Session net → Session net
  after [] s = s
  after (packet ∷ packets) s = after packets (after_packet packet s)

  pub after-phase :
      (packets : List (List ℕ)) (s : Session net)
      → s.phase ≡ reading_size
      → ((after packets s).phase ≡ reading_size)
        × ((after packets s).cur_client_id ≡ s.cur_client_id)
  after-phase [] s waiting = (waiting, refl)
  after-phase (packet ∷ packets) s waiting = after-phase packets (after_packet packet s) refl

  pub serve-frames :
      (packets : List (List ℕ)) (rest : List ℕ) (s : Session net)
      → s.phase ≡ reading_size
      → All (λ packet. length packet < 2 ^ 32) packets
      → serve (2 * length packets) s (frames packets ++ rest)
        ≡ (after packets s, map process packets, rest)
  serve-frames [] rest s waiting short = unfold serve in refl
  serve-frames (packet ∷ packets) rest s waiting (h, short) =
      let rounds : 2 * length (packet ∷ packets) ≡ suc (suc (2 * length packets)) = omega arith in
      rw
        (
          rounds,
          append_assoc (frame net host packet) (frames packets) rest,
          serve_packet (2 * length packets) packet (frames packets ++ rest) s waiting h,
          serve-frames packets rest (after_packet packet s) refl short,
        )
        refl

  -- A session that is about to read a frame emits the packets of the frames that stand on the
  -- stream, each whole and in their order, by two reads for each; then it waits for the next
  -- frame, under the same id, and what follows on the stream is not touched. A packet is shorter
  -- than 2 ^ 32 bytes.
  pub serve-frames_in_order :
      (packets : List (List ℕ)) (rest : List ℕ) (s : Session net)
      → s.phase ≡ reading_size
      → All (λ packet. length packet < 2 ^ 32) packets
      → let (s', signals, left) = serve (2 * length packets) s (frames packets ++ rest) in
        (signals ≡ map process packets)
        × (left ≡ rest)
        × (s'.phase ≡ reading_size)
        × (s'.cur_client_id ≡ s.cur_client_id)
  serve-frames_in_order packets rest s waiting short =
      let run = serve-frames packets rest s waiting short in
      rw run (refl, refl, (after-phase packets s waiting).0, (after-phase packets s waiting).1)
