-- ===== src/Server/Session/Ending.antt =====
-- How a session ends: at the end of its stream, and always.
use p2p_watcher.Base.{
  ℕ, zero, suc, ◌+◌, ◌*◌, ◌/◌, ◌-◌, ◌^◌, ◌<◌, ◌≤◌, ◌≡◌, refl, ap, ◌∙◌, List, [], ◌∷◌, ◌++◌, length,
  map, All, leb, leb→le, lt→leb, arith, append_assoc, length-drop, Bool-cases, inl, inr,
}
use p2p_watcher.Network.{Asio}
use p2p_watcher.Protocol.Wire.{Endian, bytes_of, u32}
use p2p_watcher.Console.{literal, end_of_file}
use p2p_watcher.Server.Logger.{error}
use p2p_watcher.Server.Session.{
  Session, Signal, process, deleting, says, Phase, reading_size, reading_body, stopped, on_size,
  on_body, resize, overlay,
}
use p2p_watcher.Server.Session.Framing.{
  Served, serve_one, serve, frames, after, after-phase, serve-frames, serve-suc, serve_head,
}

module _ (net : Asio) (host : Endian) where
  -- The reads that are left at most, by the bytes that are left.
  abbrev reads_left : Phase → ℕ → ℕ
  reads_left stopped n = 0
  reads_left reading_size n = 2 * (n / 4) + 1
  reads_left reading_body n = 2 * (n / 4) + 2

  abbrev reads_after : Served net host → ℕ
  reads_after (s, signals, rest) = reads_left s.phase (length rest)

  none_left : (phase : Phase) (n : ℕ) → reads_left phase n ≤ 0 → phase ≡ stopped
  none_left stopped n h = refl
  none_left reading_size n h = absurd (omega arith)
  none_left reading_body n h = absurd (omega arith)

  serve_one-size :
      (s : Session net) (stream : List ℕ)
      → reads_after (serve_one net host s stream reading_size)
        < reads_left reading_size (length stream)
  unfolding serve_one on_size
  serve_one-size s stream = elim (Bool-cases (leb 4 (length stream))) [
    | inl e ↦ rw e (omega (arith, length-drop 4 stream, leb→le 4 (length stream) e))
    | inr e ↦ rw e (omega arith)
  ]

  serve_one-body :
      (s : Session net) (stream : List ℕ)
      → reads_after (serve_one net host s stream reading_body)
        < reads_left reading_body (length stream)
  unfolding serve_one on_body
  serve_one-body s stream = elim (Bool-cases (leb s.size (length stream))) [
    | inl e ↦ rw e (omega (arith, length-drop s.size stream))
    | inr e ↦ rw e (omega arith)
  ]

  serve_one-reads :
      (s : Session net) (stream : List ℕ) (phase : Phase)
      → s.phase ≡ phase
      → reads_after (serve_one net host s stream phase) ≤ reads_left phase (length stream) - 1
  unfolding serve_one
  serve_one-reads s stream reading_size e = omega (arith, serve_one-size s stream)
  serve_one-reads s stream reading_body e = omega (arith, serve_one-body s stream)
  serve_one-reads s stream stopped e = rw e (omega arith)

  serve-reads :
      (n : ℕ) (s : Session net) (stream : List ℕ)
      → reads_left s.phase (length stream) ≤ n
      → (serve net host n s stream).0.phase ≡ stopped
  unfolding serve
  serve-reads zero s stream h = none_left s.phase (length stream) h
  serve-reads (suc n) s stream h =
      let (s', signals, rest) = serve_one net host s stream s.phase in
      serve-reads n s' rest (omega (arith, serve_one-reads s stream s.phase refl))

  reads_left-le : (phase : Phase) (n : ℕ) → reads_left phase n ≤ 2 * (n / 4) + 2
  reads_left-le stopped n = omega arith
  reads_left-le reading_size n = omega arith
  reads_left-le reading_body n = omega arith

  -- On a stream that ends, whatever its bytes are and whatever sizes they claim, a session stops:
  -- it makes at most two reads for every four bytes, and two more.
  pub serve-stops :
      (n : ℕ) (s : Session net) (stream : List ℕ)
      → 2 * (length stream / 4) + 2 ≤ n
      → (serve net host n s stream).0.phase ≡ stopped
  serve-stops n s stream h =
      serve-reads n s stream (omega (arith, reads_left-le s.phase (length stream)))

  -- The signals of a session whose stream ended between two frames, and within one.
  abbrev pub goodbye : ℕ → List Signal
  goodbye id = deleting id ∷ says error (literal "!disconnected!") ∷ []

  suc_add : (k n : ℕ) → suc k + n ≡ suc (k + n)
  suc_add k n = omega arith

  zero_add : (n : ℕ) → 0 + n ≡ n
  zero_add n = omega arith

  serve-append :
      (k n : ℕ) (s : Session net) (stream : List ℕ)
      → serve net host (k + n) s stream ≡ (
          let (s', signals, rest) = serve net host k s stream in
          let (s'', more, left) = serve net host n s' rest in (s'', signals ++ more, left))
  unfolding serve
  serve-append zero n s stream = rw (zero_add n) refl
  serve-append (suc k) n s stream =
      let (s', signals, rest) = serve_one net host s stream s.phase in
      rw (suc_add k n, serve-append k n s' rest, append_assoc) refl

  serve_last :
      (s : Session net) (rest : List ℕ)
      → s.phase ≡ reading_size
      → length rest < 4
      → let (s', signals, left) = serve net host 1 s rest in
        (signals ≡ goodbye s.cur_client_id) × (left ≡ []) × (s'.phase ≡ stopped)
  unfolding serve serve_one on_size
  serve_last s rest waiting short = rw (waiting, lt→leb 4 (length rest) short) (refl, refl, refl)

  -- A client that sends whole frames and then closes its connection, with fewer than four bytes
  -- behind the last frame, is served to the end: every packet is handed on, whole and in its
  -- order, then the client is announced as leaving, and the session stops. The session waits for a
  -- frame at first, and a packet is shorter than 2 ^ 32 bytes.
  pub serve-closed :
      (packets : List (List ℕ)) (rest : List ℕ) (s : Session net)
      → s.phase ≡ reading_size
      → All (λ packet. length packet < 2 ^ 32) packets
      → length rest < 4
      → let (s', signals, left) =
          serve net host (2 * length packets + 1) s (frames net host packets ++ rest) in
        (signals ≡ map process packets ++ goodbye s.cur_client_id)
        × (left ≡ [])
        × (s'.phase ≡ stopped)
  serve-closed packets rest s waiting small short =
      let (waits, own) = after-phase net host packets s waiting in
      let (leaves, ended, stops) = serve_last (after net host packets s) rest waits short in
      rw
        (
          serve-append (2 * length packets) 1 s (frames net host packets ++ rest),
          serve-frames net host packets rest s waiting small,
          leaves,
          ended,
          stops,
          own,
        )
        (refl, refl, refl)

  body_cut :
      (part : List ℕ) (s : Session net)
      → length part < s.size
      → serve_one net host s part reading_body ≡ (
        record s { buffer = overlay part s.buffer; phase = stopped },
        says error (end_of_file "") ∷ [],
        [],
      )
  unfolding serve_one on_body
  body_cut part s cut = rw (lt→leb s.size (length part) cut) refl

  serve_cut :
      (n : ℕ) (part : List ℕ) (s : Session net)
      → s.phase ≡ reading_size
      → length part < n
      → n < 2 ^ 32
      → let (s', signals, left) = serve net host 2 s (bytes_of host 4 (u32 n) ++ part) in
        (signals ≡ says error (end_of_file "") ∷ []) × (left ≡ []) × (s'.phase ≡ stopped)
  serve_cut n part s waiting cut small =
      let s' : Session net = record s {
        size = n;
        buffer = resize n s.buffer;
        phase = reading_body;
      } in
      let stream : List ℕ = bytes_of host 4 (u32 n) ++ part in
      let runs =
        serve-suc net host 1 s stream
          (ap (serve_one net host s stream) waiting ∙ serve_head net host n part s small)
        ∙ serve-suc net host 0 s' part (body_cut part s' cut) in
      rw runs (unfold serve in (refl, refl, refl))

  -- A client that closes its connection within a frame, after the size of the packet and fewer
  -- bytes of it than that size says, is not announced as leaving: the session hands the packets
  -- before it on, whole and in their order, says that the stream ended, and stops. The session
  -- waits for a frame at first, and the sizes are below 2 ^ 32.
  pub serve-cut_off :
      (packets : List (List ℕ)) (n : ℕ) (part : List ℕ) (s : Session net)
      → s.phase ≡ reading_size
      → All (λ packet. length packet < 2 ^ 32) packets
      → length part < n
      → n < 2 ^ 32
      → let (s', signals, left) =
          serve net host
            (2 * length packets + 2)
            s
            (frames net host packets ++ (bytes_of host 4 (u32 n) ++ part)) in
        (signals ≡ map process packets ++ says error (end_of_file "") ∷ [])
        × (left ≡ [])
        × (s'.phase ≡ stopped)
  serve-cut_off packets n part s waiting small cut fits =
      let (waits, own) = after-phase net host packets s waiting in
      let (says_so, ended, stops) = serve_cut n part (after net host packets s) waits cut fits in
      rw
        (
          serve-append (2 * length packets) 2 s
              (frames net host packets ++ (bytes_of host 4 (u32 n) ++ part)),
          serve-frames net host packets (bytes_of host 4 (u32 n) ++ part) s waiting small,
          says_so,
          ended,
          stops,
        )
        (refl, refl, refl)
