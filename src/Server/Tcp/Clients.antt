-- ===== src/Server/Tcp/Clients.antt =====
-- The tables of the TCP and of the UDP manager hold the same clients, whatever happens.
use p2p_watcher.Base.{
  ℕ, ◌≡◌, Bool, true, false, List, [], ◌∷◌, Option, none, some, if◌then◌else◌, ◌==◌, Ensures,
  Ensures-bind, Ensures-done, Ensures-fault, Option-cases, inl, inr, ap, sym, ◌∙◌, Ensures-weaken,
  arith,
}
use p2p_watcher.Base.Maps.{find, assign, erase, find-assign, find-erase}
use p2p_watcher.Network.{Asio}
use p2p_watcher.Protocol.Wire.{Endian}
use p2p_watcher.Server.Session.{new_session, Session, Signal, deleting, process, says}
use p2p_watcher.Server.Udp.{ClientInfo, UdpManager, remove_client_udp, create_client_udp}
use p2p_watcher.Server.Tcp.{
  TcpManager, listen_tcp, remove_client, process_tcp, on_signal, on_signals, run_session,
  create_client, on_accept,
}
use p2p_watcher.Server.Tcp.Same.{Same, process_tcp-Same}

abbrev pub has {ℓ} : {V : Type ℓ} → ℕ → List (ℕ × V) → Bool
has k m = elim (find k m) [ none ↦ false | some v ↦ true ]

pub has-assign {ℓ} :
    {V : Type ℓ} (k j : ℕ) (v : V) (m : List (ℕ × V))
    → has j (assign k v m) ≡ (if k == j then true else has j m)
has-assign k j v m = ground (arith, find-assign k j v m)

has-erase {ℓ} :
    {V : Type ℓ} (k j : ℕ) (m : List (ℕ × V))
    → has j (erase k m) ≡ (if k == j then false else has j m)
has-erase k j m = ground (arith, find-erase k j m)

-- The two tables have the same keys.
abbrev pub InStep : (net : Asio) → TcpManager net → Type 0
InStep net m = (k : ℕ) → has k m.cl ≡ has k m.udp.cl

module _ (net : Asio) where
  pub has-remove_client :
      (id k : ℕ) (m : TcpManager net)
      → has k (remove_client net id m).cl ≡ (if id == k then false else has k m.cl)
  unfolding remove_client
  has-remove_client id k m = ground (arith, has-erase id k m.cl)

  pub has-remove_client_udp :
      (id k : ℕ) (u : UdpManager net)
      → has k (remove_client_udp net id u).cl ≡ (if id == k then false else has k u.cl)
  unfolding remove_client_udp
  has-remove_client_udp id k u = ground (arith, has-erase id k u.cl)

  pub udp-remove_client : (id : ℕ) (m : TcpManager net) → (remove_client net id m).udp.cl ≡ m.udp.cl
  unfolding remove_client
  udp-remove_client id m = ground arith

  remove-InStep :
      (id : ℕ) (m : TcpManager net)
      → InStep net m
      → InStep net (remove_client net id (record m { udp = remove_client_udp net id m.udp }))
  unfolding remove_client remove_client_udp
  remove-InStep id m h k = ground (arith, h k, h id, has-erase id k m.cl, has-erase id k m.udp.cl)

  module _ (host : Endian) where
    pub Same-InStep : {m m' : TcpManager net} → InStep net m → Same m m' → InStep net m'
    Same-InStep h same k = ap (has k) same.tcp ∙ (h k ∙ sym (ap (has k) same.udp))

    on_signals-InStep :
        (signals : List Signal) (m : TcpManager net)
        → InStep net m
        → Ensures (InStep net) (on_signals net host signals m)
    unfolding on_signals on_signal
    on_signals-InStep [] m h = Ensures-done (InStep net) h
    on_signals-InStep (deleting id ∷ signals) m h =
        on_signals-InStep signals _ (remove-InStep id m h)
    on_signals-InStep (process buf ∷ signals) m h =
        Ensures-bind (InStep net) (InStep net) (process_tcp net host buf m) _
          (Ensures-weaken (Same m) (InStep net) (process_tcp net host buf m)
            (λ m' same. Same-InStep h same) (process_tcp-Same net host buf m))
          (λ m' h'. on_signals-InStep signals m' h')
    on_signals-InStep (says mode text ∷ signals) m h = on_signals-InStep signals _ h

    pub run_session-InStep :
        (id : ℕ) (handler : Session net → Session net × List Signal) (m : TcpManager net)
        → InStep net m
        → Ensures (InStep net) (run_session net host id handler m)
    unfolding run_session
    run_session-InStep id handler m h = elim (Option-cases (find id m.cl)) [
      | inl e ↦ rw (e, run_session) (Ensures-fault (InStep net))
      | inr (s, e) ↦ rw (e, run_session) (on_signals-InStep (handler s).1 _ (stored s e))
    ]
      where
        stored :
            (s : Session net)
            → find id m.cl ≡ some s
            → InStep net (record m { cl = assign id (handler s).0 m.cl })
        stored s e k = ground (arith, h k, h id, has-assign id k (handler s).0 m.cl)

    -- The client is in the UDP table already, and comes into the TCP table here.
    accept-InStep :
        (id : ℕ) (s : Session net) (i : ClientInfo) (m : TcpManager net)
        → InStep net m
        → InStep net (record m { cl = assign id s m.cl; udp = create_client_udp net id i m.udp })
    unfolding create_client_udp
    accept-InStep id s i m h k =
        ground (arith, h k, has-assign id k s m.cl, has-assign id k i m.udp.cl)

    create_client-InStep :
        (id : ℕ) (i : ClientInfo) (m : TcpManager net)
        → InStep net m
        → Ensures (InStep net) (create_client net host id i m)
    unfolding create_client
    create_client-InStep id i m h =
        Ensures-bind (InStep net) (InStep net) (run_session net host id _ m) _
          (run_session-InStep id _ m h)
          λ m' h'.
            Ensures-bind (InStep net) (InStep net) (run_session net host id _ m') _
              (run_session-InStep id _ m' h') (λ m'' h''. Ensures-done (InStep net) h'')

    listen-InStep : (m : TcpManager net) → InStep net m → InStep net (listen_tcp net m)
    unfolding listen_tcp
    listen-InStep m h k = ground (arith, h k)

    pub on_accept-InStep :
        (accepted : Option (net.Socket × Option ClientInfo)) (m : TcpManager net)
        → InStep net m
        → Ensures (InStep net) (on_accept net host accepted m)
    unfolding on_accept
    on_accept-InStep none m h = Ensures-done (InStep net) (listen-InStep _ h)
    on_accept-InStep (some (socket, none)) m h = Ensures-done (InStep net) (listen-InStep _ h)
    on_accept-InStep (some (socket, some i)) m h =
        Ensures-bind (InStep net) (InStep net) (on_signals net host _ _) _
          (on_signals-InStep (new_session net socket m.next_id).1 (record m { accepting = false })
            h)
          λ logged h'.
            Ensures-bind (InStep net) (InStep net) (create_client net host m.next_id i _) _
              (create_client-InStep m.next_id i _
                (accept-InStep m.next_id (new_session net socket m.next_id).0 i logged h'))
              (λ created h''. Ensures-done (InStep net) (listen-InStep _ h''))
