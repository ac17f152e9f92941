-- ===== src/Server/Tcp/Inside.antt =====
-- A server in a room: what keeps it there, and what takes it to another.
use p2p_watcher.Base.{
  ℕ, ◌≡◌, ap, sym, subst, ◌∙◌, ◌==◌, if◌then◌else◌, Bool-cases, false, List, Option, none, some,
  Option-cases, inl, inr, All, arith, ==_iff, Ensures, Ensures-done, Ensures-fault, Ensures-weaken,
}
use p2p_watcher.Base.Maps.{find, assign, erase, find-assign, find-erase}
use p2p_watcher.Network.{Asio}
use p2p_watcher.Console.{Text, literal}
use p2p_watcher.Protocol.Wire.{Endian}
use p2p_watcher.Server.Logger.{LoggerMode, error}
use p2p_watcher.Server.Session.{Session, Signal, end_of_stream, on_size}
use p2p_watcher.Server.Udp.{remove_client_udp}
use p2p_watcher.Server.Tcp.{TcpManager, writes, remove_client, on_signal, on_signals, run_session}
use p2p_watcher.Server.Tcp.Same.{Same, IsQuiet, on_signals-Same}
use p2p_watcher.Server.Tcp.Clients.{
  has, has-assign, has-remove_client, has-remove_client_udp, udp-remove_client,
}
use p2p_watcher.Server.Tcp.Room.{Room, leave}

-- The server is in the room `r`: both tables hold its members, and each session has the id that it
-- stands under.
pub record IsIn {net : Asio} (r : Room) (m : TcpManager net) : Type 0 where
  pub tcp : (k : ℕ) → has k m.cl ≡ r.members k
  pub udp : (k : ℕ) → has k m.udp.cl ≡ r.members k
  pub counter : m.next_id ≡ r.next
  pub own : (k : ℕ) (s : Session net) → find k m.cl ≡ some s → s.cur_client_id ≡ k

module _ (net : Asio) (host : Endian) where
  pub IsIn-Same : (r : Room) (m m' : TcpManager net) → IsIn r m → Same m m' → IsIn r m'
  IsIn-Same r m m' h same = record {
    tcp = λ k. ap (has k) same.tcp ∙ h.tcp k;
    udp = λ k. ap (has k) same.udp ∙ h.udp k;
    counter = same.counter ∙ h.counter;
    own = λ k s e. h.own k s (sym (ap (find k) same.tcp) ∙ e);
  }

  some-injective : (s t : Session net) → ◌≡◌ {A = Option (Session net)} (some s) (some t) → s ≡ t
  some-injective s t e = cc

  -- A session under its own id.
  pub own-assign :
      (id k : ℕ) (s t : Session net) (cl : List (ℕ × Session net))
      → s.cur_client_id ≡ id
      → ((j : ℕ) (u : Session net) → find j cl ≡ some u → u.cur_client_id ≡ j)
      → find k (assign id s cl) ≡ some t
      → t.cur_client_id ≡ k
  own-assign id k s t cl own h e = elim (Bool-cases (id == k)) [
    | inl same ↦
        let at : id ≡ k = (==_iff id k).0 same in
        ap (λ u. u.cur_client_id)
          (sym (some-injective s t (sym ((rw same at (find-assign id k s cl))) ∙ e)))
        ∙ (own ∙ at)
    | inr other ↦ h k t (sym ((rw other at (find-assign id k s cl))) ∙ e)
  ]

  pub own-erase :
      (id k : ℕ) (t : Session net) (cl : List (ℕ × Session net))
      → ((j : ℕ) (u : Session net) → find j cl ≡ some u → u.cur_client_id ≡ j)
      → find k (erase id cl) ≡ some t
      → t.cur_client_id ≡ k
  own-erase id k t cl h e = elim (Bool-cases (id == k)) [
    | inl same ↦ absurd (none-ne (sym ((rw same at (find-erase id k cl))) ∙ e))
    | inr other ↦ h k t (sym ((rw other at (find-erase id k cl))) ∙ e)
  ]
    where
      none-ne : ◌≡◌ {A = Option (Session net)} none (some t) → ⊥
      none-ne e = cc

  -- A session that is there goes on.
  pub stored-IsIn :
      (r : Room) (id : ℕ) (s s' : Session net) (m : TcpManager net)
      → IsIn r m
      → find id m.cl ≡ some s
      → s'.cur_client_id ≡ id
      → IsIn r (record m { cl = assign id s' m.cl })
  stored-IsIn r id s s' m h e own = record {
    tcp = λ k. ground (arith, h.tcp k, h.tcp id, has-assign id k s' m.cl);
    udp = h.udp;
    counter = h.counter;
    own = λ k t f. own-assign id k s' t m.cl own h.own f;
  }

  pub run_session-IsIn :
      (r : Room) (id : ℕ) (handler : Session net → Session net × List Signal) (m : TcpManager net)
      → ((s : Session net) → (handler s).0.cur_client_id ≡ s.cur_client_id)
      → ((s : Session net) → All (IsQuiet net host) (handler s).1)
      → IsIn r m
      → Ensures (IsIn r) (run_session net host id handler m)
  unfolding run_session
  run_session-IsIn r id handler m keeps quiet h = elim (Option-cases (find id m.cl)) [
    | inl e ↦ rw (e, run_session) (Ensures-fault (IsIn r))
    | inr (s, e) ↦
        rw (e, run_session)
          (let m' : TcpManager net = record m { cl = assign id (handler s).0 m.cl } in
            let h' = stored-IsIn r id s (handler s).0 m h e (keeps s ∙ h.own id s e) in
            Ensures-weaken (Same m') (IsIn r) (on_signals net host (handler s).1 m')
              (λ m'' same. IsIn-Same r m' m'' h' same)
              (on_signals-Same net host (handler s).1 m' (quiet s)))
  ]

  find-remove_client :
      (id k : ℕ) (m : TcpManager net)
      → find k (remove_client net id m).cl ≡ (if id == k then none else find k m.cl)
  unfolding remove_client
  find-remove_client id k m = ground (arith, find-erase id k m.cl)

  next_id-remove_client :
      (id : ℕ) (m : TcpManager net) → (remove_client net id m).next_id ≡ m.next_id
  unfolding remove_client
  next_id-remove_client id m = ground arith

  own-remove_client :
      (id k : ℕ) (t : Session net) (m : TcpManager net)
      → ((j : ℕ) (u : Session net) → find j m.cl ≡ some u → u.cur_client_id ≡ j)
      → find k (remove_client net id m).cl ≡ some t
      → t.cur_client_id ≡ k
  own-remove_client id k t m h e = elim (Bool-cases (id == k)) [
    | inl same ↦ absurd (none-ne (sym ((rw same at (find-remove_client id k m))) ∙ e))
    | inr other ↦ h k t (sym ((rw other at (find-remove_client id k m))) ∙ e)
  ]
    where
      none-ne : ◌≡◌ {A = Option (Session net)} none (some t) → ⊥
      none-ne e = cc

  leave-IsIn :
      (r : Room) (id : ℕ) (m : TcpManager net)
      → IsIn r m
      → IsIn (leave id r) (remove_client net id (record m { udp = remove_client_udp net id m.udp }))
  leave-IsIn r id m h =
      let m' : TcpManager net = record m { udp = remove_client_udp net id m.udp } in
      record {
        tcp = λ k. has-remove_client net id k m' ∙ ap (λ b. if id == k then false else b) (h.tcp k);
        udp = λ k.
            ap (has k) (udp-remove_client net id m')
            ∙ (has-remove_client_udp net id k m.udp
                ∙ ap (λ b. if id == k then false else b) (h.udp k));
        counter = next_id-remove_client id m' ∙ h.counter;
        own = λ k t f. own-remove_client id k t m' h.own f;
      }

  -- A change of the logs alone.
  pub logged-IsIn :
      (r : Room) (mode : LoggerMode) (text : Text) (m : TcpManager net)
      → IsIn r m
      → IsIn r (writes net mode text m)
  logged-IsIn r mode text m h = record {
    tcp = h.tcp;
    udp = h.udp;
    counter = h.counter;
    own = h.own;
  }

  -- The handler of the size, at the end of the stream.
  pub ended-IsIn :
      (r : Room) (id : ℕ) (bytes : List ℕ) (m : TcpManager net)
      → IsIn r m
      → Ensures
          (IsIn (leave id r))
          (run_session net host id (on_size net host (end_of_stream bytes)) m)
  unfolding run_session on_size on_signals on_signal
  ended-IsIn r id bytes m h = elim (Option-cases (find id m.cl)) [
    | inl e ↦ rw (e, run_session) (Ensures-fault (IsIn (leave id r)))
    | inr (s, e) ↦
        let s' : Session net = (on_size net host (end_of_stream bytes) s).0 in
        let m' : TcpManager net = record m { cl = assign id s' m.cl } in
        let own = h.own id s e in
        let left = leave-IsIn r s.cur_client_id m' (stored-IsIn r id s s' m h e own) in
        let last : TcpManager net = writes net error (literal "!disconnected!") (
          remove_client net s.cur_client_id
            (record m' { udp = remove_client_udp net s.cur_client_id m.udp })) in
        let logged : IsIn (leave s.cur_client_id r) last =
          logged-IsIn (leave s.cur_client_id r) error (literal "!disconnected!") _ left in
        rw (e, run_session)
          (Ensures-done (IsIn (leave id r)) (subst (λ j. IsIn (leave j r) last) own logged))
  ]
