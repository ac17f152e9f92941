-- ===== src/Server/Tcp/Room.antt =====
-- What the server promises of its clients, without sessions, sockets and packets: who is connected,
-- and the id that the next one gets.
use p2p_watcher.Base.{ℕ, ◌+◌, ◌==◌, if◌then◌else◌, Bool, true, false, List, [], ◌∷◌, none, some}
use p2p_watcher.Network.{Asio}
use p2p_watcher.Protocol.Wire.{u32}
use p2p_watcher.Server.Session.{filled, end_of_stream, failed}
use p2p_watcher.Server.Tcp.{TcpManager}
use p2p_watcher.Server.Tcp.Clients.{has}
use p2p_watcher.Server.Tcp.Events.{
  Event, accepted, size_read, body_read, datagram, datagram_failed, datagram_sent, frame_written,
  timer_fired, timer_failed,
}

pub record Room : Type 0 where
  pub members : ℕ → Bool
  pub next : ℕ

-- Nobody is there, and the first one gets the id 0.
abbrev pub empty_room : Room
empty_room = record { members = λ k. false; next = 0 }

abbrev pub enter : Room → Room
enter r = record {
  members = λ k. if r.next == k then true else r.members k;
  next = u32 (r.next + 1);
}

abbrev pub leave : ℕ → Room → Room
leave id r = record r { members = λ k. if id == k then false else r.members k }

-- Only a client that connects and a client that closes its connection between two frames change
-- the room.
abbrev pub next_room : {net : Asio} → Event net → Room → Room
next_room (accepted none) r = r
next_room (accepted (some (socket, none))) r = r
next_room (accepted (some (socket, some i))) r = enter r
next_room (size_read id (filled bytes)) r = r
next_room (size_read id (failed ec bytes)) r = r
next_room (size_read id (end_of_stream bytes)) r = leave id r
next_room (body_read id c) r = r
next_room (datagram bytes) r = r
next_room (datagram_failed ec) r = r
next_room (datagram_sent ec) r = r
next_room (frame_written ec n) r = r
next_room (timer_fired time) r = r
next_room (timer_failed ec) r = r

abbrev pub run_room : {net : Asio} → List (Event net) → Room → Room
run_room [] r = r
run_room (event ∷ events) r = run_room events (next_room event r)

-- The room that a server is in.
abbrev pub room : {net : Asio} → TcpManager net → Room
room m = record { members = λ k. has k m.cl; next = m.next_id }
