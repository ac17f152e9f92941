-- ===== src/Network/Loopback.antt =====
-- Concrete operations that meet the assumptions: a socket is whether it is open, and each address
-- that is not empty is accepted.
use p2p_watcher.Base.{
  ℕ, ◌≡◌, refl, Bool, true, false, List, [], ◌∷◌, ◌++◌, length, take, drop, Option, none, some,
  Outcome, done, throws,
}
use p2p_watcher.Network.{Asio, IsAsio}

abbrev pub open_bool : Bool → Outcome Bool
open_bool true = throws
open_bool false = done true

abbrev pub first_byte : List ℕ → Option ℕ
first_byte [] = none
first_byte (x ∷ xs) = some x

abbrev pub loopback : Asio
loopback = record {
  Socket = Bool;
  new_socket = false;
  is_open = λ s. s;
  open_socket = open_bool;
  set_reuse = λ s. done s;
  bind = λ address port s. done s;
  start_listening = λ s. done s;
  shut_down = λ s. s;
  close_socket = λ s. false;
  make_address = first_byte;
  receive = λ datagram buffer. take (length buffer) datagram ++ drop (length datagram) buffer;
}

open_bool_opens : (s s' : Bool) → open_bool s ≡ done s' → s' ≡ true
open_bool_opens true s' e = cc
open_bool_opens false true e = refl
open_bool_opens false false e = cc

open_bool_again : (s : Bool) → s ≡ true → open_bool s ≡ throws
open_bool_again true e = refl
open_bool_again false e = cc

done-injective : (s s' : Bool) → ◌≡◌ {A = Outcome Bool} (done s) (done s') → s' ≡ s
done-injective s s' e = cc

pub loopback-IsAsio : IsAsio loopback
loopback-IsAsio = record {
  new_closed = refl;
  open_opens = λ {s} {s'} e. open_bool_opens s s' e;
  open_again = λ {s} e. open_bool_again s e;
  reuse_keeps = λ {s} {s'} e. done-injective s s' e;
  bind_keeps = λ {s} {s'} address port e. done-injective s s' e;
  listening_keeps = λ {s} {s'} e. done-injective s s' e;
  close_closes = λ s. refl;
  receive_fills = λ datagram buffer. refl;
}
