-- ===== src/Client/Main/Exit.antt =====
-- What the client leaves when it ends.
use p2p_watcher.Base.{◌≡◌, false}
use p2p_watcher.Network.{Asio}
use p2p_watcher.Client.Screen.{Screen}
use p2p_watcher.Client.Main.{MainClient}

module _ (net : Asio) where
  -- Neither socket is open.
  abbrev pub IsClosed : MainClient net → Type 0
  IsClosed w = (net.is_open w.conn.socket ≡ false) × (net.is_open w.conn.udp.socket ≡ false)
