-- ===== src/Client/Main.antt =====
-- MainClient of Client/source/mainclient.cpp: the constructors, the slots of the buttons and the
-- timer. The widgets are left out; the text of the host field is a parameter, and so is the
-- screenshot, `none` where the screen cannot be captured.
pub mod Sending
pub mod Events
pub mod Buffer
pub mod Exit
pub mod Images
pub mod Delivery
pub mod System
use p2p_watcher.Base.{
  ℕ, ◌+◌, ◌*◌, ◌%◌, ◌^◌, Bool, true, false, List, [], ◌∷◌, ◌++◌, replicate, codes, Option, none,
  some, Outcome, done, throws, fault, ◌>>=◌, ltb, not, length, take, if◌then◌else◌, or_throw,
}
use p2p_watcher.Console.{Console, literal, with_number, with_error}
use p2p_watcher.Network.{Asio}
use p2p_watcher.Protocol.Wire.{Endian}
use p2p_watcher.Protocol.GroupData.{
  TestStruct, TestMessage, test_struct, test_message, image, udp_code,
}
use p2p_watcher.Protocol.Assembly.{idle}
use p2p_watcher.Server.Session.{stopped}
use p2p_watcher.Client.Headers.{server_port, buffer_size, serilize, serialize_message}
use p2p_watcher.Client.Screen.{Screen}
use p2p_watcher.Client.Udp.{UdpConnection}
use p2p_watcher.Client.Tcp.{
  TcpConnection, print, complain, do_connect, do_disconnect, async_write, send_udp_data,
}

pub record MainClient (net : Asio) : Type 0 where
  pub conn : TcpConnection net
  pub timer : Bool
  -- The images that were put on the label.
  pub pixmaps : List (List ℕ)

-- `_struct` of slotSend; the double 0.75 is its bit pattern.
abbrev pub sent_struct : TestStruct
sent_struct = record {
  a = codes "test";
  b = 1;
  c = 4604930618986332160;
  d = (0 + 0 * 0) ∷ (1 + 1 * 1) ∷ (2 + 2 * 2) ∷ (3 + 3 * 3) ∷ (4 + 4 * 4) ∷ [];
}

abbrev pub sent_message : TestMessage
sent_message = record { message = codes "hi, this is image!" }

module _ (net : Asio) where
  unfoldable pub new_udp : UdpConnection net
  new_udp = record {
    socket = net.new_socket;
    receiving = false;
    buffer = replicate buffer_size 0;
    assembly = idle;
    images = [];
    sent = [];
    console = record { out = literal "initializing BoostUdpConnection..." ∷ []; err = [] };
  }

  unfoldable pub new_tcp : TcpConnection net
  unfolding new_udp
  new_tcp = print net (literal "initializing BoostTcpConnection...") (record {
    server_addr = [];
    socket = net.new_socket;
    resolving = false;
    connecting = false;
    size = 0;
    buffer = [];
    phase = stopped;
    written = [];
    udp = new_udp;
  })

  unfoldable pub new_client : MainClient net
  new_client = record { conn = new_tcp; timer = false; pixmaps = [] }

  unfoldable pub close_client : MainClient net → MainClient net
  close_client w = record w { conn = do_disconnect net w.conn }

  unfoldable pub slot_connect : List ℕ → MainClient net → MainClient net
  slot_connect host_text w = record w { conn = do_connect net host_text server_port w.conn }

  unfoldable pub slot_disconnect : MainClient net → MainClient net
  slot_disconnect w = record w { conn = do_disconnect net w.conn }

  -- The bytes are allocated before there is a context.
  unfoldable pub image_to_bytes : (screen : Screen) → Option screen.Image → List ℕ
  image_to_bytes screen none = []
  image_to_bytes screen (some cg_image) =
      let width = screen.width cg_image in
      let height = screen.height cg_image in
      let bytes_per_row = screen.bytes_per_row cg_image in
      let raw_data : List ℕ = replicate (height * bytes_per_row % 2 ^ 64) 0 in
      elim (screen.draw width height bytes_per_row cg_image raw_data) [
        | none ↦ []
        | some drawn ↦ drawn
      ]

  unfoldable pub slot_send :
      (screen : Screen) → Endian → Option screen.Image → MainClient net → Outcome (MainClient net)
  slot_send screen host captured w =
      let written = async_write net host test_struct (serilize host sent_struct) w.conn in
      do
        messaged ←
            send_udp_data net host (udp_code test_message) (serialize_message host sent_message)
              written
        screenshot ← or_throw captured
        conn ←
            send_udp_data net host (udp_code image) (image_to_bytes screen (some screenshot))
              messaged
        done (record w { conn = conn })

  -- The slot of `signal_update_image_`. The QImage is 2880 by 1800 pixels of four bytes whatever
  -- the buffer holds.
  unfoldable pub show_image :
      (screen : Screen) → Option screen.Image → List ℕ → MainClient net → Outcome (MainClient net)
  show_image screen captured buf w =
      let w' : MainClient net = record w {
        conn = print net (with_number "image=" (length buf)) w.conn;
      } in
      do
        screenshot ← or_throw captured
        pixels ←
            if ltb (length buf) (2880 * 1800 * 4) then fault else done (take (2880 * 1800 * 4) buf)
        pixmap ← or_throw (screen.from_image pixels)
        done (record w' { pixmaps = w'.pixmaps ++ screen.scaled pixmap ∷ [] })

  unfoldable pub start_timer : MainClient net → MainClient net
  start_timer w = record w { timer = true }

  -- The handler of the timer, at an error code or not.
  unfoldable pub on_timer : Option ℕ → MainClient net → MainClient net
  on_timer none w = start_timer (record w { timer = false })
  on_timer (some ec) w = record w {
    conn = complain net (with_error "timer err:" ec) w.conn;
    timer = false;
  }
