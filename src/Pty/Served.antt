-- ===== src/Pty/Served.antt =====
-- pty.go and pty.c: the client of pty.go with the handler of pty.c at the other end.
use mathlib.Core.List.{append-nil}
use containerd_shim_systemd.Prelude.{
  ℕ, zero, suc, ◌%◌, ◌^◌, ◌<◌, ◌≡◌, refl, Bool, true, false, String, List, [], ◌∷◌, ◌++◌, Option,
  none, some,
}
use containerd_shim_systemd.Pty.Wire.{
  Bytes, append_tty_resize_request, trim_right, parse_tty_response, parse_status, TtyError,
}
use containerd_shim_systemd.Pty.Handler.{
  WinSize, HandlerConn, handle_read, take_at_most, service_lines, reply_ok,
}
use containerd_shim_systemd.Pty.Stream.{Fits31, service_lines-requests}
use containerd_shim_systemd.Pty.Client.{
  Sockets, TtyControlClient, received, read_string, split_line, read_msg, exchange, dial_client,
  end_exchange, resize_over, resize,
}

-- The handler, and what it has written that the client has not read.
pub record Peer : Type 0 where
  pub conn : HandlerConn
  pub pending : Bytes

abbrev pub drop_at_most : ℕ → Bytes → Bytes
drop_at_most zero s = s
drop_at_most (suc n) [] = []
drop_at_most (suc n) (c ∷ s) = drop_at_most n s

abbrev pub reads : Peer → ℕ → Option (ℕ × Bytes) × Peer
reads p zero = (none, p)
reads p (suc n) = elim (p.pending) [
  | [] ↦ (none, p)
  | b ∷ bs ↦ (some (b, take_at_most n bs), record p { pending = drop_at_most n bs })
]

abbrev pub at_rest : WinSize → Peer
at_rest ws = record {
  conn = record { partial = []; ws = ws; replies = []; is_open = true };
  pending = [];
}

abbrev pub size_of : ℕ → ℕ → WinSize
size_of w h = record { ws_col = w % 2 ^ 16; ws_row = h % 2 ^ 16 }

-- A client with nothing left to read.
abbrev pub client : String → Bool → TtyControlClient
client path up = record { sock_path = path; has_conn = up; buffered = [] }

abbrev pub last_size : WinSize → List (ℕ × ℕ) → WinSize
last_size ws [] = ws
last_size ws ((w, h) ∷ sizes) = last_size (size_of w h) sizes

abbrev pub all_nil : {A : Type 0} → List A → List (Option TtyError)
all_nil [] = []
all_nil (x ∷ xs) = none ∷ all_nil xs

module _ (over : Bool → ℕ → Bool × ℕ) where
  -- What the handler makes of the bytes of a write.
  abbrev pub served : Peer → Bytes → Peer
  served p bs =
      let c = handle_read over p.conn bs in
      record { conn = record c { replies = [] }; pending = p.pending ++ c.replies }

  abbrev pub with_handler : Sockets
  with_handler = record {
    World = Peer;
    dial = λ p path. (
      true,
      record {
        conn = record { partial = []; ws = p.conn.ws; replies = []; is_open = true };
        pending = [];
      },
    );
    set_deadline = λ p. (true, p);
    write = λ p bs. (true, served p bs);
    read = reads;
    close = λ p. p;
  }

  handle_read-request :
      (ws : WinSize) (w h : ℕ)
      → w < 2147483648
      → h < 2147483648
      → handle_read over (at_rest ws).conn (append_tty_resize_request [] w h)
        ≡ record { partial = []; ws = size_of w h; replies = reply_ok; is_open = true }
  unfolding handle_read
  handle_read-request ws w h a b =
      let line : service_lines over (at_rest ws).conn (append_tty_resize_request [] w h)
          ≡ record { partial = []; ws = size_of w h; replies = reply_ok; is_open = true } =
        rw (← append-nil (append_tty_resize_request [] w h))
          (service_lines-requests over (at_rest ws).conn ((w, h) ∷ []) refl (a, b, tt)) in
      rw line refl

  read_msg-ok :
      (ws : WinSize) (path : String)
      → read_msg with_handler
          (record { conn = (at_rest ws).conn; pending = reply_ok })
          (client path true)
        ≡ (at_rest ws, client path true, received (b'0' ∷ []))
  unfolding read_msg read_string split_line trim_right take_at_most
  read_msg-ok ws path = refl

  resize_over-served :
      (ws : WinSize) (path : String) (w h : ℕ)
      → w < 2147483648
      → h < 2147483648
      → resize_over with_handler (at_rest ws) (client path true) w h
        ≡ (at_rest (size_of w h), client path true, none)
  unfolding resize_over exchange end_exchange parse_tty_response parse_status trim_right
  resize_over-served ws path w h a b =
      rw (handle_read-request ws w h a b, read_msg-ok (size_of w h) path) refl

  resize-served :
      (ws : WinSize) (path : String) (up : Bool) (w h : ℕ)
      → w < 2147483648
      → h < 2147483648
      → resize with_handler (at_rest ws) (client path up) w h
        ≡ (at_rest (size_of w h), client path true, none)
  unfolding resize dial_client
  resize-served ws path true w h a b = resize_over-served ws path w h a b
  resize-served ws path false w h a b = resize_over-served ws path w h a b

  -- The resizes of some sizes, one after another, and their errors.
  abbrev pub resizes : Peer → TtyControlClient → List (ℕ × ℕ) → Peer × List (Option TtyError)
  resizes p c [] = (p, [])
  resizes p c ((w, h) ∷ sizes) =
      let (p', c', e) = resize with_handler p c w h in
      let (p'', es) = resizes p' c' sizes in (p'', e ∷ es)

  -- The client and the handler fit together: with the handler of pty.c, whose `ioctl` works, behind the
  -- socket, any resizes to sizes of numbers that a C `int` holds all return nil, whether the client has a connection
  -- yet or not, and leave the terminal at the last size, as far as 16 bits hold it.
  pub resizes-served :
      (ws : WinSize) (path : String) (up : Bool) (sizes : List (ℕ × ℕ))
      → Fits31 sizes
      → resizes (at_rest ws) (client path up) sizes ≡ (at_rest (last_size ws sizes), all_nil sizes)
  resizes-served ws path up [] f = refl
  resizes-served ws path up ((w, h) ∷ sizes) (a, b, f) =
      rw (resize-served ws path up w h a b, resizes-served (size_of w h) path true sizes f) refl
