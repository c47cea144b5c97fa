-- ===== src/Pty/Client.antt =====
-- pty.go: the client of a terminal handler, and the requests that use it.
use containerd_shim_systemd.Prelude.{
  ℕ, zero, suc, ◌-◌, Bool, true, false, not, ◌||◌, String, [], ◌∷◌, ◌++◌, Option, none, some,
  length, ◌==◌, if◌then◌else◌,
}
use containerd_shim_systemd.Pty.Wire.{
  Bytes, append_tty_resize_request, trim_right, parse_tty_response, TtyError, dial_error,
  deadline_error, write_error, read_error, response_too_long,
}
use containerd_shim_systemd.Pty.Handler.{take_at_most}

-- What is asked of the sockets of the system: of the connection that a client has open, and of the
-- files beside it. Nothing is assumed of the answers.
pub record Sockets : Type 1 where
  pub World : Type 0
  -- `net.Dial`, `SetDeadline` and `Write`; whether they worked.
  pub dial : World → String → Bool × World
  pub set_deadline : World → Bool × World
  pub write : World → Bytes → Bool × World
  -- `Read` of at most some bytes: the first one and those that follow, or none, which is an error,
  -- a deadline or the end.
  pub read : World → ℕ → Option (ℕ × Bytes) × World
  pub close : World → World

-- `maxTTYResponseLen`.
abbrev pub max_tty_response_len : ℕ
max_tty_response_len = 256

-- `ttyControlClient`: whether `conn` is set, and what its reader has buffered.
pub record TtyControlClient : Type 0 where
  pub sock_path : String
  pub has_conn : Bool
  pub buffered : Bytes

-- `newTTYControlClient`.
unfoldable pub new_tty_control_client : String → TtyControlClient
new_tty_control_client sock_path = record { sock_path = sock_path; has_conn = false; buffered = [] }

-- The bytes up to the first newline, with it, and what follows.
unfoldable pub split_line : Bytes → Option (Bytes × Bytes)
split_line [] = none
split_line (c ∷ s) =
    if c == b'\n'
    then some (c ∷ [], s)
    else elim (split_line s) [ none ↦ none | some (line, rest) ↦ some (c ∷ line, rest) ]

-- What `ReadString` gives: the line, whether it failed, what may still be read (`limit.N`).
pub record Read (W : Type 0) : Type 0 where
  pub world : W
  pub buffered : Bytes
  pub line : Bytes
  pub is_failed : Bool
  pub left : ℕ

-- What an exchange gives.
pub data Exchanged : Type 0 where
  received : Bytes → Exchanged
  lost : TtyError → Exchanged

module _ (k : Sockets) where
  open k use {World, dial, set_deadline, write, read, close}

  -- `ReadString('\n')` over the limited reader, which may still read `n` bytes; `fuel` bounds the
  -- reads.
  unfoldable pub read_string : ℕ → ℕ → World → Bytes → Read World
  read_string zero n w buf = elim (split_line buf) [
    | none ↦ record { world = w; buffered = []; line = buf; is_failed = true; left = n }
    | some found ↦ record {
      world = w;
      buffered = found.1;
      line = found.0;
      is_failed = false;
      left = n;
    }
  ]
  read_string (suc fuel) n w buf =
      let (got, w') = read w n in
      elim (split_line buf) [
        | some found ↦ record {
          world = w;
          buffered = found.1;
          line = found.0;
          is_failed = false;
          left = n;
        }
        | none ↦
            if n == 0
            then record { world = w; buffered = []; line = buf; is_failed = true; left = n }
            else elim got [
              | none ↦ record { world = w'; buffered = []; line = buf; is_failed = true; left = n }
              | some bs ↦
                  let chunk = take_at_most n (bs.0 ∷ bs.1) in
                  read_string fuel (n - length chunk) w' (buf ++ chunk)
            ]
      ]

  -- `readMsg`.
  unfoldable pub read_msg : World → TtyControlClient → World × TtyControlClient × Exchanged
  read_msg w c =
      let r = read_string max_tty_response_len max_tty_response_len w c.buffered in
      let c' = record c { buffered = r.buffered } in
      if not r.is_failed
      then (r.world, c', received (trim_right r.line))
      else if r.left == 0
      then (r.world, c', lost response_too_long)
      else if length r.line == 0
      then (r.world, c', lost read_error)
      else (r.world, c', received (trim_right r.line))

  -- `exchange`.
  unfoldable pub exchange : World → TtyControlClient → Bytes → World × TtyControlClient × Exchanged
  exchange w c req =
      let (timed, w1) = set_deadline w in
      let (written, w2) = write w1 req in
      if not timed
      then (w1, c, lost deadline_error)
      else if not written
      then (w2, c, lost write_error)
      else read_msg w2 c

  -- `reset`, and `Close`, which is `reset` under the lock.
  unfoldable pub reset_client : World → TtyControlClient → World × TtyControlClient
  reset_client w c =
      if not c.has_conn then (w, c) else (close w, record c { has_conn = false; buffered = [] })

  -- `dial`.
  unfoldable pub dial_client : World → TtyControlClient → World × TtyControlClient × Bool
  dial_client w c =
      let (done, w') = dial w c.sock_path in
      if done then (w', record c { has_conn = true; buffered = [] }, true) else (w', c, false)

  -- What `Resize` does with the answer.
  unfoldable pub end_exchange :
      World → TtyControlClient → Exchanged → World × TtyControlClient × Option TtyError
  end_exchange w c (received line) = (w, c, parse_tty_response line)
  end_exchange w c (lost e) = let (w', c') = reset_client w c in (w', c', some e)

  -- `Resize` with a connection.
  unfoldable pub resize_over :
      World → TtyControlClient → ℕ → ℕ → World × TtyControlClient × Option TtyError
  resize_over w c width height =
      let (w', c', answer) = exchange w c (append_tty_resize_request [] width height) in
      end_exchange w' c' answer

  -- `Resize`.
  unfoldable pub resize :
      World → TtyControlClient → ℕ → ℕ → World × TtyControlClient × Option TtyError
  resize w c width height =
      let (w', c', dialed) = dial_client w c in
      let (w1, c1) = if c.has_conn then (w, c) else (w', c') in
      let served = resize_over w1 c1 width height in
      if c.has_conn || dialed then served else (w', c', some dial_error)

  -- `process.ResizePTY`; the client is the process's `ttyControl`.
  unfoldable pub resize_pty :
      World
      → Bool
      → Option TtyControlClient
      → ℕ
      → ℕ
      → String
      → World × Option TtyControlClient × Option TtyError
  resize_pty w terminal control width height sock_path =
      let c : TtyControlClient = elim control [
        | none ↦ new_tty_control_client sock_path
        | some c ↦ c
      ] in
      let (w', c', e) = resize w c width height in
      if terminal then (w', some c', e) else (w, control, none)

  -- `closeTTYControl`.
  unfoldable pub close_tty_control :
      World → Option TtyControlClient → World × Option TtyControlClient
  close_tty_control w none = (w, none)
  close_tty_control w (some c) = ((reset_client w c).0, none)
