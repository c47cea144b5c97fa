-- ===== src/Pty/Handler.antt =====
-- pty.c: the terminal handler, which answers each request line with one status line.
use containerd_shim_systemd.Prelude.{
  ℕ, zero, suc, ◌+◌, ◌-◌, ◌*◌, ◌%◌, ◌^◌, Bool, true, false, ◌&&◌, ◌||◌, not, List, [], ◌∷◌, ◌++◌,
  Option, none, some, leb, ◌==◌, if◌then◌else◌, length,
}
use containerd_shim_systemd.Pty.Wire.{Bytes, bytes}

-- The size that the terminal was given, in the 16 bits of `struct winsize`.
pub record WinSize : Type 0 where
  pub ws_col : ℕ
  pub ws_row : ℕ

abbrev pub is_digit : ℕ → Bool
is_digit c = leb b'0' c && leb c b'9'

-- What C's `isspace` holds to be white space.
abbrev pub is_space : ℕ → Bool
is_space c = c == b' ' || (leb 9 c && leb c 13)

unfoldable pub skip_space : Bytes → Bytes
skip_space [] = []
skip_space (c ∷ s) = if is_space c then skip_space s else c ∷ s

-- The digits at the front, behind those that make `n`; and what follows them.
unfoldable pub scan_digits : ℕ → Bytes → ℕ × Bytes
scan_digits n [] = (n, [])
scan_digits n (c ∷ s) =
    let more = scan_digits (n * 10 + (c - b'0')) s in if is_digit c then more else (n, c ∷ s)

-- An `int` stored in an `unsigned short`.
abbrev pub to_unsigned_short : Bool × ℕ → ℕ
to_unsigned_short (negative, n) = if negative then (2 ^ 16 - n % 2 ^ 16) % 2 ^ 16 else n % 2 ^ 16

abbrev pub reply_ok : Bytes
reply_ok = bytes "0\n"

unfoldable pub take_at_most : ℕ → Bytes → Bytes
take_at_most zero s = []
take_at_most (suc n) [] = []
take_at_most (suc n) (c ∷ s) = c ∷ take_at_most n s

-- `reply_err`, with its buffer of 256 bytes.
unfoldable pub reply_err : Bytes → Bytes
reply_err msg = take_at_most 255 (bytes "1 " ++ msg ++ bytes "\n")

-- A connection: the bytes of a request that is not complete, the size of the terminal, the replies
-- that were written, and whether the handler still serves it.
pub record HandlerConn : Type 0 where
  pub partial : Bytes
  pub ws : WinSize
  pub replies : Bytes
  pub is_open : Bool

-- Whether a C `int` holds the number.
abbrev pub in_int : Bool → ℕ → Bool
in_int negative n = leb n (if negative then 2147483648 else 2147483647)

-- C does not define what `%d` stores of a number that an `int` does not hold: `over` is what it does.
module _ (over : Bool → ℕ → Bool × ℕ) where
  -- `%d` of `sscanf` after its white space: a sign and digits. A number that an `int` does not hold is
  -- stored as `over` has it.
  unfoldable pub scan_number : Bytes → Option ((Bool × ℕ) × Bytes)
  scan_number [] = none
  scan_number (c ∷ s) =
      let digits : Bool → Bytes → Option ((Bool × ℕ) × Bytes) = λ negative t. elim t [
        | [] ↦ none
        | d ∷ t' ↦
            let (n, rest) = scan_digits 0 (d ∷ t') in
            let stored = if in_int negative n then (negative, n) else over negative n in
            if is_digit d then some (stored, rest) else none
      ] in
      if c == b'-'
      then digits true s
      else if c == b'+'
      then digits false s
      else digits false (c ∷ s)

  unfoldable pub scan_int : Bytes → Option ((Bool × ℕ) × Bytes)
  scan_int s = scan_number (skip_space s)

  -- `sscanf(line, "%d %d %d", …)`; `none` is a result other than 3.
  unfoldable pub scan_request : Bytes → Option ((Bool × ℕ) × (Bool × ℕ) × (Bool × ℕ))
  scan_request line = elim (scan_int line) [
    | none ↦ none
    | some (op, s) ↦ elim (scan_int s) [
      | none ↦ none
      | some (w, t) ↦ elim (scan_int t) [ none ↦ none | some (h, u) ↦ some (op, w, h) ]
    ]
  ]

  -- `handle_tty_request`, by whether the `ioctl` works: the size of the terminal after it, and what is
  -- written to the client.
  unfoldable pub handle_tty_request : Bool → WinSize → Bytes → WinSize × Bytes
  handle_tty_request works ws line = elim (scan_request line) [
    | none ↦ (ws, reply_err (bytes "invalid resize request"))
    | some ((negative, op), w, h) ↦
        if negative || not (op == 1)
        then (ws, reply_err (bytes "unknown operation"))
        else if not works
        then (ws, reply_err (bytes "error setting window size"))
        else (record { ws_col = to_unsigned_short w; ws_row = to_unsigned_short h }, reply_ok)
  ]

  -- The loop over the complete lines of the buffer, a byte at a time.
  unfoldable pub service_lines : HandlerConn → Bytes → HandlerConn
  service_lines c [] = c
  service_lines c (b ∷ s) =
      let (ws, reply) = handle_tty_request true c.ws c.partial in
      let c' =
        if b == b'\n'
        then record c { partial = []; ws = ws; replies = c.replies ++ reply }
        else record c { partial = c.partial ++ b ∷ [] } in
      service_lines c' s

  -- A round of `handle_tty_op_conn` in which the `read` gave some bytes, for a terminal whose `ioctl`
  -- works and a client that reads.
  unfoldable pub handle_read : HandlerConn → Bytes → HandlerConn
  handle_read c chunk =
      let c' = service_lines c chunk in
      if length c'.partial == 255
      then record c' {
        replies = c'.replies ++ reply_err (bytes "request too long");
        is_open = false;
      }
      else c'

  unfoldable pub handle_reads : HandlerConn → List Bytes → HandlerConn
  handle_reads c [] = c
  handle_reads c (chunk ∷ chunks) =
      let c' = handle_read c chunk in
      let rest = handle_reads c' chunks in if c'.is_open then rest else c'
