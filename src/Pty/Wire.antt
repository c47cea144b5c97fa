-- ===== src/Pty/Wire.antt =====
-- pty.go and pty.c: the texts of the terminal protocol, as lists of bytes.
use Prim.Native.Char.{code}
use Prim.Native.String.{String}
use containerd_shim_systemd.Prelude.{
  ℕ, zero, suc, ◌+◌, ◌/◌, ◌%◌, Bool, ◌&&◌, ◌||◌, List, [], ◌∷◌, ◌++◌, Option, none, some, ◌==◌,
  if◌then◌else◌,
}

abbrev pub Bytes : Type 0
Bytes = List ℕ

-- The bytes of an ASCII literal.
abbrev pub bytes : String → Bytes
bytes String.[] = []
bytes (String.◌∷◌ c s) = code c ∷ bytes s

-- The digits of `n` in front of `out`; `fuel` bounds their number.
unfoldable pub put_digits : ℕ → ℕ → Bytes → Bytes
put_digits zero n out = out
put_digits (suc fuel) n out =
    let more = put_digits fuel (n / 10) ((b'0' + n % 10) ∷ out) in
    if n / 10 == 0 then (b'0' + n % 10) ∷ out else more

-- `strconv.AppendInt(buf, n, 10)` for a number that is not negative. An int64 has at most 19 digits.
unfoldable pub append_int : Bytes → ℕ → Bytes
append_int buf n = buf ++ put_digits 19 n []

abbrev pub tty_op_resize : ℕ
tty_op_resize = 1

-- `appendTTYResizeRequest`.
unfoldable pub append_tty_resize_request : Bytes → ℕ → ℕ → Bytes
append_tty_resize_request buf width height =
    let op = append_int buf tty_op_resize ++ b' ' ∷ [] in
    let columns = append_int op width ++ b' ' ∷ [] in append_int columns height ++ b'\n' ∷ []

abbrev pub is_line_end : ℕ → Bool
is_line_end c = c == b'\r' || c == b'\n'

-- `strings.TrimRight(line, "\r\n")`.
unfoldable pub trim_right : Bytes → Bytes
trim_right [] = []
trim_right (c ∷ s) = elim (trim_right s) [
  | [] ↦ if is_line_end c then [] else c ∷ []
  | d ∷ t ↦ c ∷ d ∷ t
]

-- The errors of a resize. The last three are those of `parseTTYResponse`, with the handler's text.
pub data TtyError : Type 0 where
  dial_error : TtyError
  deadline_error : TtyError
  write_error : TtyError
  read_error : TtyError
  response_too_long : TtyError
  sock_path_error : TtyError
  unspecified : TtyError
  handler_error : Bytes → TtyError
  unexpected : Bytes → TtyError

-- `parseTTYResponse`; `none` is nil. The cases on a trimmed line: "0", "1", and the prefix "1 ".
unfoldable pub parse_status : Bytes → Option TtyError
parse_status [] = some (unexpected [])
parse_status (c ∷ []) =
    if c == b'0' then none else if c == b'1' then some unspecified else some (unexpected (c ∷ []))
parse_status (c ∷ d ∷ s) =
    if c == b'1' && d == b' ' then some (handler_error s) else some (unexpected (c ∷ d ∷ s))

unfoldable pub parse_tty_response : Bytes → Option TtyError
parse_tty_response line = parse_status (trim_right line)
