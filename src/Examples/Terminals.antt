-- ===== src/Examples/Terminals.antt =====
-- Runs of the client of a terminal and of its handler.
use containerd_shim_systemd.Prelude.{
  ℕ, ◌+◌, ◌≤◌, ◌≡◌, refl, Bool, true, false, not, List, [], ◌∷◌, none, arith, length, if◌then◌else◌,
}
use containerd_shim_systemd.Pty.Wire.{
  Bytes, bytes, put_digits, append_int, append_tty_resize_request,
}
use containerd_shim_systemd.Pty.Handler.{HandlerConn, handle_reads}
use containerd_shim_systemd.Pty.Stream.{concat, requests, resized, handle_reads-requests}
use containerd_shim_systemd.Pty.Client.{Sockets, read_string, resize}
use containerd_shim_systemd.Pty.Exchange.{loses, resize-loses, read_string-bounded}
use containerd_shim_systemd.Pty.Served.{
  with_handler, at_rest, size_of, client, resizes, last_size, all_nil, resizes-served,
}

-- A C library that stores the `int` next to the number.
abbrev saturates : Bool → ℕ → Bool × ℕ
saturates negative n = (negative, if negative then 2147483648 else 2147483647)

abbrev sizes : List (ℕ × ℕ)
sizes = (80, 24) ∷ (120, 40) ∷ []

resizes-served_example :
    resizes saturates (at_rest (size_of 0 0)) (client "s" false) sizes
    ≡ (at_rest (last_size (size_of 0 0) sizes), all_nil sizes)
resizes-served_example =
    resizes-served saturates (size_of 0 0) "s" false sizes
      (omega arith, omega arith, (omega arith, omega arith, tt))

abbrev conn : HandlerConn
conn = (at_rest (size_of 0 0)).conn

-- The first request and a half, then the rest.
abbrev fragments : List Bytes
fragments = bytes "1 80 24\n1 12" ∷ bytes "0 40\n" ∷ []

fragments-requests : concat fragments ≡ requests sizes
unfolding append_tty_resize_request append_int put_digits
fragments-requests = refl

handle_reads-requests_example : handle_reads saturates conn fragments ≡ resized conn sizes
handle_reads-requests_example =
    handle_reads-requests saturates conn sizes fragments refl refl
      (omega arith, omega arith, (omega arith, omega arith, tt)) fragments-requests

-- A handler that never answers.
abbrev silent : Sockets
silent = record (with_handler saturates) { read = λ p n. (none, p) }

resize-loses_example :
    let (w, c, e) = resize silent (at_rest (size_of 0 0)) (client "s" true) 80 24 in
    (c.has_conn ≡ not (loses e)) × (c.sock_path ≡ "s")
resize-loses_example = resize-loses silent (at_rest (size_of 0 0)) (client "s" true) 80 24

read_string-bounded_example :
    let r = read_string (with_handler saturates) 256 256 (at_rest (size_of 0 0)) [] in
    (r ≡ read_string (with_handler saturates) 300 256 (at_rest (size_of 0 0)) [])
    × (length r.line + length r.buffered + r.left ≤ 0 + 256)
read_string-bounded_example =
    read_string-bounded (with_handler saturates) 256 300 256 (at_rest (size_of 0 0)) []
      (omega arith) (omega arith)
