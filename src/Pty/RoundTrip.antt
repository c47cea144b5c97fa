-- ===== src/Pty/RoundTrip.antt =====
-- pty.go and pty.c: the handler reads back what the client writes, however the stream is cut up.
use mathlib.Core.List.{append_assoc}
use containerd_shim_systemd.Prelude.{
  ℕ, zero, suc, ◌+◌, ◌/◌, ◌%◌, ◌^◌, ◌<◌, ◌≤◌, ◌≡◌, refl, ◌∙◌, Bool, true, false, [], ◌∷◌, ◌++◌,
  some, arith, length,
}
use containerd_shim_systemd.Pty.Wire.{Bytes, put_digits, append_int, append_tty_resize_request}
use containerd_shim_systemd.Pty.Handler.{
  WinSize, skip_space, scan_digits, scan_number, scan_int, scan_request, handle_tty_request,
  reply_ok,
}

put_digits-append :
    (fuel n : ℕ) (s t : Bytes) → put_digits fuel n s ++ t ≡ put_digits fuel n (s ++ t)
unfolding put_digits
put_digits-append zero n s t = refl
put_digits-append (suc fuel) n s t =
    ground (arith, put_digits-append fuel (n / 10) ((b'0' + n % 10) ∷ s) t)

length-put_digits :
    (fuel k n : ℕ) (s : Bytes) → n < 10 ^ k → 0 < k → length (put_digits fuel n s) ≤ k + length s
unfolding put_digits
length-put_digits zero k n s h p = omega arith
length-put_digits (suc fuel) zero n s h p = omega arith
length-put_digits (suc fuel) (suc zero) n s h p = ground arith
length-put_digits (suc fuel) (suc (suc k)) n s h p =
    ground (arith, length-put_digits fuel (suc k) (n / 10) ((b'0' + n % 10) ∷ s))

scan_last : (n : ℕ) (s : Bytes) → scan_digits (n / 10) ((b'0' + n % 10) ∷ s) ≡ scan_digits n s
unfolding scan_digits
scan_last n s = ground arith

scan_digits-put_digits :
    (fuel n : ℕ) (s : Bytes) → n < 10 ^ fuel → scan_digits 0 (put_digits fuel n s) ≡ scan_digits n s
unfolding put_digits
scan_digits-put_digits zero n s h = ground arith
scan_digits-put_digits (suc fuel) n s h =
    ground (arith, scan_last n s, scan_digits-put_digits fuel (n / 10) ((b'0' + n % 10) ∷ s))

-- The first byte is a digit.
abbrev StartsWithDigit : Bytes → Type 0
StartsWithDigit [] = ⊥
StartsWithDigit (c ∷ s) = (b'0' ≤ c) × (c ≤ b'9')

put_digits-StartsWithDigit :
    (fuel n : ℕ) (s : Bytes) → StartsWithDigit s → StartsWithDigit (put_digits fuel n s)
unfolding put_digits
put_digits-StartsWithDigit zero n s h = h
put_digits-StartsWithDigit (suc fuel) n s h =
    let d : StartsWithDigit ((b'0' + n % 10) ∷ s) = (omega arith, omega arith) in
    ground (arith, put_digits-StartsWithDigit fuel (n / 10) ((b'0' + n % 10) ∷ s) d)

-- A request without its newline.
abbrev pub request_line : ℕ → ℕ → Bytes
request_line w h = put_digits 19 1 (b' ' ∷ put_digits 19 w (b' ' ∷ put_digits 19 h []))

pub append_tty_resize_request-line :
    (w h : ℕ) → append_tty_resize_request [] w h ≡ request_line w h ++ b'\n' ∷ []
unfolding append_tty_resize_request append_int
append_tty_resize_request-line w h = simp (append_assoc, put_digits-append)

pub length-request_line :
    (w h : ℕ) → w < 2147483648 → h < 2147483648 → length (request_line w h) ≤ 23
unfolding put_digits
length-request_line w h a b =
    omega
      (arith, length-put_digits 19 10 w (b' ' ∷ put_digits 19 h []), length-put_digits 19 10 h [])

module _ (over : Bool → ℕ → Bool × ℕ) where
  scan_number_digit :
      (s : Bytes)
      → StartsWithDigit s
      → (scan_digits 0 s).0 < 2147483648
      → scan_int over s ≡ some ((false, (scan_digits 0 s).0), (scan_digits 0 s).1)
  unfolding scan_int scan_number skip_space
  scan_number_digit [] h f = elim h [ ]
  scan_number_digit (c ∷ s) h f = ground (arith, h.0, h.1, f)

  -- A number that an `int` holds is read back, with what follows it.
  scan_int-put_digits :
      (n : ℕ) (s : Bytes)
      → n < 2147483648
      → (scan_digits n s ≡ (n, s))
      → scan_int over (put_digits 19 n s) ≡ some ((false, n), s)
  unfolding put_digits
  scan_int-put_digits n s h e =
      let d : StartsWithDigit ((b'0' + n % 10) ∷ s) = (omega arith, omega arith) in
      let q : scan_digits 0 (put_digits 19 n s) ≡ (n, s) =
        scan_digits-put_digits 19 n s (omega arith) ∙ e in
      let first : StartsWithDigit (put_digits 19 n s) =
        ground (arith, put_digits-StartsWithDigit 18 (n / 10) ((b'0' + n % 10) ∷ s) d) in
      rw (scan_number_digit (put_digits 19 n s) first (rw q h), q) refl

  scan_request-line :
      (w h : ℕ)
      → w < 2147483648
      → h < 2147483648
      → scan_request over (request_line w h) ≡ some ((false, 1), (false, w), (false, h))
  unfolding scan_request scan_digits scan_int scan_number skip_space
  scan_request-line w h a b =
      rw
        (
          scan_int-put_digits 1 (b' ' ∷ put_digits 19 w (b' ' ∷ put_digits 19 h [])) (omega arith)
              refl,
          scan_int-put_digits w (b' ' ∷ put_digits 19 h []) a refl,
          scan_int-put_digits h [] b refl,
          scan_request,
        )
        refl

  -- A request for a size is carried out: the handler, whose `ioctl` works, sets the size that was asked
  -- for, as far as 16 bits hold it, and answers that it did.
  pub handle_tty_request-line :
      (ws : WinSize) (w h : ℕ)
      → w < 2147483648
      → h < 2147483648
      → handle_tty_request over true ws (request_line w h)
        ≡ (record { ws_col = w % 2 ^ 16; ws_row = h % 2 ^ 16 }, reply_ok)
  unfolding handle_tty_request
  handle_tty_request-line ws w h a b = rw (scan_request-line w h a b, handle_tty_request) refl
