-- ===== src/Pty/Stream.antt =====
-- pty.go and pty.c: the handler serves a stream of requests, however it is cut into reads.
use mathlib.Core.List.{append_assoc, append-nil}
use containerd_shim_systemd.Prelude.{
  ℕ, zero, suc, ◌+◌, ◌/◌, ◌%◌, ◌^◌, ◌<◌, ◌≡◌, refl, sym, ap, subst, ◌∙◌, Bool, true, List, [], ◌∷◌,
  ◌++◌, arith, length, length-append, ◌==◌, if◌then◌else◌,
}
use containerd_shim_systemd.Pty.Wire.{Bytes, put_digits, append_tty_resize_request}
use containerd_shim_systemd.Pty.Handler.{
  WinSize, handle_tty_request, reply_ok, HandlerConn, service_lines, handle_read, handle_reads,
}
use containerd_shim_systemd.Pty.RoundTrip.{
  request_line, append_tty_resize_request-line, handle_tty_request-line, length-request_line,
}

-- The bytes have no newline.
abbrev IsLine : Bytes → Type 0
IsLine [] = Unit
IsLine (c ∷ s) = (c ≡ b'\n' → ⊥) × IsLine s

IsLine-put_digits : (fuel n : ℕ) (s : Bytes) → IsLine s → IsLine (put_digits fuel n s)
unfolding put_digits
IsLine-put_digits zero n s h = h
IsLine-put_digits (suc fuel) n s h =
    let l : IsLine ((b'0' + n % 10) ∷ s) = (λ e. omega arith, h) in
    ground (arith, IsLine-put_digits fuel (n / 10) ((b'0' + n % 10) ∷ s) l)

IsLine-request : (w h : ℕ) → IsLine (request_line w h)
IsLine-request w h =
    IsLine-put_digits 19 1 _
      (λ e. omega arith, IsLine-put_digits 19 w _ (λ e. omega arith, IsLine-put_digits 19 h [] tt))

-- Each line of the bytes is shorter than the handler's buffer, where `k` bytes of the first came before.
abbrev pub IsBounded : ℕ → Bytes → Type 0
IsBounded k [] = k < 255
IsBounded k (b ∷ s) = (k < 255) × IsBounded (if b == b'\n' then 0 else suc k) s

IsBounded-lt : (k : ℕ) (s : Bytes) → IsBounded k s → k < 255
IsBounded-lt k [] h = h
IsBounded-lt k (b ∷ s) h = h.0

-- The reads, one after another.
abbrev pub concat : List Bytes → Bytes
concat [] = []
concat (s ∷ ss) = s ++ concat ss

-- The requests for some sizes, one after another.
abbrev pub requests : List (ℕ × ℕ) → Bytes
requests [] = []
requests ((w, h) ∷ sizes) = append_tty_resize_request [] w h ++ requests sizes

-- Each size is one of numbers that a C `int` holds.
abbrev pub Fits31 : List (ℕ × ℕ) → Type 0
Fits31 [] = Unit
Fits31 ((w, h) ∷ sizes) = (w < 2147483648) × (h < 2147483648) × Fits31 sizes

-- What is expected of a connection: the last size is set, and each request was answered.
abbrev pub resized : HandlerConn → List (ℕ × ℕ) → HandlerConn
resized c [] = c
resized c ((w, h) ∷ sizes) =
    resized
      (record c {
        ws = record { ws_col = w % 2 ^ 16; ws_row = h % 2 ^ 16 };
        replies = c.replies ++ reply_ok;
      })
      sizes

IsBounded-line :
    (k : ℕ) (s t : Bytes)
    → IsLine s
    → k + length s < 255
    → IsBounded 0 t
    → IsBounded k (s ++ b'\n' ∷ t)
IsBounded-line k [] t l h b = (omega arith, b)
IsBounded-line k (c ∷ s) t l h b =
    (omega arith, ground (arith, l.0, IsBounded-line (suc k) s t l.1 (omega arith) b))

request-line :
    (w h : ℕ) (t : Bytes) → append_tty_resize_request [] w h ++ t ≡ request_line w h ++ b'\n' ∷ t
request-line w h t =
    rw (append_tty_resize_request-line w h) (append_assoc (request_line w h) (b'\n' ∷ []) t)

IsBounded-requests : (sizes : List (ℕ × ℕ)) → Fits31 sizes → IsBounded 0 (requests sizes)
IsBounded-requests [] f = omega arith
IsBounded-requests ((w, h) ∷ sizes) (a, b, f) = rw (request-line w h (requests sizes)) (
    IsBounded-line 0 (request_line w h) (requests sizes) (IsLine-request w h)
      (omega (arith, length-request_line w h a b)) (IsBounded-requests sizes f))

module _ (over : Bool → ℕ → Bool × ℕ) where
  -- What a whole line does to a connection.
  service_lines-line :
      (c : HandlerConn) (s t : Bytes)
      → IsLine s
      → service_lines over c (s ++ t) ≡ service_lines over (record c { partial = c.partial ++ s }) t
  unfolding service_lines
  service_lines-line c [] t h = rw (append-nil c.partial) refl
  service_lines-line c (b ∷ s) t h =
      let keep = service_lines-line (record c { partial = c.partial ++ b ∷ [] }) s t h.1 in
      rw (← append_assoc c.partial (b ∷ []) s, ← keep) (ground (arith, h.0))

  service_lines-append :
      (c : HandlerConn) (s t : Bytes)
      → service_lines over c (s ++ t) ≡ service_lines over (service_lines over c s) t
  unfolding service_lines
  service_lines-append c [] t = refl
  service_lines-append c (b ∷ s) t =
      let (ws, reply) = handle_tty_request over true c.ws c.partial in
      service_lines-append
        (if b == b'\n'
          then record c { partial = []; ws = ws; replies = c.replies ++ reply }
          else record c { partial = c.partial ++ b ∷ [] })
        s t

  service_lines-IsBounded :
      (c : HandlerConn) (s t : Bytes)
      → IsBounded (length c.partial) (s ++ t)
      → IsBounded (length (service_lines over c s).partial) t
  unfolding service_lines
  service_lines-IsBounded c [] t h = h
  service_lines-IsBounded c (b ∷ s) t h =
      let (ws, reply) = handle_tty_request over true c.ws c.partial in
      let c' : HandlerConn =
        if b == b'\n'
        then record c { partial = []; ws = ws; replies = c.replies ++ reply }
        else record c { partial = c.partial ++ b ∷ [] } in
      let e : length c'.partial ≡ (if b == b'\n' then 0 else suc (length c.partial)) =
        ground (arith, length-append c.partial (b ∷ [])) in
      service_lines-IsBounded c' s t (subst (λ k. IsBounded k (s ++ t)) (sym e) h.1)

  service_lines-open : (c : HandlerConn) (s : Bytes) → (service_lines over c s).is_open ≡ c.is_open
  unfolding service_lines
  service_lines-open c [] = refl
  service_lines-open c (b ∷ s) =
      let (ws, reply) = handle_tty_request over true c.ws c.partial in
      service_lines-open
        (if b == b'\n'
          then record c { partial = []; ws = ws; replies = c.replies ++ reply }
          else record c { partial = c.partial ++ b ∷ [] })
        s
      ∙ ground arith

  -- However the bytes of a client are cut into reads, the handler does what it does for them at once,
  -- as long as each line is shorter than its buffer.
  pub handle_reads_lem :
      (c : HandlerConn) (chunks : List Bytes)
      → c.is_open ≡ true
      → IsBounded (length c.partial) (concat chunks)
      → handle_reads over c chunks ≡ service_lines over c (concat chunks)
  unfolding handle_reads handle_read service_lines
  handle_reads_lem c [] o h = refl
  handle_reads_lem c (s ∷ ss) o h =
      let c' = service_lines over c s in
      let h' = service_lines-IsBounded c s (concat ss) h in
      let o' : c'.is_open ≡ true = service_lines-open c s ∙ o in
      rw (service_lines-append c s (concat ss), ← handle_reads_lem c' ss o' h')
        (ground (arith, IsBounded-lt (length c'.partial) (concat ss) h', o'))

  service_lines-newline :
      (c : HandlerConn) (t : Bytes) (ws : WinSize) (reply : Bytes)
      → handle_tty_request over true c.ws c.partial ≡ (ws, reply)
      → service_lines over c (b'\n' ∷ t)
        ≡ service_lines over (record c { partial = []; ws = ws; replies = c.replies ++ reply }) t
  unfolding service_lines
  service_lines-newline c t ws reply e = rw e refl

  pub service_lines-requests :
      (c : HandlerConn) (sizes : List (ℕ × ℕ))
      → c.partial ≡ []
      → Fits31 sizes
      → service_lines over c (requests sizes) ≡ resized c sizes
  unfolding service_lines
  service_lines-requests c [] p f = refl
  service_lines-requests c ((w, h) ∷ sizes) p (a, b, f) =
      let ws : WinSize = record { ws_col = w % 2 ^ 16; ws_row = h % 2 ^ 16 } in
      let next = record c { partial = []; ws = ws; replies = c.replies ++ reply_ok } in
      let line : c.partial ++ request_line w h ≡ request_line w h = rw p refl in
      let answered : handle_tty_request over true c.ws (c.partial ++ request_line w h)
          ≡ (ws, reply_ok) =
        rw (line, handle_tty_request-line over c.ws w h (omega arith) (omega arith)) refl in
      let full = record c { partial = c.partial ++ request_line w h } in
      rw
        (
          request-line w h (requests sizes),
          service_lines-line c (request_line w h) (b'\n' ∷ requests sizes) (IsLine-request w h),
          service_lines-newline full (requests sizes) ws reply_ok answered,
          service_lines-requests next sizes refl f,
        )
        (ap (λ q. resized (record next { partial = q }) sizes) (sym p))

  -- The handler, whose `ioctl` works, serves the requests that the client writes for any sizes of
  -- numbers that a C `int` holds, however the stream of their bytes is cut into reads: each is answered with success,
  -- in order, and after them the terminal has the last size, as far as 16 bits hold it.
  pub handle_reads-requests :
      (c : HandlerConn) (sizes : List (ℕ × ℕ)) (chunks : List Bytes)
      → c.is_open ≡ true
      → c.partial ≡ []
      → Fits31 sizes
      → concat chunks ≡ requests sizes
      → handle_reads over c chunks ≡ resized c sizes
  handle_reads-requests c sizes chunks o p f e =
      let bound : IsBounded (length c.partial) (concat chunks) =
        rw (p, e) (IsBounded-requests sizes f) in
      handle_reads_lem c chunks o bound ∙ (rw e (service_lines-requests c sizes p f))
