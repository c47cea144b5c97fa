-- ===== src/Pty/Exchange.antt =====
-- pty.go: what a resize does with the connection, and how much of an answer it reads.
use containerd_shim_systemd.Prelude.{
  ℕ, zero, suc, ◌+◌, ◌-◌, ◌≤◌, ◌<◌, ◌≡◌, refl, inl, inr, Bool, true, false, not, [], ◌∷◌, ◌++◌,
  Option, none, some, arith, length, length-append, Option-cases,
}
use containerd_shim_systemd.Pty.Wire.{
  Bytes, append_tty_resize_request, trim_right, parse_tty_response, parse_status, TtyError,
}
use containerd_shim_systemd.Pty.Handler.{take_at_most}
use containerd_shim_systemd.Pty.Client.{
  Sockets, TtyControlClient, Exchanged, received, lost, split_line, read_string, read_msg, exchange,
  reset_client, dial_client, end_exchange, resize_over, resize,
}

-- The errors for which no status line of the handler was read.
abbrev pub is_lost : TtyError → Bool
is_lost (TtyError.unspecified) = false
is_lost (TtyError.handler_error s) = false
is_lost (TtyError.unexpected s) = false
is_lost _ = true

abbrev pub loses : Option TtyError → Bool
loses none = false
loses (some e) = is_lost e

loses-parse_status : (s : Bytes) → loses (parse_status s) ≡ false
unfolding parse_status
loses-parse_status [] = refl
loses-parse_status (c ∷ []) = ground arith
loses-parse_status (c ∷ d ∷ s) = ground arith

-- An exchange keeps the connection as it is, and reports only errors of its own.
abbrev IsExchange : {W : Type 0} → TtyControlClient → W × TtyControlClient × Exchanged → Type 0
IsExchange c (w, c', received line) = (c'.has_conn ≡ c.has_conn) × (c'.sock_path ≡ c.sock_path)
IsExchange c (w, c', lost e) =
    (c'.has_conn ≡ c.has_conn) × (c'.sock_path ≡ c.sock_path) × (is_lost e ≡ true)

module _ (k : Sockets) where
  open k use {World}

  exchange-IsExchange :
      (w : World) (c : TtyControlClient) (req : Bytes) → IsExchange c (exchange k w c req)
  unfolding exchange read_msg
  exchange-IsExchange w c req = ground arith

  end_exchange-loses :
      (w : World) (c c' : TtyControlClient) (answer : Exchanged)
      → IsExchange c (w, c', answer)
      → c.has_conn ≡ true
      → let (w'', c'', e) = end_exchange k w c' answer in
        (c''.has_conn ≡ not (loses e)) × (c''.sock_path ≡ c.sock_path)
  unfolding end_exchange reset_client parse_tty_response
  end_exchange-loses w c c' (received line) x h =
      ground (arith, loses-parse_status (trim_right line))
  end_exchange-loses w c c' (lost e) x h = ground arith

  resize_over-loses :
      (w : World) (c : TtyControlClient) (width height : ℕ)
      → c.has_conn ≡ true
      → let (w', c', e) = resize_over k w c width height in
        (c'.has_conn ≡ not (loses e)) × (c'.sock_path ≡ c.sock_path)
  unfolding resize_over
  resize_over-loses w c width height h =
      let req = append_tty_resize_request [] width height in
      let (w', c', answer) = exchange k w c req in
      end_exchange-loses w' c c' answer (exchange-IsExchange w c req) h

  -- After a resize the client has a connection exactly if the handler's answer was read, whatever it
  -- says: an exchange that fails gives the connection up, and so the next resize dials again.
  pub resize-loses :
      (w : World) (c : TtyControlClient) (width height : ℕ)
      → let (w', c', e) = resize k w c width height in
        (c'.has_conn ≡ not (loses e)) × (c'.sock_path ≡ c.sock_path)
  unfolding resize dial_client
  resize-loses w c width height =
      let (done, w') = k.dial w c.sock_path in
      let fresh = record c { has_conn = true; buffered = [] } in
      ground
        (arith, resize_over-loses w c width height, resize_over-loses w' fresh width height refl)

  take_at_most-length : (n : ℕ) (s : Bytes) → length (take_at_most n s) ≤ n
  unfolding take_at_most
  take_at_most-length zero s = omega arith
  take_at_most-length (suc n) [] = omega arith
  take_at_most-length (suc n) (c ∷ s) = omega (arith, take_at_most-length n s)

  take_at_most-some : (n b : ℕ) (s : Bytes) → 0 < n → 0 < length (take_at_most n (b ∷ s))
  unfolding take_at_most
  take_at_most-some zero b s h = omega arith
  take_at_most-some (suc n) b s h = omega arith

  read_string-fuel :
      (fuel more n : ℕ) (w : World) (buf : Bytes)
      → n ≤ fuel
      → n ≤ more
      → read_string k fuel n w buf ≡ read_string k more n w buf
  unfolding read_string
  read_string-fuel zero zero n w buf h g = refl
  read_string-fuel zero (suc more) n w buf h g = ground arith
  read_string-fuel (suc fuel) zero n w buf h g = ground arith
  read_string-fuel (suc fuel) (suc more) n w buf h g = elim (Option-cases (k.read w n).0) [
    | inl e ↦ ground (arith, e)
    | inr (bs, e) ↦
        let chunk = take_at_most n (bs.0 ∷ bs.1) in
        ground (
          arith,
          e,
          take_at_most-some n bs.0 bs.1,
          read_string-fuel fuel more (n - length chunk) (k.read w n).1 (buf ++ chunk),
        )
  ]

  split_line-length : (s : Bytes) → elim (split_line s) as (λ _. Type 0) [
    | none ↦ Unit
    | some f ↦ length f.0 + length f.1 ≡ length s
  ]
  unfolding split_line
  split_line-length [] = tt
  split_line-length (c ∷ s) = ground (arith, split_line-length s)

  read_string-length :
      (fuel n : ℕ) (w : World) (buf : Bytes)
      → let r = read_string k fuel n w buf in
        length r.line + length r.buffered + r.left ≤ length buf + n
  unfolding read_string
  read_string-length zero n w buf = ground (arith, split_line-length buf)
  read_string-length (suc fuel) n w buf = elim (Option-cases (k.read w n).0) [
    | inl e ↦ ground (arith, e, split_line-length buf)
    | inr (bs, e) ↦
        let chunk = take_at_most n (bs.0 ∷ bs.1) in
        ground (
          arith,
          e,
          split_line-length buf,
          take_at_most-length n (bs.0 ∷ bs.1),
          length-append buf chunk,
          read_string-length fuel (n - length chunk) (k.read w n).1 (buf ++ chunk),
        )
  ]

  -- However the handler behaves, the reads of a line end: with a read for each byte that may still be
  -- read, any more fuel makes no difference; and what is taken for its answer and what stays buffered
  -- is together no longer than what was buffered and the limit.
  pub read_string-bounded :
      (fuel more n : ℕ) (w : World) (buf : Bytes)
      → n ≤ fuel
      → n ≤ more
      → let r = read_string k fuel n w buf in
        (r ≡ read_string k more n w buf)
        × (length r.line + length r.buffered + r.left ≤ length buf + n)
  read_string-bounded fuel more n w buf h g =
      (read_string-fuel fuel more n w buf h g, read_string-length fuel n w buf)
