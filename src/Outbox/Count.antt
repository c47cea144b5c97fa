-- ===== src/Outbox/Count.antt =====
-- events.go: how often an event of some kind is published or held.
use mathlib.Core.List.{Perm, foldr}
use mathlib.Core.List.Perm
use native.Mathlib.Nat.{ℕ_set}
use containerd_shim_systemd.Prelude.{
  ℕ, ◌+◌, ◌≡◌, refl, sym, ap, ◌∙◌, Bool, String, List, [], ◌∷◌, ◌++◌, arith, if◌then◌else◌,
}
use containerd_shim_systemd.Outbox.{Event, Outbox, send_event}
use containerd_shim_systemd.Outbox.Held.{send_event-perm}

module _ (test : Event → Bool) where
  abbrev pub one_if : Event → ℕ
  one_if e = if test e then 1 else 0

  abbrev tally : Event → ℕ → ℕ
  tally e n = one_if e + n

  -- How many events pass the test.
  abbrev pub count : List Event → ℕ
  count [] = 0
  count (e ∷ es) = one_if e + count es

  pub count-append : (es fs : List Event) → count (es ++ fs) ≡ count es + count fs
  count-append [] fs = omega arith
  count-append (e ∷ es) fs = omega (arith, count-append es fs)

  count-foldr : (es : List Event) → count es ≡ foldr tally 0 es
  count-foldr [] = refl
  count-foldr (e ∷ es) = ap (λ n. one_if e + n) (count-foldr es)

  Perm-count : (es fs : List Event) → Perm es fs → count es ≡ count fs
  Perm-count es fs p =
      count-foldr es ∙ (Perm.foldr-eq ℕ_set tally (λ a b n. omega arith) p 0 ∙ sym (count-foldr fs))

  -- A `Send` adds its event, and no other, to those that are published or held.
  pub send_event-count :
      {W : Type 0} (send : W → String → Event → Bool × W) (o : Outbox) (e : Event) (w : W)
      → let r = send_event send o e w in
        count r.published + count r.box.held ≡ count o.held + one_if e
  send_event-count send o e w =
      let r = send_event send o e w in
      omega (
        arith,
        count-append r.published r.box.held,
        count-append o.held (e ∷ []),
        Perm-count (r.published ++ r.box.held) (o.held ++ e ∷ []) (send_event-perm send o e w),
      )
