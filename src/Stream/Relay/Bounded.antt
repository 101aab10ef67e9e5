-- ===== src/Stream/Relay/Bounded.antt =====
-- Whatever is fed to a relay, its events are numbered without a gap and stay within the limit.
use sanare_agent_core.Base.{
  ℕ, zero, suc, ◌+◌, ◌≤◌, ◌⊎◌, Bool, true, false, not, ◌&&◌, Option, none, some, List, [], ◌∷◌,
  ◌++◌, ltb, length, ◌≡◌, refl, arith, Bool-cases, inl, inr,
}
use sanare_agent_core.Text.{Text, bytes}
use sanare_agent_core.Stream.Relay.{
  max_reasoning_bytes, reasoning_flush_bytes, reasoning_min_chars, Outside, Relay, fresh_relay,
  cut_last, has_line, write, emit_filtered, emit, publish, take_in, unless_stopped, feed,
  flush_pending, flush,
}

pub data Op : Type 0 where
  fed : Text → Op
  flushed : Op

unfoldable pub run : Outside → List Op → Relay → Relay
unfolding feed flush
run o [] r = r
run o (fed t ∷ ops) r = run o ops (feed o t r)
run o (flushed ∷ ops) r = run o ops (flush o r)

-- Bytes written.
unfoldable pub sent : List (ℕ × Text) → ℕ
sent [] = 0
sent ((k, t) ∷ es) = sent es + bytes t

-- The events are numbered from 0 on, the last one first.
abbrev pub Numbered : ℕ → List (ℕ × Text) → Type 0
Numbered zero [] = Unit {0}
Numbered zero (e ∷ es) = ⊥
Numbered (suc n) [] = ⊥
Numbered (suc n) ((k, t) ∷ es) = (k ≡ n) × Numbered n es

pub record IsBounded (r : Relay) : Type 0 where
  pub numbered : Numbered r.seq r.events
  pub small : sent r.events ≤ max_reasoning_bytes
  pub exact : (r.stopped ≡ true) ⊎ (sent r.events ≡ r.bytes_used)

module _ (o : Outside) where
  write-IsBounded :
      (t : Text) (r : Relay)
      → Numbered r.seq r.events
      → sent r.events ≤ max_reasoning_bytes
      → sent r.events + bytes t ≤ max_reasoning_bytes
      → sent r.events + bytes t ≡ r.bytes_used
      → IsBounded (write o t r)
  unfolding write sent
  write-IsBounded t r numbered small fits same = elim (Bool-cases (o.takes r.seq)) [
    | inl taken ↦ rw taken (record { numbered = (refl, numbered); small = fits; exact = inr same })
    | inr lost ↦ rw lost (record { numbered = numbered; small = small; exact = inl refl })
  ]

  emit_filtered-IsBounded :
      (t : Text) (r : Relay) → r.stopped ≡ false → IsBounded r → IsBounded (emit_filtered o t r)
  unfolding emit_filtered
  emit_filtered-IsBounded t r live h =
      elim (Bool-cases (ltb max_reasoning_bytes (r.bytes_used + bytes t))) [
        | inl over ↦ rw over (record { numbered = h.numbered; small = h.small; exact = inl refl })
        | inr fits ↦
            let same : sent r.events ≡ r.bytes_used = elim h.exact [
              | inl stopped ↦ absurd (cc (live, stopped))
              | inr e ↦ e
            ] in
            rw fits (
              write-IsBounded t (record r { bytes_used = r.bytes_used + bytes t }) h.numbered
                h.small (ground (arith, same)) (omega (arith, same)))
      ]

  -- What is pending says nothing of the events.
  pending-IsBounded : (p : Text) (r : Relay) → IsBounded r → IsBounded (record r { pending = p })
  pending-IsBounded p r h = record { numbered = h.numbered; small = h.small; exact = h.exact }

  emit-IsBounded :
      (t p : Text) (r : Relay)
      → r.stopped ≡ false
      → IsBounded r
      → IsBounded (emit o t (record r { pending = p }))
  unfolding emit
  emit-IsBounded t p r live h =
      emit_filtered-IsBounded (o.redact t) (record r { pending = p }) live (pending-IsBounded p r h)

  publish-IsBounded :
      (c : Option (Text × Text)) (r : Relay)
      → r.stopped ≡ false
      → IsBounded r
      → IsBounded (publish o c r)
  unfolding publish
  publish-IsBounded (some (head, rest)) r live h = emit-IsBounded head rest r live h
  publish-IsBounded none r live h =
      elim (Bool-cases (ltb (bytes r.pending) reasoning_flush_bytes)) [
        | inl short ↦ rw short h
        | inr long ↦ rw long (emit-IsBounded r.pending [] r live h)
      ]

  take_in-IsBounded : (r : Relay) → r.stopped ≡ false → IsBounded r → IsBounded (take_in o r)
  unfolding take_in
  take_in-IsBounded r live h =
      elim (Bool-cases (not (has_line r.pending) && ltb (length r.pending) reasoning_min_chars)) [
        | inl waits ↦ rw waits h
        | inr out ↦ rw out (publish-IsBounded (cut_last r.pending) r live h)
      ]

  unless_stopped-IsBounded :
      (b : Bool) (r later : Relay)
      → r.stopped ≡ b
      → IsBounded r
      → (r.stopped ≡ false → IsBounded later)
      → IsBounded (unless_stopped b r later)
  unfolding unless_stopped
  unless_stopped-IsBounded true r later e h next = h
  unless_stopped-IsBounded false r later e h next = next e

  feed-IsBounded : (t : Text) (r : Relay) → IsBounded r → IsBounded (feed o t r)
  unfolding feed
  feed-IsBounded [] r h = h
  feed-IsBounded (c ∷ t) r h =
      unless_stopped-IsBounded r.stopped r (take_in o (record r { pending = r.pending ++ c ∷ t }))
        refl h
        (λ live.
          take_in-IsBounded (record r { pending = r.pending ++ c ∷ t }) live
            (pending-IsBounded (r.pending ++ c ∷ t) r h))

  flush_pending-IsBounded : (p : Text) (r : Relay) → IsBounded r → IsBounded (flush_pending o p r)
  unfolding flush_pending
  flush_pending-IsBounded [] r h = h
  flush_pending-IsBounded (c ∷ t) r h =
      unless_stopped-IsBounded r.stopped r (emit o (c ∷ t) (record r { pending = [] })) refl h
        (λ live. emit-IsBounded (c ∷ t) [] r live h)

  flush-IsBounded : (r : Relay) → IsBounded r → IsBounded (flush o r)
  unfolding flush
  flush-IsBounded r h = flush_pending-IsBounded r.pending r h

  run-kept : (ops : List Op) (r : Relay) → IsBounded r → IsBounded (run o ops r)
  unfolding run
  run-kept [] r h = h
  run-kept (fed t ∷ ops) r h = run-kept ops (feed o t r) (feed-IsBounded t r h)
  run-kept (flushed ∷ ops) r h = run-kept ops (flush o r) (flush-IsBounded r h)

  -- Whatever texts a relay is fed and whenever it is flushed, whatever the filter makes of a text and
  -- whichever event the writer refuses: its events are numbered from 0 without a gap, and together
  -- they have at most 64 KiB.
  pub run-IsBounded : (ops : List Op) → IsBounded (run o ops fresh_relay)
  unfolding fresh_relay sent
  run-IsBounded ops =
      run-kept ops fresh_relay (record { numbered = tt; small = omega arith; exact = inr refl })
