-- ===== src/Stream/Relay.antt =====
-- The relay of the model's reasoning (`ReasoningRelay` of src/deep_agent/msty_stream.py), a display
-- that is bounded and stops for good at its first failure.
pub mod Bounded
use sanare_agent_core.Base.{
  ℕ, zero, suc, ◌+◌, String, Bool, true, false, not, ◌&&◌, ◌||◌, Option, none, some, List, [], ◌∷◌,
  ◌++◌, ltb, leb, ◌==◌, if◌then◌else◌, length,
}
use sanare_agent_core.Text.{Text, bytes}

abbrev pub max_reasoning_bytes : ℕ
max_reasoning_bytes = 65_536

abbrev pub reasoning_flush_bytes : ℕ
reasoning_flush_bytes = 2_048

abbrev pub reasoning_min_chars : ℕ
reasoning_min_chars = 120

-- What the relay calls: the filter of secrets, and whether the writer takes the event of a number.
pub record Outside : Type 0 where
  pub redact : Text → Text
  pub takes : ℕ → Bool

-- The relay with the events that were written, the last one first.
pub record Relay : Type 0 where
  pub pending : Text
  pub seq : ℕ
  pub bytes_used : ℕ
  pub stopped : Bool
  pub events : List (ℕ × Text)

unfoldable pub fresh_relay : Relay
fresh_relay = record { pending = []; seq = 0; bytes_used = 0; stopped = false; events = [] }

unfoldable pub is_break : ℕ → Bool
is_break c = c == 32 || c == 10

-- The text up to its last space or line break, with the rest; `none` where it has neither.
unfoldable pub cut_last : Text → Option (Text × Text)
unfolding is_break
cut_last [] = none
cut_last (c ∷ t) = elim (cut_last t) [
  | some (head, rest) ↦ some (c ∷ head, rest)
  | none ↦ if is_break c then some (c ∷ [], t) else none
]

unfoldable pub has_line : Text → Bool
has_line [] = false
has_line (c ∷ t) = c == 10 || has_line t

-- The event, if the writer takes it.
unfoldable pub write : Outside → Text → Relay → Relay
write o t r =
    if o.takes r.seq
    then record r { seq = suc r.seq; events = (r.seq, t) ∷ r.events }
    else record r { stopped = true }

unfoldable pub emit_filtered : Outside → Text → Relay → Relay
unfolding write
emit_filtered o t r =
    if ltb max_reasoning_bytes (r.bytes_used + bytes t)
    then record r { bytes_used = r.bytes_used + bytes t; stopped = true }
    else write o t (record r { bytes_used = r.bytes_used + bytes t })

-- _emit
unfoldable pub emit : Outside → Text → Relay → Relay
unfolding emit_filtered
emit o t r = emit_filtered o (o.redact t) r

-- The pending text is published up to its last break, or as a whole where it has grown too long.
unfoldable pub publish : Outside → Option (Text × Text) → Relay → Relay
unfolding emit
publish o (some (head, rest)) r = emit o head (record r { pending = rest })
publish o none r =
    if ltb (bytes r.pending) reasoning_flush_bytes
    then r
    else emit o r.pending (record r { pending = [] })

unfoldable pub take_in : Outside → Relay → Relay
unfolding publish has_line cut_last
take_in o r =
    if not (has_line r.pending) && ltb (length r.pending) reasoning_min_chars
    then r
    else publish o (cut_last r.pending) r

-- A relay that has stopped stays as it is.
unfoldable pub unless_stopped : Bool → Relay → Relay → Relay
unless_stopped true r later = r
unless_stopped false r later = later

unfoldable pub feed : Outside → Text → Relay → Relay
unfolding take_in unless_stopped
feed o [] r = r
feed o (c ∷ t) r =
    unless_stopped r.stopped r (take_in o (record r { pending = r.pending ++ c ∷ t }))

unfoldable pub flush_pending : Outside → Text → Relay → Relay
unfolding emit unless_stopped
flush_pending o [] r = r
flush_pending o (c ∷ t) r = unless_stopped r.stopped r (emit o (c ∷ t) (record r { pending = [] }))

unfoldable pub flush : Outside → Relay → Relay
unfolding flush_pending
flush o r = flush_pending o r.pending r
