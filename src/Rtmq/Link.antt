-- ===== src/Rtmq/Link.antt =====
-- rust/catseq-rtmq/src/lib.rs: the relative fragment of a board, and `link_at`, which binds the
-- timing values of a scan point and places the events at absolute times.
use catseq.Prelude.{
  ℕ, zero, suc, ◌+◌, ◌^◌, ◌≡◌, refl, List, [], ◌∷◌, Option, none, some, Result, ok, err, ◌>>=◌,
  ok_or, fail_if, if◌then◌else◌, ltb,
}
use catseq.Prelude.Map.{Key, lookup}
pub mod Resolve
pub mod Place

-- The newtypes over `u16` and `u32` are numbers.
pub record RelativeEvent : Type 0 where
  pub offset_cycles : ℕ
  pub operation_id : ℕ

pub data TimeRelocationTarget : Type 0 where
  event_offset : (event_index : ℕ) → TimeRelocationTarget
  duration : TimeRelocationTarget

pub record TimeRelocation : Type 0 where
  pub target : TimeRelocationTarget
  pub runtime_value : ℕ

pub record RelativeBoardFragment : Type 0 where
  pub board : ℕ
  pub duration_cycles : ℕ
  pub events : List RelativeEvent
  pub time_relocations : List TimeRelocation

abbrev pub RuntimeValues : Type 0
RuntimeValues = List (ℕ × ℕ)

instance abbrev pub number_keys : Key ℕ
number_keys = record { key = λ n. n; key_inj = λ a b p. p }

pub record LinkedEvent : Type 0 where
  pub timestamp_cycles : ℕ
  pub operation_id : ℕ

pub record LinkedBoardFragment : Type 0 where
  pub board : ℕ
  pub duration_cycles : ℕ
  pub events : List LinkedEvent

pub data LinkError : Type 0 where
  missing_runtime_value : (board runtime_value : ℕ) → LinkError
  invalid_event_index : (board event_index : ℕ) → LinkError
  timestamp_overflow : (board base_cycles offset_cycles : ℕ) → LinkError

-- The vector `offsets` with one element written, where it is in range.
unfoldable pub write_at : List ℕ → ℕ → ℕ → Option (List ℕ)
write_at [] i value = none
write_at (x ∷ xs) zero value = some (value ∷ xs)
write_at (x ∷ xs) (suc i) value = elim (write_at xs i value) [
  | none ↦ none
  | some ys ↦ some (x ∷ ys)
]

abbrev pub offsets_of : List RelativeEvent → List ℕ
offsets_of [] = []
offsets_of (event ∷ events) = event.offset_cycles ∷ offsets_of events

module _ (board : ℕ) where
  -- The `match` on the target, on the offsets and the duration.
  abbrev pub write_target : TimeRelocationTarget → ℕ → List ℕ × ℕ → Result LinkError (List ℕ × ℕ)
  write_target (event_offset i) value (offsets, cycles) =
      ok_or (write_at offsets i value) (invalid_event_index board i) >>= λ written.
      ok (written, cycles)
  write_target duration value (offsets, cycles) = ok (offsets, value)

  -- One turn of the loop.
  unfoldable pub relocate :
      RuntimeValues → TimeRelocation → List ℕ × ℕ → Result LinkError (List ℕ × ℕ)
  relocate values relocation timing =
      ok_or (lookup relocation.runtime_value values)
        (missing_runtime_value board relocation.runtime_value)
      >>= λ value. write_target relocation.target value timing

  unfoldable pub relocate_all :
      RuntimeValues → List TimeRelocation → List ℕ × ℕ → Result LinkError (List ℕ × ℕ)
  unfolding relocate
  relocate_all values [] timing = ok timing
  relocate_all values (r ∷ rs) timing = relocate values r timing >>= relocate_all values rs

  -- `checked_add` on `u64`.
  unfoldable pub link_event : ℕ → RelativeEvent → ℕ → Result LinkError LinkedEvent
  link_event base event offset =
      if ltb (base + offset) (2 ^ 64)
      then ok (record { timestamp_cycles = base + offset; operation_id = event.operation_id })
      else err (timestamp_overflow board base offset)

  -- The events zipped with the offsets and collected into a `Result`.
  unfoldable pub link_events : ℕ → List RelativeEvent → List ℕ → Result LinkError (List LinkedEvent)
  unfolding link_event
  link_events base [] offsets = ok []
  link_events base (event ∷ events) [] = ok []
  link_events base (event ∷ events) (offset ∷ offsets) = link_event base event offset >>= λ linked.
      link_events base events offsets >>= λ rest. ok (linked ∷ rest)

unfoldable pub link_at :
    RelativeBoardFragment → ℕ → RuntimeValues → Result LinkError LinkedBoardFragment
unfolding relocate_all link_events
link_at fragment base values =
    relocate_all fragment.board values fragment.time_relocations
      (offsets_of fragment.events, fragment.duration_cycles)
    >>= λ timing. link_events fragment.board base fragment.events timing.0 >>= λ events.
        ok (record { board = fragment.board; duration_cycles = timing.1; events = events })
