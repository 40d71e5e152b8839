-- ===== src/Rtmq/Link/Place.antt =====
-- Where the link step places the events.
use catseq.Prelude.{
  ℕ, zero, suc, ◌+◌, ◌^◌, ◌<◌, ◌≡◌, refl, arith, List, [], ◌∷◌, ok, err, some, ◌>>=◌, >>=-eq-ok,
  ok_inj, some_inj, length, get_elem?, ap, sym, ◌∙◌, ltb, ltb→lt, Bool-cases, inl, inr,
}
use catseq.Rtmq.Link.{
  RelativeEvent, LinkedEvent, LinkedBoardFragment, RelativeBoardFragment, RuntimeValues, link_event,
  link_events, timestamp_overflow, offsets_of, relocate_all, link_at,
}
use catseq.Rtmq.Link.Resolve.{final_offset, final_duration, relocate_all-Moves}

abbrev pub placed : ℕ → RelativeEvent → ℕ → LinkedEvent
placed base event offset = record {
  timestamp_cycles = base + offset;
  operation_id = event.operation_id;
}

module _ (board base : ℕ) where
  link_event-ok :
      (event : RelativeEvent) (offset : ℕ) (linked : LinkedEvent)
      → link_event board base event offset ≡ ok linked
      → (placed base event offset ≡ linked) × (base + offset < 2 ^ 64)
  unfolding link_event
  link_event-ok event offset linked e = elim (Bool-cases (ltb (base + offset) (2 ^ 64))) [
    | inl fits ↦ (ok_inj (rw fits at e), ltb→lt _ _ fits)
    | inr over ↦ absurd (clash (rw over at e))
  ]
    where
      clash : err (timestamp_overflow board base offset) ≡ ok linked → ⊥
      clash q = cc

  record Places (events : List RelativeEvent) (offsets : List ℕ) (linked : List LinkedEvent)
      : Type 0 where
    pub lengths : length linked ≡ length events
    pub each :
        (j x : ℕ) (event : RelativeEvent)
        → get_elem? events j ≡ some event
        → get_elem? offsets j ≡ some x
        → (get_elem? linked j ≡ some (placed base event x)) × (base + x < 2 ^ 64)

  link_events-Places :
      (events : List RelativeEvent) (offsets : List ℕ) (linked : List LinkedEvent)
      → length offsets ≡ length events
      → link_events board base events offsets ≡ ok linked
      → Places events offsets linked
  unfolding link_events
  link_events-Places [] offsets linked n e = record {
    lengths = rw (← ok_inj e) refl;
    each = λ j x event a b. cc;
  }
  link_events-Places (event ∷ events) [] linked n e = absurd (omega arith)
  link_events-Places (event ∷ events) (offset ∷ offsets) linked n e =
      let (one, made, later) =
        >>=-eq-ok (link_event board base event offset)
          (λ l. link_events board base events offsets >>= λ rest. ok (l ∷ rest)) e in
      let (rest, others, whole) =
        >>=-eq-ok (link_events board base events offsets) (λ rest. ok (one ∷ rest)) later in
      let p = link_events-Places events offsets rest (omega arith) others in
      record {
        lengths = rw (← ok_inj whole) (ap suc p.lengths);
        each = rw (← ok_inj whole) (at_index one rest (link_event-ok event offset one made) p.each);
      }
    where
      at_index :
          (one : LinkedEvent) (rest : List LinkedEvent)
          → (placed base event offset ≡ one) × (base + offset < 2 ^ 64)
          → ((j x : ℕ) (f : RelativeEvent)
              → get_elem? events j ≡ some f
              → get_elem? offsets j ≡ some x
              → (get_elem? rest j ≡ some (placed base f x)) × (base + x < 2 ^ 64))
          → (j x : ℕ) (f : RelativeEvent) → get_elem? (event ∷ events) j ≡ some f
          → get_elem? (offset ∷ offsets) j ≡ some x
          → (get_elem? (one ∷ rest) j ≡ some (placed base f x)) × (base + x < 2 ^ 64)
      at_index one rest (made, fits) h zero x f a b =
          rw (← some_inj a, ← some_inj b) (ap some (sym made), fits)
      at_index one rest (made, fits) h (suc j) x f a b = h j x f a b

offsets_of-length : (events : List RelativeEvent) → length (offsets_of events) ≡ length events
offsets_of-length [] = refl
offsets_of-length (event ∷ events) = ap suc (offsets_of-length events)

offsets_of-get_elem? :
    (events : List RelativeEvent) (j : ℕ) (event : RelativeEvent)
    → get_elem? events j ≡ some event
    → get_elem? (offsets_of events) j ≡ some event.offset_cycles
offsets_of-get_elem? [] j event e = cc
offsets_of-get_elem? (f ∷ fs) zero event e =
    ap (λ (g : RelativeEvent). some g.offset_cycles) (some_inj e)
offsets_of-get_elem? (f ∷ fs) (suc j) event e = offsets_of-get_elem? fs j event e

-- For each event of a fragment whose link succeeds: the linked fragment has the same board and as
-- many events, and a duration found from the relocations as the offsets are; the event keeps its
-- place and its operation, and stands at the base plus the offset that the last relocation of it
-- gives, or its own without one; that time does not overflow 64 bits.
pub link_at-ok :
    (fragment : RelativeBoardFragment) (base : ℕ) (values : RuntimeValues)
    (linked : LinkedBoardFragment) (j : ℕ) (event : RelativeEvent)
    → link_at fragment base values ≡ ok linked
    → get_elem? fragment.events j ≡ some event
    → (linked.board ≡ fragment.board)
      × (linked.duration_cycles
          ≡ final_duration values fragment.time_relocations fragment.duration_cycles)
      × (length linked.events ≡ length fragment.events)
      × (get_elem? linked.events j
          ≡ some (
              placed base event
                (final_offset values fragment.time_relocations j event.offset_cycles)))
      × (base + final_offset values fragment.time_relocations j event.offset_cycles < 2 ^ 64)
unfolding link_at
link_at-ok fragment base values linked j event e at_j =
    let start : List ℕ × ℕ = (offsets_of fragment.events, fragment.duration_cycles) in
    let (timing, relocated, rest) =
      >>=-eq-ok (relocate_all fragment.board values fragment.time_relocations start)
        (λ timing. link_events fragment.board base fragment.events timing.0 >>= λ events.
          ok (record { board = fragment.board; duration_cycles = timing.1; events = events }))
        e in
    let (events, placements, made) =
      >>=-eq-ok (link_events fragment.board base fragment.events timing.0)
        (λ events.
          ok (record { board = fragment.board; duration_cycles = timing.1; events = events }))
        rest in
    let m =
      relocate_all-Moves fragment.board values fragment.time_relocations start timing relocated in
    let p =
      link_events-Places fragment.board base fragment.events timing.0 events
        (m.lengths ∙ offsets_of-length fragment.events) placements in
    let (here, fits) =
      p.each j _ event at_j (m.each j _ (offsets_of-get_elem? fragment.events j event at_j)) in
    rw (← ok_inj made) (refl, m.last, p.lengths, here, fits)
