-- ===== src/Rtmq/Schedule/Coalesce/Kept.antt =====
-- What coalescing keeps: the masks of the events, bit by bit, and which functions there are.
use catseq.Prelude.{
  ℕ, zero, suc, ◌/◌, ◌%◌, max, ◌==◌, bit_or, ◌≡◌, refl, arith, Bool, true, false, ◌&&◌, ◌||◌,
  if◌then◌else◌, List, [], ◌∷◌, ok, >>=-eq-ok, ok_inj, sym, ap, ◌∙◌, inl, inr, Bool-cases,
}
use catseq.Prelude.Bits.{or_digit}
use catseq.Prelude.Sort.{sort_by_key, insert_by_key, key_leb}
use catseq.Rtmq.Schedule.{OasmFunction, OasmArgument, DirectEvent, function_index, unsigned}
use catseq.Rtmq.Schedule.Coalesce.{
  coalesce_key, takes, merge_args, merge_event, coalesce_after, coalesce_sorted,
  coalesce_direct_events,
}

abbrev pub bit : ℕ → ℕ → ℕ
bit zero n = n % 2
bit (suc k) n = bit k (n / 2)

bit-or : (k a b : ℕ) → bit k (bit_or a b) ≡ max (bit k a) (bit k b)
bit-or zero a b = omega (arith, or_digit a b)
bit-or (suc k) a b =
    let half : bit_or a b / 2 ≡ bit_or (a / 2) (b / 2) = omega (arith, or_digit a b) in
    ap (bit k) half ∙ bit-or k (a / 2) (b / 2)

abbrev pub is_set : ℕ → ℕ → Bool
is_set k n = if bit k n == 0 then false else true

is_set-or : (k a b : ℕ) → is_set k (bit_or a b) ≡ (is_set k a || is_set k b)
is_set-or k a b = rw (bit-or k a b) (by_max (bit k a) (bit k b))
  where
    by_max :
        (x y : ℕ)
        → (if max x y == 0 then false else true)
          ≡ ((if x == 0 then false else true) || (if y == 0 then false else true))
    by_max x y = ground arith

module _ {Json : Type 0} where
  -- Whether a bit of the first or of the second argument, an unsigned number, is set.
  abbrev pub arg_bit : ℕ → OasmArgument Json → Bool
  arg_bit k (unsigned n) = is_set k n
  arg_bit k _ = false

  abbrev pub args_bit : Bool → ℕ → List (OasmArgument Json) → Bool
  args_bit first k (a ∷ b ∷ []) = if first then arg_bit k a else arg_bit k b
  args_bit first k _ = false

  pub merge_args-bit :
      (first : Bool) (k : ℕ) (xs ys zs : List (OasmArgument Json))
      → merge_args xs ys ≡ ok zs
      → args_bit first k zs ≡ (args_bit first k xs || args_bit first k ys)
  unfolding merge_args
  merge_args-bit true k (unsigned a ∷ b ∷ []) (unsigned c ∷ d ∷ []) zs h =
      ground (arith, is_set-or k a c)
  merge_args-bit false k (a ∷ unsigned b ∷ []) (c ∷ unsigned d ∷ []) zs h =
      ground (arith, is_set-or k b d)
  merge_args-bit first k xs ys zs h = ground arith

  abbrev pub is_at : ℕ → OasmFunction → DirectEvent Json → Bool
  is_at offset f e = (e.offset_cycles == offset) && (function_index e.function == function_index f)

  -- Whether some event at an offset is of a function.
  abbrev pub occurs : ℕ → OasmFunction → List (DirectEvent Json) → Bool
  occurs offset f [] = false
  occurs offset f (e ∷ rest) = is_at offset f e || occurs offset f rest

  -- Whether some event at an offset and of a function sets a bit of its first or second argument.
  abbrev pub sets_bit : ℕ → OasmFunction → Bool → ℕ → List (DirectEvent Json) → Bool
  sets_bit offset f first k [] = false
  sets_bit offset f first k (e ∷ rest) =
      (is_at offset f e && args_bit first k e.args) || sets_bit offset f first k rest

  -- A test of one event that merging turns into the union of the tests.
  abbrev pub any_event : (DirectEvent Json → Bool) → List (DirectEvent Json) → Bool
  any_event p [] = false
  any_event p (e ∷ rest) = p e || any_event p rest

  abbrev pub Unites : (DirectEvent Json → Bool) → Type 0
  Unites p =
      (previous event merged : DirectEvent Json)
      → takes previous event ≡ true
      → merge_event previous event ≡ ok merged
      → p merged ≡ (p previous || p event)

  any-insert :
      (p : DirectEvent Json → Bool) (e : DirectEvent Json) (events : List (DirectEvent Json))
      → any_event p (insert_by_key coalesce_key e events) ≡ (p e || any_event p events)
  any-insert p e [] = refl
  any-insert p e (x ∷ events) = elim (Bool-cases (key_leb (coalesce_key e) (coalesce_key x))) [
    | inl before ↦ rw before refl
    | inr behind ↦ rw behind (ap (λ b. p x || b) (any-insert p e events) ∙ swapped (p x) (p e) _)
  ]
    where
      swapped : (a b c : Bool) → (a || (b || c)) ≡ (b || (a || c))
      swapped a b c = ground arith

  any-sort :
      (p : DirectEvent Json → Bool) (events : List (DirectEvent Json))
      → any_event p (sort_by_key coalesce_key events) ≡ any_event p events
  any-sort p [] = refl
  any-sort p (e ∷ events) =
      any-insert p e (sort_by_key coalesce_key events) ∙ ap (λ b. p e || b) (any-sort p events)

  any-coalesce :
      (p : DirectEvent Json → Bool)
      → Unites p
      → (events : List (DirectEvent Json)) (previous : DirectEvent Json)
        (done : List (DirectEvent Json))
      → coalesce_after previous events ≡ ok done
      → any_event p done ≡ any_event p (previous ∷ events)
  unfolding coalesce_after
  any-coalesce p u [] previous done h = ap (any_event p) (sym (ok_inj h))
  any-coalesce p u (event ∷ rest) previous done h = elim (Bool-cases (takes previous event)) [
    | inl hit ↦
        let (merged, e1, e2) =
          >>=-eq-ok (merge_event previous event) _ (rw (hit, coalesce_after) at h) in
        any-coalesce p u rest merged done e2
        ∙ ap (λ b. b || any_event p rest) (u previous event merged hit e1)
        ∙ grouped (p previous) (p event) (any_event p rest)
    | inr miss ↦
        let (later, e1, e2) =
          >>=-eq-ok (coalesce_after event rest) _ (rw (miss, coalesce_after) at h) in
        ap (any_event p) (sym (ok_inj e2))
        ∙ ap (λ b. p previous || b) (any-coalesce p u rest event later e1)
  ]
    where
      grouped : (a b c : Bool) → ((a || b) || c) ≡ (a || (b || c))
      grouped a b c = ground arith

  pub any-coalesced :
      (p : DirectEvent Json → Bool)
      → Unites p
      → (events done : List (DirectEvent Json)) → coalesce_direct_events events ≡ ok done
      → any_event p done ≡ any_event p events
  unfolding coalesce_direct_events
  any-coalesced p u events done h = by_sorted (sort_by_key coalesce_key events) refl h
    where
      by_sorted :
          (sorted : List (DirectEvent Json))
          → sort_by_key coalesce_key events ≡ sorted
          → coalesce_sorted sorted ≡ ok done
          → any_event p done ≡ any_event p events
      by_sorted [] e h =
          ap (any_event p) (sym (ok_inj h)) ∙ ap (any_event p) (sym e) ∙ any-sort p events
      by_sorted (x ∷ xs) e h =
          any-coalesce p u xs x done h ∙ ap (any_event p) (sym e) ∙ any-sort p events

  pub occurs-any :
      (offset : ℕ) (f : OasmFunction) (events : List (DirectEvent Json))
      → occurs offset f events ≡ any_event (is_at offset f) events
  occurs-any offset f [] = refl
  occurs-any offset f (e ∷ rest) = ap (λ b. is_at offset f e || b) (occurs-any offset f rest)

  abbrev pub bit_at : ℕ → OasmFunction → Bool → ℕ → DirectEvent Json → Bool
  bit_at offset f first k e = is_at offset f e && args_bit first k e.args

  pub sets_bit-any :
      (offset : ℕ) (f : OasmFunction) (first : Bool) (k : ℕ) (events : List (DirectEvent Json))
      → sets_bit offset f first k events ≡ any_event (bit_at offset f first k) events
  sets_bit-any offset f first k [] = refl
  sets_bit-any offset f first k (e ∷ rest) =
      ap (λ b. bit_at offset f first k e || b) (sets_bit-any offset f first k rest)
