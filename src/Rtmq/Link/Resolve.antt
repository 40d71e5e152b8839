-- ===== src/Rtmq/Link/Resolve.antt =====
-- The timing values of a fragment: which value each offset and the duration end with.
use catseq.Prelude.{
  ℕ, zero, suc, ◌==◌, ◌≡◌, refl, arith, List, [], ◌∷◌, Option, none, some, Option-cases, inl, inr,
  ok, >>=-eq-ok, ok_or, ok_or-ok, ok_inj, length, get_elem?, ap, sym, ◌∙◌, some_inj, if◌then◌else◌,
  false,
}
use mathlib.Core.Path.{subst}
use catseq.Prelude.Map.{lookup}
use catseq.Rtmq.Link.{
  write_at, RuntimeValues, TimeRelocation, TimeRelocationTarget, event_offset, duration, relocate,
  relocate_all, write_target, number_keys, missing_runtime_value, invalid_event_index,
}

-- The value that a relocation gives, or the value that stood there.
abbrev chosen : Option ℕ → ℕ → ℕ
chosen none x = x
chosen (some v) x = v

abbrev bound : RuntimeValues → TimeRelocation → ℕ → ℕ
bound values r x = chosen (lookup r.runtime_value values) x

abbrev moved : RuntimeValues → TimeRelocationTarget → TimeRelocation → ℕ → ℕ → ℕ
moved values (event_offset i) r j x = if i == j then bound values r x else x
moved values duration r j x = x

-- The offset of the event `j` after the relocations, from the offset `x`: the last relocation of
-- that event decides.
abbrev pub final_offset : RuntimeValues → List TimeRelocation → ℕ → ℕ → ℕ
final_offset values [] j x = x
final_offset values (r ∷ rs) j x = final_offset values rs j (moved values r.target r j x)

abbrev lasting : RuntimeValues → TimeRelocationTarget → TimeRelocation → ℕ → ℕ
lasting values (event_offset i) r d = d
lasting values duration r d = bound values r d

abbrev pub final_duration : RuntimeValues → List TimeRelocation → ℕ → ℕ
final_duration values [] d = d
final_duration values (r ∷ rs) d = final_duration values rs (lasting values r.target r d)

write_at-length : (xs ys : List ℕ) (i v : ℕ) → write_at xs i v ≡ some ys → length ys ≡ length xs
unfolding write_at
write_at-length [] ys i v h = cc
write_at-length (x ∷ xs) ys zero v h = ap length (sym (some_inj h))
write_at-length (x ∷ xs) ys (suc i) v h = elim (Option-cases (write_at xs i v)) [
  | inl gone ↦ absurd (clash (rw gone at h))
  | inr (zs, e) ↦ ap length (sym (some_inj (rw e at h))) ∙ ap suc (write_at-length xs zs i v e)
]
  where
    clash : none ≡ some ys → ⊥
    clash q = cc

write_at-get_elem? :
    (xs ys : List ℕ) (i v j x : ℕ)
    → write_at xs i v ≡ some ys
    → get_elem? xs j ≡ some x
    → get_elem? ys j ≡ some (if i == j then v else x)
unfolding write_at
write_at-get_elem? [] ys i v j x h e = cc
write_at-get_elem? (y ∷ xs) ys zero v zero x h e = ap (λ l. get_elem? l 0) (sym (some_inj h))
write_at-get_elem? (y ∷ xs) ys zero v (suc j) x h e =
    ap (λ l. get_elem? l (suc j)) (sym (some_inj h)) ∙ rw later e
  where
    later : (0 == suc j) ≡ false
    later = ground arith
write_at-get_elem? (y ∷ xs) ys (suc i) v j x h e = elim (Option-cases (write_at xs i v)) [
  | inl gone ↦ absurd (clash (rw gone at h))
  | inr (zs, w) ↦
      ap (λ l. get_elem? l j) (sym (some_inj (rw w at h)))
      ∙ inside zs j (λ k z a. write_at-get_elem? xs zs i v k z w a) e
]
  where
    clash : none ≡ some ys → ⊥
    clash q = cc

    inside :
        (zs : List ℕ) (j : ℕ)
        → ((k z : ℕ) → get_elem? xs k ≡ some z → get_elem? zs k ≡ some (if i == k then v else z))
        → get_elem? (y ∷ xs) j ≡ some x
        → get_elem? (y ∷ zs) j ≡ some (if suc i == j then v else x)
    inside zs zero h e = rw first e
      where
        first : (suc i == 0) ≡ false
        first = ground arith
    inside zs (suc j) h e = rw same (h j x e)
      where
        same : (suc i == suc j) ≡ (i == j)
        same = ground arith

-- What a step of the relocation does to the duration and to each offset.
pub record Moves (values : RuntimeValues) (rs : List TimeRelocation) (before after : List ℕ × ℕ)
    : Type 0 where
  pub lengths : length after.0 ≡ length before.0
  pub last : after.1 ≡ final_duration values rs before.1
  pub each :
      (j x : ℕ)
      → get_elem? before.0 j ≡ some x
      → get_elem? after.0 j ≡ some (final_offset values rs j x)

module _ (board : ℕ) (values : RuntimeValues) where
  write_target-Moves :
      (target : TimeRelocationTarget) (n value : ℕ) (before after : List ℕ × ℕ)
      → lookup n values ≡ some value
      → write_target board target value before ≡ ok after
      → Moves values (record { target = target; runtime_value = n } ∷ []) before after
  write_target-Moves (event_offset i) n value (xs, d) after found e =
      let (ys, written, made) =
        >>=-eq-ok (ok_or (write_at xs i value) (invalid_event_index board i)) _ e in
      let w : write_at xs i value ≡ some ys = ok_or-ok _ _ written in
      record {
        lengths = rw (← ok_inj made) (write_at-length xs ys i value w);
        last = rw (← ok_inj made) refl;
        each = λ j x a.
            subst
              (λ (t : List ℕ × ℕ).
                get_elem? t.0 j ≡ some (if i == j then chosen (lookup n values) x else x))
              (ok_inj made)
              (write_at-get_elem? xs ys i value j x w a
                ∙ ap (λ o. some (if i == j then chosen o x else x)) (sym found));
      }
  write_target-Moves duration n value (xs, d) after found e = record {
    lengths = rw (← ok_inj e) refl;
    last = ap (λ (t : List ℕ × ℕ). t.1) (sym (ok_inj e)) ∙ ap (λ o. chosen o d) (sym found);
    each = λ j x a. rw (← ok_inj e) a;
  }

  pub relocate_all-Moves :
      (rs : List TimeRelocation) (before after : List ℕ × ℕ)
      → relocate_all board values rs before ≡ ok after
      → Moves values rs before after
  unfolding relocate_all relocate
  relocate_all-Moves [] before after e = record {
    lengths = rw (← ok_inj e) refl;
    last = rw (← ok_inj e) refl;
    each = λ j x a. rw (← ok_inj e) a;
  }
  relocate_all-Moves (r ∷ rs) before after e =
      let (middle, one, rest) =
        >>=-eq-ok (relocate board values r before) (relocate_all board values rs) e in
      let (value, found, wrote) =
        >>=-eq-ok
          (ok_or (lookup r.runtime_value values) (missing_runtime_value board r.runtime_value))
          (λ value. write_target board r.target value before) one in
      let m =
        write_target-Moves r.target r.runtime_value value before middle (ok_or-ok _ _ found)
          wrote in
      let n = relocate_all-Moves rs middle after rest in
      record {
        lengths = n.lengths ∙ m.lengths;
        last = n.last ∙ ap (final_duration values rs) m.last;
        each = λ j x a. n.each j _ (m.each j x a);
      }
