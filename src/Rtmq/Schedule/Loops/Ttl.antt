-- ===== src/Rtmq/Schedule/Loops/Ttl.antt =====
-- Lists compared place by place; the TTL events and the origins of epochs under the timing of loops.
use catseq.Prelude.{
  ℕ, ◌+◌, ◌≤◌, ◌==◌, ltb, leb, ◌≡◌, refl, arith, Bool, true, false, not, ◌&&◌, if◌then◌else◌, List,
  [], ◌∷◌, map, ok, >>=-eq-ok, ok_inj, ap, ◌∙◌, inl, inr, Bool-cases,
}
use mathlib.Core.Path.{subst}
use Prim.Native.String.{String}
use catseq.Rtmq.Schedule.{
  TtlEvent, LoopRegion, OasmCompileError, checked_add, post_loop_ttl_overflow, origin_overflow,
}
use catseq.Rtmq.Schedule.Board.Layout.{checked_add-ok}
use catseq.Rtmq.Schedule.Loops.{
  is_inside, is_after, has_board, has_scope, displace_ttl, delay_ttl, delay_origins,
}

-- A relation between the elements of two lists, place by place.
abbrev pub AllBoth {ℓ} : {A : Type ℓ} → (A → A → Type 0) → List A → List A → Type 0
AllBoth R [] [] = Unit
AllBoth R [] (y ∷ ys) = ⊥
AllBoth R (x ∷ xs) [] = ⊥
AllBoth R (x ∷ xs) (y ∷ ys) = R x y × AllBoth R xs ys

module _ {ℓ} {A : Type ℓ} (R : A → A → Type 0) where
  pub AllBoth-refl : ((x : A) → R x x) → (xs : List A) → AllBoth R xs xs
  AllBoth-refl r [] = tt
  AllBoth-refl r (x ∷ xs) = (r x, AllBoth-refl r xs)

  pub AllBoth-trans :
      ((x y z : A) → R x y → R y z → R x z)
      → (xs ys zs : List A) → AllBoth R xs ys
      → AllBoth R ys zs
      → AllBoth R xs zs
  AllBoth-trans t [] [] [] h k = tt
  AllBoth-trans t [] [] (z ∷ zs) h k = k
  AllBoth-trans t [] (y ∷ ys) zs h k = absurd h
  AllBoth-trans t (x ∷ xs) [] zs h k = absurd h
  AllBoth-trans t (x ∷ xs) (y ∷ ys) [] h k = absurd k
  AllBoth-trans t (x ∷ xs) (y ∷ ys) (z ∷ zs) (p, h) (q, k) =
      (t x y z p q, AllBoth-trans t xs ys zs h k)

  pub AllBoth-map : (f : A → A) → ((x : A) → R x (f x)) → (xs : List A) → AllBoth R xs (map f xs)
  AllBoth-map f r [] = tt
  AllBoth-map f r (x ∷ xs) = (r x, AllBoth-map f r xs)

-- The same TTL event, not earlier.
abbrev pub DelaysTtl : TtlEvent → TtlEvent → Type 0
DelaysTtl e f =
    (f ≡ record e { offset_cycles = f.offset_cycles }) × (e.offset_cycles ≤ f.offset_cycles)

-- The same epoch, its origin not earlier.
abbrev pub DelaysOrigin : ℕ × ℕ → ℕ × ℕ → Type 0
DelaysOrigin a b = (b.0 ≡ a.0) × (a.1 ≤ b.1)

-- An inside event is not behind the end.
pub inside_le :
    (region : LoopRegion) (start end : ℕ) (boards : List String) (epoch : ℕ) (board : String)
    (scope : _) (offset : ℕ)
    → is_inside region start end boards epoch board scope offset ≡ true
    → offset ≤ end
inside_le region start end boards epoch board scope offset h =
    last (epoch == region.epoch) (has_board board boards)
      (not (has_scope scope region.marker_group_id)) (leb start offset) h
  where
    last : (a b c d : Bool) → (a && (b && (c && (d && leb offset end)))) ≡ true → offset ≤ end
    last true true true true e = ground arith
    last true true true false e = cc
    last true true false d e = cc
    last true false c d e = cc
    last false b c d e = cc

pub DelaysTtl-trans : (e f g : TtlEvent) → DelaysTtl e f → DelaysTtl f g → DelaysTtl e g
DelaysTtl-trans e f g (p, h) (q, k) =
    (q ∙ ap (λ (x : TtlEvent). record x { offset_cycles = g.offset_cycles }) p, omega arith)

pub DelaysOrigin-trans : (a b c : ℕ × ℕ) → DelaysOrigin a b → DelaysOrigin b c → DelaysOrigin a c
DelaysOrigin-trans a b c (p, h) (q, k) = (q ∙ p, omega arith)

pub displace_ttl-Delays :
    (region : LoopRegion) (start end : ℕ) (boards : List String) (event : TtlEvent)
    → DelaysTtl event (displace_ttl region start end boards (end + 1) event)
displace_ttl-Delays region start end boards event =
    elim (Bool-cases (
      is_inside region start end boards event.epoch event.board event.loop_scope
        event.offset_cycles)) [
          | inl h ↦
              let le =
                inside_le region start end boards event.epoch event.board event.loop_scope
                  event.offset_cycles h in
              rw h (refl, omega arith)
          | inr h ↦ rw h (refl, omega arith)
        ]

pub delayed_le :
    (b : Bool) (n d : ℕ) (x : OasmCompileError) (m : ℕ)
    → (if b then checked_add n d x else ok n) ≡ ok m
    → n ≤ m
delayed_le true n d x m e = let (fits, p) = checked_add-ok n d x m e in omega arith
delayed_le false n d x m e = let p = ok_inj e in omega arith

pub delay_ttl-Delays :
    (region : LoopRegion) (end loop_delta : ℕ) (events done : List TtlEvent)
    → delay_ttl region end loop_delta events ≡ ok done
    → AllBoth DelaysTtl events done
unfolding delay_ttl
delay_ttl-Delays region end loop_delta [] done e = subst (AllBoth DelaysTtl []) (ok_inj e) tt
delay_ttl-Delays region end loop_delta (event ∷ rest) done e =
    let (offset, e1, e2) =
      >>=-eq-ok
        (if is_after region end event.epoch event.offset_cycles
          then checked_add event.offset_cycles loop_delta post_loop_ttl_overflow
          else ok event.offset_cycles)
        _ e in
    let (later, e3, e4) = >>=-eq-ok (delay_ttl region end loop_delta rest) _ e2 in
    subst (AllBoth DelaysTtl (event ∷ rest)) (ok_inj e4) (
      (
        refl,
        delayed_le (is_after region end event.epoch event.offset_cycles) event.offset_cycles
            loop_delta _ offset e1,
      ),
      delay_ttl-Delays region end loop_delta rest later e3,
    )

pub delay_origins-Delays :
    (end loop_delta : ℕ) (origins done : List (ℕ × ℕ))
    → delay_origins end loop_delta origins ≡ ok done
    → AllBoth DelaysOrigin origins done
unfolding delay_origins
delay_origins-Delays end loop_delta [] done e = subst (AllBoth DelaysOrigin []) (ok_inj e) tt
delay_origins-Delays end loop_delta ((epoch, origin) ∷ rest) done e =
    let (moved, e1, e2) =
      >>=-eq-ok
        (if ltb end origin then checked_add origin loop_delta origin_overflow else ok origin) _ e in
    let (later, e3, e4) = >>=-eq-ok (delay_origins end loop_delta rest) _ e2 in
    subst (AllBoth DelaysOrigin ((epoch, origin) ∷ rest)) (ok_inj e4) (
      (refl, delayed_le (ltb end origin) origin loop_delta origin_overflow moved e1),
      delay_origins-Delays end loop_delta rest later e3,
    )
