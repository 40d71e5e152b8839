-- ===== src/Runtime/Execution/Laws/Ends.antt =====
-- The loop of `monitor` returns when the packets end.
use catseq.Prelude.{
  ℕ, zero, suc, ◌≡◌, refl, Bool, true, false, Option, none, some, Result, ok, err, Option-cases,
  inl, inr, ◌⊎◌, ◌+◌, ◌-◌, ◌≤◌, arith,
}
use mathlib.Core.Path.{subst}
use catseq.Runtime.Address.{address_keys}
use catseq.Runtime.Contract.{AssembledOasmProgram, LinuxRawEthernetRuntimeConfig}
use catseq.Runtime.Transport.{Transport, TransportEnvelope, WirePacket, ReceiveError}
use catseq.Runtime.Execution.Outcome.{RuntimeSuccess}
use catseq.Runtime.Execution.Prepare.{Stop}
use catseq.Runtime.Execution.Monitor.{
  Observed, observe, finished, monitor, Outcome, proceed, take_answer,
}

module _ (T : Transport) where
  open T use {Port, receive}

  -- Whether an answer of `receive` is a packet.
  abbrev pub is_packet : Result ReceiveError (Option WirePacket) → Bool
  is_packet (ok (some packet)) = true
  is_packet _ = false

  -- A transport that answers at most `n` packets before a timeout or an error.
  abbrev pub FallsQuiet : ℕ → Port → Type 0
  FallsQuiet zero port = is_packet (receive port).0 ≡ false
  FallsQuiet (suc n) port = (is_packet (receive port).0 ≡ false) ⊎ FallsQuiet n (receive port).1

  FallsQuiet-suc : (n : ℕ) (port : Port) → FallsQuiet n port → FallsQuiet (suc n) port
  FallsQuiet-suc zero port h = inl h
  FallsQuiet-suc (suc n) port h = elim h [
    | inl now ↦ inl now
    | inr later ↦ inr (FallsQuiet-suc n (receive port).1 later)
  ]

  FallsQuiet-add : (d n : ℕ) (port : Port) → FallsQuiet n port → FallsQuiet (d + n) port
  FallsQuiet-add zero n port h =
      let same : n ≡ 0 + n = omega arith in subst (λ k. FallsQuiet k port) same h
  FallsQuiet-add (suc d) n port h =
      let same : suc (d + n) ≡ suc d + n = omega arith in
      subst (λ k. FallsQuiet k port) same (FallsQuiet-suc (d + n) port (FallsQuiet-add d n port h))

  -- A bound on the packets that still come may be a larger one.
  pub FallsQuiet-le : (n m : ℕ) (port : Port) → n ≤ m → FallsQuiet n port → FallsQuiet m port
  FallsQuiet-le n m port h quiet =
      let same : (m - n) + n ≡ m = omega arith in
      subst (λ k. FallsQuiet k port) same (FallsQuiet-add (m - n) n port quiet)

module _ (program : AssembledOasmProgram) (config : LinuxRawEthernetRuntimeConfig)
    (envelope : TransportEnvelope) where
  module _ (T : Transport) where
    open T use {Port, receive}

    abbrev pub Returns : Outcome T → Type 0
    Returns outcome = (r : Result Stop RuntimeSuccess × Port) × (outcome ≡ some r)

    proceed-Returns :
        (next : Observed → Port → Outcome T) (answer : Result Stop Observed) (port : Port)
        → ((s : Observed) → Returns (next s port))
        → Returns (proceed program config envelope T next answer port)
    proceed-Returns next (ok s) port h = h s
    proceed-Returns next (err stop) port h = ((err stop, port), refl)

    quiet_answer :
        (next : Observed → Port → Outcome T) (answer : Result ReceiveError (Option WirePacket))
        (s : Observed) (port : Port)
        → is_packet T answer ≡ false
        → Returns (take_answer program config envelope T next s answer port)
    quiet_answer next (ok none) s port h = (_, refl)
    quiet_answer next (err x) s port h = (_, refl)
    quiet_answer next (ok (some packet)) s port h = cc

    any_answer :
        (next : Observed → Port → Outcome T) (answer : Result ReceiveError (Option WirePacket))
        (s : Observed) (port : Port)
        → ((t : Observed) → Returns (next t port))
        → Returns (take_answer program config envelope T next s answer port)
    any_answer next (ok none) s port h = (_, refl)
    any_answer next (err x) s port h = (_, refl)
    any_answer next (ok (some packet)) s port h =
        proceed-Returns next (observe program config envelope packet s) port h

    -- One turn more than the packets that still come is fuel enough for the loop to return.
    pub monitor-Returns :
        (n : ℕ) (s : Observed) (port : Port)
        → FallsQuiet T n port
        → Returns (monitor program config envelope T (suc n) s port)
    unfolding monitor
    monitor-Returns zero s port quiet = elim (Option-cases (finished program config envelope s)) [
      | inr (result, over) ↦ ((result, port), rw (over, monitor) refl)
      | inl going ↦
          rw (going, monitor) (quiet_answer (monitor program config envelope T 0) _ s _ quiet)
    ]
    monitor-Returns (suc n) s port quiet =
        elim (Option-cases (finished program config envelope s)) [
          | inr (result, over) ↦ ((result, port), rw (over, monitor) refl)
          | inl going ↦
              rw (going, monitor)
                (elim quiet [
                  | inl now ↦ quiet_answer (monitor program config envelope T (suc n)) _ s _ now
                  | inr later ↦
                      any_answer (monitor program config envelope T (suc n)) _ s _
                        (λ t. monitor-Returns n t (receive port).1 later)
                ])
        ]
