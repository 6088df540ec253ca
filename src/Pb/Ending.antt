-- ===== src/Pb/Ending.antt =====
-- Reading a message ends, whatever the bytes are.
use pymaid.Prelude.{
  ℕ, zero, suc, ◌<◌, ◌≤◌, ◌≡◌, Bool, true, Bytes, length, Result, ok, ◌>>=◌, Ends, Ends->>=,
  Ends-weaken, arith, if◌then◌else◌, ◌==◌, if_cases,
}
use pymaid.Js.{Value}
use pymaid.Jspb.{Jspb}
use pymaid.Jspb.Laws.{ReaderLaws}
use pymaid.Pb.Wire.{read_loop}
use pymaid.Pb.Context
use pymaid.Pb.ErrorMessage
use pymaid.Pb.Void
use pymaid.Pb.RpcAck

module _ (j : Jspb) (laws : ReaderLaws j) where
  open j use {
    Message, Reader, next_field, is_end_group, get_field_number, read_uint32, read_enum,
    read_string, read_bool, skip_field,
  }
  open laws use {
    remaining, remaining-new, next_field_ends, read_uint32_ends, read_enum_ends, read_string_ends,
    read_bool_ends, skip_field_ends,
  }

  abbrev pub Goes : Reader → Message × Reader → Type 0
  Goes r step = remaining step.1 ≤ remaining r

  -- What the switch keeps of a message holds of the message that the loop returns.
  pub read_loop-Keeps :
      (Kept : Message → Type 0) (switch_field : ℕ → Message → Reader → Result (Message × Reader))
      → ((n : ℕ) (msg : Message) (r : Reader)
          → Kept msg
          → Ends (λ step. Kept step.0 × Goes r step) (switch_field n msg r))
      → (fuel : ℕ) (msg : Message) (r : Reader) → Kept msg
      → remaining r < fuel
      → Ends Kept (read_loop j switch_field fuel msg r)
  unfolding read_loop
  read_loop-Keeps Kept switch_field h zero msg r kept enough = ground arith
  read_loop-Keeps Kept switch_field h (suc fuel) msg r kept enough =
      Ends->>= (λ next. next.0 ≡ true → remaining next.1 < remaining r) Kept (next_field r) _
        (next_field_ends r)
        λ next progress.
          if_cases (Ends Kept) next.0 _ _
            (λ more.
              if_cases (Ends Kept) (is_end_group next.1) _ _ (λ e. kept)
                λ e.
                  Ends->>= (λ step. Kept step.0 × Goes next.1 step) Kept
                    (switch_field (get_field_number next.1) msg next.1) _
                    (h (get_field_number next.1) msg next.1 kept)
                    λ step goes.
                      let less = progress more in
                      let left = goes.1 in
                      read_loop-Keeps Kept switch_field h fuel step.0 step.1 goes.0 (omega arith))
            (λ done. kept)

  read_loop-Ends :
      (switch_field : ℕ → Message → Reader → Result (Message × Reader))
      → ((n : ℕ) (msg : Message) (r : Reader) → Ends (Goes r) (switch_field n msg r))
      → (fuel : ℕ) (msg : Message) (r : Reader) → remaining r < fuel
      → Ends (λ m. Unit {0}) (read_loop j switch_field fuel msg r)
  read_loop-Ends switch_field h fuel msg r enough =
      read_loop-Keeps (λ m. Unit {0}) switch_field
        (λ n m r' kept.
          Ends-weaken (Goes r') (λ step. Unit {0} × Goes r' step) (switch_field n m r')
            (λ step goes. (tt, goes)) (h n m r'))
        fuel msg r tt enough

  -- A case of the `switch`: the value is read, and the message set.
  value-Goes :
      (r : Reader) (set : Value → Message) (read : Result (Value × Reader))
      → Ends (λ p. remaining p.1 ≤ remaining r) read
      → Ends (Goes r) (read >>= λ p. ok (set p.0, p.1))
  value-Goes r set read h = Ends->>= _ (Goes r) read _ h λ p goes. goes

  skip-Goes : (r : Reader) (msg : Message) → Ends (Goes r) (skip_field r >>= λ r'. ok (msg, r'))
  skip-Goes r msg = Ends->>= _ (Goes r) (skip_field r) _ (skip_field_ends r) λ r' goes. goes

  case-Goes :
      (r : Reader) (b : Bool) (x y : Result (Message × Reader))
      → Ends (Goes r) x
      → Ends (Goes r) y
      → Ends (Goes r) (if b then x else y)
  case-Goes r b x y hx hy = if_cases (Ends (Goes r)) b x y (λ e. hx) (λ e. hy)

  context-Goes : (n : ℕ) (msg : Message) (r : Reader) → Ends (Goes r) (Context.read_field j n msg r)
  unfolding Context.read_field
  context-Goes n msg r =
      case-Goes r (n == 1) _ _
        (value-Goes r (Context.set_transmission_id j msg) _ (read_uint32_ends r))
        (case-Goes r (n == 2) _ _
          (value-Goes r (Context.set_packet_type j msg) _ (read_enum_ends r))
          (case-Goes r (n == 3) _ _
            (value-Goes r (Context.set_packet_flags j msg) _ (read_enum_ends r))
            (case-Goes r (n == 4) _ _
              (value-Goes r (Context.set_priority j msg) _ (read_enum_ends r))
              (case-Goes r (n == 5) _ _
                (value-Goes r (Context.set_service_method j msg) _ (read_string_ends r))
                (case-Goes r (n == 6) _ _
                  (value-Goes r (Context.set_is_cancelled j msg) _ (read_bool_ends r))
                  (case-Goes r (n == 7) _ _
                    (value-Goes r (Context.set_is_failed j msg) _ (read_bool_ends r))
                    (skip-Goes r msg)))))))

  context_deserialize_binary-Ends :
      (bytes : Bytes) → Ends (λ m. Unit {0}) (Context.deserialize_binary j bytes)
  unfolding Context.deserialize_binary Context.deserialize_binary_from_reader
  context_deserialize_binary-Ends bytes =
      let fits = remaining-new bytes in
      read_loop-Ends (Context.read_field j) context-Goes (suc (length bytes)) _ _ (omega arith)

  error-Goes :
      (n : ℕ) (msg : Message) (r : Reader) → Ends (Goes r) (ErrorMessage.read_field j n msg r)
  unfolding ErrorMessage.read_field
  error-Goes n msg r =
      case-Goes r (n == 1) _ _ (value-Goes r (ErrorMessage.set_code j msg) _ (read_string_ends r)) (
        case-Goes r (n == 2) _ _
          (value-Goes r (ErrorMessage.set_message j msg) _ (read_string_ends r))
          (case-Goes r (n == 3) _ _
            (value-Goes r (ErrorMessage.set_data j msg) _ (read_string_ends r)) (skip-Goes r msg)))

  error_deserialize_binary-Ends :
      (bytes : Bytes) → Ends (λ m. Unit {0}) (ErrorMessage.deserialize_binary j bytes)
  unfolding ErrorMessage.deserialize_binary ErrorMessage.deserialize_binary_from_reader
  error_deserialize_binary-Ends bytes =
      let fits = remaining-new bytes in
      read_loop-Ends (ErrorMessage.read_field j) error-Goes (suc (length bytes)) _ _ (omega arith)

  void_deserialize_binary-Ends :
      (bytes : Bytes) → Ends (λ m. Unit {0}) (Void.deserialize_binary j bytes)
  unfolding Void.deserialize_binary Void.deserialize_binary_from_reader Void.read_field
  void_deserialize_binary-Ends bytes =
      let fits = remaining-new bytes in
      read_loop-Ends (Void.read_field j) (λ n msg r. skip-Goes r msg) (suc (length bytes)) _ _
        (omega arith)

  ack_deserialize_binary-Ends :
      (bytes : Bytes) → Ends (λ m. Unit {0}) (RpcAck.deserialize_binary j bytes)
  unfolding RpcAck.deserialize_binary RpcAck.deserialize_binary_from_reader RpcAck.read_field
  ack_deserialize_binary-Ends bytes =
      let fits = remaining-new bytes in
      read_loop-Ends (RpcAck.read_field j) (λ n msg r. skip-Goes r msg) (suc (length bytes)) _ _
        (omega arith)

  -- The reading of each of the four messages returns a message or throws, on any bytes: its rounds suffice.
  pub deserialize_binary-Ends :
      (bytes : Bytes)
      → Ends (λ m. Unit {0}) (Context.deserialize_binary j bytes)
        × Ends (λ m. Unit {0}) (ErrorMessage.deserialize_binary j bytes)
        × Ends (λ m. Unit {0}) (Void.deserialize_binary j bytes)
        × Ends (λ m. Unit {0}) (RpcAck.deserialize_binary j bytes)
  deserialize_binary-Ends bytes = (
    context_deserialize_binary-Ends bytes,
    error_deserialize_binary-Ends bytes,
    void_deserialize_binary-Ends bytes,
    ack_deserialize_binary-Ends bytes,
  )
