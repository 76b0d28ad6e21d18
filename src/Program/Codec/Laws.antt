-- ===== src/Program/Codec/Laws.antt =====
-- What one side encodes, the other decodes.
use solana_proxy.Prelude.{
  ℕ, ◌+◌, ◌-◌, ◌^◌, ◌%◌, ◌<◌, ◌≡◌, refl, sym, some, [], ◌++◌, length, length-append,
  take-append_length, drop-append_length, arith, leb, ltb, true, append_assoc, true, append_assoc,
}
use solana_proxy.Bytes.{Bytes, be_bytes}
use solana_proxy.Bytes.Laws.{length-be_bytes, read_be-be_bytes, drop-be_bytes, read_be-be_bytes_mod}
use solana_proxy.Program.Payload.{
  TokenType, PayloadType, token_code, payload_code, token_code-lt, payload_code-lt,
  token_code-token_from_u8, payload_code-payload_from_u8,
}
use solana_proxy.Program.Codec.{
  slice, slice_from, VaultMessage, encode_vault_message, decode_vault_message,
  encode_ledger_message, decode_ledger_message, get_receiver, get_usdc_amount,
}

-- A range that is known to hold `ys`.
slice-middle :
    (from to : ℕ) (xs ys zs : Bytes)
    → from ≡ length xs
    → to ≡ from + length ys
    → slice from to (xs ++ (ys ++ zs)) ≡ some ys
unfolding slice
slice-middle from to xs ys zs hf ht =
    let inside : leb to (length (xs ++ (ys ++ zs))) ≡ true =
      ground (arith, length-append xs (ys ++ zs), length-append ys zs) in
    let width : to - from ≡ length ys = omega arith in
    rw (inside, width, hf, drop-append_length xs (ys ++ zs), take-append_length ys zs) refl

slice_from-suffix :
    (from : ℕ) (xs ys : Bytes) → from ≡ length xs → slice_from from (xs ++ ys) ≡ some ys
unfolding slice_from
slice_from-suffix from xs ys hf =
    let inside : leb from (length (xs ++ ys)) ≡ true = ground (arith, length-append xs ys) in
    rw (inside, hf, drop-append_length xs ys) refl

-- A message with its four fields side by side.
abbrev fields : ℕ → Bytes → ℕ → Bytes → Bytes
fields token key payload_type payload =
    be_bytes 1 token ++ (key ++ (be_bytes 1 payload_type ++ payload))

module _ (token : ℕ) (key : Bytes) (payload_type : ℕ) (payload : Bytes)
    (wide : length key ≡ 32) where
  slice_token : slice 0 1 (fields token key payload_type payload) ≡ some (be_bytes 1 token)
  slice_token =
      slice-middle 0 1 [] (be_bytes 1 token) _ refl (omega (arith, length-be_bytes 1 token))

  slice_key : slice 1 33 (fields token key payload_type payload) ≡ some key
  slice_key =
      slice-middle 1 33 (be_bytes 1 token) key _ (sym (length-be_bytes 1 token)) (omega arith)

  slice_payload_type :
      slice 33 34 (fields token key payload_type payload) ≡ some (be_bytes 1 payload_type)
  slice_payload_type =
      rw (← append_assoc (be_bytes 1 token) key (be_bytes 1 payload_type ++ payload)) (
        slice-middle 33 34 (be_bytes 1 token ++ key) (be_bytes 1 payload_type) payload
          (omega (arith, length-append (be_bytes 1 token) key, length-be_bytes 1 token))
          (omega (arith, length-be_bytes 1 payload_type)))

  slice_payload : slice_from 34 (fields token key payload_type payload) ≡ some payload
  slice_payload =
      rw
        (
          ← append_assoc key (be_bytes 1 payload_type) payload,
          ← append_assoc (be_bytes 1 token) (key ++ be_bytes 1 payload_type) payload,
        )
        (slice_from-suffix 34 (be_bytes 1 token ++ (key ++ be_bytes 1 payload_type)) payload (
          omega (
            arith,
            length-append (be_bytes 1 token) (key ++ be_bytes 1 payload_type),
            length-append key (be_bytes 1 payload_type),
            length-be_bytes 1 token,
            length-be_bytes 1 payload_type,
          )))

-- The contract reads back every field of a message of the program.
pub decode-encode_vault_message :
    (m : VaultMessage)
    → m.token < 4
    → length m.sender ≡ 32
    → m.payload_type < 256
    → decode_vault_message (encode_vault_message m) ≡ some m
unfolding decode_vault_message encode_vault_message
decode-encode_vault_message m ht hs hp =
    let small : ltb m.token 4 ≡ true = ground arith in
    rw (slice_token m.token m.sender m.payload_type m.payload hs) (
      rw (slice_key m.token m.sender m.payload_type m.payload hs) (
        rw (slice_payload_type m.token m.sender m.payload_type m.payload hs) (
          rw (slice_payload m.token m.sender m.payload_type m.payload hs) (
            rw (
              read_be-be_bytes 1 m.token (omega arith),
              read_be-be_bytes 1 m.payload_type hp,
              small,
            )))))

-- The program reads back every field of a message of the contract.
pub decode-encode_ledger_message :
    (token : TokenType) (receiver : Bytes) (payload_type : PayloadType) (payload : Bytes)
    → length receiver ≡ 32
    → decode_ledger_message
        (encode_ledger_message (token_code token) receiver (payload_code payload_type) payload)
      ≡ some (record {
        token = token;
        receiver = receiver;
        payload_type = payload_type;
        payload = payload;
      })
unfolding decode_ledger_message encode_ledger_message
decode-encode_ledger_message token receiver payload_type payload hr =
    let t = token_code token in
    let p = payload_code payload_type in
    rw (slice_token t receiver p payload hr) (
      rw (slice_key t receiver p payload hr) (
        rw (slice_payload_type t receiver p payload hr) (
          rw (slice_payload t receiver p payload hr) (
            rw (
              read_be-be_bytes 1 t (omega (arith, token_code-lt token)),
              read_be-be_bytes 1 p (omega (arith, payload_code-lt payload_type)),
              token_code-token_from_u8 token,
              payload_code-payload_from_u8 payload_type,
            )))))

pub get_receiver-encode_ledger_message :
    (token : ℕ) (receiver : Bytes) (payload_type : ℕ) (payload : Bytes)
    → length receiver ≡ 32
    → get_receiver (encode_ledger_message token receiver payload_type payload) ≡ some receiver
unfolding get_receiver encode_ledger_message
get_receiver-encode_ledger_message token receiver payload_type payload h =
    slice_key token receiver payload_type payload h

-- The program pays the 32-byte amount modulo 2 ^ 64: exactly, if it is a `u64`.
pub get_usdc_amount-be_bytes : (v : ℕ) → get_usdc_amount (be_bytes 32 v) ≡ v % 2 ^ 64
unfolding get_usdc_amount
get_usdc_amount-be_bytes v = rw (drop-be_bytes 24 8 v) (read_be-be_bytes_mod 8 v)
