-- ===== src/Program/Codec.antt =====
-- The messages between the program and the contract: `SolanaVaultOCCMessage` and
-- `SolanaLedgerOCCMessage` of programs/solana-proxy/src/instructions/msg_codec.rs, and
-- `SolanaProxyMsgCodec` of contracts/lib/MsgCodec.sol. `none` is a panic or a revert.
pub mod Laws
mod Tests
use solana_proxy.Prelude.{
  ℕ, ◌+◌, ◌-◌, Bool, ◌&&◌, Option, none, some, List, [], ◌∷◌, ◌++◌, length, take, drop, leb, ltb,
  if◌then◌else◌,
}
use solana_proxy.Bytes.{Bytes, be_bytes, read_be}
use solana_proxy.Program.Payload.{
  TokenType, PayloadType, token_code, payload_code, token_from_u8, payload_from_u8,
}

infixl 5 ◌>>=◌
abbrev pub ◌>>=◌ {ℓ κ} : {A : Type ℓ} {B : Type κ} → Option A → (A → Option B) → Option B
none >>= k = none
some a >>= k = k a

-- `m[from..to]`
unfoldable pub slice : ℕ → ℕ → Bytes → Option Bytes
slice from to m = if leb to (length m) then some (take (to - from) (drop from m)) else none

-- `m[from..]`
unfoldable pub slice_from : ℕ → Bytes → Option Bytes
slice_from from m = if leb from (length m) then some (drop from m) else none

pub record VaultMessage : Type 0 where
  pub token : ℕ
  pub sender : Bytes
  pub payload_type : ℕ
  pub payload : Bytes

-- `SolanaVaultOCCMessage::encode`; a key is its 32 bytes.
unfoldable pub encode_vault_message : VaultMessage → Bytes
encode_vault_message m =
    be_bytes 1 m.token ++ (m.sender ++ (be_bytes 1 m.payload_type ++ m.payload))

-- `decodeSolanaVaultMessage`; `LedgerToken(…)` reverts above its last member.
unfoldable pub decode_vault_message : Bytes → Option VaultMessage
decode_vault_message m = do
  token ← slice 0 1 m
  sender ← slice 1 33 m
  payload_type ← slice 33 34 m
  payload ← slice_from 34 m
  if ltb (read_be token) 4
      then some (record {
        token = read_be token;
        sender = sender;
        payload_type = read_be payload_type;
        payload = payload;
      })
      else none

pub record LedgerMessage : Type 0 where
  pub token : TokenType
  pub receiver : Bytes
  pub payload_type : PayloadType
  pub payload : Bytes

-- `encodeSolanaLedgerMessage`, `abi.encodePacked` of a byte, 32 bytes, a byte and bytes.
unfoldable pub encode_ledger_message : ℕ → Bytes → ℕ → Bytes → Bytes
encode_ledger_message token receiver payload_type payload =
    be_bytes 1 token ++ (receiver ++ (be_bytes 1 payload_type ++ payload))

-- `SolanaLedgerOCCMessage::get_receiver`
unfoldable pub get_receiver : Bytes → Option Bytes
get_receiver m = slice 1 33 m

-- `SolanaLedgerOCCMessage::decode`
unfoldable pub decode_ledger_message : Bytes → Option LedgerMessage
unfolding get_receiver
decode_ledger_message m = do
  token ← slice 0 1 m
  receiver ← get_receiver m
  payload_type ← slice 33 34 m
  payload ← slice_from 34 m
  some (record {
    token = token_from_u8 (read_be token);
    receiver = receiver;
    payload_type = payload_from_u8 (read_be payload_type);
    payload = payload;
  })

-- `get_usdc_amount`: the last 8 of 32 bytes.
unfoldable pub get_usdc_amount : Bytes → ℕ
get_usdc_amount amount_bytes = read_be (drop 24 amount_bytes)
