-- ===== src/Wallet/Service/Payloads.antt =====
-- The payloads of the wallet service, and what it uses of encoding/json and crypto/sha256.
use o2ul_portal.Common.{ℕ, String, List, ◌≡◌, Result, ok, NoSpaces}

-- `amount` and `fee` are uint64.
pub record WalletSpendBuild : Type 0 where
  pub wallet_id : String
  pub recipient : String
  pub asset_id : String
  pub amount : ℕ
  pub fee : ℕ
  pub input_notes : List String

pub record WalletSignedTransaction : Type 0 where
  pub unsigned_tx : String
  pub signature : String
  pub signed_by : String
  pub signed_at : String

-- json.Marshal and json.Unmarshal at the two payload types, and sha256 printed in hexadecimal.
pub record Codec : Type 0 where
  pub marshal_spend : WalletSpendBuild → String
  pub unmarshal_spend : String → Result WalletSpendBuild
  pub marshal_signed : WalletSignedTransaction → String
  pub unmarshal_signed : String → Result WalletSignedTransaction
  pub sha256_hex : String → String

-- Unmarshal gives back what Marshal printed and leaves a field out that it is not given, so that a
-- spend reads as a signed transaction without an unsigned one. An encoded object is not empty, and
-- hexadecimal digits are no spaces.
pub record IsJson (c : Codec) : Type 0 where
  pub spend_round : (s : WalletSpendBuild) → c.unmarshal_spend (c.marshal_spend s) ≡ ok s
  pub signed_round : (s : WalletSignedTransaction) → c.unmarshal_signed (c.marshal_signed s) ≡ ok s
  pub spend_unsigned :
      (s : WalletSpendBuild) (signed : WalletSignedTransaction)
      → c.unmarshal_signed (c.marshal_spend s) ≡ ok signed
      → signed.unsigned_tx ≡ ""
  pub spend_not_empty : (s : WalletSpendBuild) → c.marshal_spend s ≡ "" → ⊥
  pub signed_not_empty : (s : WalletSignedTransaction) → c.marshal_signed s ≡ "" → ⊥
  pub hex_plain : (p : String) → NoSpaces (c.sha256_hex p)
