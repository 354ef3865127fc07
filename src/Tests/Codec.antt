-- ===== src/Tests/Codec.antt =====
-- A codec that meets the laws of the payloads. A `+` goes before each item of a sequence, and a
-- `-` ends it.
use Prim.Native.Char.{Char, code}
use Prim.Native.String.{String, [], ◌∷◌}
use o2ul_portal.Common.{
  ℕ, zero, suc, ◌≡◌, refl, nat_eq, if◌then◌else◌, length, Result, ok, err, message, is_space_code,
  List,
}
use mathlib.Core.List as L
use o2ul_portal.Wallet.Service.Payloads.{WalletSpendBuild, WalletSignedTransaction, Codec, IsJson}

abbrev plus : Char
plus = "+"

abbrev minus : Char
minus = "-"

abbrev put_text : String → String → String
put_text [] rest = minus ∷ rest
put_text (c ∷ s) rest = plus ∷ c ∷ put_text s rest

unfoldable pub get_text : String → String × String
get_text [] = ("", "")
get_text (c ∷ []) = ("", "")
get_text (c ∷ d ∷ rest) =
    let (s, after) = get_text rest in if nat_eq (code c) 45 then ("", d ∷ rest) else (d ∷ s, after)

abbrev put_nat : ℕ → String → String
put_nat zero rest = minus ∷ rest
put_nat (suc n) rest = plus ∷ put_nat n rest

unfoldable pub get_nat : String → ℕ × String
get_nat [] = (0, "")
get_nat (c ∷ rest) =
    let (n, after) = get_nat rest in if nat_eq (code c) 45 then (0, rest) else (suc n, after)

abbrev put_many : List String → String → String
put_many L.[] rest = rest
put_many (L.◌∷◌ x xs) rest = put_text x (put_many xs rest)

unfoldable pub get_many : ℕ → String → List String × String
get_many zero s = (L.[], s)
get_many (suc n) s =
    let (x, rest) = get_text s in let (xs, after) = get_many n rest in (L.◌∷◌ x xs, after)

get_text-put : (s rest : String) → get_text (put_text s rest) ≡ (s, rest)
unfolding get_text
get_text-put [] [] = refl
get_text-put [] (c ∷ rest) = refl
get_text-put (c ∷ s) rest = rw (get_text-put s rest) refl

get_nat-put : (n : ℕ) (rest : String) → get_nat (put_nat n rest) ≡ (n, rest)
unfolding get_nat
get_nat-put zero rest = refl
get_nat-put (suc n) rest = rw (get_nat-put n rest) refl

get_many-put :
    (xs : List String) (rest : String) → get_many (length xs) (put_many xs rest) ≡ (xs, rest)
unfolding get_many
get_many-put L.[] rest = refl
get_many-put (L.◌∷◌ x xs) rest =
    rw (get_text-put x (put_many xs rest)) (rw (get_many-put xs rest) refl)

abbrev put_spend : WalletSpendBuild → String
put_spend s = put_text s.wallet_id (
    put_text s.recipient (
      put_text s.asset_id (
        put_nat s.amount
          (put_nat s.fee (put_nat (length s.input_notes) (put_many s.input_notes ""))))))

unfoldable pub get_spend : String → Result WalletSpendBuild
get_spend s =
    let (wallet, s1) = get_text s in
    let (recipient, s2) = get_text s1 in
    let (asset, s3) = get_text s2 in
    let (amount, s4) = get_nat s3 in
    let (fee, s5) = get_nat s4 in
    let (count, s6) = get_nat s5 in
    let (inputs, s7) = get_many count s6 in
    ok (record {
      wallet_id = wallet;
      recipient = recipient;
      asset_id = asset;
      amount = amount;
      fee = fee;
      input_notes = inputs;
    })

abbrev period : Char
period = "."

abbrev put_signed : WalletSignedTransaction → String
put_signed s =
    period
    ∷ put_text s.unsigned_tx (put_text s.signature (put_text s.signed_by (put_text s.signed_at "")))

unfoldable pub get_signed : String → Result WalletSignedTransaction
get_signed [] = err (message "empty")
get_signed (c ∷ s) =
    let (unsigned_tx, s1) = get_text s in
    let (signature, s2) = get_text s1 in
    let (signed_by, s3) = get_text s2 in
    let (signed_at, s4) = get_text s3 in
    if nat_eq (code c) 46
    then ok (record {
      unsigned_tx = unsigned_tx;
      signature = signature;
      signed_by = signed_by;
      signed_at = signed_at;
    })
    else err (message "not signed")

abbrev pub sample_codec : Codec
sample_codec = record {
  marshal_spend = put_spend;
  unmarshal_spend = get_spend;
  marshal_signed = put_signed;
  unmarshal_signed = get_signed;
  sha256_hex = λ s. "0f";
}

put_text_full : (s rest : String) → put_text s rest ≡ "" → ⊥
put_text_full [] rest h = cc
put_text_full (c ∷ s) rest h = cc

get_spend-put : (s : WalletSpendBuild) → get_spend (put_spend s) ≡ ok s
unfolding get_spend
get_spend-put s =
    let s6 = put_many s.input_notes "" in
    let s5 = put_nat (length s.input_notes) s6 in
    let s4 = put_nat s.fee s5 in
    let s3 = put_nat s.amount s4 in
    let s2 = put_text s.asset_id s3 in
    let s1 = put_text s.recipient s2 in
    rw (get_text-put s.wallet_id s1) (
      rw (get_text-put s.recipient s2) (
        rw (get_text-put s.asset_id s3) (
          rw (get_nat-put s.amount s4) (
            rw (get_nat-put s.fee s5) (
              rw (get_nat-put (length s.input_notes) s6)
                (rw (get_many-put s.input_notes "") refl))))))

get_signed-put : (s : WalletSignedTransaction) → get_signed (put_signed s) ≡ ok s
unfolding get_signed
get_signed-put s =
    let s3 = put_text s.signed_at "" in
    let s2 = put_text s.signed_by s3 in
    let s1 = put_text s.signature s2 in
    rw (get_text-put s.unsigned_tx s1) (
      rw (get_text-put s.signature s2)
        (rw (get_text-put s.signed_by s3) (rw (get_text-put s.signed_at "") refl)))

get_signed-text :
    (s rest : String) (signed : WalletSignedTransaction)
    → get_signed (put_text s rest) ≡ ok signed
    → signed.unsigned_tx ≡ ""
unfolding get_signed
get_signed-text [] rest signed h = cc
get_signed-text (c ∷ s) rest signed h = cc

pub sample_codec-IsJson : IsJson sample_codec
unfolding is_space_code
sample_codec-IsJson = record {
  spend_round = get_spend-put;
  signed_round = get_signed-put;
  spend_unsigned = λ s signed h. get_signed-text s.wallet_id _ signed h;
  spend_not_empty = λ s. put_text_full s.wallet_id _;
  signed_not_empty = λ s h. cc;
  hex_plain = λ p. (refl, (refl, tt));
}
