-- ===== src/Payment.antt =====
-- backend/tools/StellarPaymentTool.ts. The SDK's transactions, `loadAccount` and `submitTransaction` are
-- parameters, functions of a network state; `StrKey.isValidEd25519PublicKey` is one too.
pub mod Memos
pub mod Submit
pub mod Path
pub mod Swap
pub mod MultiSig
pub mod Batch
pub mod Laws
mod Tests
use Prim.Native.Char.{Char, code}
use Prim.Native.String.{count, len}
use synapse_stellar.Prelude.{
  ℕ, zero, suc, ◌+◌, ◌^◌, ◌≡◌, Bool, true, false, ◌&&◌, ◌||◌, not, Option, none, some, List, String,
  ltb, leb, ◌==◌, string_eq, nat_eq, if◌then◌else◌,
}
use synapse_stellar.Prelude.Int.{ℤ, pos, negsuc, ltb_ℤ}
use synapse_stellar.Prelude.Results.{Result, ok, err}
use synapse_stellar.Payment.Submit.{submit_with_retry}
use synapse_stellar.Payment.Memos.{Memo, MemoValue, MemoError, build_memo, byte_length}

pub record PaymentInput : Type 0 where
  pub destination : String
  pub amount : String
  pub asset_code : String
  pub asset_issuer : Option String
  pub memo_type : String
  pub memo : Option MemoValue

is_digit : Char → Bool
is_digit c = leb 48 (code c) && leb (code c) 57

-- `(\.\d{1,7})?$`, after the point, with the number of places so far
fraction : ℕ → String → Bool
unfolding is_digit
fraction places String.[] = leb 1 places
fraction places (String.◌∷◌ c s) =
    let rest = fraction (suc places) s in is_digit c && ltb places 7 && rest

-- `\d+`, and whether a digit has been read
whole : Bool → String → Bool
unfolding fraction
whole seen String.[] = seen
whole seen (String.◌∷◌ c s) =
    let rest = whole true s in if is_digit c then rest else seen && code c == 46 && fraction 0 s

all_zeros : String → Bool
all_zeros String.[] = true
all_zeros (String.◌∷◌ c s) = let rest = all_zeros s in code c == 48 && rest

-- `(?!0(\.0+)?$)` rejects these.
is_zero_decimal : String → Bool
unfolding all_zeros
is_zero_decimal (String.◌∷◌ z String.[]) = code z == 48
is_zero_decimal (String.◌∷◌ z (String.◌∷◌ p (String.◌∷◌ c s))) =
    code z == 48 && code p == 46 && all_zeros (String.◌∷◌ c s)
is_zero_decimal _ = false

-- The regular expression of the amount.
unfoldable pub is_decimal : String → Bool
unfolding whole is_zero_decimal
is_decimal s = not (is_zero_decimal s) && whole false s

abbrev pub is_positive : Option ℤ → Bool
is_positive none = false
is_positive (some n) = ltb_ℤ (pos 0) n

abbrev pub is_memo_type : String → Bool
is_memo_type t = t == "text" || t == "id" || t == "hash" || t == "return"

module _ (parse_float : String → Option ℤ) (is_valid_public_key : String → Bool) where
  abbrev is_short : String → Option MemoValue → Bool
  is_short memo_type (some (MemoValue.text s)) = not (memo_type == "text") || leb (byte_length s) 28
  is_short memo_type _ = true

  -- The tests of `PaymentInputSchema` on an input whose fields have their types.
  pub is_valid : PaymentInput → Bool
  unfolding is_decimal
  is_valid input =
      count input.destination == 56
      && is_valid_public_key input.destination
      && is_decimal input.amount
      && is_positive (parse_float input.amount)
      && is_memo_type input.memo_type
      && is_short input.memo_type input.memo

pub data PaymentError (E : Type 0) : Type 0 where
  invalid_input own_address issuer_required : PaymentError E
  memo_error : MemoError → PaymentError E
  thrown : E → PaymentError E

-- `!input.assetIssuer`: the empty text is falsy too.
abbrev pub has_issuer : Option String → Bool
has_issuer none = false
has_issuer (some issuer) = not (issuer == "")

-- `buildTx` and signing.
pub build_tx :
    {Account Tx E : Type 0}
    → (Account → PaymentInput → Option Memo → Tx)
    → PaymentInput
    → Account
    → Result (PaymentError E) Tx
build_tx build input source = elim (build_memo input.memo_type input.memo) [
  | err e ↦ err (memo_error e)
  | ok memo ↦ ok (build source input memo)
]

module _ (parse_float : String → Option ℤ) (is_valid_public_key : String → Bool)
    (Account Tx Submitted Net E : Type 0) (public_key : String)
    (load_account : Bool → Net → Result E Account × Net)
    (build : Account → PaymentInput → Option Memo → Tx)
    (submit_transaction : Tx → Net → Result E Submitted × Net) (is_bad_seq : E → Bool) where
  pub execute : PaymentInput → Net → Result (PaymentError E) Submitted × Net
  unfolding is_valid build_tx
  execute input net =
      if not (is_valid parse_float is_valid_public_key input)
      then (err invalid_input, net)
      else if input.destination == public_key
      then (err own_address, net)
      else if not (input.asset_code == "XLM") && not (has_issuer input.asset_issuer)
      then (err issuer_required, net)
      else submit_with_retry Account Tx Submitted Net E (PaymentError E) thrown load_account
          (build_tx build input) submit_transaction is_bad_seq net
