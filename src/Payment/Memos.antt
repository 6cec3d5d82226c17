-- ===== src/Payment/Memos.antt =====
-- `buildMemo` of backend/tools/StellarPaymentTool.ts.
use Prim.Native.Char.{Char, code}
use Prim.Native.String.{String, count, len}
use synapse_stellar.Prelude.{
  ℕ, ◌^◌, ◌≤◌, ◌<◌, ◌≡◌, inl, inr, Bool, true, ◌&&◌, ◌||◌, not, Option, none, some, ltb, leb, ◌==◌,
  string_eq, nat_eq, arith, Bool-cases, if◌then◌else◌,
}
use synapse_stellar.Prelude.Int.{ℤ, pos, negsuc}
use synapse_stellar.Prelude.Results.{Result, ok, err}

-- A memo that was given: a text, a whole number, or another number, which `BigInt` refuses.
pub data MemoValue : Type 0 where
  text : String → MemoValue
  integer : ℤ → MemoValue
  not_an_integer : MemoValue

pub data Memo : Type 0 where
  memo_text memo_hash memo_return : String → Memo
  memo_id : ℕ → Memo

pub data MemoError : Type 0 where
  not_a_number not_a_string no_big_int out_of_range wrong_length not_hex too_long : MemoError

-- `Buffer.byteLength(s, 'utf8')`
abbrev pub byte_length : String → ℕ
byte_length s = len s

is_hex_digit : Char → Bool
is_hex_digit c =
    (leb 48 (code c) && leb (code c) 57)
    || (leb 65 (code c) && leb (code c) 70)
    || (leb 97 (code c) && leb (code c) 102)

unfoldable pub all_hex : String → Bool
unfolding is_hex_digit
all_hex String.[] = true
all_hex (String.◌∷◌ c s) = let rest = all_hex s in is_hex_digit c && rest

-- `replace(/^0x/, '')`
pub strip_0x : String → String
strip_0x (String.◌∷◌ z (String.◌∷◌ x s)) =
    if code z == 48 && code x == 120 then s else String.◌∷◌ z (String.◌∷◌ x s)
strip_0x s = s

abbrev hex_memo : (String → Memo) → String → Result MemoError (Option Memo)
hex_memo make hex =
    if not (count hex == 64)
    then err wrong_length
    else if not (all_hex hex)
    then err not_hex
    else ok (some (make hex))

id_memo : MemoValue → Result MemoError (Option Memo)
id_memo (text s) = err not_a_number
id_memo not_an_integer = err no_big_int
id_memo (integer (negsuc n)) = err out_of_range
id_memo (integer (pos n)) =
    if ltb 18446744073709551615 n then err out_of_range else ok (some (memo_id n))

hash_memo : (String → Memo) → MemoValue → Result MemoError (Option Memo)
unfolding strip_0x
hash_memo make (text s) = hex_memo make (strip_0x s)
hash_memo make _ = err not_a_string

text_memo : MemoValue → Result MemoError (Option Memo)
text_memo (text s) = if ltb 28 (byte_length s) then err too_long else ok (some (memo_text s))
text_memo _ = err not_a_string

unfoldable pub build_memo : String → Option MemoValue → Result MemoError (Option Memo)
unfolding id_memo hash_memo text_memo
build_memo memo_type none = ok none
build_memo memo_type (some v) =
    if memo_type == "id"
    then id_memo v
    else if memo_type == "hash"
    then hash_memo memo_hash v
    else if memo_type == "return"
    then hash_memo memo_return v
    else text_memo v

-- What fits into a transaction.
abbrev pub Fits : Memo → Type 0
Fits (memo_text s) = byte_length s ≤ 28
Fits (memo_hash s) = (count s ≡ 64) × (all_hex s ≡ true)
Fits (memo_return s) = (count s ≡ 64) × (all_hex s ≡ true)
Fits (memo_id n) = n < 2 ^ 64

made-Fits :
    (made m : Memo)
    → ◌≡◌ {A = Result MemoError (Option Memo)} (ok (some made)) (ok (some m))
    → Fits made
    → Fits m
made-Fits made m h f = let same : made ≡ m = cc in rw same at f

id_memo-Fits : (v : MemoValue) (m : Memo) → id_memo v ≡ ok (some m) → Fits m
unfolding id_memo
id_memo-Fits (text s) m = λ h. cc
id_memo-Fits not_an_integer m = λ h. cc
id_memo-Fits (integer (negsuc n)) m = λ h. cc
id_memo-Fits (integer (pos n)) m = elim (Bool-cases (ltb 18446744073709551615 n)) [
  | inl above ↦ rw above (λ h. cc)
  | inr below ↦ rw below (λ h. made-Fits (memo_id n) m h (ground arith))
]

hex_memo-Fits :
    (make : String → Memo) (hex : String) (m : Memo)
    → ((count hex ≡ 64) × (all_hex hex ≡ true) → Fits (make hex))
    → hex_memo make hex ≡ ok (some m)
    → Fits m
hex_memo-Fits make hex m f = elim (Bool-cases (count hex == 64)) [
  | inr other ↦ rw other (λ h. cc)
  | inl long ↦ rw long (elim (Bool-cases (all_hex hex)) [
    | inr bad ↦ rw bad (λ h. cc)
    | inl good ↦ rw good (λ h. made-Fits (make hex) m h (f (ground arith, good)))
  ])
]

hash_memo-Fits :
    (make : String → Memo) (v : MemoValue) (m : Memo)
    → ((s : String) → (count s ≡ 64) × (all_hex s ≡ true) → Fits (make s))
    → hash_memo make v ≡ ok (some m)
    → Fits m
unfolding hash_memo
hash_memo-Fits make (text s) m f h = hex_memo-Fits make (strip_0x s) m (f (strip_0x s)) h
hash_memo-Fits make (integer n) m f h = cc
hash_memo-Fits make not_an_integer m f h = cc

text_memo-Fits : (v : MemoValue) (m : Memo) → text_memo v ≡ ok (some m) → Fits m
unfolding text_memo
text_memo-Fits (integer n) m = λ h. cc
text_memo-Fits not_an_integer m = λ h. cc
text_memo-Fits (text s) m = elim (Bool-cases (ltb 28 (byte_length s))) [
  | inl above ↦ rw above (λ h. cc)
  | inr below ↦ rw below (λ h. made-Fits (memo_text s) m h (ground arith))
]

-- Every memo that is built fits into a transaction: a text has at most 28 bytes, an id is below 2^64, and
-- a hash has 64 hex digits.
pub build_memo-Fits :
    (memo_type : String) (value : Option MemoValue) (m : Memo)
    → build_memo memo_type value ≡ ok (some m)
    → Fits m
unfolding build_memo
build_memo-Fits memo_type none m = λ h. cc
build_memo-Fits memo_type (some v) m = elim (Bool-cases (memo_type == "id")) [
  | inl is_id ↦ rw is_id (id_memo-Fits v m)
  | inr not_id ↦ rw not_id (elim (Bool-cases (memo_type == "hash")) [
    | inl is_hash ↦ rw is_hash (hash_memo-Fits memo_hash v m (λ s f. f))
    | inr not_hash ↦ rw not_hash (elim (Bool-cases (memo_type == "return")) [
      | inl is_return ↦ rw is_return (hash_memo-Fits memo_return v m (λ s f. f))
      | inr is_text ↦ rw is_text (text_memo-Fits v m)
    ])
  ])
]
