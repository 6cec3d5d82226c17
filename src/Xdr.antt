-- ===== src/Xdr.antt =====
-- backend/types/xdr.ts. The test for base64 is that of the library zod, a parameter.
use Prim.Native.String.{count}
use synapse_stellar.Prelude.{ℕ, Bool, not, String, leb, if◌then◌else◌}
use synapse_stellar.Prelude.Results.{Result, ok, err}

pub data InvalidXdrFormat : Type 0 where
  empty too_long not_base64 : InvalidXdrFormat

abbrev max_xdr_bytes : ℕ
max_xdr_bytes = 65536

-- The first issue of `XDRPayloadSchema`.
unfoldable pub validate_xdr : (String → Bool) → String → Result InvalidXdrFormat String
validate_xdr is_base64 raw =
    if not (leb 1 (count raw))
    then err empty
    else if not (leb (count raw) max_xdr_bytes)
    then err too_long
    else if not (is_base64 raw)
    then err not_base64
    else ok raw
