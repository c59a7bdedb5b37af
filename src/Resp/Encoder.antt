-- ===== src/Resp/Encoder.antt =====
-- RESPEncoder: each encoder as the sequence of its Append calls.
use nova_kv.Prelude.{Bytes, ascii, List, [], ◌∷◌, length}
use nova_kv.NetworkBuffer.{NetworkBuffer, append}
use nova_kv.Resp.Decimal.{ℤ, decimal, decimal_ℤ}

abbrev pub crlf : Bytes
crlf = 13 ∷ 10 ∷ []

unfoldable pub encode_simple_string : NetworkBuffer → Bytes → NetworkBuffer
encode_simple_string b str = append (append (append b (ascii "+")) str) crlf

unfoldable pub encode_error : NetworkBuffer → Bytes → NetworkBuffer
encode_error b msg = append (append (append b (ascii "-ERR ")) msg) crlf

unfoldable pub encode_integer : NetworkBuffer → ℤ → NetworkBuffer
encode_integer b val = append (append (append b (ascii ":")) (decimal_ℤ val)) crlf

unfoldable pub encode_bulk_string : NetworkBuffer → Bytes → NetworkBuffer
encode_bulk_string b str =
    append (append (append (append (append b (ascii "$")) (decimal (length str))) crlf) str) crlf

unfoldable pub encode_null : NetworkBuffer → NetworkBuffer
encode_null b = append (append b (ascii "$-1")) crlf

unfoldable pub encode_elements : NetworkBuffer → List Bytes → NetworkBuffer
encode_elements b [] = b
encode_elements b (e ∷ es) = encode_elements (encode_bulk_string b e) es

unfoldable pub encode_array : NetworkBuffer → List Bytes → NetworkBuffer
encode_array b elements =
    encode_elements (append (append (append b (ascii "*")) (decimal (length elements))) crlf)
      elements
