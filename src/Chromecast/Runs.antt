-- ===== src/Chromecast/Runs.antt =====
-- What a run of the parser or the protocol computes through, which tests unfold, and the functions of
-- other libraries that the tests run with.
use phone.Prelude.{ℕ, ◌+◌, ◌*◌, ◌-◌, true, [], ◌∷◌, some}
use phone.Prelude.Texts.{bytes_of}
use phone.Prelude.Integers.{pos, same_int, less_int, of_word, to_int}
use phone.Chromecast.Json.{
  Text, Numbers, is_space, space, starts, literal, utf8, hex_digit, hex_from, hex4, is_high, is_low,
  unicode, piece_of, escape, character, add_piece, string_loop, quoted, is_digit, digits, is_empty,
  optional, leading_zero, marked, number_token, parse_number,
}
use phone.Chromecast.Json.Parser.{
  or_else, number_value, parse_word, parse_scalar, expect, parse_value, parse_members, parse_items,
  end_of_text, parse_json, member, step_into, find, as_string, as_bool, as_integer, hex_char,
  quote_char, quote_chars, quote,
}
use phone.Chromecast.Protocol.{
  failed_state, root_of, text_or, int_or, bool_or, text_at, unless_empty, int_at, is_negative,
  is_object, is_array, state_of, is_foreign, read_info, parse_info, first_array, rows_of,
  rows_under,
}
use phone.Chromecast.Protocol.Passwords.{
  Crypto, one_of, supported, needs_password, all_of, is_hex, is_printable, valid_passphrase, lower,
  same_text, same_device, or_key, encoded_as, encode_cipher, encrypt_under, encrypt_der,
  encrypt_password,
}
use phone.Chromecast.Session.Known.{is_kept}

unfoldable pub json_run : Unit {0}
unfolding is_space space starts literal utf8 hex_digit hex_from hex4 is_high is_low unicode piece_of
    escape character add_piece string_loop quoted is_digit digits is_empty optional leading_zero
    marked number_token parse_number or_else number_value parse_word parse_scalar expect parse_value
    parse_members parse_items end_of_text parse_json member step_into find as_string as_bool
    as_integer hex_char quote_char quote_chars quote
json_run = tt

unfoldable pub protocol_run : Unit {0}
unfolding json_run same_int less_int of_word to_int failed_state root_of text_or int_or bool_or
    text_at unless_empty int_at is_negative is_object is_array state_of is_foreign parse_info
    first_array rows_of rows_under read_info one_of supported needs_password all_of is_hex
    is_printable valid_passphrase lower same_text same_device or_key encoded_as encode_cipher
    encrypt_under encrypt_der encrypt_password is_kept
protocol_run = tt

-- The value of decimal digits.
abbrev pub value_of : ℕ → Text → ℕ
value_of n [] = n
value_of n (c ∷ text) = value_of (n * 10 + (c - 48)) text

abbrev pub numbers : Numbers
numbers = record {
  strtod = value_of 0;
  is_finite = λ n. true;
  is_integer = λ n. true;
  to_integer = pos;
}

abbrev pub passphrase : Text
passphrase = bytes_of "12345678"

-- A key of 256 bytes behind any text, and a cipher that is the password itself.
abbrev pub crypto : Crypto (Unit {0})
crypto = record {
  base64_decode = some;
  allocated = true;
  parse_key = λ der. some tt;
  rsa_length = λ key. 256;
  seeded = true;
  pkcs1_encrypt = λ key password. some password;
  base64_encode = some;
}
