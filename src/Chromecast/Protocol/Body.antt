-- ===== src/Chromecast/Protocol/Body.antt =====
-- chromecast/protocol.cc: connect_body, and the decimal numbers that it and the messages write.
use phone.Prelude.Integers.{ℤ, pos, negsuc}
use phone.Prelude.Texts.{bytes_of}
use phone.Prelude.{ℕ, zero, suc, ◌+◌, ◌/◌, ◌%◌, Bool, [], ◌∷◌, ◌++◌, ◌==◌, if◌then◌else◌}
use phone.Chromecast.Json.{Text}
use phone.Chromecast.Json.Parser.{quote}
use phone.Chromecast.Protocol.{WifiNetwork}

unfoldable pub digits_before : ℕ → ℕ → Text → Text
digits_before zero n text = text
digits_before (suc fuel) n text =
    let more = digits_before fuel (n / 10) ((b'0' + n % 10) ∷ text) in
    if n / 10 == 0 then (b'0' + n % 10) ∷ text else more

-- std::to_string; 20 digits are enough for 64 bits.
unfoldable pub decimal : ℕ → Text
decimal n = digits_before 20 n []

unfoldable pub int_text : ℤ → Text
int_text (pos n) = decimal n
int_text (negsuc n) = b'-' ∷ decimal (n + 1)

unfoldable pub at_least_zero : ℤ → ℤ
at_least_zero (pos n) = pos n
at_least_zero (negsuc n) = pos 0

unfoldable pub connect_body : WifiNetwork → Text → Bool → Text
connect_body n encrypted keep_hotspot =
    bytes_of "{\"ssid\":"
    ++ quote n.ssid
    ++ bytes_of ",\"wpa_auth\":"
    ++ int_text n.auth
    ++ bytes_of ",\"wpa_cipher\":"
    ++ int_text n.cipher
    ++ bytes_of ",\"wpa_id\":"
    ++ int_text (at_least_zero n.wpa_id)
    ++ bytes_of ",\"scan_ssid\":0,\"enc_passwd\":"
    ++ quote encrypted
    ++ (if keep_hotspot then bytes_of ",\"keep_hotspot_until_connected\":true" else [])
    ++ bytes_of "}"
