-- ===== src/Chromecast/Session/Known/RoundTrip.antt =====
-- The file of the known devices is read back as it was written.
use phone.Prelude.{
  ℕ, zero, suc, ◌+◌, ◌*◌, ◌≤◌, ◌<◌, ◌≡◌, refl, sym, ap, ◌∙◌, true, List, [], ◌∷◌, ◌++◌, length,
  length-append, ltb, All, arith,
}
use mathlib.Core.List.{append_assoc, append-nil}
use phone.Chromecast.Json.{Text, array, Numbers, parsed, space, is_space, starts}
use phone.Chromecast.Json.Parser.{
  parse_value, parse_json, end_of_text, member, find, step_into, as_string,
}
use phone.Chromecast.Protocol.{DeviceInfo, root_of, text_at, text_or}
use phone.Chromecast.Session.Known.{
  members_text, device_text, known_text, encode_known, stored, decode_row, is_kept, decode_rows,
  decode_root, decode_known,
}
use phone.Chromecast.Session.Known.Printed.{
  row_of, rows_after, items_of, array_value, parse_items-rows,
}

known_text-rows :
    (ds : List DeviceInfo) (out : Text) → 1 < length out → known_text ds out ≡ out ++ rows_after ds
unfolding known_text
known_text-rows [] out h = sym (append-nil out)
known_text-rows (d ∷ ds) out h =
    let comma : ltb 1 (length out) ≡ true = ground arith in
    let grown : 1 < length ((out ++ (b',' ∷ [])) ++ device_text d) =
      omega (
        arith,
        length-append (out ++ (b',' ∷ [])) (device_text d),
        length-append out (b',' ∷ []),
      ) in
    rw comma (
      known_text-rows ds ((out ++ (b',' ∷ [])) ++ device_text d) grown
      ∙ append_assoc (out ++ (b',' ∷ [])) (device_text d) (rows_after ds)
      ∙ append_assoc out (b',' ∷ []) (device_text d ++ rows_after ds))

length-rows_after : (ds : List DeviceInfo) → length ds ≤ length (rows_after ds)
length-rows_after [] = omega arith
length-rows_after (d ∷ ds) =
    omega (arith, length-append (device_text d) (rows_after ds), length-rows_after ds)

length-device_text : (d : DeviceInfo) → 8 ≤ length (device_text d)
unfolding device_text members_text
length-device_text d = omega arith

rows_text : (d : DeviceInfo) (ds : List DeviceInfo) → Text
rows_text d ds = device_text d ++ (rows_after ds ++ (b']' ∷ []))

encode_known-rows_text :
    (d : DeviceInfo) (ds : List DeviceInfo) → encode_known (d ∷ ds) ≡ b'[' ∷ rows_text d ds
unfolding encode_known known_text rows_text
encode_known-rows_text d ds =
    let long : 1 < length (b'[' ∷ device_text d) = omega (arith, length-device_text d) in
    ap (λ (t : Text). t ++ (b']' ∷ [])) (known_text-rows ds (b'[' ∷ device_text d) long)
    ∙ ap (λ (t : Text). b'[' ∷ t) (append_assoc (device_text d) (rows_after ds) (b']' ∷ []))

parse_value-rows_text :
    (f : Numbers) (fuel : ℕ) (d : DeviceInfo) (ds : List DeviceInfo)
    → length ds + 11 ≤ fuel
    → parse_value f fuel 0 (b'[' ∷ rows_text d ds) ≡ parsed (array (items_of (d ∷ ds)), [])
unfolding rows_text
parse_value-rows_text f zero d ds h = absurd (omega arith)
parse_value-rows_text f (suc fuel) d ds h =
    array_value f fuel 0 (rows_text d ds) [] (items_of (d ∷ ds)) (omega arith)
      (unfold rows_text device_text space is_space starts in refl)
      (parse_items-rows f fuel d ds (omega arith))

parse_json-rows_text :
    (f : Numbers) (d : DeviceInfo) (ds : List DeviceInfo)
    → parse_json f (b'[' ∷ rows_text d ds) ≡ parsed (array (items_of (d ∷ ds)))
unfolding parse_json space end_of_text
parse_json-rows_text f d ds =
    let size : length ds + 9 ≤ length (rows_text d ds) =
      unfold rows_text in
      omega (
        arith,
        length-append (device_text d) (rows_after ds ++ (b']' ∷ [])),
        length-append (rows_after ds) (b']' ∷ []),
        length-rows_after ds,
        length-device_text d,
      ) in
    rw (parse_value-rows_text f (2 * length (b'[' ∷ rows_text d ds) + 1) d ds (omega (arith, size)))
      refl

-- What the file keeps of a device.
abbrev pub kept_of : DeviceInfo → DeviceInfo
kept_of d = stored d.name d.model d.mac d.udn d.hotspot_bssid d.ssid d.ip

abbrev pub all_kept : List DeviceInfo → List DeviceInfo
all_kept [] = []
all_kept (d ∷ ds) = kept_of d ∷ all_kept ds

decode_row-row_of : (d : DeviceInfo) → decode_row (row_of d) ≡ kept_of d
unfolding decode_row text_at find step_into member as_string text_or
decode_row-row_of d = refl

decode_rows-items_of :
    (ds : List DeviceInfo)
    → All (λ d. is_kept d ≡ true) ds
    → decode_rows (items_of ds) ≡ all_kept ds
unfolding decode_rows
decode_rows-items_of [] h = refl
decode_rows-items_of (d ∷ ds) (first, others) =
    let kept : is_kept (kept_of d) ≡ true = unfold is_kept stored in unfold is_kept in first in
    rw (decode_row-row_of d, kept, decode_rows-items_of ds others) refl

-- For devices with a MAC address or a UDN, whatever their texts hold, the file that encode_known makes
-- of them is read back as those devices, in their order, with all that it keeps of them.
pub decode_known-encode_known :
    (f : Numbers) (ds : List DeviceInfo)
    → All (λ d. is_kept d ≡ true) ds
    → decode_known f (encode_known ds) ≡ all_kept ds
unfolding decode_known root_of decode_root
decode_known-encode_known f [] h =
    unfold encode_known known_text parse_json parse_value space is_space starts end_of_text
      decode_rows in
    refl
decode_known-encode_known f (d ∷ ds) h =
    rw (encode_known-rows_text d ds, parse_json-rows_text f d ds) (decode_rows-items_of (d ∷ ds) h)
