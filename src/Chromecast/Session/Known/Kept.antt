-- ===== src/Chromecast/Session/Known/Kept.antt =====
-- What the list of known devices always satisfies, from the file on.
use phone.Prelude.{
  ℕ, ◌≡◌, refl, Bool, true, false, not, ◌&&◌, ◌||◌, List, [], ◌∷◌, Option, none, some, All, if-both,
  if-each,
}
use phone.Chromecast.Json.{
  Text, Json, Items, array, no_items, item, Numbers, is_empty, null, bool, number, string, object,
}
use phone.Chromecast.Json.Parser.{parse_json}
use phone.Chromecast.Protocol.{DeviceInfo, root_of}
use phone.Chromecast.Protocol.Passwords.{same_device}
use phone.Chromecast.Session.Known.{
  stored, decode_row, is_kept, decode_rows, decode_root, decode_known, keep_network, remember_in,
  remember, remember_all, ParseAddress, in_subnet,
}

-- A device that the list may hold: with a MAC address or a UDN, and without its key.
abbrev pub IsKnown : DeviceInfo → Type 0
IsKnown d = (is_kept d ≡ true) × (d.public_key ≡ [])

decode_rows-IsKnown : (rows : Items) → All IsKnown (decode_rows rows)
unfolding decode_rows
decode_rows-IsKnown no_items = tt
decode_rows-IsKnown (item row rows) =
    if-each (All IsKnown) (is_kept (decode_row row))
      (λ h. ((h, unfold decode_row stored in refl), decode_rows-IsKnown rows))
      (λ _. decode_rows-IsKnown rows)

decode_root-IsKnown : (root : Option Json) → All IsKnown (decode_root root)
unfolding decode_root
decode_root-IsKnown none = tt
decode_root-IsKnown (some null) = tt
decode_root-IsKnown (some (bool b)) = tt
decode_root-IsKnown (some (number n)) = tt
decode_root-IsKnown (some (string s)) = tt
decode_root-IsKnown (some (array rows)) = decode_rows-IsKnown rows
decode_root-IsKnown (some (object fs)) = tt

pub decode_known-IsKnown : (f : Numbers) (text : Text) → All IsKnown (decode_known f text)
unfolding decode_known
decode_known-IsKnown f text = decode_root-IsKnown (root_of (parse_json f text))

module _ (parse_address : ParseAddress) (hotspot_address : ℕ) where
  keep_network-IsKnown :
      (same kept : DeviceInfo)
      → IsKnown kept
      → IsKnown (keep_network parse_address hotspot_address same kept)
  unfolding keep_network is_kept
  keep_network-IsKnown same kept h =
      if-both IsKnown
        (is_empty kept.ssid
          || is_empty kept.ip
          || in_subnet (parse_address kept.ip) hotspot_address 24)
        h h

  remember_in-IsKnown :
      (info : DeviceInfo) (known : List DeviceInfo)
      → is_kept info ≡ true
      → All IsKnown known
      → All IsKnown (remember_in parse_address hotspot_address info known)
  unfolding remember_in
  remember_in-IsKnown info [] h all = ((unfold is_kept in unfold is_kept in h, refl), tt)
  remember_in-IsKnown info (d ∷ known) h all =
      if-both (All IsKnown) (same_device d info)
        (
          keep_network-IsKnown d (record info { public_key = [] }) (unfold is_kept in (h, refl)),
          all.1,
        )
        (all.0, remember_in-IsKnown info known h all.1)

  not_both : (a b : Bool) → (a && b) ≡ false → (not a || not b) ≡ true
  not_both true true h = absurd cc
  not_both true false h = refl
  not_both false b h = refl

  pub remember-IsKnown :
      (known : List DeviceInfo) (info : DeviceInfo)
      → All IsKnown known
      → All IsKnown (remember parse_address hotspot_address known info)
  unfolding remember
  remember-IsKnown known info all =
      if-each (All IsKnown) (is_empty info.mac && is_empty info.udn) (λ _. all)
        (λ h.
          remember_in-IsKnown info known
            (unfold is_kept in not_both (is_empty info.mac) (is_empty info.udn) h) all)

  pub remember_all-IsKnown :
      (known infos : List DeviceInfo)
      → All IsKnown known
      → All IsKnown (remember_all parse_address hotspot_address known infos)
  unfolding remember_all
  remember_all-IsKnown known [] all = all
  remember_all-IsKnown known (info ∷ infos) all =
      remember_all-IsKnown (remember parse_address hotspot_address known info) infos
        (remember-IsKnown known info all)
