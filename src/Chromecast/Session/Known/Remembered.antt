-- ===== src/Chromecast/Session/Known/Remembered.antt =====
-- The devices that a search found are remembered.
use phone.Prelude.{
  ℕ, ◌≡◌, refl, Bool, true, false, not, ◌&&◌, ◌||◌, List, [], ◌∷◌, All, In, inl, inr, arith,
  if◌then◌else◌, if-both, if-each, list_eq,
}
use phone.Chromecast.Json.{is_empty}
use phone.Chromecast.Protocol.{DeviceInfo}
use phone.Chromecast.Protocol.Passwords.{same_device, same_text}
use phone.Chromecast.Session.Known.{
  is_kept, keep_network, remember_in, remember, remember_all, ParseAddress, in_subnet,
}

-- An entry of the list for the device, without its key.
abbrev pub IsEntry : DeviceInfo → DeviceInfo → Type 0
IsEntry info k =
    (k.name ≡ info.name)
    × (k.model ≡ info.model)
    × (k.mac ≡ info.mac)
    × (k.udn ≡ info.udn)
    × (k.hotspot_bssid ≡ info.hotspot_bssid)
    × (k.public_key ≡ [])

abbrev pub Knows : List DeviceInfo → DeviceInfo → Type 0
Knows known info = (k : DeviceInfo) × In k known × IsEntry info k

-- No device is the same as a later one.
abbrev pub Apart : List DeviceInfo → Type 0
Apart [] = Unit
Apart (info ∷ infos) = All (λ other. same_device info other ≡ false) infos × Apart infos

last_false :
    (a x b y z : Bool)
    → (if a then x else if b then y else z) ≡ false
    → (if a then x else if b then y else false) ≡ false
last_false true x b y z h = h
last_false false x true y z h = h
last_false false x false y z h = refl

-- Without its key, a device is the same as no more devices.
same_device-entry :
    (info k other : DeviceInfo)
    → IsEntry info k
    → same_device info other ≡ false
    → same_device k other ≡ false
unfolding same_device is_empty
same_device-entry info k other entry h =
    rw (entry.2, entry.3, entry.5)
      (last_false (not (is_empty info.mac) && not (is_empty other.mac))
        (same_text info.mac other.mac) (not (is_empty info.udn) && not (is_empty other.udn))
        (same_text info.udn other.udn)
        (not (is_empty info.public_key) && list_eq info.public_key other.public_key) h)

module _ (parse_address : ParseAddress) (hotspot_address : ℕ) where
  keep_network-IsEntry :
      (same info : DeviceInfo)
      → IsEntry info
          (keep_network parse_address hotspot_address same (record info { public_key = [] }))
  unfolding keep_network
  keep_network-IsEntry same info =
      if-both (IsEntry info)
        (is_empty info.ssid
          || is_empty info.ip
          || in_subnet (parse_address info.ip) hotspot_address 24)
        (refl, refl, refl, refl, refl, refl) (refl, refl, refl, refl, refl, refl)

  remember_in-Knows :
      (info : DeviceInfo) (known : List DeviceInfo)
      → Knows (remember_in parse_address hotspot_address info known) info
  unfolding remember_in
  remember_in-Knows info [] =
      (record info { public_key = [] }, inl refl, (refl, refl, refl, refl, refl, refl))
  remember_in-Knows info (d ∷ known) =
      let (k, m, entry) = remember_in-Knows info known in
      if-both (λ ds. Knows ds info) (same_device d info)
        (
          keep_network parse_address hotspot_address d (record info { public_key = [] }),
          inl refl,
          keep_network-IsEntry d info,
        )
        (k, inr m, entry)

  remember_in-keeps :
      (k info : DeviceInfo) (known : List DeviceInfo)
      → same_device k info ≡ false
      → In k known
      → In k (remember_in parse_address hotspot_address info known)
  unfolding remember_in
  remember_in-keeps k info [] other m = elim m [ ]
  remember_in-keeps k info (d ∷ known) other (inl e) =
      if-each (In k) (same_device d info) (λ h. absurd cc) (λ _. inl e)
  remember_in-keeps k info (d ∷ known) other (inr m) =
      if-both (In k) (same_device d info) (inr m) (inr (remember_in-keeps k info known other m))

  remember-keeps :
      (k info : DeviceInfo) (known : List DeviceInfo)
      → same_device k info ≡ false
      → In k known
      → In k (remember parse_address hotspot_address known info)
  unfolding remember
  remember-keeps k info known other m =
      if-both (In k) (is_empty info.mac && is_empty info.udn) m
        (remember_in-keeps k info known other m)

  remember_all-keeps :
      (k info : DeviceInfo) (known infos : List DeviceInfo)
      → IsEntry info k
      → All (λ other. same_device info other ≡ false) infos
      → In k known
      → In k (remember_all parse_address hotspot_address known infos)
  unfolding remember_all
  remember_all-keeps k info known [] entry others m = m
  remember_all-keeps k info known (other ∷ infos) entry others m =
      remember_all-keeps k info (remember parse_address hotspot_address known other) infos entry
        others.1 (remember-keeps k other known (same_device-entry info k other entry others.0) m)

  remember-Knows :
      (known : List DeviceInfo) (info : DeviceInfo)
      → is_kept info ≡ true
      → Knows (remember parse_address hotspot_address known info) info
  unfolding remember is_kept
  remember-Knows known info h =
      if-each (λ ds. Knows ds info) (is_empty info.mac && is_empty info.udn)
        (λ none. absurd (ground arith)) (λ _. remember_in-Knows info known)

  -- Whatever was known before: once devices with a MAC address or a UDN are remembered, of which none
  -- is the same as a later one, each of them has an entry in the list, with its name, model, MAC
  -- address, UDN and hotspot, and without its key.
  pub remember_all-Knows :
      (known infos : List DeviceInfo)
      → Apart infos
      → All (λ d. is_kept d ≡ true) infos
      → All (Knows (remember_all parse_address hotspot_address known infos)) infos
  unfolding remember_all
  remember_all-Knows known [] apart h = tt
  remember_all-Knows known (info ∷ infos) apart h =
      let now = remember parse_address hotspot_address known info in
      let (k, m, entry) = remember-Knows known info h.0 in
      (
        (k, remember_all-keeps k info now infos entry apart.0 m, entry),
        remember_all-Knows now infos apart.1 h.1,
      )
