-- ===== src/Chromecast/Session/Search/Listed.antt =====
-- What run_search lists.
use phone.Prelude.{
  ◌≡◌, refl, Bool, true, false, List, [], ◌∷◌, ◌++◌, if◌then◌else◌, if-both, All, All-map,
  All-append, In, In-append_left, In-append_right, ◌⊎◌, inl, inr,
}
use phone.Chromecast.Json.{Numbers}
use phone.Chromecast.Protocol.{DeviceInfo}
use phone.Chromecast.Session.Known.{is_kept, remember_all}
use phone.Chromecast.Session.Known.Kept.{IsKnown, remember_all-IsKnown}
use phone.Chromecast.Session.World.{
  Device, Session, SessionConfig, Phone, ◌>>=◌, act, get, put_session, change,
}
use phone.Chromecast.Session.Devices.{publish}
use phone.Chromecast.Session.Search.{
  remembered, remembered_all, infos_of, over_hotspot, has_same, list_known, list_devices,
  show_devices,
}
use phone.Chromecast.Session.Search.Same.{list_known-lists}

module _ (d : Device) where
  beside :
      (b : Bool) (x : Device) (lan hotspots : List Device)
      → (d ≡ x) ⊎ (In d lan ⊎ In d hotspots)
      → In d (if b then lan else x ∷ lan) ⊎ In d (if b then x ∷ hotspots else hotspots)
  beside true x lan hotspots (inl e) = inr (inl e)
  beside true x lan hotspots (inr (inl h)) = inl h
  beside true x lan hotspots (inr (inr h)) = inr (inr h)
  beside false x lan hotspots (inl e) = inl (inl e)
  beside false x lan hotspots (inr (inl h)) = inl (inr h)
  beside false x lan hotspots (inr (inr h)) = inr h

  In-over_hotspot :
      (found : List Device)
      → In d found
      → In d (over_hotspot false found) ⊎ In d (over_hotspot true found)
  unfolding over_hotspot
  In-over_hotspot [] h = elim h [ ]
  In-over_hotspot (x ∷ found) (inl e) = beside x.hotspot x _ _ (inl e)
  In-over_hotspot (x ∷ found) (inr h) = beside x.hotspot x _ _ (inr (In-over_hotspot found h))

  In-list_known :
      (found : List Device) (known : List DeviceInfo) → In d found → In d (list_known found known)
  unfolding list_known
  In-list_known found [] h = h
  In-list_known found (k ∷ known) h =
      In-list_known (if has_same k found then found else found ++ remembered k ∷ []) known
        (if-both (In d) (has_same k found) h (In-append_left d found (remembered k ∷ []) h))

  In-list_devices :
      (found : List Device) (known : List DeviceInfo) → In d found → In d (list_devices found known)
  unfolding list_devices
  In-list_devices found known h =
      let lan = over_hotspot false found in
      let hotspots = over_hotspot true found in
      In-list_known (lan ++ hotspots) known (elim (In-over_hotspot found h) [
        | inl m ↦ In-append_left d lan hotspots m
        | inr m ↦ In-append_right d lan hotspots m
      ])

All-In_self : {A : Type 0} (xs : List A) → All (λ x. In x xs) xs
All-In_self [] = tt
All-In_self (x ∷ xs) =
    (inl refl, All-map (λ y. In y xs) (λ y. In y (x ∷ xs)) xs (λ y m. inr m) (All-In_self xs))

module _ (P : Device → Type 0) where
  All-over_hotspot : (b : Bool) (found : List Device) → All P found → All P (over_hotspot b found)
  unfolding over_hotspot
  All-over_hotspot true [] h = tt
  All-over_hotspot false [] h = tt
  All-over_hotspot true (x ∷ found) h =
      let rest = All-over_hotspot true found h.1 in if-both (All P) x.hotspot (h.0, rest) rest
  All-over_hotspot false (x ∷ found) h =
      let rest = All-over_hotspot false found h.1 in if-both (All P) x.hotspot rest (h.0, rest)

  All-list_known :
      (found : List Device) (known : List DeviceInfo)
      → All P found
      → All P (remembered_all known)
      → All P (list_known found known)
  unfolding list_known remembered_all
  All-list_known found [] h k = h
  All-list_known found (d ∷ known) h k =
      All-list_known (if has_same d found then found else found ++ remembered d ∷ []) known
        (if-both (All P) (has_same d found) h (All-append P found (remembered d ∷ []) h (k.0, tt)))
        k.1

  All-list_devices :
      (found : List Device) (known : List DeviceInfo)
      → All P found
      → All P (remembered_all known)
      → All P (list_devices found known)
  unfolding list_devices
  All-list_devices found known h k =
      let lan = over_hotspot false found in
      let hotspots = over_hotspot true found in
      All-list_known (lan ++ hotspots) known
        (All-append P lan hotspots (All-over_hotspot false found h) (All-over_hotspot true found h))
        k

-- The list has the devices found, and the same as each known device, and no others.
abbrev pub Lists : List Device → List DeviceInfo → List Device → Type 0
Lists found known devices =
    All (λ d. In d devices) found
    × All (λ d. has_same d devices ≡ true) known
    × All (λ d. In d found ⊎ In d (remembered_all known)) devices

list_devices-Lists :
    (found : List Device) (known : List DeviceInfo)
    → All IsKnown known
    → Lists found known (list_devices found known)
list_devices-Lists found known h = (
  All-map (λ d. In d found) (λ d. In d (list_devices found known)) found
      (λ d. In-list_devices d found known) (All-In_self found),
  unfold list_devices in
      list_known-lists (over_hotspot false found ++ over_hotspot true found) known
        (All-map IsKnown (λ d. is_kept d ≡ true) known (λ d k. k.0) h),
  All-list_devices (λ d. In d found ⊎ In d (remembered_all known)) found known
      (All-map (λ d. In d found) (λ d. In d found ⊎ In d (remembered_all known)) found (λ d. inl)
        (All-In_self found))
      (All-map (λ d. In d (remembered_all known)) (λ d. In d found ⊎ In d (remembered_all known))
        (remembered_all known) (λ d. inr) (All-In_self (remembered_all known))),
)

-- Where the known devices have a MAC address or a UDN and no key, as they always do: the devices that
-- a search found are remembered, and the list of known devices is saved so; the list that the search
-- shows has every device that it found, and for every device that is known then the same device; each
-- of the list is one that was found, or a known one as out of reach.
pub show_devices-Lists :
    {W : Type 0} (f : Numbers) (phone : Phone W) (config : SessionConfig) (found : List Device)
    (s : Session) (w : W)
    → All IsKnown s.known
    → let (_, after, world) = show_devices f phone config found s w in
      (after.known
        ≡ remember_all phone.parse_address config.hotspot_address s.known (infos_of found))
      × (world ≡ phone.save_file after.known w)
      × Lists found after.known after.work.devices
unfolding show_devices publish ◌>>=◌ act get put_session change
show_devices-Lists f phone config found s w h =
    let known = remember_all phone.parse_address config.hotspot_address s.known (infos_of found) in
    (
      refl,
      refl,
      list_devices-Lists found known (
          remember_all-IsKnown phone.parse_address config.hotspot_address s.known (infos_of found)
            h),
    )
