-- ===== src/Chromecast/Session/Known/Restarts.antt =====
-- The file of the known devices loses nothing that a later run of the app would need.
use phone.Prelude.{
  ℕ, ◌≡◌, refl, sym, ap, ◌∙◌, Bool, true, false, ◌&&◌, List, [], ◌∷◌, ◌++◌, length, ltb, All,
  All-map, if◌then◌else◌,
}
use phone.Chromecast.Json.{Text, Numbers, is_empty}
use phone.Chromecast.Protocol.{DeviceInfo}
use phone.Chromecast.Protocol.Passwords.{same_device}
use phone.Chromecast.Session.Known.{
  device_text, known_text, encode_known, stored, is_kept, decode_known, keep_network, remember_in,
  remember, remember_all, ParseAddress,
}
use phone.Chromecast.Session.Known.Kept.{IsKnown, decode_known-IsKnown, remember-IsKnown}
use phone.Chromecast.Session.Known.RoundTrip.{kept_of, all_kept, decode_known-encode_known}

-- A device is remembered, or the list is saved and the next run of the app reads it.
pub data Moment : Type 0 where
  seen : DeviceInfo → Moment
  restart : Moment

-- The devices that are remembered, in their order.
abbrev pub seen_in : List Moment → List DeviceInfo
seen_in [] = []
seen_in (seen info ∷ history) = info ∷ seen_in history
seen_in (restart ∷ history) = seen_in history

all_kept-all_kept : (ds : List DeviceInfo) → all_kept (all_kept ds) ≡ all_kept ds
all_kept-all_kept [] = refl
all_kept-all_kept (d ∷ ds) =
    let same : kept_of (kept_of d) ≡ kept_of d = unfold stored in refl in
    rw (same, all_kept-all_kept ds) refl

-- The file depends on what it keeps only.
known_text-all_kept :
    (ds : List DeviceInfo) (out : Text) → known_text (all_kept ds) out ≡ known_text ds out
unfolding known_text
known_text-all_kept [] out = refl
known_text-all_kept (d ∷ ds) out =
    let before = if ltb 1 (length out) then out ++ (b',' ∷ []) else out in
    let same : device_text (kept_of d) ≡ device_text d = unfold device_text stored in refl in
    known_text-all_kept ds (before ++ device_text (kept_of d))
    ∙ ap (λ (t : Text). known_text ds (before ++ t)) same

same_if :
    {A B : Type 0} (f : A → B) (b : Bool) (x y x' y' : A)
    → f x ≡ f x'
    → f y ≡ f y'
    → f (if b then x else y) ≡ f (if b then x' else y')
same_if f true x y x' y' p q = p
same_if f false x y x' y' p q = q

module _ (parse_address : ParseAddress) (hotspot_address : ℕ) where
  -- The list of known devices after a history.
  abbrev pub known_after : Numbers → List DeviceInfo → List Moment → List DeviceInfo
  known_after f known [] = known
  known_after f known (seen info ∷ history) =
      known_after f (remember parse_address hotspot_address known info) history
  known_after f known (restart ∷ history) =
      known_after f (decode_known f (encode_known known)) history

  -- What is remembered in the place of a device depends on what the file keeps of it only.
  all_kept-remember_in :
      (info : DeviceInfo) (known : List DeviceInfo)
      → All IsKnown known
      → all_kept (remember_in parse_address hotspot_address info known)
        ≡ all_kept (remember_in parse_address hotspot_address info (all_kept known))
  unfolding remember_in
  all_kept-remember_in info [] h = refl
  all_kept-remember_in info (d ∷ known) h =
      let kept = record info { public_key = [] } in
      let same : same_device (kept_of d) info ≡ same_device d info =
        unfold same_device stored in rw h.0.1 refl in
      let network : keep_network parse_address hotspot_address (kept_of d) kept
          ≡ keep_network parse_address hotspot_address d kept =
        unfold keep_network stored in refl in
      let again : kept_of (kept_of d) ≡ kept_of d = unfold stored in refl in
      rw (same, network)
        (same_if all_kept (same_device d info) _ _ _ _ (rw (all_kept-all_kept known) refl)
          (rw (again, all_kept-remember_in info known h.1) refl))

  all_kept-remember :
      (known : List DeviceInfo) (info : DeviceInfo)
      → All IsKnown known
      → all_kept (remember parse_address hotspot_address known info)
        ≡ all_kept (remember parse_address hotspot_address (all_kept known) info)
  unfolding remember
  all_kept-remember known info h =
      same_if all_kept (is_empty info.mac && is_empty info.udn) _ _ _ _
        (sym (all_kept-all_kept known)) (all_kept-remember_in info known h)

  module _ (f : Numbers) where
    known_after-remember_all :
        (known known' : List DeviceInfo) (history : List Moment)
        → All IsKnown known
        → All IsKnown known'
        → all_kept known ≡ all_kept known'
        → All IsKnown (known_after f known history)
          × (all_kept (known_after f known history)
              ≡ all_kept (remember_all parse_address hotspot_address known' (seen_in history)))
    unfolding remember_all
    known_after-remember_all known known' [] h h' same = (h, same)
    known_after-remember_all known known' (seen info ∷ history) h h' same =
        known_after-remember_all (remember parse_address hotspot_address known info)
          (remember parse_address hotspot_address known' info) history
          (remember-IsKnown parse_address hotspot_address known info h)
          (remember-IsKnown parse_address hotspot_address known' info h')
          (all_kept-remember known info h
            ∙ ap (λ ds. all_kept (remember parse_address hotspot_address ds info)) same
            ∙ sym (all_kept-remember known' info h'))
    known_after-remember_all known known' (restart ∷ history) h h' same =
        let all = All-map IsKnown (λ d. is_kept d ≡ true) known (λ d k. k.0) h in
        known_after-remember_all (decode_known f (encode_known known)) known' history
          (decode_known-IsKnown f (encode_known known)) h'
          (ap all_kept (decode_known-encode_known f known all) ∙ all_kept-all_kept known ∙ same)

-- Whatever the file held at the start, and whatever devices are remembered since, with any number of
-- restarts of the app in between, each of which saves the list and reads it back: every device of the
-- list has a MAC address or a UDN and no public key, and the file saved of the list at the end is the
-- one that is saved without any restart.
pub encode_known-known_after :
    (f : Numbers) (parse_address : ParseAddress) (hotspot_address : ℕ) (text : Text)
    (history : List Moment)
    → let start = decode_known f text in
      let known = known_after parse_address hotspot_address f start history in
      All IsKnown known
      × (encode_known known
          ≡ encode_known (remember_all parse_address hotspot_address start (seen_in history)))
unfolding encode_known
encode_known-known_after f parse_address hotspot_address text history =
    let start = decode_known f text in
    let all = decode_known-IsKnown f text in
    let result =
      known_after-remember_all parse_address hotspot_address f start start history all all refl in
    let file = λ (ds : List DeviceInfo).
      ap (λ (t : Text). t ++ (b']' ∷ [])) (known_text-all_kept ds (b'[' ∷ [])) in
    (
      result.0,
      sym (file (known_after parse_address hotspot_address f start history))
          ∙ ap encode_known result.1
          ∙ file (remember_all parse_address hotspot_address start (seen_in history)),
    )
