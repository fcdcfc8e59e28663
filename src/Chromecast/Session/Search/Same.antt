-- ===== src/Chromecast/Session/Search/Same.antt =====
-- A device that is listed stays so, and every known device is listed.
use phone.Prelude.{
  ◌≡◌, refl, Bool, true, false, not, ◌&&◌, ◌||◌, List, [], ◌∷◌, ◌++◌, if◌then◌else◌, if-both,
  if-each, All, list_eq, ==-self,
}
use phone.Chromecast.Json.{Text, is_empty}
use phone.Chromecast.Protocol.{DeviceInfo}
use phone.Chromecast.Protocol.Passwords.{same_device, same_text, lower}
use phone.Chromecast.Session.Known.{is_kept}
use phone.Chromecast.Session.World.{Device}
use phone.Chromecast.Session.Search.{remembered, has_same, list_known}

same_text_self : (t : Text) → same_text t t ≡ true
unfolding same_text
same_text_self [] = refl
same_text_self (c ∷ t) = rw (==-self (lower c), same_text_self t) refl

first_that_counts :
    (a b x y z : Bool)
    → (not a || not b) ≡ true
    → x ≡ true
    → y ≡ true
    → (if not a && not a then x else if not b && not b then y else z) ≡ true
first_that_counts true true x y z h p q = absurd cc
first_that_counts true false x y z h p q = q
first_that_counts false b x y z h p q = p

same_device_self : (d : DeviceInfo) → is_kept d ≡ true → same_device d d ≡ true
unfolding is_kept same_device
same_device_self d h =
    first_that_counts (is_empty d.mac) (is_empty d.udn) (same_text d.mac d.mac)
      (same_text d.udn d.udn) (not (is_empty d.public_key) && list_eq d.public_key d.public_key) h
      (same_text_self d.mac) (same_text_self d.udn)

or_later :
    (b r r' : Bool)
    → (r ≡ true → r' ≡ true)
    → (if b then true else r) ≡ true
    → (if b then true else r') ≡ true
or_later true r r' k h = refl
or_later false r r' k h = k h

has_same-append :
    (d : DeviceInfo) (found others : List Device)
    → has_same d found ≡ true
    → has_same d (found ++ others) ≡ true
unfolding has_same
has_same-append d [] others h = absurd cc
has_same-append d (f ∷ found) others h =
    or_later (same_device f.info d) (has_same d found) (has_same d (found ++ others))
      (has_same-append d found others) h

has_same-last :
    (d : DeviceInfo) (found : List Device)
    → is_kept d ≡ true
    → has_same d (found ++ remembered d ∷ []) ≡ true
unfolding has_same
has_same-last d [] h = unfold remembered in rw (same_device_self d h) refl
has_same-last d (f ∷ found) h =
    if-both (λ b. b ≡ true) (same_device f.info d) refl (has_same-last d found h)

has_same-list_known :
    (d : DeviceInfo) (found : List Device) (known : List DeviceInfo)
    → has_same d found ≡ true
    → has_same d (list_known found known) ≡ true
unfolding list_known
has_same-list_known d found [] h = h
has_same-list_known d found (k ∷ known) h =
    has_same-list_known d (if has_same k found then found else found ++ remembered k ∷ []) known (
      if-both (λ fs. has_same d fs ≡ true) (has_same k found) h
        (has_same-append d found (remembered k ∷ []) h))

pub list_known-lists :
    (found : List Device) (known : List DeviceInfo)
    → All (λ d. is_kept d ≡ true) known
    → All (λ d. has_same d (list_known found known) ≡ true) known
unfolding list_known
list_known-lists found [] h = tt
list_known-lists found (k ∷ known) (first, others) =
    let found' = if has_same k found then found else found ++ remembered k ∷ [] in
    (
      has_same-list_known k found' known (
          if-each (λ fs. has_same k fs ≡ true) (has_same k found) (λ e. e)
            (λ _. has_same-last k found first)),
      list_known-lists found' known others,
    )
