-- ===== src/Chromecast/Protocol/Scanning/Merged.antt =====
-- What the steps of parse_scan do to its list: the merge of a row, and the insertion of the sort.
use phone.Prelude.Integers.{ℤ, pos, negsuc, same_int, same_int→≡, less_int}
use phone.Prelude.{
  ◌≡◌, ◌≢◌, refl, sym, ap, ◌∙◌, subst, true, false, ◌&&◌, List, [], ◌∷◌, In, Distinct, All, All-map,
  list_eq, list_eq→≡, list_eq_self, if-both, &&-parts, if-each, arith, inl, inr, Bool-cases, ◌⊎◌,
}
use phone.Chromecast.Json.{Text}
use phone.Chromecast.Protocol.{WifiNetwork, is_negative}
use phone.Chromecast.Protocol.Scanning.{same_network, stronger, merge, insert}

-- What makes two rows one network.
abbrev pub key : WifiNetwork → Text × ℤ × ℤ
key n = (n.ssid, n.auth, n.cipher)

abbrev pub keys : List WifiNetwork → List (Text × ℤ × ℤ)
keys [] = []
keys (n ∷ ns) = key n ∷ keys ns

-- The first is at least as strong as the second.
abbrev pub AtLeast : WifiNetwork → WifiNetwork → Type 0
AtLeast o n = less_int o.signal n.signal ≡ false

abbrev pub IsSorted : List WifiNetwork → Type 0
IsSorted [] = Unit {0}
IsSorted (n ∷ ns) = All (AtLeast n) ns × IsSorted ns

-- An entry of the list is the network of `n`, and at least as strong.
abbrev pub Covers : WifiNetwork → List WifiNetwork → Type 0
Covers n [] = ⊥
Covers n (o ∷ os) = ((key o ≡ key n) × AtLeast o n) ⊎ Covers n os

not_less_self : (a : ℤ) → less_int a a ≡ false
unfolding less_int
not_less_self (pos n) = ground arith
not_less_self (negsuc n) = ground arith

not_less_trans : (a b c : ℤ) → less_int a b ≡ false → less_int b c ≡ false → less_int a c ≡ false
unfolding less_int
not_less_trans (pos a) (pos b) (pos c) h k = ground arith
not_less_trans (pos a) (pos b) (negsuc c) h k = refl
not_less_trans (pos a) (negsuc b) (pos c) h k = absurd cc
not_less_trans (pos a) (negsuc b) (negsuc c) h k = refl
not_less_trans (negsuc a) (pos b) c h k = absurd cc
not_less_trans (negsuc a) (negsuc b) (pos c) h k = absurd cc
not_less_trans (negsuc a) (negsuc b) (negsuc c) h k = ground arith

less_asym : (a b : ℤ) → less_int a b ≡ true → less_int b a ≡ false
unfolding less_int
less_asym (pos a) (pos b) h = ground arith
less_asym (pos a) (negsuc b) h = absurd cc
less_asym (negsuc a) (pos b) h = refl
less_asym (negsuc a) (negsuc b) h = ground arith

same_int_self : (a : ℤ) → same_int a a ≡ true
unfolding same_int
same_int_self (pos n) = ground arith
same_int_self (negsuc n) = ground arith

same_network→≡ : (o n : WifiNetwork) → same_network o n ≡ true → key o ≡ key n
unfolding same_network
same_network→≡ o n h =
    let ids = list_eq o.ssid n.ssid && same_int o.auth n.auth in
    let outer = &&-parts ids (same_int o.cipher n.cipher) h in
    let parts = &&-parts (list_eq o.ssid n.ssid) (same_int o.auth n.auth) outer.0 in
    let e : o.ssid ≡ n.ssid = list_eq→≡ o.ssid n.ssid parts.0 in
    let f : o.auth ≡ n.auth = same_int→≡ o.auth n.auth parts.1 in
    let g : o.cipher ≡ n.cipher = same_int→≡ o.cipher n.cipher outer.1 in rw (e, f, g) refl

same_network_of : (o n : WifiNetwork) → key o ≡ key n → same_network o n ≡ true
unfolding same_network
same_network_of o n h =
    let e : o.ssid ≡ n.ssid = ap (λ (k : Text × ℤ × ℤ). k.0) h in
    let f : o.auth ≡ n.auth = ap (λ (k : Text × ℤ × ℤ). k.1) h in
    let g : o.cipher ≡ n.cipher = ap (λ (k : Text × ℤ × ℤ). k.2) h in
    rw (e, f, g) (rw (list_eq_self n.ssid, same_int_self n.auth, same_int_self n.cipher) refl)

-- A property of all the entries an update may leave.
stronger-cases :
    (P : WifiNetwork → Type 0) (o n : WifiNetwork)
    → (less_int o.signal n.signal ≡ true → P n)
    → (less_int o.signal n.signal ≡ true → P (record n { wpa_id = o.wpa_id }))
    → (less_int o.signal n.signal ≡ false → P o)
    → (less_int o.signal n.signal ≡ false → (id : ℤ) → P (record o { wpa_id = id }))
    → P (stronger o n)
unfolding stronger
stronger-cases P o n p q r s = elim (Bool-cases (is_negative n.wpa_id)) [
  | inl e ↦ rw e (
      if-each P (less_int o.signal n.signal) q
        (λ h. if-both P (is_negative o.wpa_id) (s h o.wpa_id) (r h)))
  | inr e ↦ rw e (
      if-each P (less_int o.signal n.signal) p
        (λ h. if-both P (is_negative o.wpa_id) (s h n.wpa_id) (r h)))
]

pub key-stronger : (o n : WifiNetwork) → key o ≡ key n → key (stronger o n) ≡ key o
key-stronger o n h =
    stronger-cases (λ m. key m ≡ key o) o n (λ _. sym h) (λ _. sym h) (λ _. refl) (λ _ _. refl)

pub Covers-stronger :
    (o n : WifiNetwork) → key o ≡ key n → (key (stronger o n) ≡ key n) × AtLeast (stronger o n) n
Covers-stronger o n h =
    let self = not_less_self n.signal in
    stronger-cases (λ m. (key m ≡ key n) × AtLeast m n) o n (λ _. (refl, self)) (λ _. (refl, self))
      (λ e. (h, e)) (λ e _. (h, e))

AtLeast-stronger : (o n m : WifiNetwork) → AtLeast o m → AtLeast (stronger o n) m
AtLeast-stronger o n m h =
    let above = λ (e : less_int o.signal n.signal ≡ true).
      not_less_trans n.signal o.signal m.signal (less_asym o.signal n.signal e) h in
    stronger-cases (λ k. AtLeast k m) o n above above (λ _. h) (λ _ _. h)

-- Either the two are one network, or their keys differ.
merge-cases :
    (P : List WifiNetwork → Type 0) (n o : WifiNetwork) (os : List WifiNetwork)
    → (key o ≡ key n → P (stronger o n ∷ os))
    → (key o ≢ key n → P (o ∷ merge n os))
    → P (merge n (o ∷ os))
unfolding merge
merge-cases P n o os same other =
    if-each P (same_network o n) (λ e. same (same_network→≡ o n e))
      (λ e. other (λ k. let t : same_network o n ≡ true = same_network_of o n k in absurd cc))

pub In-merge :
    (k : Text × ℤ × ℤ) (n : WifiNetwork) (os : List WifiNetwork)
    → In k (keys (merge n os))
    → (k ≡ key n) ⊎ In k (keys os)
In-merge k n [] = unfold merge in (λ h. h)
In-merge k n (o ∷ os) =
    merge-cases (λ os'. In k (keys os') → (k ≡ key n) ⊎ In k (keys (o ∷ os))) n o os
      (λ e h. elim h [ inl f ↦ inr (inl (f ∙ key-stronger o n e)) | inr i ↦ inr (inr i) ])
      (λ _ h. elim h [
        | inl f ↦ inr (inl f)
        | inr i ↦ elim (In-merge k n os i) [ inl f ↦ inl f | inr j ↦ inr (inr j) ]
      ])

pub Distinct-merge :
    (n : WifiNetwork) (os : List WifiNetwork) → Distinct (keys os) → Distinct (keys (merge n os))
Distinct-merge n [] d = unfold merge in ((λ i. i), tt)
Distinct-merge n (o ∷ os) d =
    merge-cases (λ os'. Distinct (keys os')) n o os
      (λ e. (λ i. d.0 (subst (λ k. In k (keys os)) (key-stronger o n e) i), d.1))
      (λ apart. (
        λ i. elim (In-merge (key o) n os i) [ inl f ↦ apart f | inr j ↦ d.0 j ],
        Distinct-merge n os d.1,
      ))

pub Covers-merge_self : (n : WifiNetwork) (os : List WifiNetwork) → Covers n (merge n os)
Covers-merge_self n [] = unfold merge in inl (refl, not_less_self n.signal)
Covers-merge_self n (o ∷ os) =
    merge-cases (Covers n) n o os (λ e. inl (Covers-stronger o n e))
      (λ _. inr (Covers-merge_self n os))

pub Covers-merge : (m n : WifiNetwork) (os : List WifiNetwork) → Covers m os → Covers m (merge n os)
Covers-merge m n [] c = elim c [ ]
Covers-merge m n (o ∷ os) c =
    merge-cases (Covers m) n o os
      (λ e. elim c [
        | inl (f, above) ↦ inl (key-stronger o n e ∙ f, AtLeast-stronger o n m above)
        | inr later ↦ inr later
      ])
      (λ _. elim c [ inl first ↦ inl first | inr later ↦ inr (Covers-merge m n os later) ])

insert-cases :
    (P : List WifiNetwork → Type 0) (n o : WifiNetwork) (os : List WifiNetwork)
    → (AtLeast n o → P (n ∷ o ∷ os))
    → (AtLeast o n → P (o ∷ insert n os))
    → P (insert n (o ∷ os))
unfolding insert
insert-cases P n o os here later =
    if-each P (less_int n.signal o.signal) (λ e. later (less_asym n.signal o.signal e)) here

pub In-insert :
    (k : Text × ℤ × ℤ) (n : WifiNetwork) (os : List WifiNetwork)
    → In k (keys (insert n os))
    → (k ≡ key n) ⊎ In k (keys os)
In-insert k n [] = unfold insert in (λ h. h)
In-insert k n (o ∷ os) =
    insert-cases (λ os'. In k (keys os') → (k ≡ key n) ⊎ In k (keys (o ∷ os))) n o os (λ _ h. h)
      (λ _ h. elim h [
        | inl f ↦ inr (inl f)
        | inr i ↦ elim (In-insert k n os i) [ inl f ↦ inl f | inr j ↦ inr (inr j) ]
      ])

pub Distinct-insert :
    (n : WifiNetwork) (os : List WifiNetwork)
    → ¬ In (key n) (keys os)
    → Distinct (keys os)
    → Distinct (keys (insert n os))
Distinct-insert n [] fresh d = unfold insert in (fresh, tt)
Distinct-insert n (o ∷ os) fresh d =
    insert-cases (λ os'. Distinct (keys os')) n o os (λ _. (fresh, d))
      (λ _. (
        λ i. elim (In-insert (key o) n os i) [ inl f ↦ fresh (inl (sym f)) | inr j ↦ d.0 j ],
        Distinct-insert n os (λ i. fresh (inr i)) d.1,
      ))

All-insert :
    (P : WifiNetwork → Type 0) (n : WifiNetwork) (os : List WifiNetwork)
    → P n
    → All P os
    → All P (insert n os)
All-insert P n [] first all = unfold insert in (first, tt)
All-insert P n (o ∷ os) first all =
    insert-cases (All P) n o os (λ _. (first, all)) (λ _. (all.0, All-insert P n os first all.1))

pub IsSorted-insert :
    (n : WifiNetwork) (os : List WifiNetwork) → IsSorted os → IsSorted (insert n os)
IsSorted-insert n [] s = unfold insert in (tt, tt)
IsSorted-insert n (o ∷ os) s =
    insert-cases IsSorted n o os
      (λ above. (
        (
          above,
          All-map (AtLeast o) (AtLeast n) os (λ m. not_less_trans n.signal o.signal m.signal above)
              s.0,
        ),
        s,
      ))
      (λ below. (All-insert (AtLeast o) n os below s.0, IsSorted-insert n os s.1))

pub Covers-insert :
    (m n : WifiNetwork) (os : List WifiNetwork) → Covers m (n ∷ os) → Covers m (insert n os)
Covers-insert m n [] c = unfold insert in c
Covers-insert m n (o ∷ os) c =
    insert-cases (Covers m) n o os (λ _. c)
      (λ _. elim c [
        | inl here ↦ inr (Covers-insert m n os (inl here))
        | inr (inl first) ↦ inl first
        | inr (inr later) ↦ inr (Covers-insert m n os (inr later))
      ])
