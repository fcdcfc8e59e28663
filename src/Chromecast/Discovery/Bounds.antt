-- ===== src/Chromecast/Discovery/Bounds.antt =====
-- Whatever the packets hold, they are read within their bounds, and the addresses found are different.
use phone.Prelude.{
  ℕ, zero, suc, ◌+◌, ◌*◌, ◌≤◌, ◌<◌, ◌≡◌, ◌≢◌, ap, subst, ◌∙◌, Bool, true, not, ◌&&◌, ◌||◌, List, [],
  ◌∷◌, length, filter, In, In-append, Distinct, Distinct-append, ltb, leb, ◌==◌, &&-parts, if-both,
  if-each, bit_and, bit_or, arith, inl, inr,
}
use phone.Chromecast.Discovery.{
  Packet, Access, value, out_of_bounds, then_use, byte, read16, contains, add_unique, skip_label,
  skip_labels, skip_name, skip_past, skip_questions, read_address, collect_record, collect_records,
  is_response, collect_sections, collect_addresses, Datagram, add_sender, receive, receive_all,
  query_mdns,
}

-- The reads were within bounds, and what they gave has the property.
abbrev pub Gives {ℓ} : {A : Type ℓ} → (A → Type 0) → Access A → Type 0
Gives P (value a) = P a
Gives P out_of_bounds = ⊥

Gives-then_use {ℓ κ} :
    {A : Type ℓ} {B : Type κ} (P : A → Type 0) (Q : B → Type 0) (r : Access A) (next : A → Access B)
    → Gives P r
    → ((a : A) → P a → Gives Q (next a))
    → Gives Q (then_use r next)
Gives-then_use P Q (value a) next g h = h a g
Gives-then_use P Q out_of_bounds next g h = absurd g

byte_in {ℓ} :
    {B : Type ℓ} (Q : B → Type 0) (packet : Packet) (at : ℕ) (next : ℕ → Access B)
    → at < length packet
    → ((b : ℕ) → Gives Q (next b))
    → Gives Q (then_use (byte packet at) next)
unfolding byte
byte_in Q [] at next h k = absurd (omega arith)
byte_in Q (b ∷ packet) zero next h k = k b
byte_in Q (b ∷ packet) (suc at) next h k = byte_in Q packet at next (omega arith) k

read16_in {ℓ} :
    {B : Type ℓ} (Q : B → Type 0) (packet : Packet) (at : ℕ) (next : ℕ → Access B)
    → at + 1 < length packet
    → ((n : ℕ) → Gives Q (next n))
    → Gives Q (then_use (read16 packet at) next)
unfolding read16
read16_in Q packet at next h k =
    Gives-then_use (λ _. Unit {0}) Q (read16 packet at) next
      (byte_in (λ _. Unit {0}) packet at
        (λ high. then_use (byte packet (at + 1)) (λ low. value (bit_or (high * 256) low)))
        (omega arith)
        (λ high.
          byte_in (λ _. Unit {0}) packet (at + 1) (λ low. value (bit_or (high * 256) low)) h
            (λ _. tt)))
      (λ n _. k n)

skip_label_in :
    (packet : Packet) (at : ℕ) (next : ℕ → Access ℕ) (label : ℕ)
    → ((n : ℕ) → Gives (λ _. Unit {0}) (next n))
    → Gives (λ _. Unit {0}) (skip_label packet at next label)
unfolding skip_label
skip_label_in packet at next label k =
    let P : Access ℕ → Type 0 = Gives (λ _. Unit {0}) in
    if-both P (label == 0) tt (
      if-both P (bit_and label 0xc0 == 0xc0) tt
        (if-both P (not (bit_and label 0xc0 == 0)) tt (k (at + (label + 1)))))

skip_labels_in :
    (n : ℕ) (packet : Packet) (at : ℕ) → Gives (λ _. Unit {0}) (skip_labels n packet at)
unfolding skip_labels
skip_labels_in zero packet at = tt
skip_labels_in (suc n) packet at =
    if-each (Gives (λ _. Unit {0})) (ltb at (length packet))
      (λ h.
        byte_in (λ _. Unit {0}) packet at (skip_label packet at (skip_labels n packet))
          (ground arith)
          (λ label. skip_label_in packet at (skip_labels n packet) label (skip_labels_in n packet)))
      (λ _. tt)

-- A name skipped, and the bytes after it that are there.
skip_past_in :
    {A : Type 0} (Q : A → Type 0) (packet : Packet) (size at : ℕ) (stop : Access A)
    (next : ℕ → Access A)
    → Gives Q stop
    → ((at' : ℕ) → at' + size ≤ length packet → Gives Q (next at'))
    → Gives Q (then_use (skip_name packet at) (skip_past packet size stop next))
unfolding skip_name skip_past
skip_past_in Q packet size at stop next s k =
    Gives-then_use (λ _. Unit {0}) Q (skip_name packet at) (skip_past packet size stop next)
      (skip_labels_in 128 packet at)
      (λ at' _.
        if-each (Gives Q) (at' == 0 || ltb (length packet) (at' + size)) (λ _. s)
          (λ h. k at' (ground arith)))

skip_questions_in :
    {A : Type 0} (Q : A → Type 0) (n : ℕ) (packet : Packet) (at : ℕ) (stop : Access A)
    (next : ℕ → Access A)
    → Gives Q stop
    → ((at' : ℕ) → Gives Q (next at'))
    → Gives Q (skip_questions n packet at stop next)
unfolding skip_questions
skip_questions_in Q zero packet at stop next s k = k at
skip_questions_in Q (suc n) packet at stop next s k =
    skip_past_in Q packet 4 at stop (λ at'. skip_questions n packet (at' + 4) stop next) s
      (λ at' _. skip_questions_in Q n packet (at' + 4) stop next s k)

read_address_in :
    {B : Type 0} (Q : B → Type 0) (packet : Packet) (at : ℕ) (next : ℕ → Access B)
    → at + 3 < length packet
    → ((n : ℕ) → Gives Q (next n))
    → Gives Q (then_use (read_address packet at) next)
unfolding read_address
read_address_in Q packet at next h k =
    Gives-then_use (λ _. Unit {0}) Q (read_address packet at) next
      (byte_in (λ _. Unit {0}) packet at _ (omega arith)
        (λ a.
          byte_in (λ _. Unit {0}) packet (at + 1) _ (omega arith)
            (λ b.
              byte_in (λ _. Unit {0}) packet (at + 2) _ (omega arith)
                (λ c. byte_in (λ _. Unit {0}) packet (at + 3) _ h (λ d. tt)))))
      (λ n _. k n)

-- Different addresses, none of them 0.
abbrev pub Addresses : List ℕ → Type 0
Addresses found = Distinct found × (¬ In 0 found)

contains_of : (list : List ℕ) (a : ℕ) → In a list → contains list a ≡ true
unfolding contains
contains_of [] a i = absurd i
contains_of (b ∷ list) a (inl e) = ground arith
contains_of (b ∷ list) a (inr i) = rw (contains_of list a i) (ground arith)

not_contained : (list : List ℕ) (a : ℕ) → not (contains list a) ≡ true → ¬ In a list
not_contained list a h i = let t : contains list a ≡ true = contains_of list a i in absurd cc

nonzero_test : (a : ℕ) → not (a == 0) ≡ true → 0 ≢ a
nonzero_test a h e = ground arith

add_unique_in : (found : List ℕ) (a : ℕ) → Addresses found → Addresses (add_unique found a)
unfolding add_unique
add_unique_in found a (distinct, nonzero) =
    if-each Addresses (not (a == 0) && not (contains found a))
      (λ h.
        let parts = &&-parts (not (a == 0)) (not (contains found a)) h in
        let some_address : not (a == 0) ≡ true = parts.0 in
        let fresh : not (contains found a) ≡ true = parts.1 in
        (
          Distinct-append found (a ∷ []) distinct ((λ i. i), tt)
              (λ b l r. elim r [
                | inl e ↦ not_contained found a fresh (subst (λ x. In x found) e l)
                | inr i ↦ i
              ]),
          λ i. elim (In-append 0 found (a ∷ []) i) [
            | inl l ↦ nonzero l
            | inr (inl e) ↦ nonzero_test a some_address e
            | inr (inr j) ↦ j
          ],
        ))
      (λ _. (distinct, nonzero))

collect_record_in :
    (packet : Packet) (out : List ℕ) (next : ℕ → List ℕ → Access (List ℕ)) (at : ℕ)
    → Addresses out
    → at + 10 ≤ length packet
    → ((at' : ℕ) (out' : List ℕ) → Addresses out' → Gives Addresses (next at' out'))
    → Gives Addresses (collect_record packet out next at)
unfolding collect_record
collect_record_in packet out next at a h k = read16_in Addresses packet at _ (omega arith) (λ kind.
    read16_in Addresses packet (at + 8) _ (omega arith) (λ size.
      if-each (Gives Addresses) (ltb (length packet) (at + 10 + size)) (λ _. a)
        (λ inside.
          if-each (Gives Addresses) (kind == 1 && size == 4)
            (λ address.
              let four : (size == 4) ≡ true = (&&-parts (kind == 1) (size == 4) address).1 in
              read_address_in Addresses packet (at + 10) _ (ground arith)
                (λ n. k (at + 10 + size) (add_unique out n) (add_unique_in out n a)))
            (λ _. k (at + 10 + size) out a))))

collect_records_in :
    (n : ℕ) (packet : Packet) (at : ℕ) (out : List ℕ)
    → Addresses out
    → Gives Addresses (collect_records n packet at out)
unfolding collect_records
collect_records_in zero packet at out a = a
collect_records_in (suc n) packet at out a =
    skip_past_in Addresses packet 10 at (value out) _ a (λ at' h.
      collect_record_in packet out _ at' a h
        (λ at'' out' a'. collect_records_in n packet at'' out' a'))

collect_addresses_in :
    (packet : Packet) (out : List ℕ)
    → Addresses out
    → Gives Addresses (collect_addresses packet out)
unfolding collect_addresses collect_sections
collect_addresses_in packet out a =
    if-each (Gives Addresses) (ltb (length packet) 12) (λ _. a)
      (λ h.
        let header : 12 ≤ length packet = ground arith in
        byte_in Addresses packet 2 _ (omega arith) (λ flags.
          if-both (Gives Addresses) (is_response flags)
            (read16_in Addresses packet 4 _ (omega arith) (λ questions.
              read16_in Addresses packet 6 _ (omega arith) (λ answers.
                read16_in Addresses packet 8 _ (omega arith) (λ authorities.
                  read16_in Addresses packet 10 _ (omega arith) (λ additional.
                    skip_questions_in Addresses questions packet 12 (value out) _ a (λ at.
                      collect_records_in (answers + authorities + additional) packet at out a))))))
            a))

receive_in :
    (d : Datagram) (before : List ℕ) → Addresses before → Gives Addresses (receive d before)
unfolding receive add_sender
receive_in d before a =
    Gives-then_use Addresses Addresses (collect_addresses d.packet before) (add_sender d before)
      (collect_addresses_in d.packet before a)
      (λ found b.
        if-each (Gives Addresses) (length found == length before && leb 12 (length d.packet))
          (λ h.
            let header : leb 12 (length d.packet) ≡ true =
              (&&-parts (length found == length before) (leb 12 (length d.packet)) h).1 in
            byte_in Addresses d.packet 2 _ (ground arith) (λ flags.
              read16_in Addresses d.packet 6 _ (ground arith) (λ answers.
                if-both Addresses (is_response flags && not (answers == 0))
                  (add_unique_in found d.sender b) b)))
          (λ _. b))

receive_all_in :
    (ds : List Datagram) (found : List ℕ) → Addresses found → Gives Addresses (receive_all ds found)
unfolding receive_all
receive_all_in [] found a = a
receive_all_in (d ∷ ds) found a =
    Gives-then_use Addresses Addresses (receive d found) (receive_all ds) (receive_in d found a)
      (receive_all_in ds)

In-filter : (p : ℕ → Bool) (a : ℕ) (list : List ℕ) → In a (filter p list) → In a list × (p a ≡ true)
In-filter p a [] = λ i. absurd i
In-filter p a (b ∷ list) =
    if-each (λ l. In a l → In a (b ∷ list) × (p a ≡ true)) (p b)
      (λ h i. elim i [
        | inl e ↦ (inl e, ap p e ∙ h)
        | inr j ↦ let (k, q) = In-filter p a list j in (inr k, q)
      ])
      (λ _ j. let (k, q) = In-filter p a list j in (inr k, q))

Distinct-filter : (p : ℕ → Bool) (list : List ℕ) → Distinct list → Distinct (filter p list)
Distinct-filter p [] d = d
Distinct-filter p (b ∷ list) d =
    if-both Distinct (p b) (λ i. d.0 (In-filter p b list i).0, Distinct-filter p list d.1)
      (Distinct-filter p list d.1)

-- For every sequence of datagrams, whatever they hold, the answers are read within their bounds; the
-- addresses found are different, and neither 0 nor the local address is among them.
pub query_mdns-Gives :
    (local : ℕ) (datagrams : List Datagram)
    → Gives
        (λ found. Distinct found × (¬ In 0 found) × (¬ In local found))
        (query_mdns local datagrams)
unfolding query_mdns
query_mdns-Gives local datagrams =
    let other : ℕ → Bool = λ a. not (a == local) in
    Gives-then_use Addresses (λ found. Distinct found × (¬ In 0 found) × (¬ In local found))
      (receive_all datagrams []) _ (receive_all_in datagrams [] (tt, (λ i. i)))
      (λ found (distinct, nonzero). (
        Distinct-filter other found distinct,
        λ i. nonzero (In-filter other 0 found i).0,
        λ i.
            let test : not (local == local) ≡ true = (In-filter other local found i).1 in
            ground arith,
      ))
