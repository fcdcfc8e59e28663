-- ===== src/Chromecast/Discovery.antt =====
-- chromecast/discovery.cc: the addresses in the answers to an mDNS query, and the hosts of a sweep.
-- The bytes of a packet are a list; a read past its end is an outcome of its own.
pub mod Bounds
pub mod Subnet
use phone.Prelude.{
  Option, none, some, ℕ, zero, suc, ◌+◌, ◌-◌, ◌*◌, ◌^◌, Bool, true, false, not, ◌&&◌, ◌||◌, List,
  [], ◌∷◌, ◌++◌, length, filter, range, ltb, leb, ◌==◌, if◌then◌else◌, bit_and, bit_or,
}

abbrev pub Packet : Type 0
Packet = List ℕ

-- What a read of the packet gives.
pub data Access {ℓ} (A : Type ℓ) : Type ℓ where
  value : A → Access A
  out_of_bounds : Access A

abbrev pub then_use {ℓ κ} : {A : Type ℓ} {B : Type κ} → Access A → (A → Access B) → Access B
then_use (value a) next = next a
then_use out_of_bounds next = out_of_bounds

-- data[at]
unfoldable pub byte : Packet → ℕ → Access ℕ
byte [] at = out_of_bounds
byte (b ∷ data') zero = value b
byte (b ∷ data') (suc at) = byte data' at

unfoldable pub read16 : Packet → ℕ → Access ℕ
read16 packet at =
    then_use (byte packet at)
      (λ high. then_use (byte packet (at + 1)) (λ low. value (bit_or (high * 256) low)))

unfoldable pub contains : List ℕ → ℕ → Bool
contains [] address = false
contains (a ∷ list) address = a == address || contains list address

unfoldable pub add_unique : List ℕ → ℕ → List ℕ
add_unique list address =
    if not (address == 0) && not (contains list address) then list ++ address ∷ [] else list

-- What skip_name does with the length byte; `next` is the next round at an offset.
unfoldable pub skip_label : Packet → ℕ → (ℕ → Access ℕ) → ℕ → Access ℕ
skip_label packet at next label =
    if label == 0
    then value (at + 1)
    else if bit_and label 0xc0 == 0xc0
    then value (if leb (at + 2) (length packet) then at + 2 else 0)
    else if not (bit_and label 0xc0 == 0)
    then value 0
    else next (at + (label + 1))

-- The loop of skip_name, with the labels that it may still read.
unfoldable pub skip_labels : ℕ → Packet → ℕ → Access ℕ
skip_labels zero packet at = value 0
skip_labels (suc n) packet at =
    let label = then_use (byte packet at) (skip_label packet at (skip_labels n packet)) in
    if ltb at (length packet) then label else value 0

unfoldable pub skip_name : Packet → ℕ → Access ℕ
skip_name packet at = skip_labels 128 packet at

-- A step past `size` more bytes, unless the name before is bad or they are not there.
unfoldable pub skip_past : {A : Type 0} → Packet → ℕ → Access A → (ℕ → Access A) → ℕ → Access A
skip_past packet size stop next at =
    if at == 0 || ltb (length packet) (at + size) then stop else next at

-- The loop over the questions; `stop` is the early return, `next` what follows the loop.
unfoldable pub skip_questions : {A : Type 0} → ℕ → Packet → ℕ → Access A → (ℕ → Access A) → Access A
skip_questions zero packet at stop next = next at
skip_questions (suc n) packet at stop next =
    then_use (skip_name packet at)
      (skip_past packet 4 stop (λ at'. skip_questions n packet (at' + 4) stop next))

-- The address of an A record at an offset.
unfoldable pub read_address : Packet → ℕ → Access ℕ
read_address packet at = then_use (byte packet at) (λ a. then_use (byte packet (at + 1)) (λ b.
    then_use (byte packet (at + 2)) (λ c.
      then_use (byte packet (at + 3))
        (λ d. value (bit_or (bit_or (bit_or (a * 2 ^ 24) (b * 2 ^ 16)) (c * 2 ^ 8)) d)))))

-- A record whose name ends at `at`; `next` is the rest of the loop.
unfoldable pub collect_record :
    Packet → List ℕ → (ℕ → List ℕ → Access (List ℕ)) → ℕ → Access (List ℕ)
collect_record packet out next at = then_use (read16 packet at) (λ kind.
    then_use (read16 packet (at + 8)) (λ size.
      let start = at + 10 in
      if ltb (length packet) (start + size)
      then value out
      else if kind == 1 && size == 4
      then then_use (read_address packet start) (λ a. next (start + size) (add_unique out a))
      else next (start + size) out))

unfoldable pub collect_records : ℕ → Packet → ℕ → List ℕ → Access (List ℕ)
collect_records zero packet at out = value out
collect_records (suc n) packet at out = then_use (skip_name packet at) (
    skip_past packet 10 (value out)
      (collect_record packet out (λ at' out'. collect_records n packet at' out')))

unfoldable pub is_response : ℕ → Bool
is_response flags = not (bit_and flags 0x80 == 0)

-- The counts of the header, and the two loops.
unfoldable pub collect_sections : Packet → List ℕ → Access (List ℕ)
collect_sections packet out = then_use (read16 packet 4) (λ questions.
    then_use (read16 packet 6) (λ answers. then_use (read16 packet 8) (λ authorities.
      then_use (read16 packet 10) (λ additional.
        let records = answers + authorities + additional in
        skip_questions questions packet 12 (value out)
          (λ at. collect_records records packet at out)))))

unfoldable pub collect_addresses : Packet → List ℕ → Access (List ℕ)
collect_addresses packet out =
    if ltb (length packet) 12
    then value out
    else then_use (byte packet 2)
        (λ flags. if is_response flags then collect_sections packet out else value out)

-- A datagram received by query_mdns, with its sender.
pub record Datagram : Type 0 where
  pub packet : Packet
  pub sender : ℕ

-- Whether a responder named no address.
unfoldable pub add_sender : Datagram → List ℕ → List ℕ → Access (List ℕ)
add_sender d before found =
    if length found == length before && leb 12 (length d.packet)
    then then_use (byte d.packet 2) (λ flags. then_use (read16 d.packet 6) (λ answers.
      value (if is_response flags && not (answers == 0) then add_unique found d.sender else found)))
    else value found

-- A round of the loop of query_mdns that receives a datagram.
unfoldable pub receive : Datagram → List ℕ → Access (List ℕ)
receive d before = then_use (collect_addresses d.packet before) (add_sender d before)

unfoldable pub receive_all : List Datagram → List ℕ → Access (List ℕ)
receive_all [] found = value found
receive_all (d ∷ ds) found = then_use (receive d found) (receive_all ds)

-- query_mdns, by the datagrams that arrive until it ends.
unfoldable pub query_mdns : ℕ → List Datagram → Access (List ℕ)
query_mdns local datagrams =
    then_use (receive_all datagrams []) (λ found. value (filter (λ a. not (a == local)) found))

-- ~0u << (32 - prefix)
unfoldable pub subnet_mask : ℕ → ℕ
subnet_mask prefix = 2 ^ 32 - 2 ^ (32 - prefix)

-- The hosts that sweep_subnet tries, for a prefix in range: `base | i`.
unfoldable pub host_addresses : ℕ → ℕ → List ℕ → List ℕ
host_addresses base local [] = []
host_addresses base local (i ∷ is) =
    let rest = host_addresses base local is in
    let host = bit_or base i in if host == local then rest else host ∷ rest

unfoldable pub sweep_hosts : ℕ → ℕ → List ℕ
sweep_hosts local prefix' =
    let prefix = if ltb prefix' 24 then 24 else prefix' in
    if ltb 30 prefix
    then []
    else host_addresses (bit_and local (subnet_mask prefix)) local (range 1 (2 ^ (32 - prefix) - 2))

unfoldable pub accepts_now : Option Bool → Bool
accepts_now none = false
accepts_now (some accepted) = accepted

unfoldable pub is_pending : Option Bool → Bool
is_pending none = true
is_pending (some accepted) = false

-- The loop over the rounds of poll before the deadline: what a round tells of a host that is pending is
-- that it accepted, that it did not, or nothing.
unfoldable pub poll_rounds : List (ℕ → Option Bool) → List ℕ → List ℕ
poll_rounds [] pending = []
poll_rounds (answer ∷ answers) pending =
    filter (λ host. accepts_now (answer host)) pending
    ++ poll_rounds answers (filter (λ host. is_pending (answer host)) pending)

-- sweep_subnet, with the hosts to which start_connect starts a connection, and the rounds of poll.
unfoldable pub sweep_subnet : (ℕ → Bool) → List (ℕ → Option Bool) → ℕ → ℕ → List ℕ
sweep_subnet starts answers local prefix =
    poll_rounds answers (filter starts (sweep_hosts local prefix))
