-- ===== src/Chromecast/Discovery/Subnet.antt =====
-- The hosts of a sweep are the other hosts of the subnet.
use phone.Prelude.{
  ℕ, zero, suc, ◌+◌, ◌-◌, ◌*◌, ◌/◌, ◌%◌, ◌^◌, ◌≤◌, ◌<◌, ◌≡◌, ◌≢◌, refl, sym, ap, ◌∙◌, false, List,
  [], ◌∷◌, In, range, ltb, ◌==◌, ==→≡, ==→≢, Bool-cases, if-each, bit_and, bit_or, arith, inl, inr,
  ◌↔◌,
}
use phone.Prelude.Bits.{bit_and_step, bit_or_step}
use native.Mathlib.Nat.{pow-succ', mul_left_comm}
use phone.Chromecast.Discovery.{subnet_mask, host_addresses, sweep_hosts}

bit_or_zero : (fuel n : ℕ) → n ≤ fuel → bit_or n 0 ≡ n
bit_or_zero zero zero h = refl
bit_or_zero zero (suc n) h = absurd (omega arith)
bit_or_zero (suc fuel) n h = omega (arith, bit_or_step n 0, bit_or_zero fuel (n / 2) (omega arith))

-- A multiple of 2 ^ k, as twice one of 2 ^ (k - 1).
double : (a k : ℕ) → a * 2 ^ suc k ≡ 2 * (a * 2 ^ k)
double a k = rw (pow-succ' 2 k) (mul_left_comm a 2 (2 ^ k))

-- A host number below the bits of the subnet is added.
bit_or_host : (k a i : ℕ) → i < 2 ^ k → bit_or (a * 2 ^ k) i ≡ a * 2 ^ k + i
bit_or_host zero a i h =
    let none_left : i ≡ 0 = omega arith in
    rw none_left (omega (arith, bit_or_zero (a * 1) (a * 1) (omega arith)))
bit_or_host (suc k) a i h =
    let power : 2 ^ suc k ≡ 2 * 2 ^ k = pow-succ' 2 k in
    let half : a * 2 ^ suc k / 2 ≡ a * 2 ^ k = omega (arith, double a k) in
    let step = bit_or_step (a * 2 ^ suc k) i in
    let later : bit_or (a * 2 ^ suc k / 2) (i / 2) ≡ a * 2 ^ k + i / 2 =
      rw half (bit_or_host k a (i / 2) (omega (arith, power))) in
    omega (arith, step, later, double a k)

-- All the bits of a number are kept by a mask of as many ones.
bit_and_ones : (m x : ℕ) → x < 2 ^ m → bit_and x (2 ^ m - 1) ≡ x
bit_and_ones zero x h = let none_left : x ≡ 0 = omega arith in rw none_left refl
bit_and_ones (suc m) x h =
    let power : 2 ^ suc m ≡ 2 * 2 ^ m = pow-succ' 2 m in
    let half : (2 ^ suc m - 1) / 2 ≡ 2 ^ m - 1 = omega (arith, power) in
    let later : bit_and (x / 2) ((2 ^ suc m - 1) / 2) ≡ x / 2 =
      rw half (bit_and_ones m (x / 2) (omega (arith, power))) in
    omega (arith, power, later, bit_and_step x (2 ^ suc m - 1))

-- The mask takes the host number away.
bit_and_subnet :
    (m k a r : ℕ)
    → a < 2 ^ m
    → r < 2 ^ k
    → bit_and (a * 2 ^ k + r) ((2 ^ m - 1) * 2 ^ k) ≡ a * 2 ^ k
bit_and_subnet m zero a r h low =
    let none_left : a * 1 + r ≡ a = omega arith in
    let ones : (2 ^ m - 1) * 1 ≡ 2 ^ m - 1 = omega arith in
    rw (none_left, ones) (bit_and_ones m a h ∙ omega arith)
bit_and_subnet m (suc k) a r h low =
    let power : 2 ^ suc k ≡ 2 * 2 ^ k = pow-succ' 2 k in
    let x = a * 2 ^ suc k + r in
    let y = (2 ^ m - 1) * 2 ^ suc k in
    let half_x : x / 2 ≡ a * 2 ^ k + r / 2 = omega (arith, double a k) in
    let half_y : y / 2 ≡ (2 ^ m - 1) * 2 ^ k = omega (arith, double (2 ^ m - 1) k) in
    let even : y % 2 ≡ 0 = omega (arith, double (2 ^ m - 1) k) in
    let later : bit_and (x / 2) (y / 2) ≡ a * 2 ^ k =
      rw (half_x, half_y) (bit_and_subnet m k a (r / 2) h (omega (arith, power))) in
    omega (arith, later, even, bit_and_step x y, double a k)

mask_bits : (k : ℕ) → k ≤ 8 → 2 ^ 32 - 2 ^ k ≡ (2 ^ (32 - k) - 1) * 2 ^ k
mask_bits zero h = refl
mask_bits (suc zero) h = refl
mask_bits (suc (suc zero)) h = refl
mask_bits (suc (suc (suc zero))) h = refl
mask_bits (suc (suc (suc (suc zero)))) h = refl
mask_bits (suc (suc (suc (suc (suc zero))))) h = refl
mask_bits (suc (suc (suc (suc (suc (suc zero)))))) h = refl
mask_bits (suc (suc (suc (suc (suc (suc (suc zero))))))) h = refl
mask_bits (suc (suc (suc (suc (suc (suc (suc (suc zero)))))))) h = refl
mask_bits (suc (suc (suc (suc (suc (suc (suc (suc (suc k))))))))) h = absurd (omega arith)

In-range : (i first n : ℕ) → In i (range first n) ↔ (first ≤ i) × (i < first + n)
In-range i first n = (from first n, to first n)
  where
    from : (first n : ℕ) → In i (range first n) → (first ≤ i) × (i < first + n)
    from first zero h = absurd h
    from first (suc n) (inl e) = (omega arith, omega arith)
    from first (suc n) (inr h) =
        let (low, high) = from (first + 1) n h in (omega arith, omega arith)

    to : (first n : ℕ) → (first ≤ i) × (i < first + n) → In i (range first n)
    to first zero (low, high) = absurd (omega arith)
    to first (suc n) (low, high) = elim (Bool-cases (i == first)) [
      | inl e ↦ inl (==→≡ i first e)
      | inr e ↦ inr (to (first + 1) n (ground arith, omega arith))
    ]

module _ (k a local : ℕ) where
  -- A host of the subnet other than the local address, by a number of the list.
  abbrev IsHost : List ℕ → ℕ → Type 0
  IsHost is h = (i : ℕ) × In i is × (h ≡ a * 2 ^ k + i) × (h ≢ local)

  host_addresses-IsHost :
      (is : List ℕ) (h : ℕ)
      → ((i : ℕ) → In i is → i < 2 ^ k)
      → In h (host_addresses (a * 2 ^ k) local is)
      → IsHost is h
  unfolding host_addresses
  host_addresses-IsHost [] h small = λ m. absurd m
  host_addresses-IsHost (i ∷ is) h small =
      let host = bit_or (a * 2 ^ k) i in
      let sum : host ≡ a * 2 ^ k + i = bit_or_host k a i (small i (inl refl)) in
      let others : In h (host_addresses (a * 2 ^ k) local is) → IsHost (i ∷ is) h = λ m.
        let (j, n, e, f) = host_addresses-IsHost is h (λ j n. small j (inr n)) m in
        (j, inr n, e, f) in
      if-each (λ l. In h l → IsHost (i ∷ is) h) (host == local) (λ _. others)
        (λ different m. elim m [
          | inl e ↦ (i, inl refl, e ∙ sum, λ f. ==→≢ host local different (sym e ∙ f))
          | inr n ↦ others n
        ])

  IsHost-host_addresses :
      (is : List ℕ) (h : ℕ)
      → ((i : ℕ) → In i is → i < 2 ^ k)
      → IsHost is h
      → In h (host_addresses (a * 2 ^ k) local is)
  unfolding host_addresses
  IsHost-host_addresses [] h small (i, m, e, f) = absurd m
  IsHost-host_addresses (j ∷ is) h small (i, m, e, f) =
      let host = bit_or (a * 2 ^ k) j in
      let sum : host ≡ a * 2 ^ k + j = bit_or_host k a j (small j (inl refl)) in
      let later : In i is → In h (host_addresses (a * 2 ^ k) local is) =
        λ n. IsHost-host_addresses is h (λ l o. small l (inr o)) (i, n, e, f) in
      if-each (In h) (host == local)
        (λ same. elim m [
          | inl g ↦ absurd (f (e ∙ ap (λ n. a * 2 ^ k + n) g ∙ sym sum ∙ ==→≡ host local same))
          | inr n ↦ later n
        ])
        (λ _. elim m [
          | inl g ↦ inl (e ∙ ap (λ n. a * 2 ^ k + n) g ∙ sym sum)
          | inr n ↦ inr (later n)
        ])

-- For a prefix of 24 to 30 bits, the hosts that are tried are exactly those of the local address's
-- subnet, less the subnet's own address, its broadcast address and the local one.
pub sweep_hosts-IsHost :
    (k a r h : ℕ)
    → 2 ≤ k
    → k ≤ 8
    → a < 2 ^ (32 - k)
    → r < 2 ^ k
    → In h (sweep_hosts (a * 2 ^ k + r) (32 - k))
      ↔ ((i : ℕ) × (0 < i) × (i + 1 < 2 ^ k) × (h ≡ a * 2 ^ k + i) × (i ≢ r))
unfolding sweep_hosts subnet_mask
sweep_hosts-IsHost k a r h low high subnet host =
    let local = a * 2 ^ k + r in
    let numbers = range 1 (2 ^ k - 2) in
    let wide : ltb (32 - k) 24 ≡ false = ground arith in
    let narrow : ltb 30 (32 - k) ≡ false = ground arith in
    let bits : 32 - (32 - k) ≡ k = omega arith in
    let mask : 2 ^ 32 - 2 ^ k ≡ (2 ^ (32 - k) - 1) * 2 ^ k = mask_bits k high in
    let base : bit_and local ((2 ^ (32 - k) - 1) * 2 ^ k) ≡ a * 2 ^ k =
      bit_and_subnet (32 - k) k a r subnet host in
    let small : (i : ℕ) → In i numbers → i < 2 ^ k =
      λ i m. let (first, last) = (In-range i 1 (2 ^ k - 2)).0 m in omega arith in
    rw (wide, narrow, bits, mask, base)
      (
        λ m.
            let (i, n, e, f) = host_addresses-IsHost k a local numbers h small m in
            let (first, last) = (In-range i 1 (2 ^ k - 2)).0 n in
            (i, omega arith, omega arith, e, λ g. f (e ∙ ap (λ j. a * 2 ^ k + j) g)),
        λ (i, first, last, e, f).
            IsHost-host_addresses k a local numbers h small
              (i, (In-range i 1 (2 ^ k - 2)).1 (omega arith, omega arith), e, λ g. f (omega arith)),
      )
