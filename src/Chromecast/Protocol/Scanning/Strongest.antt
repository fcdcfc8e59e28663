-- ===== src/Chromecast/Protocol/Scanning/Strongest.antt =====
-- The list of parse_scan: sorted, one entry for a network, and none weaker than a row of it.
use phone.Prelude.{
  ◌≡◌, refl, List, [], ◌∷◌, Option, none, some, In, Distinct, All, All-map, inl, inr,
}
use phone.Chromecast.Json.{Text, Json, Items, no_items, item, Numbers}
use phone.Prelude.Integers.{ℤ}
use phone.Chromecast.Json.Parser.{parse_json}
use phone.Chromecast.Protocol.{WifiNetwork, root_of, rows_under}
use phone.Chromecast.Protocol.Scanning.{
  scan_row, merge_row, scan_rows, scan_keys, sort, networks_in, parse_scan,
}
use phone.Chromecast.Protocol.Scanning.Merged.{
  key, keys, IsSorted, Covers, Distinct-merge, Covers-merge_self, Covers-merge, In-insert,
  Distinct-insert, IsSorted-insert, Covers-insert,
}

abbrev add_network : Option WifiNetwork → List WifiNetwork → List WifiNetwork
add_network none rest = rest
add_network (some n) rest = n ∷ rest

-- The networks that the rows name, row by row.
abbrev pub read_rows : Numbers → Items → List WifiNetwork
read_rows f no_items = []
read_rows f (item row rows) = add_network (scan_row f row) (read_rows f rows)

Distinct-merge_row :
    (o : Option WifiNetwork) (os : List WifiNetwork)
    → Distinct (keys os)
    → Distinct (keys (merge_row o os))
unfolding merge_row
Distinct-merge_row none os d = d
Distinct-merge_row (some n) os d = Distinct-merge n os d

Covers-merge_row :
    (m : WifiNetwork) (o : Option WifiNetwork) (os : List WifiNetwork)
    → Covers m os
    → Covers m (merge_row o os)
unfolding merge_row
Covers-merge_row m none os c = c
Covers-merge_row m (some n) os c = Covers-merge m n os c

Distinct-scan_rows :
    (f : Numbers) (rows : Items) (os : List WifiNetwork)
    → Distinct (keys os)
    → Distinct (keys (scan_rows f rows os))
unfolding scan_rows
Distinct-scan_rows f no_items os d = d
Distinct-scan_rows f (item row rows) os d =
    Distinct-scan_rows f rows (merge_row (scan_row f row) os)
      (Distinct-merge_row (scan_row f row) os d)

Covers-scan_rows :
    (f : Numbers) (m : WifiNetwork) (rows : Items) (os : List WifiNetwork)
    → Covers m os
    → Covers m (scan_rows f rows os)
unfolding scan_rows
Covers-scan_rows f m no_items os c = c
Covers-scan_rows f m (item row rows) os c =
    Covers-scan_rows f m rows (merge_row (scan_row f row) os)
      (Covers-merge_row m (scan_row f row) os c)

All-add_network :
    (P : WifiNetwork → Type 0) (o : Option WifiNetwork) (rest : List WifiNetwork)
    → ((n : WifiNetwork) → o ≡ some n → P n)
    → All P rest
    → All P (add_network o rest)
All-add_network P none rest first all = all
All-add_network P (some n) rest first all = (first n refl, all)

scan_rows-Covers :
    (f : Numbers) (rows : Items) (os : List WifiNetwork)
    → All (λ n. Covers n (scan_rows f rows os)) (read_rows f rows)
unfolding scan_rows
scan_rows-Covers f no_items os = tt
scan_rows-Covers f (item row rows) os =
    let os' = merge_row (scan_row f row) os in
    All-add_network (λ n. Covers n (scan_rows f rows os')) (scan_row f row) (read_rows f rows)
      (λ n e. Covers-scan_rows f n rows os' (rw e (unfold merge_row in Covers-merge_self n os)))
      (scan_rows-Covers f rows os')

In-sort : (k : Text × ℤ × ℤ) (os : List WifiNetwork) → In k (keys (sort os)) → In k (keys os)
unfolding sort
In-sort k [] i = i
In-sort k (o ∷ os) i = elim (In-insert k o (sort os) i) [
  | inl e ↦ inl e
  | inr j ↦ inr (In-sort k os j)
]

Distinct-sort : (os : List WifiNetwork) → Distinct (keys os) → Distinct (keys (sort os))
unfolding sort
Distinct-sort [] d = d
Distinct-sort (o ∷ os) d =
    Distinct-insert o (sort os) (λ i. d.0 (In-sort (key o) os i)) (Distinct-sort os d.1)

IsSorted-sort : (os : List WifiNetwork) → IsSorted (sort os)
unfolding sort
IsSorted-sort [] = tt
IsSorted-sort (o ∷ os) = IsSorted-insert o (sort os) (IsSorted-sort os)

Covers-sort : (m : WifiNetwork) (os : List WifiNetwork) → Covers m os → Covers m (sort os)
unfolding sort
Covers-sort m [] c = c
Covers-sort m (o ∷ os) c =
    Covers-insert m o (sort os)
      (elim c [ inl first ↦ inl first | inr later ↦ inr (Covers-sort m os later) ])

networks_in-IsSorted :
    (f : Numbers) (root : Option Json)
    → IsSorted (networks_in f root) × Distinct (keys (networks_in f root))
unfolding networks_in
networks_in-IsSorted f none = (tt, tt)
networks_in-IsSorted f (some root) =
    let rows = scan_rows f (rows_under root scan_keys) [] in
    (
      IsSorted-sort rows,
      Distinct-sort rows (Distinct-scan_rows f (rows_under root scan_keys) [] tt),
    )

-- The networks that parse_scan returns are sorted by signal, the strongest first, and no two of them
-- have the same SSID and security.
pub parse_scan-IsSorted :
    (f : Numbers) (json : Text) → IsSorted (parse_scan f json) × Distinct (keys (parse_scan f json))
unfolding parse_scan
parse_scan-IsSorted f json = networks_in-IsSorted f (root_of (parse_json f json))

-- Where the text parses, every row of the scan with an SSID has an entry in the result with its SSID
-- and security, whose signal is at least the row's.
pub parse_scan-Covers :
    (f : Numbers) (json : Text) (root : Json)
    → root_of (parse_json f json) ≡ some root
    → All (λ n. Covers n (parse_scan f json)) (read_rows f (rows_under root scan_keys))
unfolding parse_scan networks_in
parse_scan-Covers f json root e =
    let rows = rows_under root scan_keys in
    rw e (
      All-map (λ n. Covers n (scan_rows f rows [])) (λ n. Covers n (sort (scan_rows f rows [])))
        (read_rows f rows) (λ n. Covers-sort n (scan_rows f rows [])) (scan_rows-Covers f rows []))
