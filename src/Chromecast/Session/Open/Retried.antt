-- ===== src/Chromecast/Session/Open/Retried.antt =====
-- The loop that reads the scan goes on until the device answers with networks.
use phone.Prelude.{
  ℕ, zero, suc, ◌≡◌, ◌≢◌, refl, ◌<◌, ◌⊎◌, inl, inr, true, false, not, List, [], ◌∷◌, ◌++◌, length,
  All, ◌==◌, if-each, arith,
}
use phone.Prelude.Texts.{bytes_of}
use phone.Chromecast.Json.{Numbers}
use phone.Chromecast.Json.Parser.{parse_json}
use phone.Chromecast.Protocol.{root_of, WifiNetwork}
use phone.Chromecast.Protocol.Scanning.{parse_scan}
use phone.Chromecast.Session.World.{
  Response, HttpResult, answered, no_answer, Device, Session, SessionConfig, Phone, Run, return,
  ◌>>=◌, ask,
}
use phone.Chromecast.Session.Open.{
  Scan, scanned, has_rows, read_results, after_results, scan_attempts,
}

module _ (f : Numbers) where
  -- An answer from which no networks can be read.
  abbrev pub HasNone : HttpResult → Type 0
  HasNone (no_answer problem) = Unit
  HasNone (answered response) =
      (response.status ≢ 200)
      ⊎ ((has_rows (root_of (parse_json f response.body)) ≡ false)
          ⊎ (parse_scan f response.body ≡ []))

  -- An answer with these networks.
  abbrev pub HasNetworks : Response → List WifiNetwork → Type 0
  HasNetworks response networks =
      (response.status ≡ 200)
      × (has_rows (root_of (parse_json f response.body)) ≡ true)
      × (parse_scan f response.body ≡ networks)
      × (networks ≢ [])

-- What the device answers to the attempts from the state `w` on, without an interruption.
abbrev pub Answers : {W : Type 0} → Phone W → Device → W → List HttpResult → Type 0
Answers phone d w [] = Unit
Answers phone d w (r ∷ rs) =
    let (idle, ready) = phone.pause w in
    let (result, later) =
      phone.request d.endpoint (bytes_of "GET") (bytes_of "/setup/scan_results") [] ready in
    (idle ≡ true) × (result ≡ r) × Answers phone d later rs

module _ {W : Type 0} (f : Numbers) (phone : Phone W) (config : SessionConfig) (d : Device) where
  read_results-HasNone :
      (again : Scan → Run W Scan) (r : HttpResult)
      → HasNone f r
      → (outcome : Scan) × (after_results f phone config again (read_results f phone config d r)
          ≡ again outcome)
  unfolding after_results read_results
  read_results-HasNone again (no_answer problem) h = (_, refl)
  read_results-HasNone again (answered r) h =
      let P : Scan → Type 0 =
        λ o. (outcome : Scan) × (after_results f phone config again o ≡ again outcome) in
      if-each P (not (r.status == 200)) (λ _. (_, refl))
        (λ status.
          if-each P (not (has_rows (root_of (parse_json f r.body)))) (λ _. (_, refl))
            (λ rows. elim h [
              | inl other ↦ absurd (ground arith)
              | inr (inl none) ↦ absurd cc
              | inr (inr none) ↦ (scanned [], rw none refl)
            ]))

  read_results-HasNetworks :
      (again : Scan → Run W Scan) (r : Response) (networks : List WifiNetwork)
      → HasNetworks f r networks
      → after_results f phone config again (read_results f phone config d (answered r))
        ≡ return (scanned networks)
  unfolding after_results read_results
  read_results-HasNetworks again r [] h = absurd (h.3 refl)
  read_results-HasNetworks again r (n ∷ networks) h = rw (h.0, h.1, h.2) refl

  -- Where some answers have no networks, for no answer, an HTTP status other than 200, a body without
  -- rows, or rows that name none, and the one after them has status 200 and rows that name networks:
  -- with an attempt for each of them, and no interruption, the loop ends with exactly these networks.
  pub scan_attempts-finds :
      (n : ℕ) (last : Scan) (rs : List HttpResult) (r : Response) (networks : List WifiNetwork)
      (s : Session) (w : W)
      → length rs < n
      → Answers phone d w (rs ++ answered r ∷ [])
      → All (HasNone f) rs
      → HasNetworks f r networks
      → (scan_attempts f phone config n d last s w).0 ≡ scanned networks
  unfolding scan_attempts ◌>>=◌ ask
  scan_attempts-finds zero last rs r networks s w enough answers nothing found =
      absurd (omega arith)
  scan_attempts-finds (suc n) last [] r networks s w enough answers nothing found =
      rw
        (
          answers.0,
          answers.1,
          read_results-HasNetworks (scan_attempts f phone config n d) r networks found,
        )
        (unfold return in refl)
  scan_attempts-finds (suc n) last (x ∷ rs) r networks s w enough answers nothing found =
      let (outcome, goes_on) =
        read_results-HasNone (scan_attempts f phone config n d) x nothing.0 in
      rw (answers.0, answers.1, goes_on)
        (scan_attempts-finds n outcome rs r networks s _ (omega (arith, enough)) answers.2 nothing.1
          found)
