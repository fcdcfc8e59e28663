-- ===== src/Chromecast/Session/Known/Tests.antt =====
-- Devices are remembered, saved and read back.
use phone.Prelude.{◌≡◌, refl, true, List, [], ◌∷◌, All}
use phone.Chromecast.Session.Known.{decode_known, encode_known, is_kept, remember_all}
use phone.Chromecast.Session.Known.RoundTrip.{all_kept, decode_known-encode_known}
use phone.Chromecast.Session.Known.Kept.{IsKnown}
use phone.Chromecast.Session.Known.Restarts.{
  Moment, seen, restart, known_after, encode_known-known_after,
}
use phone.Chromecast.Session.Known.Remembered.{Apart, Knows, remember_all-Knows}
use phone.Chromecast.Runs.{numbers}
use phone.Chromecast.Session.Runs.{session_run}
use phone.Chromecast.Session.Examples.{living_room, bedroom, moved}

decode_known-encode_known_example :
    decode_known numbers (encode_known (living_room ∷ [])) ≡ all_kept (living_room ∷ [])
decode_known-encode_known_example =
    decode_known-encode_known numbers (living_room ∷ []) (living_room_kept, tt)
  where
    living_room_kept : is_kept living_room ≡ true
    living_room_kept = unfold session_run in refl

-- The app is started again before and after the device moves.
abbrev history : List Moment
history = seen living_room ∷ restart ∷ seen moved ∷ restart ∷ []

encode_known-known_after_example :
    let start = decode_known numbers [] in
    let known = known_after (λ text. 0) 0xc0a8fff9 numbers start history in
    All IsKnown known
    × (encode_known known
        ≡ encode_known (remember_all (λ text. 0) 0xc0a8fff9 start (living_room ∷ moved ∷ [])))
encode_known-known_after_example =
    encode_known-known_after numbers (λ text. 0) 0xc0a8fff9 [] history

bedroom-Apart : Apart (living_room ∷ bedroom ∷ [])
unfolding session_run
bedroom-Apart = ((refl, tt), (tt, tt))

bedroom-is_kept : All (λ d. is_kept d ≡ true) (living_room ∷ bedroom ∷ [])
unfolding session_run
bedroom-is_kept = (refl, (refl, tt))

remember_all-Knows_example :
    All
      (Knows (remember_all (λ text. 0) 0xc0a8fff9 (moved ∷ []) (living_room ∷ bedroom ∷ [])))
      (living_room ∷ bedroom ∷ [])
remember_all-Knows_example =
    remember_all-Knows (λ text. 0) 0xc0a8fff9 (moved ∷ []) (living_room ∷ bedroom ∷ [])
      bedroom-Apart bedroom-is_kept
