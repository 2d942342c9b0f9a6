-- ===== src/Track/Tests.antt =====
-- A run of lib/track.ts, and its theorem at one event.
use desktopcolors.Common.{[], ◌∷◌, true, false, ◌≡◌, refl, codes}
use desktopcolors.Track.Defs.{copy, stringify, track, fetched}
use desktopcolors.Track.Laws.{stringify_injective}

written :
    stringify (copy (codes "#008080") (codes "a\"b"))
    ≡ codes "{\"kind\":\"copy\",\"hex\":\"#008080\",\"os\":\"a\\\"b\"}"
unfolding stringify
written = refl

-- without `sendBeacon` the event is fetched, and nothing is sent where the call throws
sent :
    (track
        (record {
          has_window = true;
          has_beacon = false;
          beacon_throws = false;
          has_fetch = true;
          fetch_throws = false;
        })
        (copy [] [])
      ≡ fetched (stringify (copy [] [])) ∷ [])
    × (track
          (record {
            has_window = true;
            has_beacon = true;
            beacon_throws = true;
            has_fetch = true;
            fetch_throws = false;
          })
          (copy [] [])
        ≡ [])
unfolding track
sent = (refl, refl)

stringify_injective_example :
    copy (codes "#008080") (codes "a\"b") ≡ copy (codes "#008080") (codes "a\"b")
stringify_injective_example =
    stringify_injective (copy (codes "#008080") (codes "a\"b"))
      (copy (codes "#008080") (codes "a\"b")) refl
