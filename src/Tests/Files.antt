-- ===== src/Tests/Files.antt =====
-- Uploads and downloads of files.
use terminal_hub.Common.{
  ℕ, ◌≡◌, refl, none, some, List, [], ◌∷◌, Text, codes, arith, inr, ◌⊎◌, maybe, Option, false, true,
  ◌&&◌, trim, trim_start, trim_end, is_space, one_of,
}
use terminal_hub.Files.Upload.{
  Parsed, Event, live_signal, progressed, loaded, signalled, errored, start, run,
}
use terminal_hub.Files.Settled.{outcome, run-settled}
use terminal_hub.Files.Names.{download_name}
use terminal_hub.Files.Basename.{attachment, download-attachment}

abbrev digits : ℕ → Text
digits _ = codes "500"

abbrev parse_any : Text → Text ⊎ Parsed
parse_any t = inr (record { path = some t; filename = none; size = some 3; overwritten = false })

abbrev canceled_late : List Event
canceled_late = progressed true 10 3 ∷ loaded 200 (codes "x") ∷ signalled ∷ errored ∷ []

run-settled_example :
    let s = run digits parse_any 3 canceled_late (start live_signal) in
    (s.result ≡ outcome digits parse_any 3 live_signal canceled_late)
    × (s.settled ≡ maybe (outcome digits parse_any 3 live_signal canceled_late) false (λ _. true))
    × ((s.settled && s.listening) ≡ false)
run-settled_example = run-settled digits parse_any 3 live_signal canceled_late

abbrev undecodable : Text → Option Text
undecodable t = none

download-attachment_example :
    download_name undecodable (codes "/srv/x") [] (some (attachment (codes "a%"))) ≡ codes "a%"
download-attachment_example =
    download-attachment undecodable (codes "/srv/x") b'a' (codes "%") (omega arith)
      (unfold trim trim_start trim_end is_space one_of in refl) refl
