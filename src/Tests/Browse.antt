-- ===== src/Tests/Browse.antt =====
-- Directories that are browsed.
use terminal_hub.Common.{some, none, List, [], ◌∷◌, Text, codes, inr}
use terminal_hub.Browse.Query.{Listing}
use terminal_hub.Browse.Page.{Page, initial, load_directory}
use terminal_hub.Browse.Latest.{Answer}

abbrev listing_of : Text → Listing
listing_of path = record { root = []; current = path; parent = none; entries = [] }

abbrev asked_twice : Page
asked_twice = load_directory (some (codes "/b")) none (load_directory none none initial)

-- the answer to the second request comes first
abbrev swapped : List Answer
swapped = (2, inr (listing_of (codes "/b"))) ∷ (1, inr (listing_of (codes "/a"))) ∷ []
