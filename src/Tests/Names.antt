-- ===== src/Tests/Names.antt =====
-- Names, and the theorems about them at these names.
use dnn_daemon.Common.{◌≤◌, ◌≡◌, refl, ◌↔◌, true, false, [], ◌∷◌, length, map}
use dnn_daemon.Common.Bytes.{codes}
use dnn_daemon.Text.{contains, last}
use dnn_daemon.Detector.Prefix.{MatchesPrefix, match_bip39_prefix_lem}
use dnn_daemon.Detector.Encoded.{DnnId, is_single_part_dnn_iff}
use dnn_daemon.Detector.Names.{Leftmost, name_parts, is_dnn_name_iff, get_tld-Leftmost}
use dnn_daemon.Detector.{match_bip39_prefix, is_single_part_dnn, is_dnn_name, get_tld}
use dnn_daemon.Tests.Sample.{sample_runtime, opened_names}

-- The table of internal/detector/detector_test.go, its first entries and those without an ID.
test_names :
    map
      (λ s. is_dnn_name s)
      (codes "nabandonaread"
        ∷ codes "freakoverse.nabandonaread"
        ∷ codes "nabtaabove"
        ∷ codes "nabandoncandya"
        ∷ codes "nabandonzooa"
        ∷ codes "nwinterzooa"
        ∷ codes "google.com"
        ∷ codes "netflix.com"
        ∷ codes "nostr.io"
        ∷ codes "abandonaread"
        ∷ codes "nabcde"
        ∷ codes "sub.nabandonzooa"
        ∷ codes "n abandon area d"
        ∷ [])
    ≡ true ∷ true ∷ false ∷ true ∷ true ∷ true ∷ false ∷ false ∷ false ∷ false ∷ false ∷ true
      ∷ false ∷ []
unfolding opened_names
test_names = refl

-- Names that comments of the source call DNN names.
test_examples :
    map (λ s. is_dnn_name s) (codes "nabceabsurd" ∷ codes "nabtaabovea" ∷ []) ≡ false ∷ false ∷ []
unfolding opened_names
test_examples = refl

match_bip39_prefix_lem_example :
    MatchesPrefix (codes "abandonaread") (match_bip39_prefix (codes "abandonaread"))
match_bip39_prefix_lem_example = match_bip39_prefix_lem (codes "abandonaread")

is_single_part_dnn_iff_example :
    (is_single_part_dnn (codes "nabandonaread") ≡ true) ↔ DnnId (codes "nabandonaread")
is_single_part_dnn_iff_example = is_single_part_dnn_iff (codes "nabandonaread")

is_dnn_name_iff_example : (is_dnn_name (codes "www.nabandonaread") ≡ true) ↔ (
    (8 ≤ length (codes "www.nabandonaread"))
    × (contains (codes "www.nabandonaread") b' ' ≡ false)
    × DnnId (last (name_parts (codes "www.nabandonaread"))))
is_dnn_name_iff_example = is_dnn_name_iff (codes "www.nabandonaread")

get_tld-Leftmost_example :
    Leftmost (name_parts (codes "www.nabandonaread")) (get_tld (codes "www.nabandonaread"))
get_tld-Leftmost_example =
    get_tld-Leftmost (codes "www.nabandonaread") (unfold opened_names in refl)
