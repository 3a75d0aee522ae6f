-- ===== src/Coap/RequestExamples.antt =====
-- The theorems on requests and flights of coap.py at concrete values.
use smart_things_local.Prelude.{◌≡◌, refl, List, [], ◌∷◌, ◌++◌}
use smart_things_local.Prelude.Bytes.{Bytes}
use smart_things_local.Coap.Flight.{record_size, split_records, split_dtls}
use smart_things_local.Coap.Flight.Records.{Split, split_dtls-Split}

-- A record of one byte, and the first bytes of another.
abbrev alert : Bytes
alert = 21 ∷ 254 ∷ 253 ∷ 0 ∷ 0 ∷ 0 ∷ 0 ∷ 0 ∷ 0 ∷ 0 ∷ 0 ∷ 0 ∷ 1 ∷ 9 ∷ []

split-alert : split_dtls (alert ++ (22 ∷ 254 ∷ [])) ≡ alert ∷ []
unfolding split_dtls split_records record_size
split-alert = refl

split_dtls-Split_example :
    Split (alert ++ (22 ∷ 254 ∷ [])) (split_dtls (alert ++ (22 ∷ 254 ∷ [])))
    × ((rs : List Bytes)
        → Split (alert ++ (22 ∷ 254 ∷ [])) rs
        → rs ≡ split_dtls (alert ++ (22 ∷ 254 ∷ [])))
split_dtls-Split_example = split_dtls-Split (alert ++ (22 ∷ 254 ∷ []))
