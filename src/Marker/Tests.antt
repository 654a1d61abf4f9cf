-- ===== src/Marker/Tests.antt =====
-- A marker and a text that is none (marker.py).
use basecradle_router.Base.{ℕ, ◌≡◌, ◌↔◌, some, List, codes}
use basecradle_router.Marker.{nonce_of}
use basecradle_router.Marker.Shape.{marker, IsParts, nonce_of_iff}

abbrev sample : List ℕ
sample = codes "BCNOC1 n-1 0123456789abcdef0123456789abcdef0123456789abcdef0123456789abcdef"

nonce_of_iff_example :
    (nonce_of sample ≡ some (codes "n-1"))
    ↔ ((digest : List ℕ) × (sample ≡ marker (codes "n-1") digest) × IsParts (codes "n-1") digest)
nonce_of_iff_example = nonce_of_iff sample (codes "n-1")
