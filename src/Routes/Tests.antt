-- ===== src/Routes/Tests.antt =====
-- A boot with two routes, and a signed request, under a stand-in for the platform.
use Prim.Native.String
use basecradle_router.Base.{
  ℕ, ◌≡◌, ◌↔◌, refl, String, Bool, true, false, Option, none, some, List, [], ◌∷◌, All,
}
use basecradle_router.Base.Result.{ok}
use basecradle_router.Routes.{Platform, InboundRequest, header, verify_hmac_sha256}
use basecradle_router.Routes.Registry.{Candidate, registered, find_route, find_route-register_all}
use basecradle_router.Routes.Signature.{signature, verify_hmac_sha256_iff}

-- A digest that is the key and the body, to compute with.
abbrev pub platform : Platform
platform = record {
  lower = λ s. s;
  loads = λ s. none;
  fromisoformat = λ s. none;
  hmac_sha256_hex = λ k b. String.◌++◌ k b;
}

abbrev candidates : List (Candidate ℕ)
candidates =
    record { name = "github"; implements = true; route = 1 }
    ∷ record { name = "basecradle"; implements = true; route = 2 }
    ∷ []

find_route-register_all_example :
    All
      (λ (c : Candidate ℕ).
        find_route c.name (("github", 1) ∷ ("basecradle", 2) ∷ []) ≡ some c.route)
      candidates
unfolding basecradle_router.Routes.Registry.register_all basecradle_router.Routes.Registry.register
    basecradle_router.Models.is_empty basecradle_router.Base.get basecradle_router.Base.put
    basecradle_router.Base.string_discrete
find_route-register_all_example =
    find_route-register_all candidates [] (("github", 1) ∷ ("basecradle", 2) ∷ []) refl

abbrev signed : InboundRequest
signed = record { headers = ("X-Sig", "sha256=kb") ∷ []; body = "b" }

verify_hmac_sha256_iff_example : (verify_hmac_sha256 platform signed (some "k") "X-Sig" ≡ ok tt) ↔ (
    (key : String) × (some "k" ≡ some key)
    × (header platform "X-Sig" signed ≡ some (signature platform key "b")))
verify_hmac_sha256_iff_example = verify_hmac_sha256_iff platform signed (some "k") "X-Sig"
