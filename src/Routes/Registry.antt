-- ===== src/Routes/Registry.antt =====
-- `RouteRegistry` (routes/registry.py).
use basecradle_router.Base.{
  ◌≡◌, ◌⊎◌, refl, String, Bool, Option, none, some, List, [], ◌∷◌, All, Dict, get, put, get-put,
  string_discrete, if◌then◌else◌, codes, arith, Option-cases, inl, inr,
}
use basecradle_router.Models.{is_empty}

-- What `register` raises.
pub data RegistryError : Type 0 where
  nameless not_a_route already_registered : RegistryError

-- An object offered as a route: its name, and whether it has the protocol's members.
pub record Candidate (R : Type 0) : Type 0 where
  pub name : String
  pub implements : Bool
  pub route : R

pub data Registered (R : Type 0) : Type 0 where
  refused : RegistryError → Registered R
  registered : Dict String R → Registered R

unfoldable pub add_new : {R : Type 0} → Candidate R → Dict String R → Option R → Registered R
add_new c routes (some _) = refused already_registered
add_new c routes none = registered (put string_discrete c.name c.route routes)

-- `register`
unfoldable pub register : {R : Type 0} → Candidate R → Dict String R → Registered R
unfolding add_new
register c routes =
    if is_empty (codes c.name)
    then refused nameless
    else if c.implements
    then add_new c routes (get string_discrete c.name routes)
    else refused not_a_route

-- `get`; `none` is an `UnknownRouteError`.
unfoldable pub find_route : {R : Type 0} → String → Dict String R → Option R
find_route name routes = get string_discrete name routes

registered-cases :
    {R : Type 0} (x : Registered R)
    → ((e : RegistryError) × (x ≡ refused e)) ⊎ ((routes : Dict String R) × (x ≡ registered routes))
registered-cases (refused e) = inl (e, refl)
registered-cases (registered routes) = inr (routes, refl)

abbrev pub then_register :
    {R : Type 0} → Registered R → (Dict String R → Registered R) → Registered R
then_register (refused e) rest = refused e
then_register (registered routes) rest = rest routes

-- Every candidate in order; one that is refused stops the boot.
unfoldable pub register_all : {R : Type 0} → List (Candidate R) → Dict String R → Registered R
register_all [] routes = registered routes
register_all (c ∷ cs) routes = then_register (register c routes) (register_all cs)

register-registered :
    {R : Type 0} (c : Candidate R) (routes after : Dict String R)
    → register c routes ≡ registered after
    → (get string_discrete c.name routes ≡ none)
      × (put string_discrete c.name c.route routes ≡ after)
unfolding register add_new
register-registered c routes after e = elim (Option-cases (get string_discrete c.name routes)) [
  | inl new ↦ (new, ground arith)
  | inr (r, old) ↦ absurd (ground arith)
]

-- A name keeps its route, whatever is registered after it.
register_all-keeps :
    {R : Type 0} (cs : List (Candidate R)) (routes after : Dict String R) (name : String) (r : R)
    → register_all cs routes ≡ registered after
    → get string_discrete name routes ≡ some r
    → get string_discrete name after ≡ some r
unfolding register_all
register_all-keeps [] routes after name r e there = ground arith
register_all-keeps (c ∷ cs) routes after name r e there =
    elim (registered-cases (register c routes)) [
      | inl (error, bad) ↦ absurd (let clash = rw bad at e in cc)
      | inr (next, good) ↦
          let (new, put_in) = register-registered c routes next good in
          register_all-keeps cs next after name r (rw good at e)
            (ground (arith, put_in, get-put string_discrete name c.name c.route routes))
    ]

-- If every candidate of a boot is registered, each is found under its own name: none shadows
-- another, and none is lost.
pub find_route-register_all :
    {R : Type 0} (cs : List (Candidate R)) (routes after : Dict String R)
    → register_all cs routes ≡ registered after
    → All (λ (c : Candidate R). find_route c.name after ≡ some c.route) cs
unfolding register_all find_route
find_route-register_all [] routes after e = tt
find_route-register_all (c ∷ cs) routes after e = elim (registered-cases (register c routes)) [
  | inl (error, bad) ↦ absurd (let clash = rw bad at e in cc)
  | inr (next, good) ↦
      let (new, put_in) = register-registered c routes next good in
      (
        register_all-keeps cs next after c.name c.route (rw good at e)
            (ground (arith, put_in, get-put string_discrete c.name c.name c.route routes)),
        find_route-register_all cs next after (rw good at e),
      )
]
