-- ===== src/Github/Listing.antt =====
-- The warm-up's paged reads of GitHub's API, `_read_listing` (routes/github.py). The HTTP call, the
-- clock, `quote` and the regex of the `Link` header are the record `Network`.
use Prim.Native.String
use mathlib.Core.Option.{some-injective}
use basecradle_router.Base.{
  ℕ, zero, suc, ◌+◌, ◌-◌, ◌≤◌, ◌≡◌, subst, refl, inl, inr, Bool, true, Option, none, some, String,
  List, [], ◌∷◌, ◌++◌, All, length, leb, if◌then◌else◌, codes, Bool-cases, arith,
}
use basecradle_router.Base.Json.{Json, Items, Fields, as_object, as_list, collect_items}
use basecradle_router.Base.Result.{Result, ok, err, ok-injective}
use basecradle_router.Routes.{starts_with}
use basecradle_router.Routes.Signature.{codes-append}
use basecradle_router.Github.{github_api}

-- What ends a read early.
pub data ReadError : Type 0 where
  timed_out fetch_failed not_a_list off_api too_many_pages : ReadError

pub record Network : Type 0 where
  pub clock : ℕ → ℕ
  pub fetch : String → ℕ → Option (Json × Option String)
  pub find_next : String → Option String
  pub quote : String → String

-- The requests made, each with its timeout, and what the read gives.
abbrev pub Reading : Type 0
Reading = List (String × ℕ) × Result ReadError (List Fields)

abbrev pub api_prefix : String
api_prefix = "https://api.github.com/"

unfoldable pub in_api : String → Bool
in_api url = starts_with (codes api_prefix) (codes url)

-- `_next_page`
abbrev pub or_empty : Option String → String
or_empty none = ""
or_empty (some link) = link

unfoldable pub checked_link : Option String → Result ReadError (Option String)
unfolding in_api
checked_link none = ok none
checked_link (some url) = if in_api url then ok (some url) else err off_api

unfoldable pub next_page : Network → Option String → Result ReadError (Option String)
unfolding checked_link
next_page net link = checked_link (net.find_next (or_empty link))

abbrev pub prepend : String × ℕ → List Fields → Reading → Reading
prepend request items (requests, ok more) = (request ∷ requests, ok (items ++ more))
prepend request items (requests, err e) = (request ∷ requests, err e)

-- A page: its dicts, and the rest of the listing behind its link.
unfoldable pub on_page :
    String × ℕ → Option Items → Result ReadError (Option String) → (String → Reading) → Reading
unfolding collect_items
on_page request none link rest = (request ∷ [], err not_a_list)
on_page request (some items) (err e) rest = (request ∷ [], err e)
on_page request (some items) (ok none) rest = (request ∷ [], ok (collect_items as_object items))
on_page request (some items) (ok (some url)) rest =
    prepend request (collect_items as_object items) (rest url)

unfoldable pub on_response :
    Network → String × ℕ → Option (Json × Option String) → (String → Reading) → Reading
unfolding on_page next_page
on_response net request none rest = (request ∷ [], err fetch_failed)
on_response net request (some (page, link)) rest =
    on_page request (as_list page) (next_page net link) rest

-- The loop over at most so many pages; the clock is read once for each.
unfoldable pub read_pages : Network → ℕ → ℕ → ℕ → String → Reading
unfolding on_response
read_pages net deadline zero i url = ([], err too_many_pages)
read_pages net deadline (suc n) i url =
    let rest = read_pages net deadline n (suc i) in
    if leb deadline (net.clock i)
    then ([], err timed_out)
    else on_response net (url, deadline - net.clock i) (net.fetch url (deadline - net.clock i)) rest

-- `_WARM_MAX_PAGES`
abbrev pub max_pages : ℕ
max_pages = 10

-- `_read_listing`
unfoldable pub read_listing : Network → String → String → ℕ → Reading
unfolding read_pages
read_listing net repo path timeout = read_pages net (net.clock 0 + timeout) max_pages 1 (
    String.◌++◌ github_api
      (String.◌++◌ "/repos/" (String.◌++◌ (net.quote repo) (String.◌++◌ "/" path))))

-- A request within the API, with time left.
abbrev pub Allowed : String × ℕ → Type 0
Allowed request = (in_api request.0 ≡ true) × (1 ≤ request.1)

abbrev pub Bounded : ℕ → Reading → Type 0
Bounded n reading = All Allowed reading.0 × (length reading.0 ≤ n)

prepend-Bounded :
    (n : ℕ) (request : String × ℕ) (items : List Fields) (reading : Reading)
    → Allowed request
    → Bounded n reading
    → Bounded (suc n) (prepend request items reading)
prepend-Bounded n request items (requests, ok more) a h = ((a, h.0), omega (arith, h.1))
prepend-Bounded n request items (requests, err e) a h = ((a, h.0), omega (arith, h.1))

on_page-Bounded :
    (n : ℕ) (request : String × ℕ) (items : Option Items) (link : Result ReadError (Option String))
    (rest : String → Reading)
    → Allowed request
    → ((url : String) → link ≡ ok (some url) → Bounded n (rest url))
    → Bounded (suc n) (on_page request items link rest)
unfolding on_page
on_page-Bounded n request none link rest a h = ((a, tt), omega arith)
on_page-Bounded n request (some items) (err e) rest a h = ((a, tt), omega arith)
on_page-Bounded n request (some items) (ok none) rest a h = ((a, tt), omega arith)
on_page-Bounded n request (some items) (ok (some url)) rest a h =
    prepend-Bounded n request (collect_items as_object items) (rest url) a (h url refl)

checked_link-in_api :
    (found : Option String) (url : String) → checked_link found ≡ ok (some url) → in_api url ≡ true
unfolding checked_link
checked_link-in_api none url e = absurd (cc)
checked_link-in_api (some found) url e = elim (Bool-cases (in_api found)) [
  | inl inside ↦
      subst (λ u. in_api u ≡ true) (some-injective _ _ (ok-injective (rw inside at e))) inside
  | inr outside ↦ absurd (let clash = rw outside at e in cc)
]

on_response-Bounded :
    (net : Network) (n : ℕ) (request : String × ℕ) (response : Option (Json × Option String))
    (rest : String → Reading)
    → Allowed request
    → ((url : String) → in_api url ≡ true → Bounded n (rest url))
    → Bounded (suc n) (on_response net request response rest)
unfolding on_response next_page
on_response-Bounded net n request none rest a h = ((a, tt), omega arith)
on_response-Bounded net n request (some (page, link)) rest a h =
    on_page-Bounded n request (as_list page) (next_page net link) rest a
      (λ url e. h url (checked_link-in_api (net.find_next (or_empty link)) url e))

read_pages-Bounded :
    (net : Network) (deadline n i : ℕ) (url : String)
    → in_api url ≡ true
    → Bounded n (read_pages net deadline n i url)
unfolding read_pages
read_pages-Bounded net deadline zero i url inside = (tt, omega arith)
read_pages-Bounded net deadline (suc n) i url inside =
    elim (Bool-cases (leb deadline (net.clock i))) [
      | inl late ↦ rw late (tt, omega arith)
      | inr early ↦
          let time_left : 1 ≤ deadline - net.clock i = ground (arith, early) in
          rw early (
            on_response-Bounded net n (url, deadline - net.clock i)
              (net.fetch url (deadline - net.clock i)) (read_pages net deadline n (suc i))
              (inside, time_left) (read_pages-Bounded net deadline n (suc i)))
    ]

start-in_api : (rest : String) → in_api (String.◌++◌ github_api (String.◌++◌ "/repos/" rest)) ≡ true
unfolding in_api
start-in_api rest =
    rw (codes-append github_api (String.◌++◌ "/repos/" rest), codes-append "/repos/" rest) refl

-- A read of the warm-up makes at most ten requests, each to a URL of GitHub's API and each with time
-- left, whatever the repo, the clock, the answers and their `Link` headers.
pub read_listing-Bounded :
    (net : Network) (repo path : String) (timeout : ℕ)
    → Bounded 10 (read_listing net repo path timeout)
unfolding read_listing
read_listing-Bounded net repo path timeout =
    read_pages-Bounded net (net.clock 0 + timeout) 10 1 _
      (start-in_api (String.◌++◌ (net.quote repo) (String.◌++◌ "/" path)))
