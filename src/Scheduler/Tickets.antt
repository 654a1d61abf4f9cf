-- ===== src/Scheduler/Tickets.antt =====
-- The outstanding notices of an agent and their tickets (scheduler.py).
use basecradle_router.Base.{
  ℕ, ◌+◌, ◌≤◌, ◌≡◌, ◌⊎◌, refl, String, Option, none, some, List, [], ◌∷◌, ◌++◌, ◌==◌, if◌then◌else◌,
  string_discrete, arith, ite,
}
use basecradle_router.Scheduler.{Notice}

-- Where the tickets of an agent's notices end, if they count up from `t` without a gap.
unfoldable pub after_tickets : String → ℕ → List Notice → Option ℕ
after_tickets k t [] = some t
after_tickets k t (n ∷ ns) =
    let counted = after_tickets k (t + 1) ns in
    let skipped = after_tickets k t ns in
    ite (string_discrete n.key k) (if n.ticket == t then counted else none) skipped

-- The count that an agent's last notice carries, or else the one delivered before.
unfoldable pub last_value : String → ℕ → List Notice → ℕ
last_value k d [] = d
last_value k d (n ∷ ns) = last_value k (ite (string_discrete n.key k) n.pending d) ns

pub after_tickets-snoc :
    (k : String) (t : ℕ) (ns : List Notice) (n : Notice) (u : ℕ)
    → after_tickets k t ns ≡ some u
    → n.ticket ≡ u ⊎ (n.key ≡ k → ⊥)
    → after_tickets k t (ns ++ n ∷ []) ≡ some (ite (string_discrete n.key k) (u + 1) u)
unfolding after_tickets
after_tickets-snoc k t [] n u e h = ground arith
after_tickets-snoc k t (m ∷ ns) n u e h =
    ground (arith, after_tickets-snoc k (t + 1) ns n u, after_tickets-snoc k t ns n u)

pub last_value-snoc :
    (k : String) (d : ℕ) (ns : List Notice) (n : Notice)
    → last_value k d (ns ++ n ∷ []) ≡ ite (string_discrete n.key k) n.pending (last_value k d ns)
unfolding last_value
last_value-snoc k d [] n = refl
last_value-snoc k d (m ∷ ns) n = last_value-snoc k (ite (string_discrete m.key k) m.pending d) ns n

after_tickets-le :
    (k : String) (t : ℕ) (ns : List Notice) (u : ℕ) → after_tickets k t ns ≡ some u → t ≤ u
unfolding after_tickets
after_tickets-le k t [] u e = ground arith
after_tickets-le k t (n ∷ ns) u e =
    ground (arith, after_tickets-le k (t + 1) ns u, after_tickets-le k t ns u)

ticket-le :
    (k : String) (t : ℕ) (before : List Notice) (n : Notice) (rest : List Notice) (u : ℕ)
    → after_tickets k t (before ++ n ∷ rest) ≡ some u
    → n.key ≡ k
    → t ≤ n.ticket
unfolding after_tickets
ticket-le k t [] n rest u e h = ground arith
ticket-le k t (m ∷ before) n rest u e h =
    ground (arith, ticket-le k (t + 1) before n rest u, ticket-le k t before n rest u)

-- The notice whose turn it is is the first of its agent's, so taking it out leaves the later ones
-- counting up from the next turn.
pub after_tickets-take :
    (k : String) (t : ℕ) (before : List Notice) (n : Notice) (rest : List Notice) (u : ℕ)
    → after_tickets k t (before ++ n ∷ rest) ≡ some u
    → n.key ≡ k
    → n.ticket ≡ t
    → after_tickets k (t + 1) (before ++ rest) ≡ some u
unfolding after_tickets
after_tickets-take k t [] n rest u e h h' = ground arith
after_tickets-take k t (m ∷ before) n rest u e h h' =
    ground (arith, ticket-le k (t + 1) before n rest u, after_tickets-take k t before n rest u)

pub last_value-take :
    (k : String) (t d : ℕ) (before : List Notice) (n : Notice) (rest : List Notice) (u : ℕ)
    → after_tickets k t (before ++ n ∷ rest) ≡ some u
    → n.key ≡ k
    → n.ticket ≡ t
    → last_value k n.pending (before ++ rest) ≡ last_value k d (before ++ n ∷ rest)
unfolding after_tickets last_value
last_value-take k t d [] n rest u e h h' = ground arith
last_value-take k t d (m ∷ before) n rest u e h h' =
    ground (arith, ticket-le k (t + 1) before n rest u, last_value-take k t d before n rest u)

-- Another agent's notice does not count.
pub after_tickets_ne :
    (k : String) (t : ℕ) (before : List Notice) (n : Notice) (rest : List Notice)
    → (n.key ≡ k → ⊥)
    → after_tickets k t (before ++ n ∷ rest) ≡ after_tickets k t (before ++ rest)
unfolding after_tickets
after_tickets_ne k t [] n rest h = ground arith
after_tickets_ne k t (m ∷ before) n rest h =
    ground (arith, after_tickets_ne k (t + 1) before n rest, after_tickets_ne k t before n rest)

pub last_value_ne :
    (k : String) (d : ℕ) (before : List Notice) (n : Notice) (rest : List Notice)
    → (n.key ≡ k → ⊥)
    → last_value k d (before ++ n ∷ rest) ≡ last_value k d (before ++ rest)
unfolding last_value
last_value_ne k d [] n rest h = ground arith
last_value_ne k d (m ∷ before) n rest h =
    last_value_ne k (ite (string_discrete m.key k) m.pending d) before n rest h

-- An agent whose tickets end where they begin has no notice, so its count may begin anywhere.
pub after_tickets_none :
    (k : String) (t : ℕ) (ns : List Notice)
    → after_tickets k t ns ≡ some t
    → after_tickets k 0 ns ≡ some 0
unfolding after_tickets
after_tickets_none k t [] e = refl
after_tickets_none k t (n ∷ ns) e =
    ground (arith, after_tickets-le k (t + 1) ns t, after_tickets_none k t ns)
