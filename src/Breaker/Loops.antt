-- ===== src/Breaker/Loops.antt =====
-- The two loops of `admit`, over one key's window (breaker.py).
use basecradle_router.Base.{
  ℕ, ◌≤◌, ◌≡◌, ◌≢◌, ◌⊎◌, refl, sym, subst, false, Option, none, some, List, [], ◌∷◌, ◌++◌, Dict,
  get, put, get-put_self, get-put_ne, length, ltb, arith, Bool-cases, Option-cases, inl, inr,
}
use basecradle_router.Breaker.{
  Config, Window, is_admitted, new_window, Key, key_discrete, Scope, purge, Round, go_on, return,
  then_loop, cool, cool_known, cool_window, or_new, judge, count_on, each, both_loops,
}
use basecradle_router.Breaker.Recent.{Sorted-purge, Sorted-snoc}
use basecradle_router.Breaker.Keep.{Phase, Bounded, Bounded-new, Bounded-trip, Bounded-count}

-- What a loop's end must satisfy, by the way it ended.
abbrev pub Ends : (Dict Key Window → Type 0) → (Dict Key Window → Type 0) → Round → Type 0
Ends P Q (go_on m) = P m
Ends P Q (return o m) = Q m

pub Ends-then :
    (P R Q : Dict Key Window → Type 0) (r : Round) (f : Dict Key Window → Round)
    → Ends P Q r
    → ((m : Dict Key Window) → P m → Ends R Q (f m))
    → Ends R Q (then_loop r f)
Ends-then P R Q (go_on m) f h k = k m h
Ends-then P R Q (return o m) f h k = h

-- A loop that returns refuses the wake.
abbrev pub Refuses : Round → Type 0
Refuses (go_on m) = Unit
Refuses (return o m) = is_admitted o.state ≡ false

pub Refuses-then :
    (r : Round) (f : Dict Key Window → Round)
    → Refuses r
    → ((m : Dict Key Window) → Refuses (f m))
    → Refuses (then_loop r f)
Refuses-then (go_on m) f h k = k m
Refuses-then (return o m) f h k = h

pub Refuses-each :
    (f : Scope → Dict Key Window → Round)
    → ((s : Scope) (m : Dict Key Window) → Refuses (f s m))
    → (ss : List Scope) (m : Dict Key Window) → Refuses (each f ss m)
unfolding each
Refuses-each f h [] m = tt
Refuses-each f h (s ∷ ss) m = Refuses-then (f s m) (each f ss) (h s m) (Refuses-each f h ss)

Refuses-cool_window :
    (now : ℕ) (s : Scope) (m : Dict Key Window) (o : Option ℕ) → Refuses (cool_window now s m o)
unfolding cool_window
Refuses-cool_window now s m none = tt
Refuses-cool_window now s m (some u) = elim (Bool-cases (ltb now u)) [
  | inl cooling ↦ rw cooling
  | inr over ↦ rw over tt
]

pub Refuses-cool : (now : ℕ) (s : Scope) (m : Dict Key Window) → Refuses (cool now s m)
unfolding cool
Refuses-cool now s m = elim (Option-cases (get key_discrete s.dict_key m)) [
  | inl absent ↦ rw (absent, cool_known) tt
  | inr (w, there) ↦ rw (there, cool_known) (Refuses-cool_window now s m w.tripped_until)
]

Refuses-judge :
    (c : Config) (now : ℕ) (s : Scope) (m : Dict Key Window) (w : Window)
    → Refuses (judge c now s m w)
unfolding judge
Refuses-judge c now s m w = elim (Bool-cases (ltb s.threshold (length w.timestamps))) [
  | inl over ↦ rw over
  | inr fits ↦ rw fits tt
]

pub Refuses-count_on :
    (c : Config) (now : ℕ) (s : Scope) (m : Dict Key Window) → Refuses (count_on c now s m)
unfolding count_on
Refuses-count_on c now s m = Refuses-judge c now s m _

pub Refuses-both_loops :
    (c : Config) (now : ℕ) (ss : List Scope) (m : Dict Key Window) → Refuses (both_loops c now ss m)
unfolding both_loops
Refuses-both_loops c now ss m =
    Refuses-then (each (cool now) ss m) (each (count_on c now) ss)
      (Refuses-each (cool now) (Refuses-cool now) ss m)
      (Refuses-each (count_on c now) (Refuses-count_on c now) ss)

module _ (c : Config) (k : Key) (limit now : ℕ) where
  -- The window under the key is in step with these admitted wakes.
  abbrev pub Holds : List ℕ → Dict Key Window → Type 0
  Holds log m = Bounded c limit now log (or_new (get key_discrete k m))

  abbrev pub IsUp : Dict Key Window → Type 0
  IsUp m = (or_new (get key_discrete k m)).tripped_until ≡ none

  put_ne :
      (log : List ℕ) (j : Key) (w : Window) (m : Dict Key Window)
      → (j ≢ k)
      → Holds log m
      → Holds log (put key_discrete j w m)
  put_ne log j w m h b = rw (get-put_ne key_discrete k j w m h) b

  put_self :
      (log : List ℕ) (j : Key) (w : Window) (m : Dict Key Window)
      → j ≡ k
      → Bounded c limit now log w
      → Holds log (put key_discrete j w m)
  put_self log j w m h b = rw (h, get-put_self key_discrete k w m) b

  at_key :
      (log : List ℕ) (j : Key) (w : Window) (m : Dict Key Window)
      → j ≡ k
      → get key_discrete j m ≡ some w
      → Holds log m
      → Bounded c limit now log w
  at_key log j w m h there b =
      let here : get key_discrete k m ≡ some w = rw (← h) there in
      subst (λ o. Bounded c limit now log (or_new o)) here b

  cool_tripped :
      (log : List ℕ) (s : Scope) (m : Dict Key Window) (w : Window) (u : ℕ)
      → get key_discrete s.dict_key m ≡ some w
      → w.tripped_until ≡ some u
      → Holds log m
      → Ends (Holds log) (Holds log) (cool_window now s m (some u))
  unfolding cool_window
  cool_tripped log s m w u there down b = elim (Bool-cases (ltb now u)) [
    | inl cooling ↦ rw cooling b
    | inr over ↦ rw over (elim (key_discrete s.dict_key k) [
      | yes p ↦
          let bw = at_key log s.dict_key w m p there b in
          let gone = subst (Phase c.window now log w.timestamps) down bw.phase in
          put_self log s.dict_key new_window m p
            (Bounded-new c limit bw.past (λ n le. gone n (ground arith)))
      | no p ↦ put_ne log s.dict_key new_window m p b
    ])
  ]

  -- The first loop keeps the window in step.
  pub cool-Holds :
      (log : List ℕ) (s : Scope) (m : Dict Key Window)
      → Holds log m
      → Ends (Holds log) (Holds log) (cool now s m)
  unfolding cool
  cool-Holds log s m b = elim (Option-cases (get key_discrete s.dict_key m)) [
    | inl absent ↦ rw (absent, cool_known) b
    | inr (w, there) ↦
        rw (there, cool_known)
          (elim (Option-cases w.tripped_until) [
            | inl up ↦ rw (up, cool_window) b
            | inr (u, down) ↦ rw down (cool_tripped log s m w u there down b)
          ])
  ]

  IsUp-put :
      (j : Key) (w : Window) (m : Dict Key Window)
      → w.tripped_until ≡ none
      → (j ≡ k) ⊎ IsUp m
      → IsUp (put key_discrete j w m)
  IsUp-put j w m up h = elim (key_discrete j k) [
    | yes p ↦ rw (p, get-put_self key_discrete k w m) up
    | no p ↦ rw (get-put_ne key_discrete k j w m p) (elim h [ inl q ↦ absurd (p q) | inr u ↦ u ])
  ]

  -- A scope that the first loop passes is untripped, and stays so.
  pub cool-IsUp :
      (s : Scope) (m : Dict Key Window)
      → (s.dict_key ≡ k) ⊎ IsUp m
      → Ends IsUp (λ _. Unit) (cool now s m)
  unfolding cool
  cool-IsUp s m h = elim (Option-cases (get key_discrete s.dict_key m)) [
    | inl absent ↦ rw (absent, cool_known) (elim h [ inl p ↦ ap_up absent p | inr u ↦ u ])
    | inr (w, there) ↦
        rw (there, cool_known)
          (elim (Option-cases w.tripped_until) [
            | inl up ↦
                rw (up, cool_window)
                  (elim h [
                    | inl p ↦
                        subst (λ j. (or_new (get key_discrete j m)).tripped_until ≡ none) p
                          (rw there up)
                    | inr u ↦ u
                  ])
            | inr (u, down) ↦
                rw (down, cool_window)
                  (elim (Bool-cases (ltb now u)) [
                    | inl cooling ↦ rw cooling tt
                    | inr over ↦ rw over (IsUp-put s.dict_key new_window m refl h)
                  ])
          ])
  ]
    where
      ap_up : get key_discrete s.dict_key m ≡ none → s.dict_key ≡ k → IsUp m
      ap_up absent p =
          subst (λ j. (or_new (get key_discrete j m)).tripped_until ≡ none) p (rw absent)

  judge-Holds :
      (log : List ℕ) (s : Scope) (m : Dict Key Window) (w : Window)
      → c.window ≤ c.cooldown
      → s.dict_key ≡ k
      → s.threshold ≡ limit
      → Bounded c limit now log w
      → w.tripped_until ≡ none
      → Ends
          (λ m'. Holds (now ∷ log) m' × IsUp m')
          (Holds log)
          (judge c now s m (record w { timestamps = purge c.window now w.timestamps ++ now ∷ [] }))
  unfolding judge
  judge-Holds log s m w long p q b up =
      let ts : List ℕ = purge c.window now w.timestamps ++ now ∷ [] in
      elim (Bool-cases (ltb s.threshold (length ts))) [
        | inl over ↦ rw over (
            put_self log s.dict_key _ m p (
              Bounded-trip c limit ts long
                (Sorted-snoc (purge c.window now w.timestamps) now now (omega arith)
                  (Sorted-purge c.window now now w.timestamps b.sorted))
                b))
        | inr fits ↦ rw fits (
          put_self (now ∷ log) s.dict_key _ m p (Bounded-count c limit w up (ground arith) b),
          IsUp-put s.dict_key _ m up (inl p),
        )
      ]

  -- Counting a wake on the key's own scope.
  pub count_on-Holds_self :
      (log : List ℕ) (s : Scope) (m : Dict Key Window)
      → c.window ≤ c.cooldown
      → s.dict_key ≡ k
      → s.threshold ≡ limit
      → Holds log m
      → IsUp m
      → Ends (λ m'. Holds (now ∷ log) m' × IsUp m') (Holds log) (count_on c now s m)
  unfolding count_on
  count_on-Holds_self log s m long p q b up =
      judge-Holds log s m (or_new (get key_discrete s.dict_key m)) long p q
        (subst (λ j. Bounded c limit now log (or_new (get key_discrete j m))) (sym p) b)
        (subst (λ j. (or_new (get key_discrete j m)).tripped_until ≡ none) (sym p) up)

  -- Counting it on another scope changes nothing under the key.
  pub count_on-Holds_ne :
      (log : List ℕ) (s : Scope) (m : Dict Key Window)
      → s.dict_key ≢ k
      → Holds log m
      → Ends (Holds log) (Holds log) (count_on c now s m)
  unfolding count_on judge
  count_on-Holds_ne log s m p b =
      elim (Bool-cases (
        ltb s.threshold (
          length (
            purge c.window now (or_new (get key_discrete s.dict_key m)).timestamps ++ now ∷ [])))) [
              | inl over ↦ rw over (put_ne log s.dict_key _ m p b)
              | inr fits ↦ rw fits (put_ne log s.dict_key _ m p b)
            ]

  pub count_on-IsUp_ne :
      (s : Scope) (m : Dict Key Window)
      → s.dict_key ≢ k
      → IsUp m
      → Ends IsUp (λ _. Unit) (count_on c now s m)
  unfolding count_on judge
  count_on-IsUp_ne s m p up =
      elim (Bool-cases (
        ltb s.threshold (
          length (
            purge c.window now (or_new (get key_discrete s.dict_key m)).timestamps ++ now ∷ [])))) [
              | inl over ↦ rw over tt
              | inr fits ↦ rw fits (rw (get-put_ne key_discrete k s.dict_key _ m p) up)
            ]
