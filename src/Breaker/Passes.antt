-- ===== src/Breaker/Passes.antt =====
-- The loops of `admit` over all its scopes: what they keep of the window under a key (breaker.py).
use basecradle_router.Base.{
  ℕ, ◌≤◌, ◌≡◌, Bool, true, false, ◌||◌, List, [], ◌∷◌, All, Dict, if◌then◌else◌, arith, inl, inr,
  contains, map, ite, if_pos, if_neg,
}
use basecradle_router.Breaker.{
  Config, Window, Key, key_discrete, Scope, Round, go_on, return, cool, count_on, each, both_loops,
}
use basecradle_router.Breaker.Keep.{Bounded-fewer}
use basecradle_router.Breaker.Loops.{
  Ends, Ends-then, Holds, IsUp, cool-Holds, cool-IsUp, count_on-Holds_self, count_on-Holds_ne,
  count_on-IsUp_ne,
}

Ends-and :
    (P R Q : Dict Key Window → Type 0) (r : Round)
    → Ends P Q r
    → Ends R (λ _. Unit) r
    → Ends (λ m. P m × R m) Q r
Ends-and P R Q (go_on m) h k = (h, k)
Ends-and P R Q (return o m) h k = h

Ends-map :
    (P Q R S : Dict Key Window → Type 0) (r : Round)
    → ((m : Dict Key Window) → P m → R m)
    → ((m : Dict Key Window) → Q m → S m)
    → Ends P Q r
    → Ends R S r
Ends-map P Q R S (go_on m) f g h = f m h
Ends-map P Q R S (return o m) f g h = g m h

or_true : (b : Bool) → (b || true) ≡ true
or_true b = ground arith

or_false : (b : Bool) → (b || false) ≡ b
or_false b = ground arith

-- The key is that of one of the scopes.
abbrev pub touched : Key → List Scope → Bool
touched k ss = contains key_discrete k (map (λ s. s.dict_key) ss)

abbrev here : Key → Scope → Bool
here k s = ite (key_discrete s.dict_key k) true false

or_here :
    (k : Key) (s : Scope) (b t : Bool)
    → (b || ite (key_discrete s.dict_key k) true t) ≡ ((b || here k s) || t)
or_here k s b t = ground arith

module _ (c : Config) (k : Key) (limit now : ℕ) (log : List ℕ) where
  abbrev UpIf : Bool → Dict Key Window → Type 0
  UpIf b m = b ≡ true → IsUp c k limit now m

  abbrev Cooled : Bool → Dict Key Window → Type 0
  Cooled b m = Holds c k limit now log m × UpIf b m

  up_then :
      (b : Bool) (r : Round)
      → (b ≡ true → Ends (IsUp c k limit now) (λ _. Unit) r)
      → Ends (UpIf b) (λ _. Unit) r
  up_then b (go_on m) h = h
  up_then b (return o m) h = tt

  cool-Cooled :
      (s : Scope) (m : Dict Key Window) (b : Bool)
      → Cooled b m
      → Ends (Cooled (b || here k s)) (Holds c k limit now log) (cool now s m)
  cool-Cooled s m b h =
      Ends-and (Holds c k limit now log) (UpIf (b || here k s)) (Holds c k limit now log)
        (cool now s m) (cool-Holds c k limit now log s m h.0)
        (up_then (b || here k s) (cool now s m) (λ e.
          cool-IsUp c k limit now s m
            (elim (key_discrete s.dict_key k) [ yes p ↦ inl p | no p ↦ inr (h.1 (ground arith)) ])))

  each-cool :
      (ss : List Scope) (m : Dict Key Window) (b : Bool)
      → Cooled b m
      → Ends (Cooled (b || touched k ss)) (Holds c k limit now log) (each (cool now) ss m)
  unfolding each contains
  each-cool [] m b h = rw (or_false b) h
  each-cool (s ∷ ss) m b h = rw (or_here k s b (touched k ss)) (
      Ends-then (Cooled (b || here k s)) (Cooled ((b || here k s) || touched k ss))
        (Holds c k limit now log) (cool now s m) (each (cool now) ss) (cool-Cooled s m b h)
        (λ m' h'. each-cool ss m' (b || here k s) h'))

  -- The admitted times, with this wake if it is already Counted.
  abbrev pub log_if : Bool → List ℕ
  log_if b = if b then now ∷ log else log

  fewer :
      (b : Bool) (m : Dict Key Window)
      → Holds c k limit now (log_if b) m
      → Holds c k limit now log m
  fewer true m h = Bounded-fewer c limit h
  fewer false m h = h

  once :
      (b : Bool) (m : Dict Key Window)
      → Holds c k limit now (now ∷ log_if b) m
      → Holds c k limit now (now ∷ log) m
  once true m h = Bounded-fewer c limit h
  once false m h = h

  abbrev Counted : Bool → Bool → Dict Key Window → Type 0
  Counted b more m = Holds c k limit now (log_if b) m × UpIf more m

  count_on-Counted :
      (s : Scope) (m : Dict Key Window) (b more : Bool)
      → c.window ≤ c.cooldown
      → (s.dict_key ≡ k → s.threshold ≡ limit)
      → Counted b (here k s || more) m
      → Ends (Counted (b || here k s) more) (Holds c k limit now log) (count_on c now s m)
  count_on-Counted s m b more long limits h = elim (key_discrete s.dict_key k) [
    | yes p ↦
        let up : IsUp c k limit now m =
          h.1 (rw (if_pos (key_discrete s.dict_key k) p true false)) in
        rw (if_pos (key_discrete s.dict_key k) p true false, or_true b)
          (Ends-map (λ m'. Holds c k limit now (now ∷ log_if b) m' × IsUp c k limit now m')
            (Holds c k limit now (log_if b)) (Counted true more) (Holds c k limit now log)
            (count_on c now s m) (λ m' x. (once b m' x.0, λ _. x.1)) (fewer b)
            (count_on-Holds_self c k limit now (log_if b) s m long p (limits p) h.0 up))
    | no p ↦
        rw (if_neg (key_discrete s.dict_key k) p true false, or_false b)
          (Ends-map (Counted b more) (Holds c k limit now (log_if b)) (Counted b more)
            (Holds c k limit now log) (count_on c now s m) (λ m' x. x) (fewer b)
            (Ends-and (Holds c k limit now (log_if b)) (UpIf more) (Holds c k limit now (log_if b))
              (count_on c now s m) (count_on-Holds_ne c k limit now (log_if b) s m p h.0)
              (up_then more (count_on c now s m)
                (λ e. count_on-IsUp_ne c k limit now s m p (h.1 (ground arith))))))
  ]

  -- The second loop counts the wake on each scope, or returns with the log as it was.
  each_count :
      (ss : List Scope) (m : Dict Key Window) (b : Bool)
      → c.window ≤ c.cooldown
      → All (λ s. s.dict_key ≡ k → s.threshold ≡ limit) ss
      → Counted b (touched k ss) m
      → Ends
          (λ m'. Holds c k limit now (log_if (b || touched k ss)) m')
          (Holds c k limit now log)
          (each (count_on c now) ss m)
  unfolding each contains
  each_count [] m b long limits h = rw (or_false b) h.0
  each_count (s ∷ ss) m b long limits h = rw (or_here k s b (touched k ss)) (
      Ends-then (Counted (b || here k s) (touched k ss))
        (λ m'. Holds c k limit now (log_if ((b || here k s) || touched k ss)) m')
        (Holds c k limit now log) (count_on c now s m) (each (count_on c now) ss)
        (count_on-Counted s m b (touched k ss) long limits.0 (h.0, λ e. h.1 (ground arith)))
        (λ m' h'. each_count ss m' (b || here k s) long limits.1 h'))

  pub both_loops-Holds :
      (ss : List Scope) (m : Dict Key Window)
      → c.window ≤ c.cooldown
      → All (λ s. s.dict_key ≡ k → s.threshold ≡ limit) ss
      → Holds c k limit now log m
      → Ends
          (λ m'. Holds c k limit now (log_if (touched k ss)) m')
          (Holds c k limit now log)
          (both_loops c now ss m)
  unfolding both_loops
  both_loops-Holds ss m long limits h =
      Ends-then (Cooled (touched k ss)) (λ m'. Holds c k limit now (log_if (touched k ss)) m')
        (Holds c k limit now log) (each (cool now) ss m) (each (count_on c now) ss)
        (each-cool ss m false (h, λ e. cc)) (λ m' h'. each_count ss m' false long limits h')
