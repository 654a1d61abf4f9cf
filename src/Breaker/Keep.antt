-- ===== src/Breaker/Keep.antt =====
-- One key's window against the times of the wakes admitted under that key, through each part of
-- `admit` (breaker.py).
use basecradle_router.Base.{
  ℕ, ◌+◌, ◌≤◌, ◌≡◌, sym, subst, true, Option, none, some, List, [], ◌∷◌, ◌++◌, All, All-map, length,
  arith, Option-cases, inl, inr,
}
use basecradle_router.Breaker.{Config, Window, new_window, purge, is_stale}
use basecradle_router.Breaker.Recent.{
  recent, Sorted, recent-le-length, recent_antitone, recent-append, recent-purge, recent_aged,
  recent-all_aged, Sorted-purge, Sorted-snoc, Sorted-later,
}

-- An untripped window counts every recent admitted wake; a tripped one stays until none is left.
abbrev pub Phase : ℕ → ℕ → List ℕ → List ℕ → Option ℕ → Type 0
Phase window now log ts none = (n : ℕ) → now ≤ n → recent window n log ≤ recent window n ts
Phase window now log ts (some until) = (n : ℕ) → until ≤ n → recent window n log ≡ 0

pub record Bounded (c : Config) (limit now : ℕ) (log : List ℕ) (w : Window) : Type 0 where
  pub past : All (λ t. t ≤ now) log
  pub rate : recent c.window now log ≤ limit
  pub sorted : Sorted w.timestamps now
  pub phase : Phase c.window now log w.timestamps w.tripped_until

module _ (c : Config) (limit : ℕ) where
  Phase-later :
      (now now' : ℕ) (log ts : List ℕ) (o : Option ℕ)
      → now ≤ now'
      → Phase c.window now log ts o
      → Phase c.window now' log ts o
  Phase-later now now' log ts none h p = λ n le. p n (omega arith)
  Phase-later now now' log ts (some u) h p = p

  pub Bounded-later :
      {now now' : ℕ} {log : List ℕ} {w : Window}
      → now ≤ now'
      → Bounded c limit now log w
      → Bounded c limit now' log w
  Bounded-later {now} {now'} {log} {w} h b = record {
    past = All-map (λ t. t ≤ now) (λ t. t ≤ now') (λ t le. omega arith) log b.past;
    rate = omega (arith, b.rate, recent_antitone c.window now now' log h);
    sorted = Sorted-later w.timestamps now now' h b.sorted;
    phase = Phase-later now now' log w.timestamps w.tripped_until h b.phase;
  }

  Phase-fewer :
      (now t : ℕ) (log ts : List ℕ) (o : Option ℕ)
      → Phase c.window now (t ∷ log) ts o
      → Phase c.window now log ts o
  unfolding recent
  Phase-fewer now t log ts none p = λ n le. ground (arith, p n le)
  Phase-fewer now t log ts (some u) p = λ n le. ground (arith, p n le)

  pub Bounded-fewer :
      {now t : ℕ} {log : List ℕ} {w : Window}
      → Bounded c limit now (t ∷ log) w
      → Bounded c limit now log w
  unfolding recent
  Bounded-fewer {now} {t} {log} {w} b = record {
    past = b.past.1;
    rate = ground (arith, b.rate);
    sorted = b.sorted;
    phase = Phase-fewer now t log w.timestamps w.tripped_until b.phase;
  }

  -- A window whose recent admitted wakes are none may be forgotten.
  pub Bounded-new :
      {now : ℕ} {log : List ℕ}
      → All (λ t. t ≤ now) log
      → ((n : ℕ) → now ≤ n → recent c.window n log ≡ 0)
      → Bounded c limit now log new_window
  Bounded-new {now} {log} past old = record {
    past = past;
    rate = omega (arith, old now (omega arith));
    sorted = tt;
    phase = λ n le. omega (arith, old n le);
  }

  -- The collection forgets only such windows.
  pub Bounded-stale :
      {now : ℕ} {log : List ℕ} (w : Window)
      → Bounded c limit now log w
      → is_stale c now w ≡ true
      → Bounded c limit now log new_window
  unfolding is_stale
  Bounded-stale {now} {log} w b stale = elim (Option-cases w.tripped_until) [
    | inl up ↦
        let p : Phase c.window now log w.timestamps none =
          subst (Phase c.window now log w.timestamps) up b.phase in
        Bounded-new b.past (λ n le. omega (
          arith,
          p n le,
          recent-all_aged c.window now now n w.timestamps b.sorted (ground arith) le,
        ))
    | inr (u, down) ↦ ground arith
  ]

  -- A trip outlasts every admitted wake, if the cooldown is no shorter than the window.
  pub Bounded-trip :
      {now : ℕ} {log : List ℕ} {w : Window} (ts : List ℕ)
      → c.window ≤ c.cooldown
      → Sorted ts now
      → Bounded c limit now log w
      → Bounded c limit now log
          (record { timestamps = ts; tripped_until = some (now + c.cooldown) })
  Bounded-trip {now} {log} ts long s b = record {
    past = b.past;
    rate = b.rate;
    sorted = s;
    phase = λ n le. recent_aged c.window now n log b.past (omega arith);
  }

  -- An admitted wake is counted, within the limit.
  pub Bounded-count :
      {now : ℕ} {log : List ℕ} (w : Window)
      → w.tripped_until ≡ none
      → length (purge c.window now w.timestamps ++ now ∷ []) ≤ limit
      → Bounded c limit now log w
      → Bounded c limit now
          (now ∷ log)
          (record w { timestamps = purge c.window now w.timestamps ++ now ∷ [] })
  unfolding recent
  Bounded-count {now} {log} w up fits b = record {
    past = (omega arith, b.past);
    rate = ground (arith, counted now (omega arith), recent-le-length c.window now ts);
    sorted =
        Sorted-snoc (purge c.window now w.timestamps) now now (omega arith)
          (Sorted-purge c.window now now w.timestamps b.sorted);
    phase = subst (Phase c.window now (now ∷ log) ts) (sym up) counted;
  }
    where
      ts : List ℕ
      ts = purge c.window now w.timestamps ++ now ∷ []

      p : Phase c.window now log w.timestamps none
      p = subst (Phase c.window now log w.timestamps) up b.phase

      counted : Phase c.window now (now ∷ log) ts none
      counted n le = ground (
        arith,
        p n le,
        recent-append c.window n (purge c.window now w.timestamps) (now ∷ []),
        recent-purge c.window now n w.timestamps le,
      )
