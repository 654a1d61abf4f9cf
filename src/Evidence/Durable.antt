-- ===== src/Evidence/Durable.antt =====
-- The file of the evidence, and what a restart clears (evidence.py).
use basecradle_router.Base.{
  ℕ, Option, true, ◌&&◌, ◌≡◌, ◌⊎◌, if◌then◌else◌, ◌∙◌, refl, ap, false, some, String, List, [], ◌∷◌,
  ◌++◌, All, Dict, get, if_pos, if_neg, string_discrete, arith, Bool-cases, inl, inr, ◌==◌,
}
use basecradle_router.Evidence.{AgentWake, new_wake, or_default}
use basecradle_router.Evidence.Disk.{
  Disk, Trouble, finishes, mkstemp_fails, write_fails, chmod_fails, replace_fails, settled,
  perform-atomic_write, perform-first, atomic_write,
}
use basecradle_router.Evidence.Store.{
  Store, Call, change, flushes, writes, flush, call, during, call_all, zero_depths, any_depth,
  discard_stale,
}
use basecradle_router.Evidence.Tally.{
  Kind, ok_kind, failed_kind, refused_kind, deduped_kind, of_wake, wake_of, flush-agent_wakes,
}

-- The document that the file holds: the first one, or the store's after some of the calls.
abbrev pub Holds : List Call → Store → Option (List ℕ) → Type 0
Holds cs s file =
    (file ≡ s.disk.file)
    ⊎ ((before : List Call) × (later : List Call) × (cs ≡ before ++ later)
        × (file ≡ some (s.dumps (call_all before s).doc)))

-- The directory after a call: settled if the call writes, and else as it was.
abbrev pub after : Call → Store → Disk
after c s =
    if flushes c.what s.doc && s.has_path
    then settled c.trouble (s.dumps (call c s).doc) s.disk
    else s.disk

call-disk : (c : Call) (s : Store) → (call c s).disk ≡ after c s
unfolding call change flush writes
call-disk c s = elim (Bool-cases (flushes c.what s.doc)) [
  | inr same ↦ rw same refl
  | inl flushed ↦ elim (Bool-cases s.has_path) [
    | inr memory ↦ rw (flushed, memory) refl
    | inl path ↦ rw (flushed, path) (perform-atomic_write _ c.trouble s.disk)
  ]
]

during-file :
    (n : ℕ) (c : Call) (s : Store)
    → ((during n c s).file ≡ s.disk.file) ⊎ ((during n c s).file ≡ some (s.dumps (call c s).doc))
unfolding during call change flush writes atomic_write
during-file n c s = elim (Bool-cases (flushes c.what s.doc)) [
  | inr same ↦ rw same (inl refl)
  | inl flushed ↦ elim (Bool-cases s.has_path) [
    | inr memory ↦ rw (flushed, memory) (perform-first n _ mkstemp_fails s.disk)
    | inl path ↦ rw (flushed, path) (perform-first n _ c.trouble s.disk)
  ]
]

settled-file :
    (trouble : Trouble) (text : List ℕ) (d : Disk)
    → ((settled trouble text d).file ≡ d.file) ⊎ ((settled trouble text d).file ≡ some text)
settled-file finishes text d = inr refl
settled-file mkstemp_fails text d = inl refl
settled-file (write_fails n true) text d = inl refl
settled-file (write_fails n false) text d = inl refl
settled-file (chmod_fails true) text d = inl refl
settled-file (chmod_fails false) text d = inl refl
settled-file (replace_fails true) text d = inl refl
settled-file (replace_fails false) text d = inl refl

call-file :
    (c : Call) (s : Store)
    → ((call c s).disk.file ≡ s.disk.file) ⊎ ((call c s).disk.file ≡ some (s.dumps (call c s).doc))
call-file c s = rw (call-disk c s) (elim (Bool-cases (flushes c.what s.doc && s.has_path)) [
  | inl on ↦ rw on (settled-file c.trouble (s.dumps (call c s).doc) s.disk)
  | inr off ↦ rw off (inl refl)
])

dumps-call : (c : Call) (s : Store) → (call c s).dumps ≡ s.dumps
unfolding call change flush
dumps-call c s = ground arith

Holds-later :
    (c : Call) (cs : List Call) (s : Store) (file : Option (List ℕ))
    → Holds cs (call c s) file
    → Holds (c ∷ cs) s file
unfolding call_all
Holds-later c cs s file (inr (before, later, split, held)) =
    inr (c ∷ before, later, ap (λ l. c ∷ l) split, rw (dumps-call c s) at held)
Holds-later c cs s file (inl kept) = elim (call-file c s) [
  | inl old ↦ inl (kept ∙ old)
  | inr new ↦ inr (c ∷ [], cs, refl, kept ∙ new)
]

during-Holds :
    (n : ℕ) (cs : List Call) (c : Call) (s : Store)
    → Holds (cs ++ c ∷ []) s (during n c (call_all cs s)).file
unfolding call_all
during-Holds n [] c s = elim (during-file n c s) [
  | inl old ↦ inl old
  | inr new ↦ inr (c ∷ [], [], refl, new)
]
during-Holds n (b ∷ cs) c s = Holds-later b (cs ++ c ∷ []) s _ (during-Holds n cs c (call b s))

-- After any calls and at every moment of the next one's flush, whatever trouble its write meets,
-- the file is as it was at first or holds the whole text of the document that the store had after
-- some of the calls, in order from the first: a reader sees no torn file, and a kill leaves none.
-- When that call is over, the directory is as it was if the store has no path or the call does not
-- flush; if its write met no trouble, the file holds the store's document as it then is, and the
-- temporary files are as before; and if it did, the file is as before and the temporary file is
-- gone, unless it could not be unlinked.
pub call_all-file :
    (n : ℕ) (cs : List Call) (c : Call) (s : Store)
    → Holds (cs ++ c ∷ []) s (during n c (call_all cs s)).file
      × ((call c (call_all cs s)).disk ≡ after c (call_all cs s))
call_all-file n cs c s = (during-Holds n cs c s, call-disk c (call_all cs s))

abbrev pub Idle : String × AgentWake → Type 0
Idle e = e.1.queued ≡ 0

zero_depths-Idle : (m : Dict String AgentWake) → All Idle (zero_depths m)
unfolding zero_depths
zero_depths-Idle [] = tt
zero_depths-Idle ((a, w) ∷ m) = (refl, zero_depths-Idle m)

any_depth-Idle : (m : Dict String AgentWake) → any_depth m ≡ false → All Idle m
unfolding any_depth
any_depth-Idle [] h = tt
any_depth-Idle ((a, w) ∷ m) h = elim (Bool-cases (w.queued == 0)) [
  | inl zero_now ↦ (ground (arith, zero_now), any_depth-Idle m (rw zero_now at h))
  | inr busy ↦ absurd (let clash = rw busy at h in cc)
]

idle-of_wake : (k : Kind) (w : AgentWake) → of_wake k (record w { queued = 0 }) ≡ of_wake k w
idle-of_wake ok_kind w = refl
idle-of_wake failed_kind w = refl
idle-of_wake refused_kind w = refl
idle-of_wake deduped_kind w = refl

zero_depths-of_wake :
    (k : Kind) (agent : String) (m : Dict String AgentWake)
    → of_wake k (or_default new_wake (get string_discrete agent (zero_depths m)))
      ≡ of_wake k (or_default new_wake (get string_discrete agent m))
unfolding zero_depths get
zero_depths-of_wake k agent [] = refl
zero_depths-of_wake k agent ((a, w) ∷ m) = elim (string_discrete a agent) [
  | no p ↦
      rw (if_neg (string_discrete a agent) p, if_neg (string_discrete a agent) p)
        (zero_depths-of_wake k agent m)
  | yes p ↦
      rw (if_pos (string_discrete a agent) p, if_pos (string_discrete a agent) p) (idle-of_wake k w)
]

-- A restart clears every queue depth that the document has, and no counter of any agent.
pub discard_stale-Idle :
    (k : Kind) (agent now : String) (trouble : Trouble) (s : Store)
    → All Idle (discard_stale now trouble s).doc.agent_wakes
      × (of_wake k (wake_of agent (discard_stale now trouble s).doc)
          ≡ of_wake k (wake_of agent s.doc))
unfolding discard_stale
discard_stale-Idle k agent now trouble s = elim (Bool-cases (any_depth s.doc.agent_wakes)) [
  | inr none_stale ↦ rw none_stale (any_depth-Idle s.doc.agent_wakes none_stale, refl)
  | inl stale_some ↦
      let cleared : Store = record s {
        doc = record s.doc { agent_wakes = zero_depths s.doc.agent_wakes };
      } in
      rw (stale_some, flush-agent_wakes now trouble cleared)
        (zero_depths-Idle s.doc.agent_wakes, zero_depths-of_wake k agent s.doc.agent_wakes)
]
