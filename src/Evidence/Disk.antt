-- ===== src/Evidence/Disk.antt =====
-- The directory of the evidence document, and how `_atomic_write` changes it (evidence.py). A text
-- is its characters.
use basecradle_router.Base.{
  ℕ, zero, suc, ◌≡◌, ◌∙◌, sym, ap, refl, inl, inr, ◌⊎◌, Bool, true, false, Option, some, List, [],
  ◌∷◌, ◌++◌, map, All,
}
use mathlib.Core.List.{append-nil, append_assoc}

-- The document's text, if the file exists, and those of the temporary files, the newest first.
pub record Disk : Type 0 where
  pub file : Option (List ℕ)
  pub temps : List (List ℕ)

-- The changes that `_atomic_write` makes: each is one that a reader can see, or be killed after.
pub data Op : Type 0 where
  mkstemp chmod replace unlink : Op
  write : ℕ → Op

longer : ℕ → List (List ℕ) → List (List ℕ)
longer c [] = []
longer c (temp ∷ temps) = (temp ++ c ∷ []) ∷ temps

dropped : List (List ℕ) → List (List ℕ)
dropped [] = []
dropped (temp ∷ temps) = temps

moved : List (List ℕ) → Disk → Disk
moved [] d = d
moved (temp ∷ temps) d = record { file = some temp; temps = temps }

unfoldable pub apply : Op → Disk → Disk
unfolding longer dropped moved
apply mkstemp d = record d { temps = [] ∷ d.temps }
apply (write c) d = record d { temps = longer c d.temps }
apply chmod d = d
apply replace d = moved d.temps d
apply unlink d = record d { temps = dropped d.temps }

unfoldable pub perform : List Op → Disk → Disk
perform [] d = d
perform (o ∷ os) d = perform os (apply o d)

-- What a write meets: nothing, or the call that raises `OSError`. A write or a close raises after
-- some of the characters are out; a Boolean is whether the `unlink` of the clean-up succeeds.
pub data Trouble : Type 0 where
  finishes mkstemp_fails : Trouble
  write_fails : ℕ → Bool → Trouble
  chmod_fails : Bool → Trouble
  replace_fails : Bool → Trouble

abbrev pub is_raised : Trouble → Bool
is_raised finishes = false
is_raised _ = true

abbrev clean_up : Bool → List Op
clean_up true = unlink ∷ []
clean_up false = []

unfoldable pub first {ℓ} : {A : Type ℓ} → ℕ → List A → List A
first zero xs = []
first (suc n) [] = []
first (suc n) (x ∷ xs) = x ∷ first n xs

-- `_atomic_write` of a text: the changes it makes, in order, and how many before it raises.
unfoldable pub atomic_write : List ℕ → Trouble → List Op
unfolding first
atomic_write text finishes = (mkstemp ∷ map write text ++ chmod ∷ []) ++ replace ∷ []
atomic_write text mkstemp_fails = []
atomic_write text (write_fails n unlinked) = mkstemp ∷ map write (first n text) ++ clean_up unlinked
atomic_write text (chmod_fails unlinked) = mkstemp ∷ map write text ++ clean_up unlinked
atomic_write text (replace_fails unlinked) = mkstemp ∷ map write text ++ chmod ∷ clean_up unlinked

-- The directory as a writer of a text should leave it: the new text or, after trouble, the old file,
-- with the temporary file only if it could not be unlinked.
abbrev pub settled : Trouble → List ℕ → Disk → Disk
settled finishes text d = record d { file = some text }
settled (write_fails n false) text d = record d { temps = first n text ∷ d.temps }
settled (chmod_fails false) text d = record d { temps = text ∷ d.temps }
settled (replace_fails false) text d = record d { temps = text ∷ d.temps }
settled _ text d = d

perform-append : (os ps : List Op) (d : Disk) → perform (os ++ ps) d ≡ perform ps (perform os d)
unfolding perform
perform-append [] ps d = refl
perform-append (o ∷ os) ps d = perform-append os ps (apply o d)

-- The characters go to the newest temporary file.
perform-writes :
    (file : Option (List ℕ)) (text temp : List ℕ) (temps : List (List ℕ)) (os : List Op)
    → perform (map write text ++ os) (record { file = file; temps = temp ∷ temps })
      ≡ perform os (record { file = file; temps = (temp ++ text) ∷ temps })
unfolding perform apply
perform-writes file [] temp temps os =
    ap (λ t. perform os (record { file = file; temps = t ∷ temps })) (sym (append-nil temp))
perform-writes file (c ∷ text) temp temps os =
    perform-writes file text (temp ++ c ∷ []) temps os
    ∙ ap (λ t. perform os (record { file = file; temps = t ∷ temps }))
        (append_assoc temp (c ∷ []) text)

-- A whole write leaves what it should.
pub perform-atomic_write :
    (text : List ℕ) (trouble : Trouble) (d : Disk)
    → perform (atomic_write text trouble) d ≡ settled trouble text d
unfolding atomic_write perform apply
perform-atomic_write text finishes d =
    perform-append (map write text ++ chmod ∷ []) (replace ∷ []) _
    ∙ ap (λ x. perform (replace ∷ []) x) (perform-writes d.file text [] d.temps (chmod ∷ []))
perform-atomic_write text mkstemp_fails d = refl
perform-atomic_write text (write_fails n true) d =
    perform-writes d.file (first n text) [] d.temps (unlink ∷ [])
perform-atomic_write text (write_fails n false) d =
    perform-writes d.file (first n text) [] d.temps []
perform-atomic_write text (chmod_fails true) d = perform-writes d.file text [] d.temps (unlink ∷ [])
perform-atomic_write text (chmod_fails false) d = perform-writes d.file text [] d.temps []
perform-atomic_write text (replace_fails true) d =
    perform-writes d.file text [] d.temps (chmod ∷ unlink ∷ [])
perform-atomic_write text (replace_fails false) d =
    perform-writes d.file text [] d.temps (chmod ∷ [])

-- A change that no reader of the document sees.
abbrev Keeps : Op → Type 0
Keeps o = (d : Disk) → (apply o d).file ≡ d.file

Keeps-clean_up : (unlinked : Bool) → All Keeps (clean_up unlinked)
unfolding apply
Keeps-clean_up true = (λ d. refl, tt)
Keeps-clean_up false = tt

Keeps-writes : (text : List ℕ) (os : List Op) → All Keeps os → All Keeps (map write text ++ os)
unfolding apply
Keeps-writes [] os h = h
Keeps-writes (c ∷ text) os h = (λ d. refl, Keeps-writes text os h)

perform-Keeps :
    (n : ℕ) (os : List Op) (d : Disk) → All Keeps os → (perform (first n os) d).file ≡ d.file
unfolding perform first
perform-Keeps zero os d h = refl
perform-Keeps (suc n) [] d h = refl
perform-Keeps (suc n) (o ∷ os) d h = perform-Keeps n os (apply o d) h.1 ∙ h.0 d

-- The first elements of a list with one more at its end: that one comes only with all the others.
first-snoc {ℓ} :
    {A : Type ℓ} (n : ℕ) (xs : List A) (x : A)
    → (first n (xs ++ x ∷ []) ≡ first n xs) ⊎ (first n (xs ++ x ∷ []) ≡ xs ++ x ∷ [])
unfolding first
first-snoc zero xs x = inl refl
first-snoc (suc zero) [] x = inr refl
first-snoc (suc (suc n)) [] x = inr refl
first-snoc (suc n) (y ∷ xs) x = elim (first-snoc n xs x) [
  | inl p ↦ inl (ap (λ l. y ∷ l) p)
  | inr p ↦ inr (ap (λ l. y ∷ l) p)
]

-- At every moment of a write the document is the old one, or the new one whole.
pub perform-first :
    (n : ℕ) (text : List ℕ) (trouble : Trouble) (d : Disk)
    → ((perform (first n (atomic_write text trouble)) d).file ≡ d.file)
      ⊎ ((perform (first n (atomic_write text trouble)) d).file ≡ some text)
unfolding atomic_write apply
perform-first n text finishes d =
    let staged = mkstemp ∷ map write text ++ chmod ∷ [] in
    elim (first-snoc n staged replace) [
      | inl p ↦ rw p (
          inl
            (perform-Keeps n staged d (λ x. refl, Keeps-writes text (chmod ∷ []) (λ x. refl, tt))))
      | inr p ↦ rw p (inr (ap (λ x. x.file) (perform-atomic_write text finishes d)))
    ]
perform-first n text mkstemp_fails d = inl (perform-Keeps n [] d tt)
perform-first n text (write_fails m unlinked) d = inl (
    perform-Keeps n _ d
      (λ x. refl, Keeps-writes (first m text) (clean_up unlinked) (Keeps-clean_up unlinked)))
perform-first n text (chmod_fails unlinked) d = inl (
    perform-Keeps n _ d
      (λ x. refl, Keeps-writes text (clean_up unlinked) (Keeps-clean_up unlinked)))
perform-first n text (replace_fails unlinked) d = inl (
    perform-Keeps n _ d (
      λ x. refl,
      Keeps-writes text (chmod ∷ clean_up unlinked) (λ x. refl, Keeps-clean_up unlinked),
    ))
