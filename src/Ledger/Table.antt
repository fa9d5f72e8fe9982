-- ===== src/Ledger/Table.antt =====
-- The table of entries under the writes of the ledger: what is found, what adds up, and the highest
-- number of a year.
use Prim.Native.Nat.{max}
use solo_lmnp.Prelude.{
  ℕ, ◌+◌, ◌<◌, ◌≡◌, ◌≢◌, refl, ap, subst, inl, inr, Option, none, some, List, [], ◌∷◌, ◌++◌, ◌==◌,
  if◌then◌else◌, arith, Bool-cases, All,
}
use solo_lmnp.Ledger.State.{Entry, find_entry, save, remove}
use solo_lmnp.Ledger.Post.{larger, or_zero, max_sequence}

some_inj : {a b : Entry} → some a ≡ some b → a ≡ b
some_inj h = cc

-- The sum of a number over all entries.
abbrev pub total : (Entry → ℕ) → List Entry → ℕ
total f [] = 0
total f (e ∷ es) = f e + total f es

pub total-append :
    (f : Entry → ℕ) (xs ys : List Entry) → total f (xs ++ ys) ≡ total f xs + total f ys
total-append f [] ys = omega arith
total-append f (x ∷ xs) ys = omega (arith, total-append f xs ys)

pub total-save :
    (f : Entry → ℕ) (e old : Entry) (es : List Entry)
    → find_entry e.id es ≡ some old
    → total f (save e es) + f old ≡ total f es + f e
unfolding find_entry save
total-save f e old [] h = cc
total-save f e old (x ∷ es) h = ground (arith, total-save f e old es)

pub total-remove :
    (f : Entry → ℕ) (k : ℕ) (old : Entry) (es : List Entry)
    → find_entry k es ≡ some old
    → total f (remove k es) + f old ≡ total f es
unfolding find_entry remove
total-remove f k old [] h = cc
total-remove f k old (x ∷ es) h = ground (arith, total-remove f k old es)

pub find_entry-id : (k : ℕ) (e : Entry) (es : List Entry) → find_entry k es ≡ some e → e.id ≡ k
unfolding find_entry
find_entry-id k e [] h = cc
find_entry-id k e (x ∷ es) h = ground (arith, find_entry-id k e es)

pub find_entry-append :
    (k : ℕ) (e : Entry) (xs ys : List Entry)
    → find_entry k xs ≡ some e
    → find_entry k (xs ++ ys) ≡ some e
unfolding find_entry
find_entry-append k e [] ys h = cc
find_entry-append k e (x ∷ xs) ys h = ground (arith, find_entry-append k e xs ys)

pub find_entry-append_fresh :
    (e : Entry) (xs : List Entry)
    → All (λ x. x.id < e.id) xs
    → find_entry e.id (xs ++ (e ∷ [])) ≡ some e
unfolding find_entry
find_entry-append_fresh e [] h = ground arith
find_entry-append_fresh e (x ∷ xs) h = ground (arith, find_entry-append_fresh e xs h.1)

pub find_entry-save_self :
    (e old : Entry) (es : List Entry)
    → find_entry e.id es ≡ some old
    → find_entry e.id (save e es) ≡ some e
unfolding find_entry save
find_entry-save_self e old [] h = cc
find_entry-save_self e old (x ∷ es) h = ground (arith, find_entry-save_self e old es)

pub find_entry-save_ne :
    (k : ℕ) (e : Entry) (es : List Entry) → k ≢ e.id → find_entry k (save e es) ≡ find_entry k es
unfolding find_entry save
find_entry-save_ne k e [] h = refl
find_entry-save_ne k e (x ∷ es) h = ground (arith, find_entry-save_ne k e es h)

pub find_entry-remove_ne :
    (k j : ℕ) (es : List Entry) → k ≢ j → find_entry k (remove j es) ≡ find_entry k es
unfolding find_entry remove
find_entry-remove_ne k j [] h = refl
find_entry-remove_ne k j (x ∷ es) h = ground (arith, find_entry-remove_ne k j es h)

module _ {ℓ} (P : Entry → Type ℓ) where
  pub All-save : (e : Entry) (es : List Entry) → P e → All P es → All P (save e es)
  unfolding save
  All-save e [] p h = tt
  All-save e (x ∷ es) p h = elim (Bool-cases (x.id == e.id)) [
    | inl same ↦ rw same (p, h.1)
    | inr other ↦ rw other (h.0, All-save e es p h.1)
  ]

  pub All-remove : (k : ℕ) (es : List Entry) → All P es → All P (remove k es)
  unfolding remove
  All-remove k [] h = tt
  All-remove k (x ∷ es) h = elim (Bool-cases (x.id == k)) [
    | inl same ↦ rw same h.1
    | inr other ↦ rw other (h.0, All-remove k es h.1)
  ]

  pub All-find : (k : ℕ) (e : Entry) (es : List Entry) → find_entry k es ≡ some e → All P es → P e
  unfolding find_entry
  All-find k e [] h all = cc
  All-find k e (x ∷ es) h all = elim (Bool-cases (x.id == k)) [
    | inl same ↦ let p : some x ≡ some e = (rw same at h) in subst P (some_inj p) all.0
    | inr other ↦ All-find k e es (rw other at h) all.1
  ]

-- The number of an entry in a year; 0 for a draft and for an entry of another year.
abbrev pub number_in : ℕ → Entry → ℕ
number_in y e = if e.fiscal_year_id == y then or_zero e.sequence else 0

-- The highest number of a year, as a plain recursion.
abbrev pub highest : ℕ → List Entry → ℕ
highest y [] = 0
highest y (e ∷ es) = max (number_in y e) (highest y es)

or_zero-larger : (a b : Option ℕ) → or_zero (larger a b) ≡ max (or_zero a) (or_zero b)
or_zero-larger none b = omega arith
or_zero-larger (some a) none = omega arith
or_zero-larger (some a) (some b) = ground arith

pub max_sequence-highest : (y : ℕ) (es : List Entry) → or_zero (max_sequence y es) ≡ highest y es
unfolding max_sequence
max_sequence-highest y [] = refl
max_sequence-highest y (e ∷ es) =
    ground (arith, max_sequence-highest y es, or_zero-larger e.sequence (max_sequence y es))

pub highest-append :
    (y : ℕ) (e : Entry) (es : List Entry)
    → number_in y e ≡ 0
    → highest y (es ++ (e ∷ [])) ≡ highest y es
highest-append y e [] h = omega arith
highest-append y e (x ∷ es) h = omega (arith, highest-append y e es h)

pub highest-save :
    (y : ℕ) (e old : Entry) (es : List Entry)
    → find_entry e.id es ≡ some old
    → number_in y old ≡ 0
    → highest y (save e es) ≡ max (number_in y e) (highest y es)
unfolding find_entry save
highest-save y e old [] h z = cc
highest-save y e old (x ∷ es) h z = elim (Bool-cases (x.id == e.id)) [
  | inl same ↦
      let p : some x ≡ some old = (rw same at h) in
      let q : number_in y x ≡ number_in y old = ap (number_in y) (some_inj p) in
      rw same (omega arith)
  | inr other ↦ rw (other, highest-save y e old es (rw other at h) z) (omega arith)
]

pub highest-remove :
    (y k : ℕ) (old : Entry) (es : List Entry)
    → find_entry k es ≡ some old
    → number_in y old ≡ 0
    → highest y (remove k es) ≡ highest y es
unfolding find_entry remove
highest-remove y k old [] h z = cc
highest-remove y k old (x ∷ es) h z = elim (Bool-cases (x.id == k)) [
  | inl same ↦
      let p : some x ≡ some old = (rw same at h) in
      let q : number_in y x ≡ number_in y old = ap (number_in y) (some_inj p) in
      rw same (omega arith)
  | inr other ↦ rw (other, highest-remove y k old es (rw other at h) z) refl
]
