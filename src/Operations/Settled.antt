-- ===== src/Operations/Settled.antt =====
-- The books: a sound ledger, and operations none of which is settled beyond its amount.
use solo_lmnp.Prelude.{
  ℕ, ◌+◌, ◌≤◌, ◌<◌, ◌≡◌, refl, ap, subst, sym, ◌∙◌, ◌⊎◌, inl, inr, Bool, true, false, Option, none,
  some, List, [], ◌∷◌, ◌++◌, ◌==◌, ◌&&◌, not, if◌then◌else◌, arith, All, All-append, All-map,
  Bool-cases, if_some, ==_iff,
}
use solo_lmnp.Ledger.State.{Entry, Db}
use solo_lmnp.Ledger.Reversal.{names}
use solo_lmnp.Ledger.Invariant.{IsLedger}
use solo_lmnp.Operations.State.{Operation, World, find_operation}
use solo_lmnp.Operations.Bank.{reversed_in}
use solo_lmnp.Operations.Service.{is_live_child, used}
use solo_lmnp.Operations.Writes.{Writes, Writes-IsLedger, Writes-reversed, Touches}

abbrev pub Below : ℕ → Option ℕ → Type 0
Below n none = Unit
Below n (some k) = k < n

-- Ids are given in order, and a settlement comes after what it settles.
abbrev pub InOrder : ℕ → Operation → Type 0
InOrder n o = (o.id < n) × Below n o.parent_id

pub record IsBooks (w : World) : Type 0 where
  pub ledger : IsLedger w.db
  pub in_order : All (InOrder w.next_operation) w.operations
  pub settled :
      (k : ℕ) (o : Operation)
      → find_operation k w.operations ≡ some o
      → used w.db.entries k w.operations ≤ o.amount

still_live : (n a b : Bool) → (a ≡ true → b ≡ true) → (n && not b) ≡ true → (n && not a) ≡ true
still_live n true b f h = rw (f refl) at h
still_live n false b f h = ground (arith, h)

names_new : (n : ℕ) (parent : Option ℕ) → Below n parent → names n parent ≡ false
names_new n none h = refl
names_new n (some k) h = ground arith

live-Writes :
    {d d' : Db} (k : ℕ) (o : Operation)
    → Writes d d'
    → is_live_child d'.entries k o ≡ true
    → is_live_child d.entries k o ≡ true
live-Writes {d} {d'} k o p h =
    still_live (names k o.parent_id) (reversed_in o.accounting_entry_id d.entries)
      (reversed_in o.accounting_entry_id d'.entries) (Writes-reversed o.accounting_entry_id p) h

used-Writes :
    {d d' : Db} (k : ℕ) (ops : List Operation)
    → Writes d d'
    → used d'.entries k ops ≤ used d.entries k ops
unfolding used
used-Writes k [] p = omega arith
used-Writes {d} {d'} k (o ∷ ops) p =
    let ih = used-Writes k ops p in
    let live = live-Writes k o p in
    elim (Bool-cases (is_live_child d'.entries k o)) [
      | inl e ↦ rw (e, live e) (omega (arith, ih))
      | inr e ↦ rw e (omega (arith, ih))
    ]

used-append :
    (es : List Entry) (k : ℕ) (ops : List Operation) (o : Operation)
    → used es k (ops ++ (o ∷ [])) ≡ used es k ops + (if is_live_child es k o then o.amount else 0)
unfolding used
used-append es k [] o = omega arith
used-append es k (x ∷ ops) o = omega (arith, used-append es k ops o)

-- Nothing settles an operation that is still to come.
used-new :
    (es : List Entry) (n : ℕ) (ops : List Operation) → All (InOrder n) ops → used es n ops ≡ 0
unfolding used
used-new es n [] h = refl
used-new es n (o ∷ ops) (h, rest) =
    let ih = used-new es n ops rest in
    let other : names n o.parent_id ≡ false = names_new n o.parent_id h.1 in
    rw other (omega (arith, ih))

find_operation-append :
    (k : ℕ) (ops : List Operation) (row o : Operation)
    → find_operation k (ops ++ (row ∷ [])) ≡ some o
    → (find_operation k ops ≡ some o) ⊎ ((row.id ≡ k) × (row ≡ o))
unfolding find_operation
find_operation-append k [] row o h =
    let (e, same) = if_some (row.id == k) row o h in inr ((==_iff row.id k).0 e, same)
find_operation-append k (x ∷ ops) row o h = elim (Bool-cases (x.id == k)) [
  | inl e ↦ inl (rw e (rw e at h))
  | inr e ↦ rw e (find_operation-append k ops row o (rw e at h))
]

pub find_operation-Below :
    (n k : ℕ) (ops : List Operation) (o : Operation)
    → All (InOrder n) ops
    → find_operation k ops ≡ some o
    → (o.id ≡ k) × (k < n)
unfolding find_operation
find_operation-Below n k [] o a h = cc
find_operation-Below n k (x ∷ ops) o (first, rest) h = elim (Bool-cases (x.id == k)) [
  | inl e ↦
      let same : x ≡ o = (if_some true x o (rw e at h)).1 in
      let id = (==_iff x.id k).0 e in
      (ap (λ (y : Operation). y.id) (sym same) ∙ id, omega (arith, first.0, id))
  | inr e ↦ find_operation-Below n k ops o rest (rw e at h)
]

Below-later : (n : ℕ) (k : Option ℕ) → Below n k → Below (n + 1) k
Below-later n none h = tt
Below-later n (some k) h = omega (arith, h)

InOrder-later : (n : ℕ) (o : Operation) → InOrder n o → InOrder (n + 1) o
InOrder-later n o h = (omega (arith, h.0), Below-later n o.parent_id h.1)

-- The new operation has the next id, and what it settles has room for it.
pub record IsAdded (w w' : World) (row : Operation) : Type 0 where
  pub writes : Writes w.db w'.db
  pub stored : w'.operations ≡ w.operations ++ (row ∷ [])
  pub next : w'.next_operation ≡ w.next_operation + 1
  pub new_id : row.id ≡ w.next_operation
  pub after : Below w.next_operation row.parent_id
  pub room :
      (k : ℕ) (o : Operation)
      → names k row.parent_id ≡ true
      → find_operation k w.operations ≡ some o
      → used w.db.entries k w.operations + row.amount ≤ o.amount

live_names : (n r : Bool) → (n && not r) ≡ true → n ≡ true
live_names true r h = refl
live_names false r h = cc

-- The settlements of one operation after the new one.
settled_old :
    (w w' : World) (row : Operation) (k : ℕ) (o : Operation)
    → IsBooks w
    → IsAdded w w' row
    → find_operation k w.operations ≡ some o
    → used w'.db.entries k (w.operations ++ (row ∷ [])) ≤ o.amount
settled_old w w' row k o inv a f =
    let all = used-append w'.db.entries k w.operations row in
    let less = used-Writes k w.operations a.writes in
    let before = inv.settled k o f in
    elim (Bool-cases (is_live_child w'.db.entries k row)) [
      | inl e ↦
          let names_it =
            live_names (names k row.parent_id) (reversed_in row.accounting_entry_id w'.db.entries)
              e in
          let fits = a.room k o names_it f in
          let sum = rw e at all in omega (arith, sum, less, fits)
      | inr e ↦ let sum = rw e at all in omega (arith, sum, less, before)
    ]

settled_new :
    (w w' : World) (row : Operation)
    → IsBooks w
    → IsAdded w w' row
    → used w'.db.entries w.next_operation (w.operations ++ (row ∷ [])) ≡ 0
settled_new w w' row inv a =
    let n = w.next_operation in
    let all = used-append w'.db.entries n w.operations row in
    let less = used-Writes n w.operations a.writes in
    let none_yet = used-new w.db.entries n w.operations inv.in_order in
    let other = names_new n row.parent_id a.after in
    let sum = rw other at all in omega (arith, sum, less, none_yet)

pub IsAdded-IsBooks : (w w' : World) (row : Operation) → IsBooks w → IsAdded w w' row → IsBooks w'
IsAdded-IsBooks w w' row inv a = record {
  ledger = Writes-IsLedger a.writes inv.ledger;
  in_order =
      rw (a.stored, a.next)
        (All-append (InOrder (w.next_operation + 1)) w.operations (row ∷ [])
          (All-map (InOrder w.next_operation) (InOrder (w.next_operation + 1))
            (InOrder-later w.next_operation) w.operations inv.in_order)
          ((omega (arith, a.new_id), Below-later w.next_operation row.parent_id a.after), tt));
  settled = λ k o f.
      rw a.stored (elim (find_operation-append k w.operations row o (rw a.stored at f)) [
        | inl old ↦ settled_old w w' row k o inv a old
        | inr (id, same) ↦
            let at_end : w.next_operation ≡ k = sym a.new_id ∙ id in
            let zero_used = settled_new w w' row inv a in
            let zero_here =
              subst (λ j. used w'.db.entries j (w.operations ++ (row ∷ [])) ≡ 0) at_end zero_used in
            omega (arith, zero_here)
      ]);
}

pub Touches-IsBooks : (w w' : World) → IsBooks w → Touches w w' → IsBooks w'
Touches-IsBooks w w' inv t = record {
  ledger = Writes-IsLedger t.writes inv.ledger;
  in_order = rw (t.same_operations, t.same_next) inv.in_order;
  settled = λ k o f.
      let less = used-Writes k w.operations t.writes in
      let before = inv.settled k o (rw t.same_operations at f) in
      rw t.same_operations (omega (arith, less, before));
}
