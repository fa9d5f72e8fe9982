-- ===== src/Operations/Replay.antt =====
-- A request that is sent again.
use solo_lmnp.Prelude.{◌≡◌, refl, inl, inr, Option, none, some, List, [], ◌∷◌, ◌++◌, Bool-cases}
use solo_lmnp.Prelude.Text.{Text, same_text, same_text_refl}
use solo_lmnp.Prelude.Outcome.{ok, ok_inj, if_ok-eq-ok}
use solo_lmnp.Operations.State.{Operation, World, idempotency_conflict, find_request}
use solo_lmnp.Operations.Service.{same_payload, replay}

not_none : (x : Operation) → ◌≡◌ {A = Option Operation} (some x) none → ⊥
not_none x h = cc

pub find_request-append :
    (k : Text) (ops : List Operation) (row : Operation)
    → find_request k ops ≡ none
    → row.request_id ≡ k
    → find_request k (ops ++ (row ∷ [])) ≡ some row
unfolding find_request
find_request-append k [] row h e = rw (e, same_text_refl k) refl
find_request-append k (x ∷ ops) row h e = elim (Bool-cases (same_text x.request_id k)) [
  | inl b ↦ absurd (not_none x (rw b at h))
  | inr b ↦ rw b (find_request-append k ops row (rw b at h) e)
]

pub same_payload-eq-ok :
    (hash : Text) (found o : Option Operation) → same_payload hash found ≡ ok o → found ≡ o
same_payload-eq-ok hash none o h = ok_inj h
same_payload-eq-ok hash (some old) o h =
    (if_ok-eq-ok (same_text old.request_hash hash) idempotency_conflict (some old) h).1

pub replay_shown :
    (w : World) (k hash : Text) (o : Option Operation)
    → replay w k hash ≡ ok o
    → same_payload hash (find_request k w.operations) ≡ ok o
unfolding replay
replay_shown w k hash o h = h
