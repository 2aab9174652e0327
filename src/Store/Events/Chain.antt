-- ===== src/Store/Events/Chain.antt =====
-- The outbox as a hash chain: what `_event` appends, and what `verify_event_chain` reads.
use mathlib.Core.List.{reverse-cons}
use tiktok_techjam_recsys_ag.Prelude.{
  ◌≡◌, refl, sym, ap, ◌∙◌, inl, inr, Bool, true, false, Option, none, some, List, [], ◌∷◌, ◌++◌,
  String, ◌==◌, string_eq, option_eq, reverse, filter_by, is_some, if◌then◌else◌, arith, Bool-cases,
}
use tiktok_techjam_recsys_ag.Store.Documents.{Fields}
use tiktok_techjam_recsys_ag.Store.Schema.{Event}
use tiktok_techjam_recsys_ag.Store.Events.{
  EventBody, Env, body_of, last_hash, append_event, export_events, verify_from, verify_event_chain,
}

abbrev final_hash : Option String → List Event → Option String
final_hash previous [] = previous
final_hash previous (e ∷ rest) = final_hash (some e.event_hash) rest

final_hash-append :
    (previous : Option String) (xs : List Event) (e : Event)
    → final_hash previous (xs ++ e ∷ []) ≡ some e.event_hash
final_hash-append previous [] e = refl
final_hash-append previous (x ∷ xs) e = final_hash-append (some x.event_hash) xs e

module _ (digest : EventBody → String) where
  -- Each event carries the hash of its body, and the hash of the run's event before it.
  abbrev pub IsChained : List Event → Type 0
  IsChained [] = Unit
  IsChained (e ∷ rest) =
      (e.previous_hash ≡ last_hash e.run_id rest)
      × (digest (body_of e) ≡ e.event_hash)
      × IsChained rest

  -- The same of the lines of one run, oldest first.
  abbrev IsLinked : Option String → List Event → Type 0
  IsLinked previous [] = Unit
  IsLinked previous (e ∷ rest) =
      (e.previous_hash ≡ previous)
      × (digest (body_of e) ≡ e.event_hash)
      × IsLinked (some e.event_hash) rest

  IsLinked-append :
      (previous : Option String) (xs : List Event) (e : Event)
      → IsLinked previous xs
      → e.previous_hash ≡ final_hash previous xs
      → digest (body_of e) ≡ e.event_hash
      → IsLinked previous (xs ++ e ∷ [])
  IsLinked-append previous [] e h p d = (p, d, tt)
  IsLinked-append previous (x ∷ xs) e h p d =
      (h.0, h.1, IsLinked-append (some x.event_hash) xs e h.2 p d)

  verify_from-IsLinked :
      (previous : Option String) (xs : List Event)
      → IsLinked previous xs
      → (verify_from digest previous true xs ≡ true)
  unfolding verify_from
  verify_from-IsLinked previous [] h = refl
  verify_from-IsLinked previous (e ∷ rest) h =
      ground (arith, verify_from-IsLinked (some e.event_hash) rest h.2)

reverse_if :
    (b : Bool) (e : Event) (xs : List Event)
    → reverse (if b then e ∷ xs else xs) ≡ (if b then reverse xs ++ e ∷ [] else reverse xs)
reverse_if true e xs = reverse-cons e xs
reverse_if false e xs = refl

export-cons :
    (run : String) (e : Event) (rest : List Event)
    → export_events run (e ∷ rest)
      ≡ (if e.run_id == run then export_events run rest ++ e ∷ [] else export_events run rest)
unfolding export_events
export-cons run e rest = reverse_if (e.run_id == run) e (filter_by (λ x. x.run_id == run) rest)

same_run : (a b : String) → (a == b) ≡ true → a ≡ b
same_run a b h = ground arith

final_some : (hash : String) (xs : List Event) → is_some (final_hash (some hash) xs) ≡ true
final_some hash [] = refl
final_some hash (e ∷ rest) = final_some e.event_hash rest

module _ (digest : EventBody → String) where
  -- One more line of the run.
  abbrev ExportsWell : String → List Event → Type 0
  ExportsWell run outbox =
      IsLinked digest none (export_events run outbox)
      × (final_hash none (export_events run outbox) ≡ last_hash run outbox)

  export-IsLinked :
      (run : String) (outbox : List Event) → IsChained digest outbox → ExportsWell run outbox
  unfolding last_hash
  export-IsLinked run [] h = unfold export_events in (tt, refl)
  export-IsLinked run (e ∷ rest) h = elim (Bool-cases (e.run_id == run)) [
    | inl same ↦
        let ih = export-IsLinked run rest h.2 in
        let linked = h.0 ∙ ap (λ r. last_hash r rest) (same_run e.run_id run same) ∙ sym ih.1 in
        rw (export-cons, same)
          (
            IsLinked-append digest none (export_events run rest) e ih.0 linked h.1,
            final_hash-append none (export_events run rest) e,
          )
    | inr other ↦ rw (export-cons, other) (export-IsLinked run rest h.2)
  ]

  verify-IsLinked :
      (xs : List Event)
      → IsLinked digest none xs
      → verify_event_chain digest xs ≡ is_some (final_hash none xs)
  unfolding verify_event_chain
  verify-IsLinked [] h = refl
  verify-IsLinked (e ∷ rest) h = ground (
    arith,
    verify_from-IsLinked digest (some e.event_hash) rest h.2,
    final_some e.event_hash rest,
  )

  -- The export of every run of a chained outbox verifies, if the run has an event at all.
  pub verify-IsChained :
      (run : String) (outbox : List Event)
      → IsChained digest outbox
      → verify_event_chain digest (export_events run outbox) ≡ is_some (last_hash run outbox)
  verify-IsChained run outbox h =
      let (linked, last) = export-IsLinked run outbox h in
      verify-IsLinked (export_events run outbox) linked ∙ ap is_some last

-- `_event` keeps the chain.
pub append_event-IsChained :
    (env : Env) (run event id : String) (payload : Fields) (outbox : List Event)
    → IsChained env.event_digest outbox
    → IsChained env.event_digest (append_event env run event id payload outbox)
unfolding append_event
append_event-IsChained env run event id payload outbox h = (refl, refl, h)
