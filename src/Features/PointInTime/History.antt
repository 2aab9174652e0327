-- ===== src/Features/PointInTime/History.antt =====
-- What the loop of the feature builders reads: for each row, the rows of strictly earlier times.
use mathlib.Core.List.{Memᴰ}
use mathlib.Core.List.Memᴰ.{head, tail}
use mathlib.Core.Option.{some-injective}
use mathlib.Core.Path.{subst}
use tiktok_techjam_recsys_ag.Prelude.{
  ℕ, ◌≡◌, ◌≢◌, ◌<◌, refl, sym, ap, ◌∙◌, ◌⊎◌, inl, inr, Option, some, List, [], ◌∷◌, ◌++◌, ◌==◌,
  nat_eq, eq_of_==, Option-cases, Bool-cases, arith,
}
use tiktok_techjam_recsys_ag.Data.Arrays.{All, Columns, write, ◌>>=◌}
use tiktok_techjam_recsys_ag.Data.Temporal.Batches.{concat, IsBatches, Cuts}
use tiktok_techjam_recsys_ag.Features.PointInTime.{emit_rows, learn_rows, visit}
use tiktok_techjam_recsys_ag.Features.PointInTime.Returns.{bind_some}
use tiktok_techjam_recsys_ag.Features.PointInTime.Before.{
  earlier, All-mem, split_mem, earlier-All, earlier-before, earlier-none, All-append, All-left,
  All-right, All-map,
}

module _ {S : Type 0} (time : ℕ → ℕ) (learn : ℕ → S → ℕ → Option S) where
  -- Learning from rows one by one, each at its own time.
  unfoldable pub learned : List ℕ → S → Option S
  learned [] state = some state
  learned (j ∷ js) state = learn (time j) state j >>= learned js

  learned-append : (xs ys : List ℕ) (s : S) → learned (xs ++ ys) s ≡ (learned xs s >>= learned ys)
  unfolding learned
  learned-append [] ys s = refl
  learned-append (x ∷ xs) ys s = elim (Option-cases (learn (time x) s x)) [
    | inl fails ↦ rw fails
    | inr (s', e) ↦ rw e (learned-append xs ys s')
  ]

  learned-batch :
      (t : ℕ) (b : List ℕ) (s : S)
      → All (λ j. time j ≡ t) b
      → learn_rows time learn t s b ≡ learned b s
  unfolding learned learn_rows
  learned-batch t [] s h = refl
  learned-batch t (x ∷ b) s h = elim (Option-cases (learn t s x)) [
    | inl fails ↦ rw (h.0, fails)
    | inr (s', e) ↦ rw (h.0, e) (learned-batch t b s' h.1)
  ]

module _ {S Row : Type 0} (emit : ℕ → S → ℕ → Option Row) (t : ℕ) (s : S) (i : ℕ) where
  -- The row has been written with its features.
  abbrev pub Written : Columns Row → Type 0
  Written columns = (row : Row) × (emit t s i ≡ some row) × (columns i ≡ some row)

  -- Rows that are not in the batch keep what they have.
  emit_rows_keeps :
      (b : List ℕ) (columns : Columns Row) {out : Columns Row}
      → emit_rows emit t s b columns ≡ some out
      → All (λ j. j ≢ i) b
      → out i ≡ columns i
  unfolding emit_rows
  emit_rows_keeps [] columns {out} h ne = sym (ap (λ o. o i) (some-injective columns out h))
  emit_rows_keeps (x ∷ b) columns {out} h ne =
      let (row, _, rest) = bind_some (emit t s x) _ h in
      emit_rows_keeps b (write x row columns) rest ne.1 ∙ ground (arith, ne.0)

  -- Each row of the batch is written.
  pub emit_rows_writes :
      (b : List ℕ) (columns : Columns Row) {out : Columns Row}
      → emit_rows emit t s b columns ≡ some out
      → Memᴰ i b ⊎ Written columns
      → Written out
  unfolding emit_rows
  emit_rows_writes [] columns {out} h (inl m) = elim m [ ]
  emit_rows_writes [] columns {out} h (inr w) =
      (w.0, w.1, sym (ap (λ o. o i) (some-injective columns out h)) ∙ w.2)
  emit_rows_writes (x ∷ b) columns {out} h m =
      let (row, emitted, rest) = bind_some (emit t s x) _ h in
      emit_rows_writes b (write x row columns) rest (next row emitted m)
    where
      next :
          (row : Row)
          → emit t s x ≡ some row
          → Memᴰ i (x ∷ b) ⊎ Written columns
          → Memᴰ i b ⊎ Written (write x row columns)
      next row emitted (inl (head e)) = inr (row, rw e emitted, rw e (ground arith))
      next row emitted (inl (tail m')) = inl m'
      next row emitted (inr w) = inr (
        w.0,
        w.1,
        elim (Bool-cases (x == i)) [
          | inl same ↦ rw same (sym emitted ∙ ap (emit t s) (eq_of_== same) ∙ w.1)
          | inr other ↦ rw other w.2
        ],
      )

module _ {S Row : Type 0} (time : ℕ → ℕ) (learn : ℕ → S → ℕ → Option S)
    (emit : ℕ → S → ℕ → Option Row) where
  -- The features of a row, from the state that the strictly earlier rows leave.
  abbrev pub row_at : List ℕ → S → ℕ → Option Row
  row_at order state i =
      learned time learn (earlier time (time i) order) state >>= λ before. emit (time i) before i

  visit_keeps :
      (bs : List (List ℕ)) (s : S) (columns : Columns Row) {out : Columns Row} (i : ℕ)
      → visit time learn emit bs s columns ≡ some out
      → All (λ j. j ≢ i) (concat bs)
      → out i ≡ columns i
  unfolding visit
  visit_keeps [] s columns {out} i h ne = sym (ap (λ o. o i) (some-injective columns out h))
  visit_keeps ([] ∷ bs) s columns i h ne = visit_keeps bs s columns i h ne
  visit_keeps ((x ∷ b) ∷ bs) s columns i h ne =
      let (columns', emitted, h') = bind_some (emit_rows emit (time x) s (x ∷ b) columns) _ h in
      let (s', _, h'') = bind_some (learn_rows time learn (time x) s (x ∷ b)) _ h' in
      visit_keeps bs s' columns' i h'' (All-right _ (x ∷ b) (concat bs) ne)
      ∙ emit_rows_keeps emit (time x) s i (x ∷ b) columns emitted
          (All-left _ (x ∷ b) (concat bs) ne)

  visit-row_at :
      (bs : List (List ℕ)) (s : S) (columns : Columns Row) {out : Columns Row} (i : ℕ)
      → IsBatches time bs
      → visit time learn emit bs s columns ≡ some out
      → Memᴰ i (concat bs)
      → (row : Row) × (out i ≡ some row) × (row_at (concat bs) s i ≡ some row)
  unfolding visit learned
  visit-row_at [] s columns i c h m = elim m [ ]
  visit-row_at ([] ∷ bs) s columns i c h m = visit-row_at bs s columns i c.1 h m
  visit-row_at ((x ∷ b) ∷ bs) s columns i (((t, day, later), c)) h m =
      let (columns', emitted, h') = bind_some (emit_rows emit (time x) s (x ∷ b) columns) _ h in
      let (s', learns, h'') = bind_some (learn_rows time learn (time x) s (x ∷ b)) _ h' in
      elim (split_mem i (x ∷ b) (concat bs) m) [
        | inl now ↦
            let (row, e, w) =
              emit_rows_writes emit (time x) s i (x ∷ b) columns emitted (inl now) in
            let at_t : time i ≡ t = time_of_mem (x ∷ b) day now in
            (
              row,
              visit_keeps bs s' columns' i h'' (All-map (concat bs) (λ j l. differs at_t l) later)
                  ∙ w,
              rw
                  (earlier-none time (time i) (x ∷ b ++ concat bs) (
                    All-append _ (x ∷ b) (concat bs)
                      (All-map (x ∷ b) (λ j e'. omega (arith, at_t, e')) day)
                      (All-map (concat bs) (λ j l. omega (arith, at_t, l)) later)))
                  (ap (λ u. emit u s i) (at_t ∙ sym day.0) ∙ e),
            )
        | inr after ↦
            let (row, w, r) = visit-row_at bs s' columns' i c h'' after in
            let past : t < time i = time_after (concat bs) later after in
            (
              row,
              w,
              rw
                  (
                    earlier-All time (time i) (x ∷ b) (concat bs)
                        (All-map (x ∷ b) (λ j e'. omega (arith, past, e')) day),
                    learned-append time learn (x ∷ b) (earlier time (time i) (concat bs)) s,
                    sym (learned-batch time learn t (x ∷ b) s day),
                    sym day.0,
                    learns,
                  )
                  r,
            )
      ]
    where
      differs : {i j t : ℕ} → time i ≡ t → t < time j → j ≢ i
      differs e l same = absurd (omega (arith, e, l, ap time same))

      time_of_mem : (xs : List ℕ) → {i t : ℕ} → All (λ j. time j ≡ t) xs → Memᴰ i xs → time i ≡ t
      time_of_mem xs d k = let (j, e, f) = All-mem xs d k in ap time e ∙ f

      time_after : (xs : List ℕ) → {i t : ℕ} → All (λ j. t < time j) xs → Memᴰ i xs → t < time i
      time_after xs d k = let (j, e, f) = All-mem xs d k in omega (arith, ap time e, f)

  -- Each row has the features that the strictly earlier rows give.
  pub visit-Cuts :
      (order : List ℕ) (bs : List (List ℕ)) (s : S) (columns : Columns Row) {out : Columns Row}
      (i : ℕ)
      → Cuts time order bs
      → visit time learn emit bs s columns ≡ some out
      → Memᴰ i order
      → (row : Row) × (out i ≡ some row) × (row_at order s i ≡ some row)
  visit-Cuts order bs s columns {out} i c h =
      subst (λ o. Memᴰ i o → (row : Row) × (out i ≡ some row) × (row_at o s i ≡ some row)) c.0
        (visit-row_at bs s columns i c.1 h)

-- Two learners that agree on the strictly earlier rows of a row give it the same features.
module _ {S Row : Type 0} (time : ℕ → ℕ) (learn learn' : ℕ → S → ℕ → Option S)
    (emit : ℕ → S → ℕ → Option Row) where
  abbrev pub AgreeBefore : ℕ → Type 0
  AgreeBefore t = (c : ℕ) (s : S) (j : ℕ) → time j < t → learn c s j ≡ learn' c s j

  learned-agree :
      (t : ℕ) (js : List ℕ) (s : S)
      → AgreeBefore t
      → All (λ j. time j < t) js
      → learned time learn js s ≡ learned time learn' js s
  unfolding learned
  learned-agree t [] s agree before = refl
  learned-agree t (j ∷ js) s agree before =
      ap (λ m. m >>= learned time learn js) (agree (time j) s j before.0)
      ∙ elim (Option-cases (learn' (time j) s j)) [
        | inl fails ↦ rw fails refl
        | inr (s', e) ↦ rw e (learned-agree t js s' agree before.1)
      ]

  pub visit-agree :
      (order : List ℕ) (bs : List (List ℕ)) (s : S) (columns : Columns Row) {out out' : Columns Row}
      (i : ℕ)
      → Cuts time order bs
      → visit time learn emit bs s columns ≡ some out
      → visit time learn' emit bs s columns ≡ some out'
      → Memᴰ i order
      → AgreeBefore (time i)
      → out i ≡ out' i
  visit-agree order bs s columns i cuts run run' m agree =
      let (row, w, r) = visit-Cuts time learn emit order bs s columns i cuts run m in
      let (row', w', r') = visit-Cuts time learn' emit order bs s columns i cuts run' m in
      w
      ∙ sym r
      ∙ ap (λ o. o >>= λ before. emit (time i) before i)
          (learned-agree (time i) (earlier time (time i) order) s agree
            (earlier-before time (time i) order))
      ∙ r'
      ∙ sym w'
